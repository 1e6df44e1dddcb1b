-- ===== src/Cmd/Examples.antt =====
-- The command at a concrete engine, and paths that filepath.Join makes.
use brewery_bitcoin.Stdlib.FilePath.{join}
use brewery_bitcoin.Logger.Constructors.{zap_logger, new_production, must_production}
use brewery_bitcoin.Logger.Examples.{listing, plain}
use brewery_bitcoin.Db.Base.{default_column_family}
use brewery_bitcoin.Db.Keys.{cf_prefix}
use brewery_bitcoin.Db.Options as DbOptions
use brewery_bitcoin.Db.Examples.Memory.{dict_engine}
use brewery_bitcoin.Db.Pebble.{PebbleDb, open_pebble, register_prefixes}
use brewery_bitcoin.Indexer.Base.{Chaincfg, max_peers_not_positive}
use brewery_bitcoin.Indexer.Lifecycle.{Indexer}
use brewery_bitcoin.Indexer.Lifecycle.Created.{IsFresh}
use brewery_bitcoin.Cmd.{
  Settings, first_settings, load_config, no_indexer, printed, open_store, main,
}
use brewery_bitcoin.Cmd.Ends.{indexer_config, headers_family, main_lem}
use brewery_bitcoin.Prelude.{
  ℕ, ◌≡◌, refl, ◌⊎◌, true, false, some, [], ◌∷◌, pos, Bytes, codes, same, lookup, insert,
}

abbrev networks : Chaincfg
networks = record {
  Params = ℕ;
  Hash = ℕ;
  default_port = λ p. codes "8333";
  dns_seeds = λ p. [];
  genesis_hash = λ p. p;
  main_net = 0;
  sig_net = 1;
  test_net3 = 2;
  regression_net = 3;
  sim_net = 4;
}

abbrev data_dir : Bytes
data_dir = codes "/var/lib/brewery"

abbrev settings : Settings
settings = record first_settings { data_dir = codes "/var/lib/brewery" }

loaded : load_config (codes "/var/lib/brewery") first_settings ≡ settings
unfolding load_config
loaded = refl

abbrev store : PebbleDb dict_engine
store = record {
  db = [];
  prefixes =
      (default_column_family, cf_prefix default_column_family)
      ∷ (headers_family, cf_prefix headers_family)
      ∷ [];
  write_opts = false;
  path = codes "/var/lib/brewery/db";
  is_closed = false;
}

main_lem_example :
    ((first_settings.max_peers ≡ 0)
      × (main listing dict_engine networks ℕ (pos 8) data_dir first_settings
          ≡ no_indexer (max_peers_not_positive (pos 0))))
    ⊎ ((idx : Indexer networks ℕ) × (main listing dict_engine networks ℕ
            (pos 8)
            data_dir
            first_settings
          ≡ printed store idx)
        × IsFresh idx
        × (idx.cfg ≡ indexer_config networks ℕ first_settings)
        × (lookup headers_family store.prefixes ≡ some (cf_prefix headers_family)))
unfolding load_config must_production new_production open_store open_pebble register_prefixes join
    insert same DbOptions.default_config DbOptions.apply_options DbOptions.with_column_families
    DbOptions.with_wal_dir
main_lem_example =
    main_lem listing dict_engine networks ℕ (pos 8) data_dir first_settings
      (zap_logger
        (record plain { time_key = codes "ts"; encode_time = true; encode_duration = true }, 0))
      store refl refl

joined : join (codes "/var//lib/./x/../brewery/") (codes "db") ≡ codes "/var/lib/brewery/db"
unfolding join
joined = refl

joined_relative : join (codes "../a/..") (codes "wal") ≡ codes "../wal"
unfolding join
joined_relative = refl

joined_root : join (codes "/..") (codes "db") ≡ codes "/db"
unfolding join
joined_root = refl

joined_empty : join [] (codes "db") ≡ codes "db"
unfolding join
joined_empty = refl
