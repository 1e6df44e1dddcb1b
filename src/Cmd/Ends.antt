-- ===== src/Cmd/Ends.antt =====
-- cmd/main.go: how the command ends.
use brewery_bitcoin.Logger.Zap.{Zap}
use brewery_bitcoin.Logger.Constructors.{Logger, returned, must_production}
use brewery_bitcoin.Btcclient.Config as ClientConfig
use brewery_bitcoin.Btcclient.Config.{no_listeners, second}
use brewery_bitcoin.Btcclient.Client.{new_btc_client, client_of}
use brewery_bitcoin.Db.Engine.{Engine}
use brewery_bitcoin.Db.Pebble.{PebbleDb, open_pebble, register_prefixes}
use brewery_bitcoin.Indexer.Base.{Chaincfg, max_peers_not_positive}
use brewery_bitcoin.Indexer.Config.{
  Config, default_config, with_network, with_max_peers, with_peers, validate, resolve_chain_params,
}
use brewery_bitcoin.Indexer.Lifecycle.{Indexer, new_indexer, indexer_of}
use brewery_bitcoin.Db.Keys.{cf_prefix}
use brewery_bitcoin.Db.Options as DbOptions
use brewery_bitcoin.Indexer.Lifecycle.Created.{IsFresh, new_indexer-IsFresh}
use brewery_bitcoin.Db.Base.{default_column_family}
use brewery_bitcoin.Stdlib.FilePath.{join}
use brewery_bitcoin.Cmd.{
  with_indexer, Settings, load_config, no_indexer, printed, open_store, make_indexer, main,
}
use brewery_bitcoin.Prelude.{
  ◌*◌, ◌<◌, ◌≡◌, refl, sym, ap, ◌⊎◌, inl, inr, some, [], ◌∷◌, arith, ◌==◌, Bool-cases, ℤ, pos,
  Bytes, codes, same, lookup, insert, Result, ok, err,
}

Result-cases : {E A : Type 0} (r : Result E A) → ((a : A) × (r ≡ ok a)) ⊎ ((e : E) × (r ≡ err e))
Result-cases (ok a) = inl (a, refl)
Result-cases (err e) = inr (e, refl)

module _ (chain : Chaincfg) (Header : Type 0) (s : Settings) where
  -- the network that main uses: an unknown name stands for the main network
  abbrev pub network : chain.Params
  network = elim (resolve_chain_params chain s.chain_param) [ ok p ↦ p | err _ ↦ chain.main_net ]

  -- the configuration that New ends with, and that of its client
  abbrev pub indexer_config : Config chain.Params
  indexer_config = record {
    chain_params = some network;
    max_peers = pos s.max_peers;
    peers = s.enode;
    listeners = some no_listeners;
    shutdown_timeout = pos (10 * second);
  }

  abbrev pub client_config : ClientConfig.Config chain.Params
  client_config = record (ClientConfig.default_config chain.main_net) {
    chain_params = some network;
    max_peers = pos s.max_peers;
  }

  make_indexer-eq :
      0 < s.max_peers
      → make_indexer chain Header s
        ≡ ok (indexer_of chain Header indexer_config (client_of client_config))
  unfolding make_indexer new_indexer default_config with_network with_max_peers with_peers validate
      new_btc_client ClientConfig.validate ClientConfig.default_config ClientConfig.apply_options
      ClientConfig.with_chain_params ClientConfig.with_max_peers ClientConfig.with_listeners
  make_indexer-eq h = elim (Result-cases (resolve_chain_params chain s.chain_param)) [
    | inl (p, known) ↦ ground (arith, known, h)
    | inr (x, unknown) ↦ ground (arith, unknown, h)
  ]

  make_indexer-none :
      s.max_peers ≡ 0 → make_indexer chain Header s ≡ err (max_peers_not_positive (pos 0))
  unfolding make_indexer new_indexer default_config with_network with_max_peers with_peers validate
  make_indexer-none h = elim (Result-cases (resolve_chain_params chain s.chain_param)) [
    | inl (p, known) ↦ ground (arith, known, h)
    | inr (x, unknown) ↦ ground (arith, unknown, h)
  ]

  make_indexer-IsFresh :
      (idx : Indexer chain Header) → make_indexer chain Header s ≡ ok idx → IsFresh idx
  unfolding make_indexer
  make_indexer-IsFresh idx h = new_indexer-IsFresh _ idx h

-- the column family that main names
abbrev pub headers_family : Bytes
headers_family = codes "headers"

store_family :
    {e : Engine} (cpus : ℤ) (s : Settings) (store : PebbleDb e)
    → open_store e cpus s ≡ ok store
    → lookup headers_family store.prefixes ≡ some (cf_prefix headers_family)
unfolding open_store open_pebble register_prefixes DbOptions.default_config DbOptions.apply_options
    DbOptions.with_column_families DbOptions.with_wal_dir lookup insert same
store_family {e = e} cpus s store h =
    elim (Result-cases (e.open_db (join s.data_dir (codes "db")) cfg)) [
      | inl (db, opened) ↦
          let filled : (default_column_family, cf_prefix default_column_family)
                ∷ (headers_family, cf_prefix headers_family)
                ∷ []
              ≡ store.prefixes =
            ground (arith, h, opened) in
          rw (sym filled) refl
      | inr (x, failed) ↦ absurd (ground (arith, h, failed))
    ]
  where
    cfg : DbOptions.Config
    cfg = record (DbOptions.default_config cpus) {
      column_families = headers_family ∷ [];
      wal_dir = join s.data_dir (codes "wal");
    }

module _ (zap : Zap) (e : Engine) (chain : Chaincfg) (Header : Type 0) (cpus : ℤ) (data_dir : Bytes)
    (s : Settings) where
  -- If zap builds its production logger and the database opens, then with a MaxPeers that is not 0 the
  -- command reaches its last line with that database, in which the family headers has its prefix, and
  -- an unused indexer of the named network, or of the main network if the name is unknown, with the
  -- MaxPeers and the peers of the settings. With a MaxPeers of 0 it ends by Fatal, with the error of
  -- New.
  pub main_lem :
      (l : Logger zap.Sugar) (store : PebbleDb e)
      → must_production zap [] ≡ returned l
      → open_store e cpus (load_config data_dir s) ≡ ok store
      → ((s.max_peers ≡ 0)
          × (main zap e chain Header cpus data_dir s ≡ no_indexer (max_peers_not_positive (pos 0))))
        ⊎ ((idx : Indexer chain Header) × (main zap e chain Header cpus data_dir s
              ≡ printed store idx)
            × IsFresh idx
            × (idx.cfg ≡ indexer_config chain Header s)
            × (lookup headers_family store.prefixes ≡ some (cf_prefix headers_family)))
  unfolding main load_config
  main_lem l store logs opens = elim (Bool-cases (s.max_peers == 0)) [
    | inl none_allowed ↦ inl (
      ground (arith, none_allowed),
      rw logs (
          rw opens (
            ap (with_indexer e chain Header store) (
              make_indexer-none chain Header (load_config data_dir s)
                (ground (arith, none_allowed))))),
    )
    | inr some_allowed ↦
        let made =
          make_indexer-eq chain Header (load_config data_dir s) (ground (arith, some_allowed)) in
        inr (
          indexer_of chain Header (indexer_config chain Header s)
              (client_of (client_config chain Header s)),
          rw logs (rw opens (ap (with_indexer e chain Header store) made)),
          make_indexer-IsFresh chain Header (load_config data_dir s) _ made,
          refl,
          store_family cpus (load_config data_dir s) store opens,
        )
  ]
