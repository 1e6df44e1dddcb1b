-- ===== src/Cmd.antt =====
-- cmd/main.go, with the constants of config/config.go: the command. The directory that LoadConfig reads
-- is an argument, and so is the number of processors.
pub mod Ends
mod Examples
use brewery_bitcoin.Stdlib.FilePath.{join}
use brewery_bitcoin.Logger.Zap.{Zap}
use brewery_bitcoin.Logger.Constructors.{Logger, Must, returned, panicked, must_production}
use brewery_bitcoin.Db.Options as DbOptions
use brewery_bitcoin.Db.Engine.{Engine}
use brewery_bitcoin.Db.Pebble.{PebbleDb, open_pebble}
use brewery_bitcoin.Indexer.Base.{Chaincfg, IndexerError}
use brewery_bitcoin.Indexer.Config as IndexerConfig
use brewery_bitcoin.Indexer.Lifecycle.{Indexer, new_indexer}
use brewery_bitcoin.Prelude.{ℕ, List, [], ◌∷◌, ℤ, pos, Bytes, codes, Result, ok, err}

-- The variables of config that the command reads, with their first values.
pub record Settings : Type 0 where
  pub chain_param : Bytes
  pub max_peers : ℕ  -- a uint8
  pub enode : List Bytes
  pub data_dir : Bytes

abbrev pub first_settings : Settings
first_settings = record { chain_param = codes "mainnet"; max_peers = 10; enode = []; data_dir = [] }

-- LoadConfig, with the value of DATA_DIR
unfoldable pub load_config : Bytes → Settings → Settings
load_config data_dir s = record s { data_dir = data_dir }

-- How main ends: a panic of MustProduction, one of the two calls of Fatal, or its last line.
pub data Ending (Database Idx : Type 0) : Type 0 where
  no_logger : Bytes → Ending Database Idx
  no_database : Bytes → Ending Database Idx
  no_indexer : IndexerError → Ending Database Idx
  printed : Database → Idx → Ending Database Idx

module _ (e : Engine) where
  -- db.Open as main calls it
  unfoldable pub open_store : ℤ → Settings → Result Bytes (PebbleDb e)
  unfolding join
  open_store cpus s = open_pebble cpus (join s.data_dir (codes "db")) (
      DbOptions.with_column_families (codes "headers" ∷ [])
      ∷ DbOptions.with_wal_dir (join s.data_dir (codes "wal"))
      ∷ [])

module _ (chain : Chaincfg) (Header : Type 0) where
  -- indexer.New as main calls it
  unfoldable pub make_indexer : Settings → Result IndexerError (Indexer chain Header)
  make_indexer s = new_indexer chain Header (
      IndexerConfig.with_network chain s.chain_param
      ∷ IndexerConfig.with_max_peers (pos s.max_peers)
      ∷ IndexerConfig.with_peers s.enode
      ∷ [])

module _ (e : Engine) (chain : Chaincfg) (Header : Type 0) where
  abbrev pub with_indexer :
      PebbleDb e
      → Result IndexerError (Indexer chain Header)
      → Ending (PebbleDb e) (Indexer chain Header)
  with_indexer store (ok idx) = printed store idx
  with_indexer store (err x) = no_indexer x

  abbrev pub with_store :
      Settings → Result Bytes (PebbleDb e) → Ending (PebbleDb e) (Indexer chain Header)
  with_store s (ok store) = with_indexer store (make_indexer chain Header s)
  with_store s (err x) = no_database x

  abbrev pub with_logger :
      {Sugar : Type 0}
      → ℤ
      → Settings
      → Must (Logger Sugar)
      → Ending (PebbleDb e) (Indexer chain Header)
  with_logger cpus s (returned l) = with_store s (open_store e cpus s)
  with_logger cpus s (panicked text) = no_logger text

module _ (zap : Zap) (e : Engine) (chain : Chaincfg) (Header : Type 0) where
  -- main, with the value of DATA_DIR and the variables of config as they are before it
  unfoldable pub main : ℤ → Bytes → Settings → Ending (PebbleDb e) (Indexer chain Header)
  unfolding load_config must_production open_store make_indexer
  main cpus data_dir s =
      with_logger e chain Header cpus (load_config data_dir s) (must_production zap [])
