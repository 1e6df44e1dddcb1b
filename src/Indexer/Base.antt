-- ===== src/Indexer/Base.antt =====
-- indexer/indexer.go: the sentinel errors and those that wrap them, and what the package uses of
-- github.com/btcsuite/btcd/chaincfg, which the repository does not contain: the parameters of five
-- networks, and four fields of them.
use brewery_bitcoin.Btcclient.Base.{ClientError}
use brewery_bitcoin.Prelude.{List, ℤ, Bytes}

pub record Chaincfg : Type 1 where
  pub Params : Type 0
  pub Hash : Type 0
  pub default_port : Params → Bytes
  pub dns_seeds : Params → List Bytes
  pub genesis_hash : Params → Hash
  pub main_net : Params
  pub sig_net : Params
  pub test_net3 : Params
  pub regression_net : Params
  pub sim_net : Params

pub data IndexerError : Type 0 where
  already_running not_running no_peers : IndexerError
  nil_chain_params : IndexerError  -- wraps ErrUnknownNetwork
  unknown_network : Bytes → IndexerError
  max_peers_not_positive : ℤ → IndexerError
  client_failed : ClientError → IndexerError
  start_failed : ClientError → IndexerError
  shutdown_failed : ClientError → IndexerError
  all_peers_failed : List (Bytes × ClientError) → IndexerError
