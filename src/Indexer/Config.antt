-- ===== src/Indexer/Config.antt =====
-- indexer/indexer.go: Config, its options, its validation, and the names of the networks. The
-- logger and the store are left out: no result of the package depends on them.
use brewery_bitcoin.Btcclient.Config.{MessageListeners, no_listeners, second}
use brewery_bitcoin.Indexer.Base.{
  Chaincfg, IndexerError, nil_chain_params, unknown_network, max_peers_not_positive,
}
use brewery_bitcoin.Prelude.{
  ◌*◌, not, Option, none, some, List, [], if◌then◌else◌, is_some, ℤ, pos, not_positive, Bytes,
  codes, same, Result, ok, err,
}

pub record Config (Params : Type 0) : Type 0 where
  pub chain_params : Option Params
  pub max_peers : ℤ
  pub peers : List Bytes
  pub listeners : Option MessageListeners
  pub shutdown_timeout : ℤ

module _ (chain : Chaincfg) where
  open chain use {Params, main_net, sig_net, test_net3, regression_net, sim_net}

  unfoldable pub default_config : Config Params
  default_config = record {
    chain_params = some main_net;
    max_peers = pos 10;
    peers = [];
    listeners = some no_listeners;
    shutdown_timeout = pos (10 * second);
  }

  unfoldable pub resolve_chain_params : Bytes → Result IndexerError Params
  resolve_chain_params name =
      if same name (codes "mainnet")
      then ok main_net
      else if same name (codes "signet")
      then ok sig_net
      else if same name (codes "testnet3")
      then ok test_net3
      else if same name (codes "regtest")
      then ok regression_net
      else if same name (codes "simnet")
      then ok sim_net
      else err (unknown_network name)

  -- WithNetwork: an unknown name changes nothing
  unfoldable pub with_network : Bytes → Config Params → Config Params
  unfolding resolve_chain_params
  with_network name c = elim (resolve_chain_params name) [
    | ok p ↦ record c { chain_params = some p }
    | err _ ↦ c
  ]

module _ {Params : Type 0} where
  unfoldable pub with_chain_params : Option Params → Config Params → Config Params
  with_chain_params p c = record c { chain_params = p }

  unfoldable pub with_max_peers : ℤ → Config Params → Config Params
  with_max_peers n c = record c { max_peers = n }

  unfoldable pub with_peers : List Bytes → Config Params → Config Params
  with_peers addrs c = record c { peers = addrs }

  unfoldable pub with_listeners : Option MessageListeners → Config Params → Config Params
  with_listeners l c = record c { listeners = l }

  unfoldable pub with_shutdown_timeout : ℤ → Config Params → Config Params
  with_shutdown_timeout d c = record c { shutdown_timeout = d }

  -- validate: the first check that fails, or the configuration with defaults filled in
  unfoldable pub validate : Config Params → Result IndexerError (Config Params)
  validate c =
      if not (is_some c.chain_params)
      then err nil_chain_params
      else if not_positive c.max_peers
      then err (max_peers_not_positive c.max_peers)
      else ok (record c {
        listeners = elim c.listeners [ none ↦ some no_listeners | some l ↦ some l ];
        shutdown_timeout =
            if not_positive c.shutdown_timeout then pos (10 * second) else c.shutdown_timeout;
      })
