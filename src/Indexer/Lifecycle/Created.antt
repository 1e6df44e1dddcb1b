-- ===== src/Indexer/Lifecycle/Created.antt =====
-- indexer/indexer.go: the indexers that New returns, and the errors that it returns.
use brewery_bitcoin.Btcclient.Config as ClientConfig
use brewery_bitcoin.Btcclient.Client.{new_btc_client}
use brewery_bitcoin.Btcclient.Manager.{new_peer_manager}
use brewery_bitcoin.Indexer.Base.{Chaincfg, IndexerError, nil_chain_params, max_peers_not_positive}
use brewery_bitcoin.Indexer.Config.{Config, default_config, validate}
use brewery_bitcoin.Indexer.Lifecycle.{
  Indexer, apply_all, wrap, client_options, indexer_of, new_indexer,
}
use brewery_bitcoin.Prelude.{
  ◌≡◌, ◌⊎◌, inl, inr, true, false, some, List, [], arith, Bool-cases, Option-cases, ℤ, not_positive,
  ok, err, ◌>>=◌,
}

-- An indexer just made: nothing received, and an unused client of the same capacity.
pub record IsFresh {chain : Chaincfg} {Header : Type 0} (idx : Indexer chain Header) : Type 0 where
  pub network :
      (p : chain.Params) × (idx.cfg.chain_params ≡ some p)
      × (idx.tip_hash ≡ some (chain.genesis_hash p))
  pub no_headers : idx.headers ≡ []
  pub not_running : idx.running ≡ false
  pub not_synced : idx.synced ≡ false
  pub no_client_peers : idx.client.manager.peers ≡ []
  pub client_idle : (idx.client.manager.started ≡ false) × (idx.client.manager.is_done ≡ false)
  pub capacity : idx.client.manager.max_peers ≡ idx.cfg.max_peers
  pub positive : not_positive idx.cfg.max_peers ≡ false

module _ {chain : Chaincfg} {Header : Type 0} where
  from_config :
      (cfg : Config chain.Params) (idx : Indexer chain Header)
      → (validate cfg >>= λ v.
          wrap (new_btc_client chain.main_net (client_options chain Header v)) >>= λ c.
          ok (indexer_of chain Header v c))
        ≡ ok idx
      → IsFresh idx
  unfolding validate new_btc_client ClientConfig.validate ClientConfig.default_config
      ClientConfig.apply_options ClientConfig.with_chain_params ClientConfig.with_max_peers
      ClientConfig.with_listeners new_peer_manager
  from_config cfg idx h = elim (Option-cases cfg.chain_params) [
    | inl none_given ↦ absurd (ground (arith, h, none_given))
    | inr (p, given) ↦ record {
      network = (p, ground (arith, h, given), ground (arith, h, given));
      no_headers = ground (arith, h, given);
      not_running = ground (arith, h, given);
      not_synced = ground (arith, h, given);
      no_client_peers = ground (arith, h, given);
      client_idle = (ground (arith, h, given), ground (arith, h, given));
      capacity = ground (arith, h, given);
      positive = ground (arith, h, given);
    }
  ]

  -- Whatever the options, an indexer that New returns has network parameters and their genesis hash
  -- as its tip, no headers, is not running and not synced, and its client is unused, not stopped, and
  -- has the positive capacity of the configuration.
  pub new_indexer-IsFresh :
      (opts : List (Config chain.Params → Config chain.Params)) (idx : Indexer chain Header)
      → new_indexer chain Header opts ≡ ok idx
      → IsFresh idx
  unfolding new_indexer
  new_indexer-IsFresh opts idx = from_config (apply_all opts (default_config chain)) idx

  error_from_config :
      (cfg : Config chain.Params) (e : IndexerError)
      → (validate cfg >>= λ v.
          wrap (new_btc_client chain.main_net (client_options chain Header v)) >>= λ c.
          ok (indexer_of chain Header v c))
        ≡ err e
      → (e ≡ nil_chain_params)
        ⊎ ((n : ℤ) × (not_positive n ≡ true) × (e ≡ max_peers_not_positive n))
  unfolding validate new_btc_client ClientConfig.validate ClientConfig.default_config
      ClientConfig.apply_options ClientConfig.with_chain_params ClientConfig.with_max_peers
      ClientConfig.with_listeners
  error_from_config cfg e h = elim (Option-cases cfg.chain_params) [
    | inl missing ↦ inl (ground (arith, h, missing))
    | inr (p, given) ↦ elim (Bool-cases (not_positive cfg.max_peers)) [
      | inl bad ↦ inr (cfg.max_peers, bad, ground (arith, h, given, bad))
      | inr good ↦ absurd (ground (arith, h, given, good))
    ]
  ]

  -- New fails only for nil network parameters or a MaxPeers that is not positive; the client that it
  -- makes never refuses its configuration.
  new_indexer_errors :
      (opts : List (Config chain.Params → Config chain.Params)) (e : IndexerError)
      → new_indexer chain Header opts ≡ err e
      → (e ≡ nil_chain_params)
        ⊎ ((n : ℤ) × (not_positive n ≡ true) × (e ≡ max_peers_not_positive n))
  unfolding new_indexer
  new_indexer_errors opts e = error_from_config (apply_all opts (default_config chain)) e
