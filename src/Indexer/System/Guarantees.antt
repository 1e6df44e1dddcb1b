-- ===== src/Indexer/System/Guarantees.antt =====
-- indexer/indexer.go: what holds of an indexer in every state that it can reach.
use brewery_bitcoin.Btcclient.Base.{ClientError}
use brewery_bitcoin.Btcclient.Config as ClientConfig
use brewery_bitcoin.Btcclient.Client.{BtcClient, new_btc_client}
use brewery_bitcoin.Btcclient.Client
use brewery_bitcoin.Btcclient.Client.Steps as ClientSteps
use brewery_bitcoin.Btcclient.Client.Safety.{reachable_peers_bounded}
use brewery_bitcoin.Btcclient.Client.Waiting.{IsDrained, stop_waits_for_all}
use brewery_bitcoin.Indexer.Base.{Chaincfg}
use brewery_bitcoin.Indexer.Config.{Config, default_config, validate}
use brewery_bitcoin.Indexer.Lifecycle.{
  Indexer, apply_all, wrap, client_options, indexer_of, new_indexer, stop_end,
}
use brewery_bitcoin.Indexer.Lifecycle.Created.{new_indexer-IsFresh}
use brewery_bitcoin.Indexer.System.{Reach}
use brewery_bitcoin.Indexer.System.Reached.{IsReached, Reach-IsReached}
use brewery_bitcoin.Prelude.{
  ◌≡◌, refl, sym, ap, ◌∙◌, subst, true, false, ◌||◌, not, none, some, List, arith, IsDistinct, pos,
  lebℤ, keys, Result, ok, err, ok-inv,
}

wrap-inv : {A : Type 0} (r : Result ClientError A) (a : A) → wrap r ≡ ok a → r ≡ ok a
wrap-inv (ok x) a h = ap ok (cc h)
wrap-inv (err e) a h = absurd (cc h)

module _ {chain : Chaincfg} {Header : Type 0} (block_hash : Header → chain.Hash)
    (opts : List (Config chain.Params → Config chain.Params)) (i j : Indexer chain Header)
    (created : new_indexer chain Header opts ≡ ok i) where
  -- the client of a new indexer is one that NewBtcClient returned
  pub new_client : new_btc_client chain.main_net (client_options chain Header i.cfg) ≡ ok i.client
  unfolding new_indexer
  new_client =
      let (cfg, valid, rest) =
        ok-inv (validate (apply_all opts (default_config chain))) _ i created in
      let (c, made, made_i) =
        ok-inv (wrap (new_btc_client chain.main_net (client_options chain Header cfg))) _ i rest in
      let same_i : indexer_of chain Header cfg c ≡ i = cc made_i in
      subst
        (λ (x : Indexer chain Header).
          new_btc_client chain.main_net (client_options chain Header x.cfg) ≡ ok x.client)
        same_i (wrap-inv _ c made)

  module _ (reached : Reach block_hash i j) where
    pub safe : IsReached block_hash i.client i.cfg j
    safe =
        let fresh = new_indexer-IsFresh opts i created in
        Reach-IsReached block_hash reached (record {
          client = ClientSteps.here;
          same_cfg = refl;
          runs = ground (arith, fresh.not_running);
        })

    -- In every state that an indexer made by New can reach, by any interleaving of its calls, the
    -- received headers, the goroutines of its client and the network, the configuration is as made, the
    -- client is started if the indexer runs, no address is managed twice, and the number of peers is at
    -- most the MaxPeers of the configuration.
    pub reachable_lem :
        (j.cfg ≡ i.cfg)
        × ((not j.running || j.client.manager.started) ≡ true)
        × IsDistinct (keys j.client.manager.peers)
        × (lebℤ (pos (Client.peer_count j.client)) i.cfg.max_peers ≡ true)
    unfolding ClientConfig.apply_options ClientConfig.default_config ClientConfig.with_chain_params
        ClientConfig.with_max_peers ClientConfig.with_listeners
    reachable_lem =
        let fresh = new_indexer-IsFresh opts i created in
        let (distinct, bounded) =
          reachable_peers_bounded chain.main_net (client_options chain Header i.cfg) i.client
            new_client refl j.client safe.client in
        (
          safe.same_cfg,
          safe.runs,
          distinct,
          ap (lebℤ (pos (Client.peer_count j.client))) (sym fresh.capacity) ∙ bounded,
        )

    -- If Stop of an indexer returns without an error, in any state that an indexer made by New can
    -- reach, then the indexer does not run, its client is not started, the goroutine of every peer
    -- that was ever added has returned, and so has every health check.
    pub stopped_lem :
        (k : Indexer chain Header)
        → stop_end false j ≡ some (k, none)
        → (k.running ≡ false) × (k.client.manager.started ≡ false) × IsDrained k.client
    unfolding stop_end Client.stop_end
    stopped_lem k ended =
        let client_ended : Client.stop_end false j.client ≡ some (k.client, none) =
          ground (arith, ended) in
        let drained =
          stop_waits_for_all chain.main_net (client_options chain Header i.cfg) i.client j.client
            k.client new_client safe.client client_ended in
        (ground (arith, ended), ground (arith, ended), drained)
