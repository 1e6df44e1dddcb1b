-- ===== src/Samples/Examples/Programs.antt =====
-- The sample programs' starts: no call fails, whatever the network parameters.
use brewery_bitcoin.Btcclient.Base.{ClientError}
use brewery_bitcoin.Btcclient.Config.{
  validate, default_config, apply_options, with_chain_params, with_max_peers, with_listeners,
}
use brewery_bitcoin.Btcclient.Manager.{new_peer_manager, add_peer, spawn}
use brewery_bitcoin.Btcclient.Client.{BtcClient, new_btc_client}
use brewery_bitcoin.Btcclient.Client
use brewery_bitcoin.Indexer.Base.{Chaincfg}
use brewery_bitcoin.Samples.HeaderIndexer.Program as HeaderIndexer
use brewery_bitcoin.Samples.RequestPeers
use brewery_bitcoin.Prelude.{
  ◌≡◌, refl, Bool, true, List, [], ◌∷◌, Bytes, same, lookup, insert, keys, Result, ok, err,
}

-- The addresses that a client manages, if there is one, and whether it is started.
abbrev managed : Result ClientError BtcClient → Result ClientError (List Bytes × Bool)
managed (err e) = err e
managed (ok c) = ok (keys c.manager.peers, c.manager.started)

header_indexer_begins :
    (chain : Chaincfg)
    → managed (HeaderIndexer.main_begin chain) ≡ ok (HeaderIndexer.seed_peers, true)
unfolding HeaderIndexer.main_begin new_btc_client validate default_config apply_options
    with_chain_params with_max_peers with_listeners new_peer_manager Client.start Client.add_peer
    add_peer spawn lookup insert same
header_indexer_begins chain = refl

request_peers_begins :
    (chain : Chaincfg)
    → managed (RequestPeers.main_begin chain) ≡ ok (RequestPeers.seed_peer ∷ [], true)
unfolding RequestPeers.main_begin new_btc_client validate default_config apply_options
    with_chain_params with_max_peers with_listeners new_peer_manager Client.start Client.add_peer
    add_peer spawn lookup insert same
request_peers_begins chain = refl
