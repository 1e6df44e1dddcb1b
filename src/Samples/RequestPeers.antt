-- ===== src/Samples/RequestPeers.antt =====
-- examples/requestpeers/main.go: the program up to its wait for an interrupt. Its callbacks only print.
use brewery_bitcoin.Btcclient.Base.{ClientError}
use brewery_bitcoin.Btcclient.Config.{
  MessageListeners, with_chain_params, with_max_peers, with_listeners, no_listeners,
}
use brewery_bitcoin.Btcclient.Client.{BtcClient, new_btc_client}
use brewery_bitcoin.Btcclient.Client
use brewery_bitcoin.Indexer.Base.{Chaincfg}
use brewery_bitcoin.Prelude.{
  true, false, Option, none, some, [], ◌∷◌, pos, Bytes, codes, Result, ok, err, ◌>>=◌,
}

abbrev pub listeners : MessageListeners
listeners = record no_listeners {
  on_addr = true;
  on_peer_connected = true;
  on_peer_disconnected = true;
}

abbrev pub seed_peer : Bytes
seed_peer = codes "seed.bitcoin.sipa.be:8333"

-- A call whose error is fatal.
abbrev pub or_fatal : BtcClient × Option ClientError → Result ClientError BtcClient
or_fatal (c, none) = ok c
or_fatal (c, some e) = err e

module _ (chain : Chaincfg) where
  -- The client when the program waits, or the error that it ends with.
  unfoldable pub main_begin : Result ClientError BtcClient
  main_begin = do
    client ← new_btc_client chain.main_net (
        with_chain_params (some chain.main_net)
        ∷ with_max_peers (pos 1)
        ∷ with_listeners (some listeners)
        ∷ [])
    started ← or_fatal (Client.start client)
    or_fatal (Client.add_peer started false seed_peer)
