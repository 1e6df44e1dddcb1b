-- ===== src/Samples/HeaderIndexer/Program.antt =====
-- examples/headerindexer/main.go: the function main, up to its wait for an interrupt.
use brewery_bitcoin.Btcclient.Base.{ClientError}
use brewery_bitcoin.Btcclient.Config.{
  MessageListeners, with_chain_params, with_max_peers, with_listeners, no_listeners,
}
use brewery_bitcoin.Btcclient.Client.{BtcClient, new_btc_client}
use brewery_bitcoin.Btcclient.Client
use brewery_bitcoin.Indexer.Base.{Chaincfg}
use brewery_bitcoin.Prelude.{
  true, false, Option, none, some, List, [], ◌∷◌, pos, Bytes, codes, Result, ok, err, ◌>>=◌,
}

abbrev pub listeners : MessageListeners
listeners = record no_listeners {
  on_headers = true;
  on_peer_connected = true;
  on_inv = true;
  on_addr = true;
}

abbrev pub seed_peers : List Bytes
seed_peers =
    codes "seed.signet.bitcoin.sprovoost.nl:38333"
    ∷ codes "seed.signet.achow101.com:38333"
    ∷ codes "seed.signet.bublina.eu.org:38333"
    ∷ []

-- A call whose error is fatal.
abbrev pub or_fatal : BtcClient × Option ClientError → Result ClientError BtcClient
or_fatal (c, none) = ok c
or_fatal (c, some e) = err e

-- the loop over the seed peers
unfoldable pub add_seeds : BtcClient → List Bytes → Result ClientError BtcClient
add_seeds client [] = ok client
add_seeds client (addr ∷ addrs) =
    or_fatal (Client.add_peer client false addr) >>= λ client'. add_seeds client' addrs

module _ (chain : Chaincfg) where
  -- The client when the program waits, or the error that it ends with.
  unfoldable pub main_begin : Result ClientError BtcClient
  unfolding add_seeds
  main_begin = do
    client ← new_btc_client chain.main_net (
        with_chain_params (some chain.sig_net)
        ∷ with_max_peers (pos 8)
        ∷ with_listeners (some listeners)
        ∷ [])
    started ← or_fatal (Client.start client)
    add_seeds started seed_peers
