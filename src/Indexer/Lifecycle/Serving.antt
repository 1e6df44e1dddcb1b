-- ===== src/Indexer/Lifecycle/Serving.antt =====
-- indexer/indexer.go: Run of an indexer that New has just returned.
use brewery_bitcoin.Btcclient.Client.{peer_count}
use brewery_bitcoin.Btcclient.Client
use brewery_bitcoin.Indexer.Base.{Chaincfg}
use brewery_bitcoin.Indexer.Peers.{resolve_peers, connect_peers}
use brewery_bitcoin.Indexer.Connected.{connect_peers-first, connect_peers-started}
use brewery_bitcoin.Indexer.Lifecycle.{Indexer, RunBegin, serving, start, connect, run_begin}
use brewery_bitcoin.Indexer.Lifecycle.Created.{IsFresh}
use brewery_bitcoin.Prelude.{◌<◌, ◌≡◌, refl, Bool, true, some, List, ◌∷◌, arith, Bytes, lookup}

module _ {chain : Chaincfg} {Header : Type 0} where
  -- Run has reached its wait: the indexer runs, its client is started, and it manages a peer.
  pub record IsServing (r : RunBegin (Indexer chain Header)) : Type 0 where
    pub idx : Indexer chain Header
    pub returned : r ≡ serving idx
    pub running : idx.running ≡ true
    pub started : idx.client.manager.started ≡ true
    pub connected : 0 < peer_count idx.client

  -- Run of an indexer that New has just returned, whose resolved peers are not empty, reaches its wait
  -- with the indexer running, the client started, and at least one peer managed.
  pub run_begin_lem :
      (cancelled : Bool) (idx : Indexer chain Header) (p : chain.Params) (x : Bytes)
      (xs : List Bytes)
      → IsFresh idx
      → idx.cfg.chain_params ≡ some p
      → resolve_peers chain idx.cfg.peers p ≡ x ∷ xs
      → IsServing (run_begin cancelled idx)
  unfolding run_begin start connect Client.start peer_count lookup
  run_begin_lem cancelled idx p x xs fresh given some_peers =
      let c = (Client.start idx.client).0 in
      let (ok_connect, more) =
        connect_peers-first cancelled c x xs (ground (arith, fresh)) (ground (arith, fresh)) in
      record {
        idx = record idx { client = (connect_peers cancelled c (x ∷ xs)).0; running = true };
        returned = ground (arith, fresh, given, some_peers, ok_connect);
        running = refl;
        started = ground (arith, fresh, connect_peers-started cancelled (x ∷ xs) c);
        connected = omega (arith, more);
      }
