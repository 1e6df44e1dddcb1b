-- ===== src/Indexer/Examples.antt =====
-- The indexer's theorems at concrete networks, peers and messages. A network is a number, a header
-- is its hash, and both are numbers.
mod System
use brewery_bitcoin.Stdlib.Sort.{occurs}
use brewery_bitcoin.Btcclient.Config as ClientConfig
use brewery_bitcoin.Btcclient.Client
use brewery_bitcoin.Btcclient.Client.{BtcClient, peer_count}
use brewery_bitcoin.Btcclient.Manager.{new_peer_manager}
use brewery_bitcoin.Btcclient.Client.Steps.{here, next, stop_ends, health_exits, starts}
use brewery_bitcoin.Indexer.Base.{Chaincfg}
use brewery_bitcoin.Indexer.Config.{default_config, with_peers, validate}
use brewery_bitcoin.Indexer.Peers.{seed_addresses, resolve_peers, connect_peers, collect}
use brewery_bitcoin.Indexer.Resolved.{first_occurrences, resolve_peers_lem}
use brewery_bitcoin.Indexer.Connected.{connect_peers_lem}
use brewery_bitcoin.Indexer.Lifecycle.{
  Indexer, new_indexer, start, stop_begin, stop_end, returned, panicked, run_begin,
}
use brewery_bitcoin.Indexer.Lifecycle.Created.{new_indexer-IsFresh}
use brewery_bitcoin.Indexer.Lifecycle.Serving.{IsServing, run_begin_lem}
use brewery_bitcoin.Indexer.Lifecycle.Restart.{stop_after_stop_panics}
use brewery_bitcoin.Indexer.Headers.Received.{receive_all, receive_all_lem, with_chain}
use brewery_bitcoin.Prelude.{
  ℕ, ◌<◌, ◌≡◌, refl, ◌↔◌, true, false, none, some, List, [], ◌∷◌, ◌++◌, arith, IsDistinct, pos,
  Bytes, codes, same, lookup, insert,
}

abbrev pub networks : Chaincfg
networks = record {
  Params = ℕ;
  Hash = ℕ;
  default_port = λ p. codes "8333";
  dns_seeds = λ p. codes "seed.a" ∷ codes "seed.b" ∷ [];
  genesis_hash = λ p. p;
  main_net = 0;
  sig_net = 1;
  test_net3 = 2;
  regression_net = 3;
  sim_net = 4;
}

abbrev pub peers : List Bytes
peers = codes "seed.b:8333" ∷ codes "10.0.0.1:8333" ∷ codes "seed.b:8333" ∷ []

resolve_peers_lem_example :
    (resolve_peers networks peers 0 ≡ first_occurrences (peers ++ seed_addresses networks 0))
    × IsDistinct (resolve_peers networks peers 0)
    × ((a : Bytes)
        → occurs a (resolve_peers networks peers 0) ≡ occurs a (peers ++ seed_addresses networks 0))
resolve_peers_lem_example = resolve_peers_lem networks peers 0

-- an indexer that New has returned
abbrev pub indexer : Indexer networks ℕ
indexer = record {
  cfg = with_peers peers (default_config networks);
  client = record {
    manager = new_peer_manager (pos 10) (pos 10) ClientConfig.no_listeners;
    health_loops = 0;
    stopping = false;
  };
  tip_hash = some 0;
  headers = [];
  running = false;
  synced = false;
}

run_begin_lem_example : IsServing (run_begin false indexer)
unfolding resolve_peers collect seed_addresses lookup insert same new_indexer validate
    default_config with_peers Client.new_btc_client ClientConfig.validate
    ClientConfig.default_config ClientConfig.apply_options ClientConfig.with_chain_params
    ClientConfig.with_max_peers ClientConfig.with_listeners
run_begin_lem_example =
    run_begin_lem false indexer 0 (codes "seed.b:8333")
      (codes "10.0.0.1:8333" ∷ codes "seed.a:8333" ∷ [])
      (new_indexer-IsFresh (with_peers peers ∷ []) indexer refl) refl refl

connect_peers_lem_example :
    ((connect_peers false indexer.client peers).1 ≡ none)
    ↔ (peer_count indexer.client < peer_count (connect_peers false indexer.client peers).0)
connect_peers_lem_example = connect_peers_lem false indexer.client peers

receive_all_lem_example :
    receive_all (λ h. h) ((7 ∷ 8 ∷ []) ∷ [] ∷ (9 ∷ []) ∷ []) indexer
    ≡ with_chain (λ h. h) indexer (7 ∷ 8 ∷ 9 ∷ []) (some 9) true
receive_all_lem_example = receive_all_lem (λ h. h) ((7 ∷ 8 ∷ []) ∷ [] ∷ (9 ∷ []) ∷ []) indexer

abbrev started : Indexer networks ℕ
started = (start indexer).0

-- in the wait of Stop
abbrev stopping : Indexer networks ℕ
stopping = record started {
  client = record started.client {
    manager = record started.client.manager { is_done = true };
    stopping = true;
  };
}

-- the client after a Stop that waited for its one goroutine
abbrev drained : BtcClient
drained = record stopping.client {
  manager = record stopping.client.manager { wg = 0; started = false };
  health_loops = 0;
  stopping = false;
}

-- and the indexer started again
abbrev restarted : Indexer networks ℕ
restarted = record stopping { client = (Client.start drained).0; running = true }

stop_after_stop_panics_example : stop_begin restarted ≡ panicked
unfolding start stop_begin Client.start Client.stop_begin Client.disconnect_all Client.health_exit
    Client.stop_end new_peer_manager
stop_after_stop_panics_example =
    stop_after_stop_panics started stopping restarted refl
      (next
        (next (next here (health_exits (omega arith) refl))
          (stop_ends false {r = (drained, none)} refl refl))
        (starts refl))
      refl refl
