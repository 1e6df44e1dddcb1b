-- ===== src/Indexer/Examples/System.antt =====
-- The guarantees of an indexer, at one that is started, adds a peer, receives a header, and stops.
use brewery_bitcoin.Btcclient.Config as ClientConfig
use brewery_bitcoin.Btcclient.Client
use brewery_bitcoin.Btcclient.Client.Steps as ClientSteps
use brewery_bitcoin.Btcclient.Peer.{new_managed_peer, cancel_and_disconnect, exited}
use brewery_bitcoin.Btcclient.Manager.{new_peer_manager, add_peer, spawn}
use brewery_bitcoin.Btcclient.Manager.Loop.{proceed, loop_step, step_from}
use brewery_bitcoin.Indexer.Config.{default_config, with_peers, validate}
use brewery_bitcoin.Indexer.Headers.{on_headers, append_headers}
use brewery_bitcoin.Indexer.Lifecycle.{Indexer, new_indexer, start, stop_begin, stop_end, returned}
use brewery_bitcoin.Indexer.System.{
  Reach, here, next, starts, connects, receives, stop_begins, works,
}
use brewery_bitcoin.Btcclient.Base.{client_already_started, stop_timeout}
use brewery_bitcoin.Indexer.Base.{start_failed, shutdown_failed, not_running}
use brewery_bitcoin.Indexer.System.TimedOut.{timed_out_stop_is_final}
use brewery_bitcoin.Btcclient.Client.Waiting.{IsDrained}
use brewery_bitcoin.Indexer.System.Guarantees.{reachable_lem, stopped_lem}
use brewery_bitcoin.Indexer.Examples.{networks, peers, indexer}
use brewery_bitcoin.Prelude.{
  ℕ, ◌≡◌, refl, true, false, ◌||◌, not, some, [], ◌∷◌, arith, IsDistinct, pos, lebℤ, Bytes, codes,
  lookup, insert, keys, modify,
}

abbrev address : Bytes
address = codes "10.0.0.1:8333"

abbrev hash : ℕ → ℕ
hash h = h

-- started, with one peer
abbrev busy : Indexer networks ℕ
busy = record (start indexer).0 {
  client = (Client.add_peer (start indexer).0.client false address).0;
}

abbrev fed : Indexer networks ℕ
fed = on_headers hash (7 ∷ []) busy

reach_fed : Reach hash indexer fed
unfolding start Client.start new_peer_manager Client.add_peer add_peer spawn lookup
reach_fed =
    next (next (next here (starts refl)) (connects false address refl)) (receives (7 ∷ []) refl)

reachable_lem_example :
    (fed.cfg ≡ indexer.cfg)
    × ((not fed.running || fed.client.manager.started) ≡ true)
    × IsDistinct (keys fed.client.manager.peers)
    × (lebℤ (pos (Client.peer_count fed.client)) (pos 10) ≡ true)
unfolding new_indexer validate default_config with_peers Client.new_btc_client ClientConfig.validate
    ClientConfig.default_config ClientConfig.apply_options ClientConfig.with_chain_params
    ClientConfig.with_max_peers ClientConfig.with_listeners
reachable_lem_example = reachable_lem hash (with_peers peers ∷ []) indexer fed refl reach_fed

-- in the wait of Stop, with the peer cancelled
abbrev stopping : Indexer networks ℕ
stopping = record fed {
  client = record fed.client {
    manager = record fed.client.manager {
      is_done = true;
      heap = cancel_and_disconnect (new_managed_peer address false) ∷ [];
    };
    stopping = true;
  };
}

-- and when the health check and the loop of the peer have returned
abbrev drained : Indexer networks ℕ
drained = record stopping {
  client = record stopping.client {
    manager = record stopping.client.manager {
      heap = record (new_managed_peer address false) { cancelled = true; point = exited } ∷ [];
      wg = 0;
    };
    health_loops = 0;
  };
}

reach_drained : Reach hash indexer drained
unfolding start Client.start new_peer_manager Client.add_peer add_peer spawn lookup insert
    stop_begin Client.stop_begin Client.disconnect_all modify cancel_and_disconnect new_managed_peer
    Client.health_exit loop_step step_from on_headers append_headers
reach_drained =
    next
      (next (next reach_fed (stop_begins {j = stopping} refl refl))
        (works (ClientSteps.health_exits (omega arith) refl) refl))
      (works (ClientSteps.loops 0 proceed {pm = drained.client.manager} refl) refl)

abbrev stopped : Indexer networks ℕ
stopped = record drained {
  client = record drained.client {
    manager = record drained.client.manager { started = false };
    stopping = false;
  };
  running = false;
}

stopped_lem_example :
    (stopped.running ≡ false) × (stopped.client.manager.started ≡ false) × IsDrained stopped.client
unfolding new_indexer validate default_config with_peers Client.new_btc_client ClientConfig.validate
    ClientConfig.default_config ClientConfig.apply_options ClientConfig.with_chain_params
    ClientConfig.with_max_peers ClientConfig.with_listeners stop_end Client.stop_end
stopped_lem_example =
    stopped_lem hash (with_peers peers ∷ []) indexer drained refl reach_drained stopped refl

-- when the time of Stop is over, and later, when the health check has returned
abbrev timed_out : Indexer networks ℕ
timed_out = record stopping {
  client = record stopping.client { stopping = false };
  running = false;
}

abbrev later : Indexer networks ℕ
later = record timed_out { client = Client.health_exit timed_out.client }

reach_stopping : Reach hash indexer stopping
unfolding start Client.start new_peer_manager Client.add_peer add_peer spawn lookup insert
    stop_begin Client.stop_begin Client.disconnect_all modify cancel_and_disconnect new_managed_peer
    on_headers append_headers
reach_stopping = next reach_fed (stop_begins {j = stopping} refl refl)

reach_later : Reach hash timed_out later
unfolding start Client.start new_peer_manager Client.add_peer on_headers append_headers
reach_later = next here (works (ClientSteps.health_exits (omega arith) refl) refl)

timed_out_stop_is_final_example :
    (some (shutdown_failed stop_timeout) ≡ some (shutdown_failed stop_timeout))
    × (start later ≡ (later, some (start_failed client_already_started)))
    × (stop_begin later ≡ returned later not_running)
unfolding new_indexer validate default_config with_peers Client.new_btc_client ClientConfig.validate
    ClientConfig.default_config ClientConfig.apply_options ClientConfig.with_chain_params
    ClientConfig.with_max_peers ClientConfig.with_listeners stop_end Client.stop_end
timed_out_stop_is_final_example =
    timed_out_stop_is_final hash (with_peers peers ∷ []) indexer stopping timed_out later
      (some (shutdown_failed stop_timeout)) refl reach_stopping refl refl reach_later
