-- ===== src/Btcclient/Examples.antt =====
-- The client's theorems at concrete clients, configurations, and runs.
mod Draining
mod Dialing
mod Unreachable
use brewery_bitcoin.Btcclient.Base.{stop_timeout}
use brewery_bitcoin.Btcclient.Config.{
  Config, no_listeners, default_config, with_max_peers, apply_options, validate,
}
use brewery_bitcoin.Btcclient.Peer.{
  ManagedPeer, new_managed_peer, cancel_and_disconnect, evicting, exited, dialing, connecting, up,
}
use brewery_bitcoin.Btcclient.Manager.{
  PeerManager, new_peer_manager, add_peer, remove_peer, run_health_checks, evict_peer, spawn,
}
use brewery_bitcoin.Btcclient.Handlers.{NetAddress, Message, addr, address_text, handle}
use brewery_bitcoin.Btcclient.Handlers.Addresses.{handle-Reach}
use brewery_bitcoin.Btcclient.Manager.Orphans.{removed_while_dialing}
use brewery_bitcoin.Btcclient.Manager.Loop.{
  Choice, proceed, dial_ok, panicked, moved, blocked, loop_step, step_from,
}
use brewery_bitcoin.Btcclient.Manager.Invariant.{is_used}
use brewery_bitcoin.Btcclient.Manager.Effects.{
  IsAdd, add_peer_lem, run_health_checks_lem, evict_peer-removes_successor, CoveredOrFull,
}
use brewery_bitcoin.Btcclient.Client
use brewery_bitcoin.Btcclient.Client.{BtcClient, new_btc_client, start, stop_begin}
use brewery_bitcoin.Btcclient.Client.Waiting.{IsDrained, stop_waits_for_all}
use brewery_bitcoin.Btcclient.Client.Steps.{
  Reach, here, next, starts, adds, stop_begins, stop_ends, health_exits, loops,
}
use brewery_bitcoin.Btcclient.Client.Safety.{
  reachable_peers_bounded, reachable_loops_never_panic, reachable_peers_sound,
}
use brewery_bitcoin.Btcclient.Client.Stopping.{second_stop_panics}
use brewery_bitcoin.Prelude.{
  lebℤ, get_elem?, ℕ, ◌≡◌, refl, ◌≢◌, ◌⊎◌, true, false, none, some, List, [], ◌∷◌, arith,
  if◌then◌else◌, get_elem?, IsDistinct, pos, lebℤ, Bytes, codes, same, lookup, insert, keys, modify,
}

abbrev pub address : Bytes
address = codes "10.0.0.1:8333"

-- A client for one peer; the networks are numbers here.
abbrev options : List (Config ℕ → Config ℕ)
options = with_max_peers (pos 1) ∷ []

abbrev fresh : BtcClient
fresh = record {
  manager = new_peer_manager (pos 1) (pos 10) no_listeners;
  health_loops = 0;
  stopping = false;
}

-- The client has been started and has added a peer.
abbrev busy : BtcClient
busy = (Client.add_peer (start fresh).0 false address).0

reach_busy : Reach fresh busy
unfolding start new_peer_manager
reach_busy = next (next here (starts refl)) (adds false address refl)

reachable_peers_bounded_example :
    IsDistinct (keys busy.manager.peers)
    × (lebℤ (pos (Client.peer_count busy)) fresh.manager.max_peers ≡ true)
unfolding new_btc_client validate default_config with_max_peers apply_options new_peer_manager
reachable_peers_bounded_example = reachable_peers_bounded 0 options fresh refl refl busy reach_busy

reachable_loops_never_panic_example : loop_step busy.manager 0 proceed ≢ panicked
unfolding new_btc_client validate default_config with_max_peers apply_options new_peer_manager
reachable_loops_never_panic_example =
    reachable_loops_never_panic 0 options fresh refl refl busy reach_busy 0 proceed

reachable_peers_sound_example :
    (is_used (new_managed_peer address false).status ≡ true)
    × (lebℤ (pos 0) (new_managed_peer address false).failure_count ≡ true)
    × (lebℤ (new_managed_peer address false).failure_count fresh.manager.max_failure_count ≡ true)
    × ((new_managed_peer address false).failure_count ≡ fresh.manager.max_failure_count
        → ((new_managed_peer address false).point ≡ evicting)
          ⊎ ((new_managed_peer address false).point ≡ exited))
unfolding new_btc_client validate default_config with_max_peers apply_options new_peer_manager start
    Client.add_peer add_peer spawn lookup
reachable_peers_sound_example =
    reachable_peers_sound 0 options fresh refl refl busy reach_busy 0
      (new_managed_peer address false) refl

-- the client, stopping
abbrev stopped : BtcClient
stopped = record busy {
  manager = record busy.manager {
    is_done = true;
    heap = Client.disconnect_all busy.manager.peers busy.manager.heap;
  };
  stopping = true;
}

-- and after its Stop has timed out
abbrev timed_out : BtcClient
timed_out = record stopped { stopping = false }

second_stop_panics_example : stop_begin timed_out ≡ Client.panicked
unfolding start Client.add_peer add_peer spawn lookup new_peer_manager stop_begin Client.stop_end
second_stop_panics_example =
    second_stop_panics busy stopped timed_out refl
      (next here (stop_ends true {r = (timed_out, some stop_timeout)} refl refl)) refl

abbrev manager : PeerManager
manager = busy.manager

add_peer_lem_example :
    IsAdd manager false
      (codes "a")
      (add_peer manager false (codes "a")).0
      (add_peer manager false (codes "a")).1
add_peer_lem_example = add_peer_lem manager false (codes "a")

-- a manager whose one peer has failed often enough
abbrev pub failing : PeerManager
failing = record {
  peers = (address, 0) ∷ [];
  heap = record (new_managed_peer address false) { failure_count = pos 3 } ∷ [];
  is_done = false;
  wg = 1;
  started = true;
  max_peers = pos 1;
  max_failure_count = pos 3;
  listeners = no_listeners;
  notices = [];
}

run_health_checks_lem_example :
    lookup address (run_health_checks failing).peers ≡ elim (lookup address failing.peers) [
      | none ↦ none
      | some id ↦ elim (get_elem? failing.heap id) [
        | none ↦ some id
        | some mp ↦ if lebℤ failing.max_failure_count mp.failure_count then none else some id
      ]
    ]
run_health_checks_lem_example = run_health_checks_lem failing address (tt, tt)

-- The object 0 has left the map, and the object 1 is managed under its address.
abbrev replaced : PeerManager
replaced = record failing {
  peers = (address, 1) ∷ [];
  heap = new_managed_peer address true ∷ new_managed_peer address false ∷ [];
}

evict_peer-removes_successor_example :
    (lookup address (evict_peer replaced 0).peers ≡ none)
    × (get_elem? (evict_peer replaced 0).heap 1
        ≡ some (cancel_and_disconnect (new_managed_peer address false)))
    × (get_elem? (evict_peer replaced 0).heap 0 ≡ some (new_managed_peer address true))
unfolding lookup same new_managed_peer
evict_peer-removes_successor_example =
    evict_peer-removes_successor replaced 0 1 (new_managed_peer address true)
      (new_managed_peer address false) refl refl (omega arith) refl

abbrev configuration : Config ℕ
configuration = default_config 0

-- a manager whose one peer is in its dial
abbrev pub dialer : PeerManager
dialer = record failing {
  heap = record (new_managed_peer address false) { point = dialing; status = connecting } ∷ [];
}

removed_while_dialing_example :
    (pm1 : PeerManager) × (pm2 : PeerManager) × (orphan : ManagedPeer) × (loop_step
        (remove_peer dialer address).0
        0
        dial_ok
      ≡ moved pm1)
    × (loop_step pm1 0 proceed ≡ moved pm2)
    × (lookup address pm2.peers ≡ none)
    × (get_elem? pm2.heap 0 ≡ some orphan)
    × (orphan.peer ≡ some up)
    × (orphan.cancelled ≡ true)
    × ((choice : Choice) → loop_step pm2 0 choice ≡ blocked)
unfolding new_managed_peer lookup same
removed_while_dialing_example =
    removed_while_dialing dialer 0
      (record (new_managed_peer address false) { point = dialing; status = connecting }) refl refl
      refl

abbrev discovered : NetAddress
discovered = record { ip = codes "10.0.0.2"; port = 8333 }

abbrev message : Message Bytes
message = addr (codes "addr") (discovered ∷ [])

handle-Reach_example :
    Reach fresh (record busy { manager = (handle busy.manager message).0 })
    × CoveredOrFull (address_text discovered ∷ []) (handle busy.manager message).0
handle-Reach_example = handle-Reach fresh busy message (codes "addr") (discovered ∷ []) reach_busy

-- the client when its two goroutines have returned
abbrev drained : BtcClient
drained = record stopped {
  manager = record stopped.manager {
    heap = record (new_managed_peer address false) { cancelled = true; point = exited } ∷ [];
    wg = 0;
  };
  health_loops = 0;
}

reach_drained : Reach fresh drained
unfolding start Client.add_peer add_peer spawn lookup insert new_peer_manager stop_begin
    Client.disconnect_all modify cancel_and_disconnect Client.health_exit new_managed_peer loop_step
    step_from
reach_drained =
    next
      (next (next reach_busy (stop_begins {d = stopped} refl refl))
        (health_exits (omega arith) refl))
      (loops 0 proceed {pm = drained.manager} refl)

stop_waits_for_all_example : IsDrained drained
unfolding new_btc_client validate default_config with_max_peers apply_options new_peer_manager
    Client.stop_end
stop_waits_for_all_example =
    stop_waits_for_all 0 options fresh drained
      (record drained { manager = record drained.manager { started = false }; stopping = false })
      refl reach_drained refl
