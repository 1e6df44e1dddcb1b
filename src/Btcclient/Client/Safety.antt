-- ===== src/Btcclient/Client/Safety.antt =====
-- The states that a client can reach from NewBtcClient, whatever its callers, its goroutines and the
-- network do.
use brewery_bitcoin.Btcclient.Base.{ClientError}
use brewery_bitcoin.Btcclient.Config.{Config, apply_options, default_config}
use brewery_bitcoin.Btcclient.Peer.{ManagedPeer, cancel_and_disconnect, evicting, exited}
use brewery_bitcoin.Btcclient.Manager.{PeerManager, new_peer_manager}
use brewery_bitcoin.Btcclient.Manager.Loop.{Choice, panicked, loop_step}
use brewery_bitcoin.Btcclient.Manager.Invariant.{IsSound, IsSoundMap, modify-IsSoundMap, is_used}
use brewery_bitcoin.Btcclient.Manager.Preserves.{
  cancel_and_disconnect_sound, remove_peer-IsSound, run_health_checks-IsSound, add_peer-IsSound,
  add_discovered_peers-IsSound,
}
use brewery_bitcoin.Btcclient.Manager.StepPreserves.{
  Keeps, loop_step-Keeps, remote_close-IsSound, cancel_context-IsSound,
}
use brewery_bitcoin.Btcclient.Client
use brewery_bitcoin.Btcclient.Client.{
  BtcClient, StopBegin, refused, waiting_for, disconnect_all, client_of, new_btc_client,
}
use brewery_bitcoin.Btcclient.Client.Steps.{
  Step, starts, stop_begins, stop_ends, adds, removes, discovers, checks_health, health_exits,
  loops, remote_closes, context_cancelled, Reach, here, next,
}
use brewery_bitcoin.Prelude.{
  ℕ, ◌≤◌, ◌<◌, ◌≡◌, refl, sym, ◌∙◌, subst, ◌≢◌, ◌⊎◌, Bool, true, Option, some, List, [], ◌∷◌, arith,
  get_elem?, IsDistinct, ℤ, pos, negsuc, max_int32, lebℤ, Dict, lookup, keys, ok, modify,
}

disconnect_all-IsSoundMap :
    {m : ℕ} {max_peers : ℤ} (d peers : Dict ℕ) (heap : List ManagedPeer)
    → IsSoundMap m peers heap max_peers
    → IsSoundMap m peers (disconnect_all d heap) max_peers
unfolding disconnect_all cancel_and_disconnect
disconnect_all-IsSoundMap [] peers heap h = h
disconnect_all-IsSoundMap ((a, id) ∷ d) peers heap h =
    disconnect_all-IsSoundMap d peers (modify id cancel_and_disconnect heap) (
      modify-IsSoundMap h id cancel_and_disconnect (λ x. refl)
        (λ x _ s. cancel_and_disconnect_sound x s))

-- a manager that differs from a sound one in other fields
same_parts :
    {m : ℕ} {limit : ℤ} (pm pm' : PeerManager)
    → pm'.peers ≡ pm.peers
    → pm'.heap ≡ pm.heap
    → pm'.max_peers ≡ pm.max_peers
    → pm'.max_failure_count ≡ pm.max_failure_count
    → IsSound m limit pm
    → IsSound m limit pm'
same_parts pm pm' p h x t s = record {
  threshold = t ∙ s.threshold;
  capacity = x ∙ s.capacity;
  map_ok = rw (p, h, x) s.map_ok;
}

module _ {m : ℕ} {limit : ℤ} (positive : 0 < m) (fits : m ≤ max_int32) where
  stop_begins-IsSafe :
      (c d : BtcClient)
      → Client.stop_begin c ≡ waiting_for d
      → IsSound m limit c.manager
      → IsSound m limit d.manager
  unfolding Client.stop_begin
  stop_begins-IsSafe c d e h =
      let same_peers : d.manager.peers ≡ c.manager.peers = ground (arith, e) in
      let new_heap : d.manager.heap ≡ disconnect_all c.manager.peers c.manager.heap =
        ground (arith, e) in
      let same_max : d.manager.max_peers ≡ c.manager.max_peers = ground (arith, e) in
      let same_threshold : d.manager.max_failure_count ≡ c.manager.max_failure_count =
        ground (arith, e) in
      record {
        threshold = same_threshold ∙ h.threshold;
        capacity = same_max ∙ h.capacity;
        map_ok =
            rw (same_peers, new_heap, same_max)
              (disconnect_all-IsSoundMap c.manager.peers c.manager.peers c.manager.heap h.map_ok);
      }

  stop_ends-IsSafe :
      (timed_out : Bool) (c : BtcClient) (r : BtcClient × Option ClientError)
      → Client.stop_end timed_out c ≡ some r
      → IsSound m limit c.manager
      → IsSound m limit r.0.manager
  unfolding Client.stop_end
  stop_ends-IsSafe timed_out c r e h =
      same_parts c.manager r.0.manager (ground (arith, e)) (ground (arith, e)) (ground (arith, e))
        (ground (arith, e)) h

  Step-IsSafe : {c d : BtcClient} → Step c d → IsSound m limit c.manager → IsSound m limit d.manager
  unfolding Client.start Client.add_peer Client.remove_peer Client.health_tick Client.health_exit
  Step-IsSafe {c} (starts _) h =
      same_parts c.manager (Client.start c).0.manager (ground arith) (ground arith) (ground arith)
        (ground arith) h
  Step-IsSafe {c} {d} (stop_begins _ e) h = stop_begins-IsSafe c d e h
  Step-IsSafe {c} (stop_ends timed_out {r = r} _ e) h = stop_ends-IsSafe timed_out c r e h
  Step-IsSafe {c} (adds cancelled address _) h =
      add_peer-IsSound positive c.manager cancelled address h
  Step-IsSafe {c} (removes address _) h = remove_peer-IsSound c.manager address h
  Step-IsSafe {c} (discovers addresses) h =
      add_discovered_peers-IsSound positive addresses c.manager h
  Step-IsSafe {c} (checks_health _) h = run_health_checks-IsSound c.manager h
  Step-IsSafe {c} (health_exits _ _) h = same_parts c.manager _ refl refl refl refl h
  Step-IsSafe {c} (loops id choice {pm = pm} e) h =
      subst (Keeps m limit) e (loop_step-Keeps positive fits c.manager id choice h)
  Step-IsSafe {c} (remote_closes id) h = remote_close-IsSound positive c.manager id h
  Step-IsSafe {c} (context_cancelled id) h = cancel_context-IsSound positive c.manager id h

  Reach-IsSafe :
      {c d : BtcClient} → Reach c d → IsSound m limit c.manager → IsSound m limit d.manager
  Reach-IsSafe here h = h
  Reach-IsSafe (next r s) h = Step-IsSafe s (Reach-IsSafe r h)

module _ {Params : Type 0} (main_net : Params) (opts : List (Config Params → Config Params))
    (c : BtcClient) (created : new_btc_client main_net opts ≡ ok c)
    (int32 : lebℤ (apply_options (default_config main_net) opts).max_failure_count (pos max_int32)
      ≡ true) where
  -- the threshold, as a natural number
  pub threshold_of : (m : ℕ) × (0 < m) × (m ≤ max_int32) × (c.manager.max_failure_count ≡ pos m)
  unfolding new_btc_client new_peer_manager
  threshold_of = by_sign (apply_options (default_config main_net) opts).max_failure_count refl
    where
      by_sign :
          (v : ℤ)
          → (apply_options (default_config main_net) opts).max_failure_count ≡ v
          → (m : ℕ) × (0 < m) × (m ≤ max_int32) × (c.manager.max_failure_count ≡ pos m)
      by_sign (pos m) e =
          (m, ground (arith, created, e), ground (arith, int32, e), ground (arith, created, e))
      by_sign (negsuc n) e = absurd (ground (arith, created, e))

  new_map_ok : (m : ℕ) → IsSoundMap m c.manager.peers c.manager.heap c.manager.max_peers
  unfolding new_btc_client new_peer_manager lookup
  new_map_ok m =
      let no_peers : c.manager.peers ≡ [] = ground (arith, created) in
      let no_objects : c.manager.heap ≡ [] = ground (arith, created) in
      record {
        distinct = rw no_peers tt;
        bounded = ground (arith, created);
        owned = λ a id at. absurd (ground (arith, at, no_peers));
        sound = λ id mp at. absurd (ground (arith, at, no_objects));
      }

  module _ (d : BtcClient) (reached : Reach c d) where
    safe :
        (m : ℕ)
        → 0 < m
        → m ≤ max_int32
        → c.manager.max_failure_count ≡ pos m
        → IsSound m c.manager.max_peers d.manager
    safe m positive fits e =
        Reach-IsSafe positive fits reached
          (record { capacity = refl; threshold = e; map_ok = new_map_ok m })

    -- In every state that a client made by NewBtcClient can reach, its MaxFailureCount being an int32,
    -- no address is managed twice, and the number of peers is at most the MaxPeers that it was made
    -- with.
    pub reachable_peers_bounded :
        IsDistinct (keys d.manager.peers)
        × (lebℤ (pos (Client.peer_count d)) c.manager.max_peers ≡ true)
    unfolding Client.peer_count
    reachable_peers_bounded =
        let (m, positive, fits, e) = threshold_of in
        let s = safe m positive fits e in (s.map_ok.distinct, rw (sym s.capacity) s.map_ok.bounded)

    -- In every state that a client made by NewBtcClient can reach, its MaxFailureCount being an int32,
    -- no step of the goroutine of a peer dereferences a nil peer.
    pub reachable_loops_never_panic :
        (id : ℕ) (choice : Choice) → loop_step d.manager id choice ≢ panicked
    reachable_loops_never_panic id choice e =
        let (m, positive, fits, t) = threshold_of in
        subst (Keeps m c.manager.max_peers) e
          (loop_step-Keeps positive fits d.manager id choice (safe m positive fits t))

    -- In every state that a client made by NewBtcClient can reach, its MaxFailureCount being an int32,
    -- each peer ever managed has the status disconnected, connecting or connected, and a
    -- failure count from 0 to MaxFailureCount, which is reached only by a peer that is about to be
    -- evicted or has returned.
    pub reachable_peers_sound :
        (id : ℕ) (mp : ManagedPeer)
        → get_elem? d.manager.heap id ≡ some mp
        → (is_used mp.status ≡ true)
          × (lebℤ (pos 0) mp.failure_count ≡ true)
          × (lebℤ mp.failure_count c.manager.max_failure_count ≡ true)
          × (mp.failure_count ≡ c.manager.max_failure_count
              → (mp.point ≡ evicting) ⊎ (mp.point ≡ exited))
    reachable_peers_sound id mp at =
        let (m, positive, fits, e) = threshold_of in
        let s = (safe m positive fits e).map_ok.sound id mp at in
        (s.used, ground (arith, s), ground (arith, s, e), ground (arith, s, e))
