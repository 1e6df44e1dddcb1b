-- ===== src/Btcclient/Client/Waiting.antt =====
-- pkg/btcclient/client.go: the wait of Stop for the wait group.
use brewery_bitcoin.Btcclient.Config.{Config}
use brewery_bitcoin.Btcclient.Peer.{ManagedPeer, Point, exited, cancel_and_disconnect}
use brewery_bitcoin.Btcclient.Manager.{new_peer_manager}
use brewery_bitcoin.Btcclient.Manager.Loop.{remote_close, cancel_context}
use brewery_bitcoin.Btcclient.Manager.Goroutines.{
  weight, running, IsBalanced, running-modify_same, add_peer-IsBalanced, remove_peer-IsBalanced,
  run_health_checks-IsBalanced, add_discovered_peers-IsBalanced, still-IsBalanced,
}
use brewery_bitcoin.Btcclient.Client
use brewery_bitcoin.Btcclient.Client.{
  BtcClient, waiting_for, disconnect_all, new_btc_client, client_of,
}
use brewery_bitcoin.Btcclient.Client.Steps.{
  Step, starts, stop_begins, stop_ends, adds, removes, discovers, checks_health, health_exits,
  loops, remote_closes, context_cancelled, Reach, here, next,
}
use brewery_bitcoin.Btcclient.Manager.StepGoroutines.{Balances, loop_step-Balances}
use brewery_bitcoin.Prelude.{
  ℕ, ◌+◌, ◌≡◌, refl, sym, ap, ◌∙◌, subst, false, none, some, List, [], ◌∷◌, arith, All, Dict, ok,
  modify,
}

running-disconnect_all :
    (d : Dict ℕ) (heap : List ManagedPeer) → running (disconnect_all d heap) ≡ running heap
unfolding disconnect_all cancel_and_disconnect
running-disconnect_all [] heap = refl
running-disconnect_all ((a, id) ∷ d) heap =
    running-disconnect_all d (modify id cancel_and_disconnect heap)
    ∙ running-modify_same id cancel_and_disconnect heap (λ x. refl)

abbrev pub IsCounted : BtcClient → Type 0
IsCounted c = IsBalanced c.health_loops c.manager

stop_begins-IsCounted :
    (c d : BtcClient) → Client.stop_begin c ≡ waiting_for d → IsCounted c → IsCounted d
unfolding Client.stop_begin
stop_begins-IsCounted c d e h =
    let new_heap : d.manager.heap ≡ disconnect_all c.manager.peers c.manager.heap =
      ground (arith, e) in
    let same_wg : d.manager.wg ≡ c.manager.wg = ground (arith, e) in
    let same_loops : d.health_loops ≡ c.health_loops = ground (arith, e) in
    record {
      counted =
          rw (new_heap, same_wg, same_loops)
            (h.counted
              ∙ ap (λ n. n + c.health_loops)
                  (sym (running-disconnect_all c.manager.peers c.manager.heap)));
    }

Step-IsCounted : {c d : BtcClient} → Step c d → IsCounted c → IsCounted d
unfolding Client.start Client.add_peer Client.remove_peer Client.health_tick Client.health_exit
    Client.stop_end remote_close cancel_context
Step-IsCounted {c} (starts _) h = record { counted = ground (arith, h.counted) }
Step-IsCounted {c} {d} (stop_begins _ e) h = stop_begins-IsCounted c d e h
Step-IsCounted {c} (stop_ends timed_out {r = r} _ e) h = record {
  counted = ground (arith, h.counted, e);
}
Step-IsCounted {c} (adds cancelled address _) h = add_peer-IsBalanced c.manager cancelled address h
Step-IsCounted {c} (removes address _) h = remove_peer-IsBalanced c.manager address h
Step-IsCounted {c} (discovers addresses) h = add_discovered_peers-IsBalanced addresses c.manager h
Step-IsCounted {c} (checks_health _) h = run_health_checks-IsBalanced c.manager h
Step-IsCounted {c} (health_exits some_loop _) h = record {
  counted = omega (arith, h.counted, some_loop);
}
Step-IsCounted {c} (loops id choice {pm = pm} e) h =
    subst (Balances c.health_loops) e (loop_step-Balances c.manager id choice h)
Step-IsCounted {c} (remote_closes id) h = still-IsBalanced c.manager id _ (λ x. refl) h
Step-IsCounted {c} (context_cancelled id) h = still-IsBalanced c.manager id _ (λ x. refl) h

pub Reach-IsCounted : {c d : BtcClient} → Reach c d → IsCounted c → IsCounted d
Reach-IsCounted here h = h
Reach-IsCounted (next r s) h = Step-IsCounted s (Reach-IsCounted r h)

weightless : (p : Point) → weight p ≡ 0 → p ≡ exited
weightless p h = ground (arith, h)

-- no goroutine counted: each has returned
All-exited : (heap : List ManagedPeer) → running heap ≡ 0 → All (λ mp. mp.point ≡ exited) heap
All-exited [] z = tt
All-exited (x ∷ heap) z =
    (weightless x.point (omega (arith, z)), All-exited heap (omega (arith, z)))

pub new_IsCounted :
    {Params : Type 0} (main_net : Params) (opts : List (Config Params → Config Params))
    (c : BtcClient)
    → new_btc_client main_net opts ≡ ok c
    → IsCounted c
unfolding new_btc_client new_peer_manager
new_IsCounted main_net opts c created =
    let no_objects : c.manager.heap ≡ [] = ground (arith, created) in
    record { counted = rw no_objects (ground (arith, created)) }

-- The goroutine of every peer that was ever added has returned, and no health check runs.
abbrev pub IsDrained : BtcClient → Type 0
IsDrained c = All (λ mp. mp.point ≡ exited) c.manager.heap × (c.health_loops ≡ 0)

-- In every state that a client made by NewBtcClient can reach, if Stop returns without an error,
-- then the goroutine of every peer that was ever added has returned, and so has every health check.
pub stop_waits_for_all :
    {Params : Type 0} (main_net : Params) (opts : List (Config Params → Config Params))
    (c d r : BtcClient)
    → new_btc_client main_net opts ≡ ok c
    → Reach c d
    → Client.stop_end false d ≡ some (r, none)
    → IsDrained r
unfolding Client.stop_end
stop_waits_for_all main_net opts c d r created reached ended =
    let h = Reach-IsCounted reached (new_IsCounted main_net opts c created) in
    let drained : d.manager.wg ≡ 0 = ground (arith, ended) in
    let same_heap : d.manager.heap ≡ r.manager.heap = ground (arith, ended) in
    let same_loops : r.health_loops ≡ d.health_loops = ground (arith, ended) in
    (
      subst (All (λ (mp : ManagedPeer). mp.point ≡ exited)) same_heap
          (All-exited d.manager.heap (omega (arith, h.counted, drained))),
      omega (arith, same_loops, h.counted, drained),
    )
