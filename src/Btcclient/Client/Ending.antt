-- ===== src/Btcclient/Client/Ending.antt =====
-- pkg/btcclient/client.go: how many steps the goroutines of a client make after the channel done is
-- closed, whatever else happens.
use brewery_bitcoin.Btcclient.Peer.{ManagedPeer, cancel_and_disconnect}
use brewery_bitcoin.Btcclient.Manager
use brewery_bitcoin.Btcclient.Manager.Loop.{remote_close, cancel_context}
use brewery_bitcoin.Btcclient.Manager.Drains.{total, Lowers, loop_step-Lowers}
use brewery_bitcoin.Btcclient.Manager.Ranks.{
  same_sizes, sizes, sizes-modify, sizes-remove_peer, sizes-run_health_checks, add_peer-Grows,
  add_discovered_peers-Grows, length-loop_step,
}
use brewery_bitcoin.Btcclient.Client
use brewery_bitcoin.Btcclient.Client.{BtcClient, waiting_for, disconnect_all}
use brewery_bitcoin.Btcclient.Client.Steps.{
  Step, starts, stop_begins, stop_ends, adds, removes, discovers, checks_health, health_exits,
  loops, remote_closes, context_cancelled, Reach, here, next,
}
use brewery_bitcoin.Btcclient.Client.Stopping.{Reach-is_done}
use brewery_bitcoin.Prelude.{
  ℕ, ◌+◌, ◌*◌, ◌≤◌, ◌<◌, ◌≡◌, refl, ap, ◌∙◌, subst, true, List, [], ◌∷◌, arith, length, Dict,
  modify,
}

-- 1 for a step of a connection loop and for the return of a health check. A tick of a health check,
-- which select may choose also when done is closed, is not counted.
abbrev pub is_counted : {c d : BtcClient} → Step c d → ℕ
is_counted (loops _ _ _) = 1
is_counted (health_exits _ _) = 1
is_counted _ = 0

abbrev pub is_start : {c d : BtcClient} → Step c d → ℕ
is_start (starts _) = 1
is_start _ = 0

abbrev pub goroutine_steps : {c d : BtcClient} → Reach c d → ℕ
goroutine_steps here = 0
goroutine_steps (next r s) = goroutine_steps r + is_counted s

abbrev pub start_calls : {c d : BtcClient} → Reach c d → ℕ
start_calls here = 0
start_calls (next r s) = start_calls r + is_start s

sizes-disconnect_all :
    (d : Dict ℕ) (heap : List ManagedPeer) → sizes (disconnect_all d heap) ≡ sizes heap
unfolding disconnect_all cancel_and_disconnect
sizes-disconnect_all [] heap = refl
sizes-disconnect_all ((a, id) ∷ d) heap =
    sizes-disconnect_all d (modify id cancel_and_disconnect heap)
    ∙ sizes-modify id cancel_and_disconnect heap (λ x. refl)

-- what a step costs, of the ranks and of the health checks that are left
abbrev Pays : BtcClient → BtcClient → ℕ → ℕ → Type 0
Pays c d counted started =
    counted + total d.manager.heap + d.health_loops + length c.manager.heap
    ≤ total c.manager.heap + c.health_loops + started + length d.manager.heap

stop_begins-Pays : (c d : BtcClient) → Client.stop_begin c ≡ waiting_for d → Pays c d 0 0
unfolding Client.stop_begin
stop_begins-Pays c d e =
    let same_heap : d.manager.heap ≡ disconnect_all c.manager.peers c.manager.heap =
      ground (arith, e) in
    let same_loops : d.health_loops ≡ c.health_loops = ground (arith, e) in
    let grows =
      same_sizes c.manager.heap d.manager.heap
        (ap sizes same_heap ∙ sizes-disconnect_all c.manager.peers c.manager.heap) in
    omega (arith, same_loops, grows)

Step-Pays :
    {c d : BtcClient} (s : Step c d)
    → c.manager.is_done ≡ true
    → Pays c d (is_counted s) (is_start s)
unfolding Client.start Client.stop_end Client.add_peer Client.remove_peer Client.health_tick
    Client.health_exit remote_close cancel_context
Step-Pays {c} (starts _) done = ground arith
Step-Pays {c} {d} (stop_begins _ e) done = stop_begins-Pays c d e
Step-Pays {c} (stop_ends timed_out {r = r} _ e) done = ground (arith, e)
Step-Pays {c} (adds cancelled address _) done =
    omega (arith, add_peer-Grows c.manager cancelled address)
Step-Pays {c} (removes address _) done = omega (
  arith,
  same_sizes c.manager.heap (Manager.remove_peer c.manager address).0.heap
      (sizes-remove_peer c.manager address),
)
Step-Pays {c} (discovers addresses) done =
    omega (arith, add_discovered_peers-Grows addresses c.manager)
Step-Pays {c} (checks_health _) done =
    omega (arith, same_sizes c.manager.heap _ (sizes-run_health_checks c.manager))
Step-Pays {c} (health_exits some_loop _) done = omega (arith, some_loop)
Step-Pays {c} (loops id choice {pm = pm} e) done =
    let lower : total pm.heap < total c.manager.heap =
      subst (Lowers (total c.manager.heap)) e (loop_step-Lowers c.manager id choice done) in
    omega (arith, lower, length-loop_step c.manager pm id choice e)
Step-Pays {c} (remote_closes id) done = omega (
  arith,
  same_sizes c.manager.heap (remote_close c.manager id).heap
      (sizes-modify id _ c.manager.heap (λ x. refl)),
)
Step-Pays {c} (context_cancelled id) done = omega (
  arith,
  same_sizes c.manager.heap (cancel_context c.manager id).heap
      (sizes-modify id _ c.manager.heap (λ x. refl)),
)

Reach-Pays :
    {c d : BtcClient} (r : Reach c d)
    → c.manager.is_done ≡ true
    → Pays c d (goroutine_steps r) (start_calls r)
Reach-Pays here done = omega arith
Reach-Pays (next r s) done = omega (arith, Reach-Pays r done, Step-Pays s (Reach-is_done r done))

total_bound : (heap : List ManagedPeer) → total heap ≤ 5 * length heap
total_bound [] = omega arith
total_bound (mp ∷ heap) = omega (arith, rank_bound, total_bound heap)
  where
    rank_bound : total (mp ∷ []) ≤ 5
    rank_bound = ground arith

-- Once done is closed, whatever the callers, the network and the ticks of the health checks do and
-- in whatever order, the connection loops and the returns of the health checks make together at most
-- five steps for each peer ever added until then, one for each peer added later, one for each health
-- check that there was, and one for each later call of Start.
pub goroutines_end :
    {c d : BtcClient} (r : Reach c d)
    → c.manager.is_done ≡ true
    → goroutine_steps r + length c.manager.heap
      ≤ 5 * length c.manager.heap + length d.manager.heap + c.health_loops + start_calls r
goroutines_end {c} r done = omega (arith, Reach-Pays r done, total_bound c.manager.heap)
