-- ===== src/Btcclient/Client/Draining.antt =====
-- pkg/btcclient/client.go: the goroutines of a client after Stop has closed the channel done.
use brewery_bitcoin.Btcclient.Config.{Config, apply_options, default_config}
use brewery_bitcoin.Btcclient.Peer.{ManagedPeer}
use brewery_bitcoin.Btcclient.Manager.{PeerManager}
use brewery_bitcoin.Btcclient.Manager.Loop.{Choice, moved, loop_step}
use brewery_bitcoin.Btcclient.Manager.Flags.{flags-loop_step}
use brewery_bitcoin.Btcclient.Manager.Goroutines.{running}
use brewery_bitcoin.Btcclient.Manager.Drains.{total, Lowers, loop_step-Lowers}
use brewery_bitcoin.Btcclient.Manager.Progress.{IsDown, can_step, some_running}
use brewery_bitcoin.Btcclient.Client
use brewery_bitcoin.Btcclient.Client.{BtcClient, new_btc_client, health_tick, health_exit}
use brewery_bitcoin.Btcclient.Client.Stopping.{waiting_flags}
use brewery_bitcoin.Btcclient.Client.Steps.{Reach, next, loops, checks_health, health_exits}
use brewery_bitcoin.Btcclient.Client.Safety.{reachable_loops_never_panic}
use brewery_bitcoin.Btcclient.Client.Waiting.{Reach-IsCounted, new_IsCounted}
use brewery_bitcoin.Prelude.{
  ℕ, zero, suc, ◌+◌, ◌≤◌, ◌<◌, ◌≡◌, refl, ap, ◌∙◌, subst, inl, inr, Bool, true, false, none, some,
  List, [], ◌∷◌, arith, ltb, ltb→lt, Bool-cases, All, pos, max_int32, lebℤ, ok,
}

-- Steps of the goroutines alone: of connection loops, and ticks and returns of health checks.
pub data Drain (c : BtcClient) : BtcClient → Type 0 where
  start : Drain c c
  loop :
      {d : BtcClient} (id : ℕ) (choice : Choice) {pm : PeerManager}
      → Drain c d
      → loop_step d.manager id choice ≡ moved pm
      → Drain c (record d { manager = pm })
  tick : {d : BtcClient} → Drain c d → 0 < d.health_loops → Drain c (health_tick d)
  health :
      {d : BtcClient}
      → Drain c d
      → 0 < d.health_loops
      → d.manager.is_done ≡ true
      → Drain c (health_exit d)

Drain-Reach : {b c d : BtcClient} → Reach b c → Drain c d → Reach b d
Drain-Reach r start = r
Drain-Reach r (loop id choice s e) = next (Drain-Reach r s) (loops id choice e)
Drain-Reach r (tick s some_loop) = next (Drain-Reach r s) (checks_health some_loop)
Drain-Reach r (health s some_loop done) = next (Drain-Reach r s) (health_exits some_loop done)

Drain-stopping : {c d : BtcClient} → Drain c d → d.stopping ≡ c.stopping
unfolding health_tick health_exit
Drain-stopping start = refl
Drain-stopping (loop id choice s e) = Drain-stopping s
Drain-stopping (tick s some_loop) = Drain-stopping s
Drain-stopping (health s some_loop done) = Drain-stopping s

-- the steps that are left at most: those of the connection loops, and one for each health check
abbrev left : BtcClient → ℕ
left c = total c.manager.heap + c.health_loops

running-le-total : (heap : List ManagedPeer) → running heap ≤ total heap
running-le-total [] = omega arith
running-le-total (mp ∷ heap) = omega (arith, weight-le-rank, running-le-total heap)
  where
    weight-le-rank : running (mp ∷ []) ≤ total (mp ∷ [])
    weight-le-rank = ground arith

-- A call of Stop waits, and its wait ends without an error; afterwards no call waits and the client
-- is not started.
pub record IsStopped (e : BtcClient) : Type 0 where
  pub client : BtcClient
  pub waits : e.stopping ≡ true
  pub returns : Client.stop_end false e ≡ some (client, none)
  pub ended : (client.stopping ≡ false) × (client.manager.started ≡ false)

ends-IsStopped : (e : BtcClient) → e.stopping ≡ true → e.manager.wg ≡ 0 → IsStopped e
unfolding Client.stop_end
ends-IsStopped e waits h = record {
  client = record e { manager = record e.manager { started = false }; stopping = false };
  waits = waits;
  returns = ground (arith, h);
  ended = (refl, refl);
}

module _ {Params : Type 0} (main_net : Params) (opts : List (Config Params → Config Params))
    (c : BtcClient) (created : new_btc_client main_net opts ≡ ok c)
    (int32 : lebℤ (apply_options (default_config main_net) opts).max_failure_count (pos max_int32)
      ≡ true)
    (d : BtcClient) (reached : Reach c d) (waiting : d.stopping ≡ true) where
  -- from a state that d has come to by steps of its goroutines
  drain :
      (n : ℕ) (x : BtcClient)
      → Drain d x
      → x.manager.is_done ≡ true
      → All IsDown x.manager.heap
      → left x ≤ n
      → (e : BtcClient) × Drain d e × IsStopped e
  unfolding health_exit
  drain zero x s done quiet room =
      let balance =
        (Reach-IsCounted (Drain-Reach reached s) (new_IsCounted main_net opts c created)).counted in
      (
        x,
        s,
        ends-IsStopped x (Drain-stopping s ∙ waiting)
            (omega (arith, balance, running-le-total x.manager.heap)),
      )
  drain (suc n) x s done quiet room = elim (Bool-cases (ltb 0 x.health_loops)) [
    | inl checks ↦
        let some_loop : 0 < x.health_loops = ltb→lt 0 x.health_loops checks in
        drain n (health_exit x) (health s some_loop done) done quiet (omega (arith, some_loop))
    | inr none_checks ↦ elim (Bool-cases (ltb 0 (running x.manager.heap))) [
      | inr none_running ↦
          let balance =
            (Reach-IsCounted (Drain-Reach reached s)
              (new_IsCounted main_net opts c created)).counted in
          (
            x,
            s,
            ends-IsStopped x (Drain-stopping s ∙ waiting)
                (ground (arith, balance, none_checks, none_running)),
          )
      | inl runs ↦
          let (id, mp, there, w, d') =
            some_running x.manager.heap (ltb→lt 0 (running x.manager.heap) runs) quiet in
          let (choice, pm, e, keeps) = can_step x.manager id mp done there d' w (
            reachable_loops_never_panic main_net opts c created int32 x (Drain-Reach reached s)
              id) in
          let lower : total pm.heap < total x.manager.heap =
            subst (Lowers (total x.manager.heap)) e (loop_step-Lowers x.manager id choice done) in
          drain n (record x { manager = pm }) (loop id choice s e)
            (ap (λ (f : Bool × Bool). f.0) (flags-loop_step x.manager pm id choice e) ∙ done)
            (keeps quiet) (omega (arith, lower))
    ]
  ]

  -- In every state that a client made by NewBtcClient can reach, its MaxFailureCount being an int32, if
  -- a call of Stop waits and no connection is up, then the goroutines alone can make steps after which
  -- that call returns without an error, and the client is not started.
  pub stop_drains : All IsDown d.manager.heap → (e : BtcClient) × Drain d e × IsStopped e
  stop_drains quiet =
      drain (left d) d start (waiting_flags main_net opts c d created reached waiting).0 quiet
        (omega arith)
