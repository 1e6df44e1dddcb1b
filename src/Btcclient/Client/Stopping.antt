-- ===== src/Btcclient/Client/Stopping.antt =====
-- pkg/btcclient/client.go: Start and Stop over the life of a client.
use brewery_bitcoin.Btcclient.Manager.Flags.{
  flags, flags-add_peer, flags-remove_peer, flags-run_health_checks, flags-add_discovered_peers,
  flags-loop_step,
}
use brewery_bitcoin.Btcclient.Manager.Loop.{remote_close, cancel_context}
use brewery_bitcoin.Btcclient.Client
use brewery_bitcoin.Btcclient.Client.{
  BtcClient, new_btc_client, StopBegin, refused, panicked, waiting_for,
}
use brewery_bitcoin.Btcclient.Client.Steps.{
  Step, starts, stop_begins, stop_ends, adds, removes, discovers, checks_health, health_exits,
  loops, remote_closes, context_cancelled, Reach, here, next,
}
use brewery_bitcoin.Btcclient.Config.{Config}
use brewery_bitcoin.Prelude.{◌≡◌, ap, ◌∙◌, Bool, true, false, ◌&&◌, ◌||◌, not, List, arith, ok}

pub Step-is_done :
    {c d : BtcClient} → Step c d → c.manager.is_done ≡ true → d.manager.is_done ≡ true
unfolding Client.start Client.stop_begin Client.stop_end Client.add_peer Client.remove_peer
    Client.health_tick Client.health_exit remote_close cancel_context
Step-is_done {c} (starts _) h = ground (arith, h)
Step-is_done {c} {d} (stop_begins _ e) h = ground (arith, h, e)
Step-is_done {c} (stop_ends timed_out {r = r} _ e) h = ground (arith, h, e)
Step-is_done {c} (adds cancelled address _) h =
    ap (λ (f : Bool × Bool). f.0) (flags-add_peer c.manager cancelled address) ∙ h
Step-is_done {c} (removes address _) h =
    ap (λ (f : Bool × Bool). f.0) (flags-remove_peer c.manager address) ∙ h
Step-is_done {c} (discovers addresses) h =
    ap (λ (f : Bool × Bool). f.0) (flags-add_discovered_peers addresses c.manager) ∙ h
Step-is_done {c} (checks_health _) h =
    ap (λ (f : Bool × Bool). f.0) (flags-run_health_checks c.manager) ∙ h
Step-is_done {c} (health_exits _ _) h = h
Step-is_done {c} (loops id choice {pm = pm} e) h =
    ap (λ (f : Bool × Bool). f.0) (flags-loop_step c.manager pm id choice e) ∙ h
Step-is_done {c} (remote_closes id) h = h
Step-is_done {c} (context_cancelled id) h = h

pub Reach-is_done :
    {c d : BtcClient} → Reach c d → c.manager.is_done ≡ true → d.manager.is_done ≡ true
Reach-is_done here h = h
Reach-is_done (next r s) h = Step-is_done s (Reach-is_done r h)

-- A client in which a call of Stop waits is started, and done is closed.
abbrev pub waits_soundly : BtcClient → Bool
waits_soundly c = not c.stopping || (c.manager.is_done && c.manager.started)

same_flags :
    (c : BtcClient) (f g : Bool × Bool)
    → f ≡ g
    → (not c.stopping || (g.0 && g.1)) ≡ true
    → (not c.stopping || (f.0 && f.1)) ≡ true
same_flags c f g e h = ap (λ (x : Bool × Bool). not c.stopping || (x.0 && x.1)) e ∙ h

Step-waits_soundly : {c d : BtcClient} → Step c d → waits_soundly c ≡ true → waits_soundly d ≡ true
unfolding Client.start Client.stop_begin Client.stop_end Client.add_peer Client.remove_peer
    Client.health_tick Client.health_exit remote_close cancel_context
Step-waits_soundly {c} (starts free) h = ground (arith, free)
Step-waits_soundly {c} {d} (stop_begins _ e) h = ground (arith, h, e)
Step-waits_soundly {c} (stop_ends timed_out {r = r} _ e) h = ground (arith, h, e)
Step-waits_soundly {c} (adds cancelled address _) h =
    same_flags c _ (flags c.manager) (flags-add_peer c.manager cancelled address) h
Step-waits_soundly {c} (removes address _) h =
    same_flags c _ (flags c.manager) (flags-remove_peer c.manager address) h
Step-waits_soundly {c} (discovers addresses) h =
    same_flags c _ (flags c.manager) (flags-add_discovered_peers addresses c.manager) h
Step-waits_soundly {c} (checks_health _) h =
    same_flags c _ (flags c.manager) (flags-run_health_checks c.manager) h
Step-waits_soundly {c} (health_exits _ _) h = h
Step-waits_soundly {c} (loops id choice {pm = pm} e) h =
    same_flags c _ (flags c.manager) (flags-loop_step c.manager pm id choice e) h
Step-waits_soundly {c} (remote_closes id) h = h
Step-waits_soundly {c} (context_cancelled id) h = h

Reach-waits_soundly :
    {c d : BtcClient} → Reach c d → waits_soundly c ≡ true → waits_soundly d ≡ true
Reach-waits_soundly here h = h
Reach-waits_soundly (next r s) h = Step-waits_soundly s (Reach-waits_soundly r h)

-- of a client that NewBtcClient has returned
pub waiting_flags :
    {Params : Type 0} (main_net : Params) (opts : List (Config Params → Config Params))
    (c d : BtcClient)
    → new_btc_client main_net opts ≡ ok c
    → Reach c d
    → d.stopping ≡ true
    → (d.manager.is_done ≡ true) × (d.manager.started ≡ true)
unfolding new_btc_client
waiting_flags main_net opts c d created reached waiting =
    let idle : c.stopping ≡ false = ground (arith, created) in
    let sound = Reach-waits_soundly reached (ground (arith, idle)) in
    (ground (arith, sound, waiting), ground (arith, sound, waiting))

-- Once a call of Stop has begun to wait, every later call of Stop on a started client panics, in
-- every reachable state: after a timeout, and after a clean stop and a new Start.
pub second_stop_panics :
    (c d e : BtcClient)
    → Client.stop_begin c ≡ waiting_for d
    → Reach d e
    → e.manager.started ≡ true
    → Client.stop_begin e ≡ panicked
unfolding Client.stop_begin
second_stop_panics c d e begun reached started =
    ground (arith, started, Reach-is_done reached (ground (arith, begun)))
