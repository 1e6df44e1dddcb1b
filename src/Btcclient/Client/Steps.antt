-- ===== src/Btcclient/Client/Steps.antt =====
-- The client and its goroutines as a transition system: one constructor for each call or goroutine
-- step, with the condition under which it can happen.
use brewery_bitcoin.Btcclient.Base.{ClientError}
use brewery_bitcoin.Btcclient.Manager.{PeerManager, add_discovered_peers}
use brewery_bitcoin.Btcclient.Manager.Loop.{Choice, moved, loop_step, remote_close, cancel_context}
use brewery_bitcoin.Btcclient.Client.{
  BtcClient, start, waiting_for, stop_begin, stop_end, add_peer, remove_peer, health_tick,
  health_exit,
}
use brewery_bitcoin.Prelude.{ℕ, ◌<◌, ◌≡◌, Bool, true, false, Option, some, List, Bytes}

pub data Step (c : BtcClient) : BtcClient → Type 0 where
  starts : c.stopping ≡ false → Step c (start c).0
  stop_begins : {d : BtcClient} → c.stopping ≡ false → stop_begin c ≡ waiting_for d → Step c d
  stop_ends :
      (timed_out : Bool) {r : BtcClient × Option ClientError}
      → c.stopping ≡ true
      → stop_end timed_out c ≡ some r
      → Step c r.0
  adds :
      (cancelled : Bool) (address : Bytes)
      → c.stopping ≡ false
      → Step c (add_peer c cancelled address).0
  removes : (address : Bytes) → c.stopping ≡ false → Step c (remove_peer c address).0
  discovers :
      (addresses : List Bytes)
      → Step c (record c { manager = add_discovered_peers c.manager addresses })
  checks_health : 0 < c.health_loops → Step c (health_tick c)
  health_exits : 0 < c.health_loops → c.manager.is_done ≡ true → Step c (health_exit c)
  loops :
      (id : ℕ) (choice : Choice) {pm : PeerManager}
      → loop_step c.manager id choice ≡ moved pm
      → Step c (record c { manager = pm })
  remote_closes : (id : ℕ) → Step c (record c { manager = remote_close c.manager id })
  context_cancelled : (id : ℕ) → Step c (record c { manager = cancel_context c.manager id })

pub data Reach (c : BtcClient) : BtcClient → Type 0 where
  here : Reach c c
  next : {d e : BtcClient} → Reach c d → Step d e → Reach c e
