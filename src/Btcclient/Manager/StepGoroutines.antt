-- ===== src/Btcclient/Manager/StepGoroutines.antt =====
-- pkg/btcclient/manager.go: the counter of the wait group and the goroutines, under every step of
-- connectionLoop.
use brewery_bitcoin.Btcclient.Peer.{
  ManagedPeer, Link, up, down, Point, top, dialing, opened, evicting, attached, waiting, exited,
  set_status, set_peer, go_to,
}
use brewery_bitcoin.Btcclient.Manager.{PeerManager, evict_peer}
use brewery_bitcoin.Btcclient.Manager.Loop.{
  Choice, proceed, dial_ok, dial_error, timer, woken, Moved, moved, exit_loop, fail, connect,
  detach, after_wait, step_from, loop_step,
}
use brewery_bitcoin.Prelude.{
  ℕ, ◌≡◌, refl, inl, inr, ◌||◌, Option, none, some, arith, Bool-cases, Option-cases, get_elem?,
  modify,
}
use brewery_bitcoin.Btcclient.Manager.Goroutines.{
  weight, running-modify, IsBalanced, evict_peer-point, evict_peer-IsBalanced,
}

module _ {extra : ℕ} where
  -- a write to an object whose goroutine has not returned, before and after
  moved-IsBalanced :
      (pm pm' : PeerManager) (id : ℕ) (mp : ManagedPeer) (f : ManagedPeer → ManagedPeer)
      → get_elem? pm.heap id ≡ some mp
      → weight mp.point ≡ 1
      → weight (f mp).point ≡ 1
      → pm'.wg ≡ pm.wg
      → pm'.heap ≡ modify id f pm.heap
      → IsBalanced extra pm
      → IsBalanced extra pm'
  moved-IsBalanced pm pm' id mp f there before after same_wg new_heap h = record {
    counted =
        rw new_heap
          (omega (arith, h.counted, same_wg, before, after, running-modify id f pm.heap mp there));
  }

  -- the return of a goroutine
  exit-IsBalanced :
      (pm : PeerManager) (id : ℕ) (mp : ManagedPeer)
      → get_elem? pm.heap id ≡ some mp
      → weight mp.point ≡ 1
      → IsBalanced extra pm
      → IsBalanced extra (exit_loop pm id)
  exit-IsBalanced pm id mp there before h = record {
    counted = omega (arith, h.counted, before, running-modify id (go_to exited) pm.heap mp there);
  }

-- what a step of a goroutine leaves behind
abbrev pub Balances : ℕ → Moved → Type 0
Balances extra (moved pm) = IsBalanced extra pm
Balances extra _ = Unit

module _ {extra : ℕ} where
  after_wait-Balances :
      (pm : PeerManager) (id : ℕ) (mp : ManagedPeer) (l : Option Link)
      → get_elem? pm.heap id ≡ some mp
      → weight mp.point ≡ 1
      → IsBalanced extra pm
      → Balances extra (after_wait pm id l)
  unfolding detach
  after_wait-Balances pm id mp none there w h = tt
  after_wait-Balances pm id mp (some up) there w h = tt
  after_wait-Balances pm id mp (some down) there w h =
      moved-IsBalanced pm _ id mp detach there w refl refl refl h

  step_from-Balances :
      (pm : PeerManager) (id : ℕ) (mp : ManagedPeer) (p : Point) (c : Choice)
      → get_elem? pm.heap id ≡ some mp
      → mp.point ≡ p
      → IsBalanced extra pm
      → Balances extra (step_from pm id mp p c)
  unfolding step_from fail connect set_status set_peer
  step_from-Balances pm id mp top proceed there at h =
      elim (Bool-cases (pm.is_done || mp.cancelled)) [
        | inl stop ↦ rw stop (exit-IsBalanced pm id mp there (rw at refl) h)
        | inr run ↦ rw run (moved-IsBalanced pm _ id mp _ there (rw at refl) refl refl refl h)
      ]
  step_from-Balances pm id mp dialing dial_ok there at h =
      moved-IsBalanced pm _ id mp _ there (rw at refl) refl refl refl h
  step_from-Balances pm id mp dialing dial_error there at h =
      moved-IsBalanced pm _ id mp _ there (rw at refl) (ground arith) refl refl h
  step_from-Balances pm id mp evicting proceed there at h =
      let (mp', there', same_point) = evict_peer-point pm id mp there in
      exit-IsBalanced (evict_peer pm id) id mp' there' (rw (same_point, at) refl)
        (evict_peer-IsBalanced pm id h)
  step_from-Balances pm id mp opened proceed there at h =
      moved-IsBalanced pm _ id mp _ there (rw at refl) refl refl refl h
  step_from-Balances pm id mp attached proceed there at h =
      after_wait-Balances pm id mp mp.peer there (rw at refl) h
  step_from-Balances pm id mp waiting timer there at h =
      moved-IsBalanced pm _ id mp _ there (rw at refl) refl refl refl h
  step_from-Balances pm id mp waiting woken there at h =
      elim (Bool-cases (pm.is_done || mp.cancelled)) [
        | inl stop ↦ rw stop (exit-IsBalanced pm id mp there (rw at refl) h)
        | inr run ↦ rw run tt
      ]
  step_from-Balances pm id mp _ _ there at h = tt

  pub loop_step-Balances :
      (pm : PeerManager) (id : ℕ) (c : Choice)
      → IsBalanced extra pm
      → Balances extra (loop_step pm id c)
  unfolding loop_step
  loop_step-Balances pm id c h = elim (Option-cases (get_elem? pm.heap id)) [
    | inl absent ↦ rw (absent, loop_step) tt
    | inr (mp, there) ↦ rw (there, loop_step) (step_from-Balances pm id mp mp.point c there refl h)
  ]
