-- ===== src/Btcclient/Manager/StepPreserves.antt =====
-- pkg/btcclient/manager.go: a step of connectionLoop, a remote close and a cancelled context keep
-- the invariant.
use brewery_bitcoin.Btcclient.Peer.{
  ManagedPeer, Link, up, down, Point, top, dialing, opened, evicting, attached, waiting, exited,
  connecting, go_to, set_status,
}
use brewery_bitcoin.Btcclient.Manager.{PeerManager, evict_peer}
use brewery_bitcoin.Btcclient.Manager.Loop.{
  Choice, proceed, dial_ok, dial_error, timer, woken, Moved, moved, blocked, panicked, exit_loop,
  fail, detach, after_wait, step_from, loop_step, remote_close, cancel_context,
}
use brewery_bitcoin.Btcclient.Manager.Invariant.{
  IsSoundPeer, IsSoundMap, IsSound, modify-IsSoundMap,
}
use brewery_bitcoin.Prelude.{
  ℕ, ◌≤◌, ◌<◌, ◌≡◌, refl, sym, subst, inl, inr, ◌||◌, Option, none, some, arith, Bool-cases,
  Option-cases, get_elem?, ℤ, pos, max_int32, modify,
}
use brewery_bitcoin.Btcclient.Manager.Preserves.{evict_peer-IsSound}

-- Where a step moves, it moves to a sound manager, and it does not panic.
abbrev pub Keeps : ℕ → ℤ → Moved → Type 0
Keeps m limit (moved pm) = IsSound m limit pm
Keeps m limit blocked = Unit
Keeps m limit panicked = ⊥

module _ {m : ℕ} where
  exited_sound : (mp : ManagedPeer) → IsSoundPeer m mp → IsSoundPeer m (go_to exited mp)
  exited_sound mp h = ground arith

module _ {m : ℕ} {limit : ℤ} where
  -- a write to one peer that keeps its address and its soundness
  write_peer-IsSound :
      (pm : PeerManager) (id : ℕ) (mp : ManagedPeer) (f : ManagedPeer → ManagedPeer)
      → get_elem? pm.heap id ≡ some mp
      → ((x : ManagedPeer) → (f x).address ≡ x.address)
      → (IsSoundPeer m mp → IsSoundPeer m (f mp))
      → IsSound m limit pm
      → IsSoundMap m pm.peers (modify id f pm.heap) pm.max_peers
  write_peer-IsSound pm id mp f there same_address keeps h =
      modify-IsSoundMap h.map_ok id f same_address (λ x at s.
        subst (λ y. IsSoundPeer m (f y)) (unique x at)
          (keeps (subst (IsSoundPeer m) (sym (unique x at)) s)))
    where
      unique : (x : ManagedPeer) → get_elem? pm.heap id ≡ some x → mp ≡ x
      unique x at = cc (at, there)

  exit_loop-IsSound :
      (pm : PeerManager) (id : ℕ) → IsSound m limit pm → IsSound m limit (exit_loop pm id)
  exit_loop-IsSound pm id h = record {
    threshold = h.threshold;
    capacity = h.capacity;
    map_ok = modify-IsSoundMap h.map_ok id (go_to exited) (λ x. refl) (λ x _ s. exited_sound x s);
  }

module _ {m : ℕ} (positive : 0 < m) where
  fail_sound :
      m ≤ max_int32
      → (mp : ManagedPeer) → mp.point ≡ dialing
      → IsSoundPeer m mp
      → IsSoundPeer m (fail (pos m) mp)
  unfolding fail
  fail_sound fits mp at h = ground arith

module _ {m : ℕ} {limit : ℤ} (positive : 0 < m) where
  after_wait-Keeps :
      (pm : PeerManager) (id : ℕ) (mp : ManagedPeer)
      → get_elem? pm.heap id ≡ some mp
      → mp.point ≡ attached
      → IsSound m limit pm
      → (l : Option Link) → mp.peer ≡ l
      → Keeps m limit (after_wait pm id l)
  unfolding detach
  after_wait-Keeps pm id mp there at h none e =
      absurd (ground (arith, at, e, (h.map_ok.sound id mp there).linked))
  after_wait-Keeps pm id mp there at h (some up) e = tt
  after_wait-Keeps pm id mp there at h (some down) e = record {
    threshold = h.threshold;
    capacity = h.capacity;
    map_ok = write_peer-IsSound pm id mp detach there (λ x. refl) (λ s. ground (arith, at)) h;
  }

  step_from-Keeps :
      m ≤ max_int32
      → (pm : PeerManager) (id : ℕ) (mp : ManagedPeer) (p : Point) (c : Choice)
      → get_elem? pm.heap id ≡ some mp
      → mp.point ≡ p
      → IsSound m limit pm
      → Keeps m limit (step_from pm id mp p c)
  unfolding step_from
  step_from-Keeps fits pm id mp top proceed there at h =
      elim (Bool-cases (pm.is_done || mp.cancelled)) [
        | inl stop ↦ rw stop (exit_loop-IsSound pm id h)
        | inr run ↦ rw run (record {
          threshold = h.threshold;
          capacity = h.capacity;
          map_ok =
              write_peer-IsSound pm id mp (λ x. go_to dialing (set_status connecting x)) there
                (λ x. refl) (λ s. ground (arith, at)) h;
        })
      ]
  step_from-Keeps fits pm id mp dialing dial_ok there at h = record {
    threshold = h.threshold;
    capacity = h.capacity;
    map_ok = write_peer-IsSound pm id mp _ there (λ x. refl) (λ s. ground (arith, at)) h;
  }
  step_from-Keeps fits pm id mp dialing dial_error there at h = record {
    threshold = h.threshold;
    capacity = h.capacity;
    map_ok =
        write_peer-IsSound pm id mp _ there (λ x. refl)
          (λ s. rw h.threshold (fail_sound positive fits mp at s)) h;
  }
  step_from-Keeps fits pm id mp evicting proceed there at h =
      exit_loop-IsSound (evict_peer pm id) id (evict_peer-IsSound pm id h)
  step_from-Keeps fits pm id mp opened proceed there at h = record {
    threshold = h.threshold;
    capacity = h.capacity;
    map_ok = write_peer-IsSound pm id mp _ there (λ x. refl) (λ s. ground (arith, at)) h;
  }
  step_from-Keeps fits pm id mp attached proceed there at h =
      after_wait-Keeps pm id mp there at h mp.peer refl
  step_from-Keeps fits pm id mp waiting timer there at h = record {
    threshold = h.threshold;
    capacity = h.capacity;
    map_ok = write_peer-IsSound pm id mp _ there (λ x. refl) (λ s. ground (arith, at)) h;
  }
  step_from-Keeps fits pm id mp waiting woken there at h =
      elim (Bool-cases (pm.is_done || mp.cancelled)) [
        | inl stop ↦ rw stop (exit_loop-IsSound pm id h)
        | inr run ↦ rw run tt
      ]
  step_from-Keeps fits pm id mp _ _ there at h = tt

  -- One step of a goroutine keeps the invariant, and does not dereference a nil pointer.
  pub loop_step-Keeps :
      m ≤ max_int32
      → (pm : PeerManager) (id : ℕ) (c : Choice) → IsSound m limit pm
      → Keeps m limit (loop_step pm id c)
  unfolding loop_step
  loop_step-Keeps fits pm id c h = elim (Option-cases (get_elem? pm.heap id)) [
    | inl absent ↦ rw (absent, loop_step) tt
    | inr (mp, there) ↦
        rw (there, loop_step) (step_from-Keeps fits pm id mp mp.point c there refl h)
  ]

  pub remote_close-IsSound :
      (pm : PeerManager) (id : ℕ) → IsSound m limit pm → IsSound m limit (remote_close pm id)
  unfolding remote_close
  remote_close-IsSound pm id h = record {
    threshold = h.threshold;
    capacity = h.capacity;
    map_ok = modify-IsSoundMap h.map_ok id _ (λ x. refl) (λ x _ s. ground arith);
  }

  pub cancel_context-IsSound :
      (pm : PeerManager) (id : ℕ) → IsSound m limit pm → IsSound m limit (cancel_context pm id)
  unfolding cancel_context
  cancel_context-IsSound pm id h = record {
    threshold = h.threshold;
    capacity = h.capacity;
    map_ok = modify-IsSoundMap h.map_ok id _ (λ x. refl) (λ x _ s. ground arith);
  }
