-- ===== src/Btcclient/Manager/Flags.antt =====
-- pkg/btcclient/manager.go: the channel done and the field started under the operations of the
-- manager.
use brewery_bitcoin.Btcclient.Peer.{
  ManagedPeer, Link, up, down, Point, top, dialing, opened, evicting, attached, waiting,
}
use brewery_bitcoin.Btcclient.Manager.{
  PeerManager, spawn, add_peer, remove_peer, remove_all, run_health_checks, to_remove,
  add_discovered_peers, evict_peer,
}
use brewery_bitcoin.Btcclient.Manager.Loop.{
  Choice, proceed, dial_ok, dial_error, timer, woken, Moved, moved, blocked, panicked, step_from,
  loop_step, after_wait,
}
use brewery_bitcoin.Prelude.{
  ℕ, ◌≡◌, refl, ◌∙◌, subst, inl, inr, Bool, false, Option, none, some, List, [], ◌∷◌, arith,
  Option-cases, get_elem?, Bytes,
}

-- whether done is closed, and whether the manager is started
abbrev pub flags : PeerManager → Bool × Bool
flags pm = (pm.is_done, pm.started)

pub flags-add_peer :
    (pm : PeerManager) (cancelled : Bool) (a : Bytes) → flags (add_peer pm cancelled a).0 ≡ flags pm
unfolding add_peer
flags-add_peer pm cancelled a = ground arith

pub flags-remove_peer : (pm : PeerManager) (a : Bytes) → flags (remove_peer pm a).0 ≡ flags pm
unfolding remove_peer
flags-remove_peer pm a = ground arith

flags-remove_all :
    (addresses : List Bytes) (pm : PeerManager) → flags (remove_all pm addresses) ≡ flags pm
unfolding remove_all
flags-remove_all [] pm = refl
flags-remove_all (a ∷ rest) pm = flags-remove_all rest (remove_peer pm a).0 ∙ flags-remove_peer pm a

pub flags-run_health_checks : (pm : PeerManager) → flags (run_health_checks pm) ≡ flags pm
unfolding run_health_checks
flags-run_health_checks pm = flags-remove_all (to_remove pm pm.peers) pm

pub flags-add_discovered_peers :
    (addresses : List Bytes) (pm : PeerManager)
    → flags (add_discovered_peers pm addresses) ≡ flags pm
unfolding add_discovered_peers
flags-add_discovered_peers [] pm = refl
flags-add_discovered_peers (a ∷ rest) pm =
    ground (
      arith,
      flags-add_discovered_peers rest pm,
      flags-add_discovered_peers rest (spawn pm a false),
    )

flags-evict_peer : (pm : PeerManager) (id : ℕ) → flags (evict_peer pm id) ≡ flags pm
unfolding evict_peer
flags-evict_peer pm id = elim (Option-cases (get_elem? pm.heap id)) [
  | inl absent ↦ rw (absent, evict_peer)
  | inr (mp, there) ↦ rw (there, evict_peer) (flags-remove_peer pm mp.address)
]

abbrev SameFlags : PeerManager → Moved → Type 0
SameFlags pm (moved pm') = flags pm' ≡ flags pm
SameFlags pm blocked = Unit
SameFlags pm panicked = Unit

after_wait-SameFlags :
    (pm : PeerManager) (id : ℕ) (l : Option Link) → SameFlags pm (after_wait pm id l)
after_wait-SameFlags pm id none = tt
after_wait-SameFlags pm id (some up) = tt
after_wait-SameFlags pm id (some down) = refl

step_from-SameFlags :
    (pm : PeerManager) (id : ℕ) (mp : ManagedPeer) (p : Point) (c : Choice)
    → SameFlags pm (step_from pm id mp p c)
unfolding step_from
step_from-SameFlags pm id mp top proceed = ground arith
step_from-SameFlags pm id mp dialing dial_ok = refl
step_from-SameFlags pm id mp dialing dial_error = refl
step_from-SameFlags pm id mp evicting proceed = flags-evict_peer pm id
step_from-SameFlags pm id mp opened proceed = refl
step_from-SameFlags pm id mp attached proceed = after_wait-SameFlags pm id mp.peer
step_from-SameFlags pm id mp waiting timer = refl
step_from-SameFlags pm id mp waiting woken = ground arith
step_from-SameFlags pm id mp _ _ = tt

pub flags-loop_step :
    (pm pm' : PeerManager) (id : ℕ) (c : Choice)
    → loop_step pm id c ≡ moved pm'
    → flags pm' ≡ flags pm
unfolding loop_step
flags-loop_step pm pm' id c e = elim (Option-cases (get_elem? pm.heap id)) [
  | inl absent ↦ absurd (ground (arith, e, absent))
  | inr (mp, there) ↦
      let here : step_from pm id mp mp.point c ≡ moved pm' = rw (there, loop_step) at e in
      subst (SameFlags pm) here (step_from-SameFlags pm id mp mp.point c)
]
