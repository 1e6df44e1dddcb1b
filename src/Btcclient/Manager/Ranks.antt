-- ===== src/Btcclient/Manager/Ranks.antt =====
-- pkg/btcclient/manager.go: the ranks of the goroutines and the number of objects, under every
-- operation of the manager.
use brewery_bitcoin.Btcclient.Peer.{
  ManagedPeer, Link, up, down, Point, top, dialing, opened, evicting, attached, waiting, exited,
  cancel_and_disconnect, new_managed_peer, go_to,
}
use brewery_bitcoin.Btcclient.Manager.{
  PeerManager, spawn, add_peer, remove_peer, remove_all, to_remove, run_health_checks,
  add_discovered_peers, evict_peer,
}
use brewery_bitcoin.Btcclient.Manager.Loop.{
  Choice, proceed, dial_ok, dial_error, timer, woken, Moved, moved, blocked, panicked, after_wait,
  step_from, loop_step,
}
use brewery_bitcoin.Btcclient.Manager.Drains.{rank, total, total-modify_same}
use brewery_bitcoin.Prelude.{
  ℕ, ◌+◌, ◌≤◌, ◌≡◌, refl, ap, ◌∙◌, subst, inl, inr, Bool, false, ◌||◌, Option, none, some, List, [],
  ◌∷◌, ◌++◌, arith, Bool-cases, Option-cases, is_some, length, get_elem?, length-append, pos, lebℤ,
  Bytes, lookup, modify, length-modify,
}

-- the sum of the ranks, and the number of objects
abbrev pub sizes : List ManagedPeer → ℕ × ℕ
sizes heap = (total heap, length heap)

pub sizes-modify :
    (id : ℕ) (f : ManagedPeer → ManagedPeer) (heap : List ManagedPeer)
    → ((x : ManagedPeer) → (f x).point ≡ x.point)
    → sizes (modify id f heap) ≡ sizes heap
sizes-modify id f heap still =
    ground (arith, total-modify_same id f heap still, length-modify id f heap)

pub sizes-remove_peer :
    (pm : PeerManager) (a : Bytes) → sizes (remove_peer pm a).0.heap ≡ sizes pm.heap
unfolding remove_peer cancel_and_disconnect
sizes-remove_peer pm a = elim (Option-cases (lookup a pm.peers)) [
  | inl absent ↦ rw (remove_peer, absent) refl
  | inr (id, there) ↦
      rw (remove_peer, there) (sizes-modify id cancel_and_disconnect pm.heap (λ x. refl))
]

sizes-remove_all :
    (addresses : List Bytes) (pm : PeerManager)
    → sizes (remove_all pm addresses).heap ≡ sizes pm.heap
unfolding remove_all
sizes-remove_all [] pm = refl
sizes-remove_all (a ∷ rest) pm = sizes-remove_all rest (remove_peer pm a).0 ∙ sizes-remove_peer pm a

pub sizes-run_health_checks : (pm : PeerManager) → sizes (run_health_checks pm).heap ≡ sizes pm.heap
unfolding run_health_checks
sizes-run_health_checks pm = sizes-remove_all (to_remove pm pm.peers) pm

total-snoc :
    (heap : List ManagedPeer) (x : ManagedPeer) → total (heap ++ x ∷ []) ≡ total heap + rank x.point
total-snoc [] x = omega arith
total-snoc (y ∷ heap) x = omega (arith, total-snoc heap x)

-- Each new object brings a rank of 1.
abbrev pub Grows : List ManagedPeer → List ManagedPeer → Type 0
Grows heap heap' = total heap' + length heap ≤ total heap + length heap'

pub same_sizes : (heap heap' : List ManagedPeer) → sizes heap' ≡ sizes heap → Grows heap heap'
same_sizes heap heap' h = ground (arith, h)

spawn-Grows : (pm : PeerManager) (a : Bytes) (b : Bool) → Grows pm.heap (spawn pm a b).heap
unfolding spawn new_managed_peer
spawn-Grows pm a b =
    let x = new_managed_peer a b in
    omega (arith, total-snoc pm.heap x, length-append pm.heap (x ∷ []))

pub add_peer-Grows :
    (pm : PeerManager) (b : Bool) (a : Bytes) → Grows pm.heap (add_peer pm b a).0.heap
unfolding add_peer
add_peer-Grows pm b a = elim (Bool-cases (is_some (lookup a pm.peers))) [
  | inl known ↦ rw known (omega arith)
  | inr new ↦ elim (Bool-cases (lebℤ pm.max_peers (pos (length pm.peers)))) [
    | inl full ↦ rw (new, full) (omega arith)
    | inr room ↦ rw (new, room) (spawn-Grows pm a b)
  ]
]

pub add_discovered_peers-Grows :
    (addresses : List Bytes) (pm : PeerManager)
    → Grows pm.heap (add_discovered_peers pm addresses).heap
unfolding add_discovered_peers
add_discovered_peers-Grows [] pm = omega arith
add_discovered_peers-Grows (a ∷ rest) pm =
    elim (Bool-cases (lebℤ pm.max_peers (pos (length pm.peers)))) [
      | inl full ↦ rw full (omega arith)
      | inr room ↦ elim (Bool-cases (is_some (lookup a pm.peers))) [
        | inl known ↦ rw (room, known) (add_discovered_peers-Grows rest pm)
        | inr new ↦
            rw (room, new)
              (omega
                (arith, spawn-Grows pm a false, add_discovered_peers-Grows rest (spawn pm a false)))
      ]
    ]

abbrev SameLength : PeerManager → Moved → Type 0
SameLength pm (moved pm') = length pm'.heap ≡ length pm.heap
SameLength pm blocked = Unit
SameLength pm panicked = Unit

length-evict_peer : (pm : PeerManager) (id : ℕ) → length (evict_peer pm id).heap ≡ length pm.heap
unfolding evict_peer
length-evict_peer pm id = elim (Option-cases (get_elem? pm.heap id)) [
  | inl absent ↦ rw (absent, evict_peer) refl
  | inr (mp, there) ↦
      rw (there, evict_peer) (ap (λ (p : ℕ × ℕ). p.1) (sizes-remove_peer pm mp.address))
]

after_wait-SameLength :
    (pm : PeerManager) (id : ℕ) (l : Option Link) → SameLength pm (after_wait pm id l)
after_wait-SameLength pm id none = tt
after_wait-SameLength pm id (some up) = tt
after_wait-SameLength pm id (some down) = length-modify id _ pm.heap

step_from-SameLength :
    (pm : PeerManager) (id : ℕ) (mp : ManagedPeer) (p : Point) (c : Choice)
    → SameLength pm (step_from pm id mp p c)
unfolding step_from
step_from-SameLength pm id mp top proceed = elim (Bool-cases (pm.is_done || mp.cancelled)) [
  | inl stop ↦ rw stop (length-modify id (go_to exited) pm.heap)
  | inr run ↦ rw run (length-modify id _ pm.heap)
]
step_from-SameLength pm id mp dialing dial_ok = length-modify id _ pm.heap
step_from-SameLength pm id mp dialing dial_error = length-modify id _ pm.heap
step_from-SameLength pm id mp evicting proceed =
    length-modify id (go_to exited) (evict_peer pm id).heap ∙ length-evict_peer pm id
step_from-SameLength pm id mp opened proceed = length-modify id _ pm.heap
step_from-SameLength pm id mp attached proceed = after_wait-SameLength pm id mp.peer
step_from-SameLength pm id mp waiting timer = length-modify id _ pm.heap
step_from-SameLength pm id mp waiting woken = elim (Bool-cases (pm.is_done || mp.cancelled)) [
  | inl stop ↦ rw stop (length-modify id (go_to exited) pm.heap)
  | inr run ↦ rw run tt
]
step_from-SameLength pm id mp _ _ = tt

pub length-loop_step :
    (pm pm' : PeerManager) (id : ℕ) (c : Choice)
    → loop_step pm id c ≡ moved pm'
    → length pm'.heap ≡ length pm.heap
unfolding loop_step
length-loop_step pm pm' id c e = subst (SameLength pm) e (same_length)
  where
    same_length : SameLength pm (loop_step pm id c)
    same_length = elim (Option-cases (get_elem? pm.heap id)) [
      | inl absent ↦ rw (absent, loop_step) tt
      | inr (mp, there) ↦ rw (there, loop_step) (step_from-SameLength pm id mp mp.point c)
    ]
