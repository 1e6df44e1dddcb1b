-- ===== src/Btcclient/Manager/Drains.antt =====
-- pkg/btcclient/manager.go: connectionLoop after the channel done is closed. The rank of a goroutine
-- bounds the steps that it has left, and every step lowers it.
use brewery_bitcoin.Btcclient.Peer.{
  ManagedPeer, Link, up, down, Point, top, dialing, opened, evicting, attached, waiting, exited,
  cancel_and_disconnect, set_status, set_peer, go_to,
}
use brewery_bitcoin.Btcclient.Manager.{PeerManager, remove_peer, evict_peer}
use brewery_bitcoin.Btcclient.Manager.Loop.{
  Choice, proceed, dial_ok, dial_error, timer, woken, Moved, moved, fail, connect, detach,
  after_wait, step_from, loop_step,
}
use brewery_bitcoin.Btcclient.Manager.Goroutines.{evict_peer-point}
use brewery_bitcoin.Prelude.{
  ℕ, zero, suc, ◌+◌, ◌<◌, ◌≡◌, refl, ap, inl, inr, true, Option, none, some, List, [], ◌∷◌, arith,
  Option-cases, get_elem?, lookup, modify,
}

abbrev pub rank : Point → ℕ
rank exited = 0
rank top = 1
rank evicting = 1
rank waiting = 2
rank attached = 3
rank opened = 4
rank dialing = 5

abbrev pub total : List ManagedPeer → ℕ
total [] = 0
total (mp ∷ heap) = rank mp.point + total heap

total-modify :
    (id : ℕ) (f : ManagedPeer → ManagedPeer) (heap : List ManagedPeer) (mp : ManagedPeer)
    → get_elem? heap id ≡ some mp
    → total (modify id f heap) + rank mp.point ≡ total heap + rank (f mp).point
unfolding modify
total-modify id f [] mp h = absurd (cc h)
total-modify zero f (x ∷ heap) mp h = let e : x ≡ mp = cc h in rw e (omega arith)
total-modify (suc id) f (x ∷ heap) mp h = omega (arith, total-modify id f heap mp h)

pub total-modify_same :
    (id : ℕ) (f : ManagedPeer → ManagedPeer) (heap : List ManagedPeer)
    → ((x : ManagedPeer) → (f x).point ≡ x.point)
    → total (modify id f heap) ≡ total heap
unfolding modify
total-modify_same id f [] h = refl
total-modify_same zero f (x ∷ heap) h = rw (h x) refl
total-modify_same (suc id) f (x ∷ heap) h =
    ap (λ n. rank x.point + n) (total-modify_same id f heap h)

total-evict_peer : (pm : PeerManager) (id : ℕ) → total (evict_peer pm id).heap ≡ total pm.heap
unfolding evict_peer remove_peer cancel_and_disconnect
total-evict_peer pm id = elim (Option-cases (get_elem? pm.heap id)) [
  | inl absent ↦ rw (absent, evict_peer) refl
  | inr (mp, there) ↦ elim (Option-cases (lookup mp.address pm.peers)) [
    | inl unknown ↦ ground (arith, there, unknown)
    | inr (id', managed) ↦
        ground
          (arith, there, managed, total-modify_same id' cancel_and_disconnect pm.heap (λ x. refl))
  ]
]

-- what a step leaves of the rank
abbrev pub Lowers : ℕ → Moved → Type 0
Lowers n (moved pm) = total pm.heap < n
Lowers n _ = Unit

lowers :
    (pm : PeerManager) (id : ℕ) (mp : ManagedPeer) (f : ManagedPeer → ManagedPeer)
    → get_elem? pm.heap id ≡ some mp
    → rank (f mp).point < rank mp.point
    → total (modify id f pm.heap) < total pm.heap
lowers pm id mp f there less_rank = omega (arith, less_rank, total-modify id f pm.heap mp there)

after_wait-Lowers :
    (pm : PeerManager) (id : ℕ) (mp : ManagedPeer) (l : Option Link)
    → get_elem? pm.heap id ≡ some mp
    → mp.point ≡ attached
    → Lowers (total pm.heap) (after_wait pm id l)
unfolding detach
after_wait-Lowers pm id mp none there at = tt
after_wait-Lowers pm id mp (some up) there at = tt
after_wait-Lowers pm id mp (some down) there at = lowers pm id mp detach there (rw at (omega arith))

step_from-Lowers :
    (pm : PeerManager) (id : ℕ) (mp : ManagedPeer) (p : Point) (c : Choice)
    → pm.is_done ≡ true
    → get_elem? pm.heap id ≡ some mp
    → mp.point ≡ p
    → Lowers (total pm.heap) (step_from pm id mp p c)
unfolding step_from fail connect set_status set_peer
step_from-Lowers pm id mp top proceed done there at =
    rw done (lowers pm id mp (go_to exited) there (rw at (omega arith)))
step_from-Lowers pm id mp dialing dial_ok done there at =
    lowers pm id mp _ there (rw at (omega arith))
step_from-Lowers pm id mp dialing dial_error done there at =
    lowers pm id mp (fail pm.max_failure_count) there (ground arith)
step_from-Lowers pm id mp evicting proceed done there at =
    let (mp', there', same_point) = evict_peer-point pm id mp there in
    let after =
      lowers (evict_peer pm id) id mp' (go_to exited) there' (rw (same_point, at) (omega arith)) in
    omega (arith, after, total-evict_peer pm id)
step_from-Lowers pm id mp opened proceed done there at =
    lowers pm id mp connect there (rw at (omega arith))
step_from-Lowers pm id mp attached proceed done there at =
    after_wait-Lowers pm id mp mp.peer there at
step_from-Lowers pm id mp waiting timer done there at =
    lowers pm id mp (go_to top) there (rw at (omega arith))
step_from-Lowers pm id mp waiting woken done there at =
    rw done (lowers pm id mp (go_to exited) there (rw at (omega arith)))
step_from-Lowers pm id mp _ _ done there at = tt

-- Once done is closed, every step of a goroutine lowers the rank.
pub loop_step-Lowers :
    (pm : PeerManager) (id : ℕ) (c : Choice)
    → pm.is_done ≡ true
    → Lowers (total pm.heap) (loop_step pm id c)
unfolding loop_step
loop_step-Lowers pm id c done = elim (Option-cases (get_elem? pm.heap id)) [
  | inl absent ↦ rw (absent, loop_step) tt
  | inr (mp, there) ↦ rw (there, loop_step) (step_from-Lowers pm id mp mp.point c done there refl)
]
