-- ===== src/Btcclient/Manager/Goroutines.antt =====
-- pkg/btcclient/manager.go: the counter of the wait group and the goroutines, under every operation.
use brewery_bitcoin.Btcclient.Peer.{
  ManagedPeer, Point, exited, cancel_and_disconnect, new_managed_peer,
}
use brewery_bitcoin.Btcclient.Manager.{
  PeerManager, spawn, add_peer, remove_peer, remove_all, to_remove, run_health_checks,
  add_discovered_peers, evict_peer,
}
use brewery_bitcoin.Btcclient.Manager.Loop.{write_peer}
use brewery_bitcoin.Prelude.{
  ℕ, zero, suc, ◌+◌, ◌≡◌, refl, sym, ap, ◌∙◌, inl, inr, Bool, false, some, List, [], ◌∷◌, ◌++◌,
  arith, ◌==◌, Bool-cases, Option-cases, is_some, length, get_elem?, pos, lebℤ, Bytes, lookup,
  modify, get_elem?-modify,
}

-- 1 for the point of a goroutine that has not returned
abbrev pub weight : Point → ℕ
weight exited = 0
weight _ = 1

-- the number of connection loops that have not returned
abbrev pub running : List ManagedPeer → ℕ
running [] = 0
running (mp ∷ heap) = weight mp.point + running heap

-- the counter of the wait group is the number of loops, and `extra` other goroutines
pub record IsBalanced (extra : ℕ) (pm : PeerManager) : Type 0 where
  pub counted : pm.wg ≡ running pm.heap + extra

pub running-modify :
    (id : ℕ) (f : ManagedPeer → ManagedPeer) (heap : List ManagedPeer) (mp : ManagedPeer)
    → get_elem? heap id ≡ some mp
    → running (modify id f heap) + weight mp.point ≡ running heap + weight (f mp).point
unfolding modify
running-modify id f [] mp h = absurd (cc h)
running-modify zero f (x ∷ heap) mp h = let e : x ≡ mp = cc h in rw e (omega arith)
running-modify (suc id) f (x ∷ heap) mp h = omega (arith, running-modify id f heap mp h)

pub running-modify_same :
    (id : ℕ) (f : ManagedPeer → ManagedPeer) (heap : List ManagedPeer)
    → ((x : ManagedPeer) → (f x).point ≡ x.point)
    → running (modify id f heap) ≡ running heap
unfolding modify
running-modify_same id f [] h = refl
running-modify_same zero f (x ∷ heap) h = rw (h x) refl
running-modify_same (suc id) f (x ∷ heap) h =
    ap (λ n. weight x.point + n) (running-modify_same id f heap h)

running-snoc :
    (heap : List ManagedPeer) (x : ManagedPeer)
    → running (heap ++ x ∷ []) ≡ running heap + weight x.point
running-snoc [] x = omega arith
running-snoc (y ∷ heap) x = omega (arith, running-snoc heap x)

-- evictPeer leaves every goroutine at its point.
pub evict_peer-point :
    (pm : PeerManager) (id : ℕ) (mp : ManagedPeer)
    → get_elem? pm.heap id ≡ some mp
    → (mp' : ManagedPeer) × (get_elem? (evict_peer pm id).heap id ≡ some mp')
      × (mp'.point ≡ mp.point)
unfolding evict_peer remove_peer cancel_and_disconnect
evict_peer-point pm id mp there = elim (Option-cases (lookup mp.address pm.peers)) [
  | inl absent ↦ (mp, ground (arith, there, absent), refl)
  | inr (id', managed) ↦ elim (Bool-cases (id' == id)) [
    | inl itself ↦ (
      cancel_and_disconnect mp,
      ground (arith, there, managed, itself, get_elem?-modify id' id cancel_and_disconnect pm.heap),
      refl,
    )
    | inr apart ↦ (
      mp,
      ground (arith, there, managed, apart, get_elem?-modify id' id cancel_and_disconnect pm.heap),
      refl,
    )
  ]
]

module _ {extra : ℕ} where
  spawn-IsBalanced :
      (pm : PeerManager) (a : Bytes) (b : Bool)
      → IsBalanced extra pm
      → IsBalanced extra (spawn pm a b)
  unfolding spawn new_managed_peer
  spawn-IsBalanced pm a b h = record {
    counted = omega (arith, h.counted, running-snoc pm.heap (new_managed_peer a b));
  }

  pub add_peer-IsBalanced :
      (pm : PeerManager) (b : Bool) (a : Bytes)
      → IsBalanced extra pm
      → IsBalanced extra (add_peer pm b a).0
  unfolding add_peer
  add_peer-IsBalanced pm b a h = elim (Bool-cases (is_some (lookup a pm.peers))) [
    | inl known ↦ simp known h
    | inr new ↦ elim (Bool-cases (lebℤ pm.max_peers (pos (length pm.peers)))) [
      | inl full ↦ simp (new, full) h
      | inr room ↦ simp (new, room) (spawn-IsBalanced pm a b h)
    ]
  ]

  pub remove_peer-IsBalanced :
      (pm : PeerManager) (a : Bytes) → IsBalanced extra pm → IsBalanced extra (remove_peer pm a).0
  unfolding remove_peer cancel_and_disconnect
  remove_peer-IsBalanced pm a h = elim (Option-cases (lookup a pm.peers)) [
    | inl absent ↦ rw (remove_peer, absent) h
    | inr (id, there) ↦
        rw (remove_peer, there)
          (record {
            counted =
                h.counted
                ∙ ap (λ n. n + extra)
                    (sym (running-modify_same id cancel_and_disconnect pm.heap (λ x. refl)));
          })
  ]

  remove_all-IsBalanced :
      (addrs : List Bytes) (pm : PeerManager)
      → IsBalanced extra pm
      → IsBalanced extra (remove_all pm addrs)
  unfolding remove_all
  remove_all-IsBalanced [] pm h = h
  remove_all-IsBalanced (a ∷ addrs) pm h =
      remove_all-IsBalanced addrs (remove_peer pm a).0 (remove_peer-IsBalanced pm a h)

  pub run_health_checks-IsBalanced :
      (pm : PeerManager) → IsBalanced extra pm → IsBalanced extra (run_health_checks pm)
  unfolding run_health_checks
  run_health_checks-IsBalanced pm h = remove_all-IsBalanced (to_remove pm pm.peers) pm h

  pub add_discovered_peers-IsBalanced :
      (addrs : List Bytes) (pm : PeerManager)
      → IsBalanced extra pm
      → IsBalanced extra (add_discovered_peers pm addrs)
  unfolding add_discovered_peers
  add_discovered_peers-IsBalanced [] pm h = h
  add_discovered_peers-IsBalanced (a ∷ addrs) pm h =
      elim (Bool-cases (lebℤ pm.max_peers (pos (length pm.peers)))) [
        | inl full ↦ rw full h
        | inr room ↦ elim (Option-cases (lookup a pm.peers)) [
          | inr (id, there) ↦ rw (room, there) (add_discovered_peers-IsBalanced addrs pm h)
          | inl absent ↦
              rw (room, absent)
                (add_discovered_peers-IsBalanced addrs (spawn pm a false)
                  (spawn-IsBalanced pm a false h))
        ]
      ]

  pub evict_peer-IsBalanced :
      (pm : PeerManager) (id : ℕ) → IsBalanced extra pm → IsBalanced extra (evict_peer pm id)
  unfolding evict_peer
  evict_peer-IsBalanced pm id h = elim (Option-cases (get_elem? pm.heap id)) [
    | inl absent ↦ rw (evict_peer, absent) h
    | inr (mp, there) ↦ rw (evict_peer, there) (remove_peer-IsBalanced pm mp.address h)
  ]

-- a write to an object that leaves its goroutine where it is
pub still-IsBalanced :
    {extra : ℕ} (pm : PeerManager) (id : ℕ) (f : ManagedPeer → ManagedPeer)
    → ((x : ManagedPeer) → (f x).point ≡ x.point)
    → IsBalanced extra pm
    → IsBalanced extra (write_peer pm id f)
still-IsBalanced {extra = extra} pm id f still h = record {
  counted = h.counted ∙ ap (λ n. n + extra) (sym (running-modify_same id f pm.heap still));
}
