-- ===== src/Btcclient/Manager/Preserves.antt =====
-- pkg/btcclient/manager.go: every operation keeps the invariant.
use brewery_bitcoin.Btcclient.Peer.{ManagedPeer, new_managed_peer, cancel_and_disconnect}
use brewery_bitcoin.Btcclient.Manager.{
  PeerManager, spawn, add_peer, remove_peer, to_remove, remove_all, run_health_checks,
  add_discovered_peers, evict_peer,
}
use brewery_bitcoin.Btcclient.Manager.Invariant.{
  IsSoundPeer, IsSound, modify-IsSoundMap, remove-IsSoundMap, spawn-IsSoundMap,
}
use brewery_bitcoin.Prelude.{
  ℕ, ◌<◌, ◌≡◌, refl, inl, inr, Bool, false, none, List, [], ◌∷◌, arith, Bool-cases, Option-cases,
  length, get_elem?, ℤ, pos, lebℤ, Bytes, lookup,
}

module _ {m : ℕ} where
  pub cancel_and_disconnect_sound :
      (mp : ManagedPeer) → IsSoundPeer m mp → IsSoundPeer m (cancel_and_disconnect mp)
  unfolding cancel_and_disconnect
  cancel_and_disconnect_sound mp h = ground arith

module _ {m : ℕ} {limit : ℤ} where
  pub remove_peer-IsSound :
      (pm : PeerManager) (address : Bytes)
      → IsSound m limit pm
      → IsSound m limit (remove_peer pm address).0
  unfolding remove_peer
  remove_peer-IsSound pm address h = elim (Option-cases (lookup address pm.peers)) [
    | inl absent ↦ rw (absent, remove_peer) h
    | inr (id, there) ↦
        rw (there, remove_peer)
          (record {
            threshold = h.threshold;
            capacity = h.capacity;
            map_ok =
                modify-IsSoundMap (remove-IsSoundMap h.map_ok address) id cancel_and_disconnect
                  (λ mp. refl) (λ mp _ s. cancel_and_disconnect_sound mp s);
          })
  ]

  remove_all-IsSound :
      (addresses : List Bytes) (pm : PeerManager)
      → IsSound m limit pm
      → IsSound m limit (remove_all pm addresses)
  unfolding remove_all
  remove_all-IsSound [] pm h = h
  remove_all-IsSound (a ∷ rest) pm h =
      remove_all-IsSound rest (remove_peer pm a).0 (remove_peer-IsSound pm a h)

  pub run_health_checks-IsSound :
      (pm : PeerManager) → IsSound m limit pm → IsSound m limit (run_health_checks pm)
  unfolding run_health_checks
  run_health_checks-IsSound pm h = remove_all-IsSound (to_remove pm pm.peers) pm h

  pub evict_peer-IsSound :
      (pm : PeerManager) (id : ℕ) → IsSound m limit pm → IsSound m limit (evict_peer pm id)
  unfolding evict_peer
  evict_peer-IsSound pm id h = elim (Option-cases (get_elem? pm.heap id)) [
    | inl absent ↦ rw (absent, evict_peer) h
    | inr (mp, there) ↦ rw (there, evict_peer) (remove_peer-IsSound pm mp.address h)
  ]

module _ {m : ℕ} (positive : 0 < m) where
  new_managed_peer_sound :
      (address : Bytes) (cancelled : Bool) → IsSoundPeer m (new_managed_peer address cancelled)
  unfolding new_managed_peer
  new_managed_peer_sound address cancelled = ground arith

module _ {m : ℕ} {limit : ℤ} (positive : 0 < m) where
  spawn-IsSound :
      (pm : PeerManager) (address : Bytes) (cancelled : Bool)
      → lookup address pm.peers ≡ none
      → lebℤ pm.max_peers (pos (length pm.peers)) ≡ false
      → IsSound m limit pm
      → IsSound m limit (spawn pm address cancelled)
  unfolding spawn
  spawn-IsSound pm address cancelled absent room h = record {
    threshold = h.threshold;
    capacity = h.capacity;
    map_ok =
        spawn-IsSoundMap h.map_ok address _ absent room refl
          (new_managed_peer_sound positive address cancelled);
  }

  pub add_peer-IsSound :
      (pm : PeerManager) (cancelled : Bool) (address : Bytes)
      → IsSound m limit pm
      → IsSound m limit (add_peer pm cancelled address).0
  unfolding add_peer
  add_peer-IsSound pm cancelled address h = elim (Option-cases (lookup address pm.peers)) [
    | inr (id, there) ↦ rw there h
    | inl absent ↦ elim (Bool-cases (lebℤ pm.max_peers (pos (length pm.peers)))) [
      | inl full ↦ rw (absent, full) h
      | inr room ↦ rw (absent, room) (spawn-IsSound pm address cancelled absent room h)
    ]
  ]

  pub add_discovered_peers-IsSound :
      (addresses : List Bytes) (pm : PeerManager)
      → IsSound m limit pm
      → IsSound m limit (add_discovered_peers pm addresses)
  unfolding add_discovered_peers
  add_discovered_peers-IsSound [] pm h = h
  add_discovered_peers-IsSound (a ∷ rest) pm h =
      elim (Bool-cases (lebℤ pm.max_peers (pos (length pm.peers)))) [
        | inl full ↦ rw full h
        | inr room ↦ elim (Option-cases (lookup a pm.peers)) [
          | inr (id, there) ↦ rw (room, there) (add_discovered_peers-IsSound rest pm h)
          | inl absent ↦
              rw (room, absent)
                (add_discovered_peers-IsSound rest (spawn pm a false)
                  (spawn-IsSound pm a false absent room h))
        ]
      ]
