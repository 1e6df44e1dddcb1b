-- ===== src/Btcclient/Manager/Invariant.antt =====
-- pkg/btcclient/manager.go: the invariant of the map of peers and of the objects on the heap.
use brewery_bitcoin.Btcclient.Peer.{
  ManagedPeer, PeerStatus, Link, Point, opened, evicting, attached, exited, disconnected,
  connecting, connected, unhealthy, other,
}
use brewery_bitcoin.Btcclient.Manager.{PeerManager}
use brewery_bitcoin.Prelude.{
  ℕ, ◌+◌, ◌≤◌, ◌≡◌, sym, ◌∙◌, subst, inl, inr, Bool, true, false, Option, none, some, List, [], ◌∷◌,
  ◌++◌, arith, ◌==◌, if◌then◌else◌, Bool-cases, length, get_elem?, IsDistinct, ℤ, pos, negsuc, lebℤ,
  Bytes, same, same_iff, Dict, lookup, insert, remove, keys, lookup-insert, lookup-remove,
  IsDistinct-insert, IsDistinct-remove, length-insert, length-remove, modify, get-modified,
  modified-inv, get-snoc_old, get-snoc_new, snoc-inv,
}

abbrev pub is_used : PeerStatus → Bool
is_used disconnected = true
is_used connecting = true
is_used connected = true
is_used unhealthy = false
is_used (other n) = false

-- how far a peer at this point of its loop is below the failure threshold, at least
abbrev pub room : Point → ℕ
room evicting = 0
room exited = 0
room _ = 1

abbrev pub Counted : ℕ → Point → ℤ → Type 0
Counted m p (pos n) = n + room p ≤ m
Counted m p (negsuc n) = ⊥

-- a peer that WaitForDisconnect will be called on is not nil
abbrev pub Linked : Point → Option Link → Type 0
Linked opened none = ⊥
Linked attached none = ⊥
Linked _ _ = Unit

-- One peer, for a failure threshold of `m`: its status is never unhealthy, its failure count is
-- between 0 and the threshold, and below it but for a peer that is evicted or gone.
pub record IsSoundPeer (m : ℕ) (mp : ManagedPeer) : Type 0 where
  pub used : is_used mp.status ≡ true
  pub counted : Counted m mp.point mp.failure_count
  pub linked : Linked mp.point mp.peer

-- The map and the heap of a manager that may hold `max_peers`.
pub record IsSoundMap (m : ℕ) (peers : Dict ℕ) (heap : List ManagedPeer) (max_peers : ℤ)
    : Type 0 where
  pub distinct : IsDistinct (keys peers)
  pub bounded : lebℤ (pos (length peers)) max_peers ≡ true
  pub owned :
      (a : Bytes) (id : ℕ)
      → lookup a peers ≡ some id
      → (mp : ManagedPeer) × (get_elem? heap id ≡ some mp) × (mp.address ≡ a)
  pub sound : (id : ℕ) (mp : ManagedPeer) → get_elem? heap id ≡ some mp → IsSoundPeer m mp

-- The manager, for a failure threshold of `m` and a limit of `limit` peers.
pub record IsSound (m : ℕ) (limit : ℤ) (pm : PeerManager) : Type 0 where
  pub capacity : pm.max_peers ≡ limit
  pub threshold : pm.max_failure_count ≡ pos m
  pub map_ok : IsSoundMap m pm.peers pm.heap pm.max_peers

module _ {m : ℕ} {peers : Dict ℕ} {heap : List ManagedPeer} {max_peers : ℤ}
    (h : IsSoundMap m peers heap max_peers) where
  pub modify-IsSoundMap :
      (id : ℕ) (f : ManagedPeer → ManagedPeer)
      → ((mp : ManagedPeer) → (f mp).address ≡ mp.address)
      → ((mp : ManagedPeer) → get_elem? heap id ≡ some mp → IsSoundPeer m mp → IsSoundPeer m (f mp))
      → IsSoundMap m peers (modify id f heap) max_peers
  modify-IsSoundMap id f same_address keeps = record {
    distinct = h.distinct;
    bounded = h.bounded;
    owned = λ a i at.
        let (mp, there, named) = h.owned a i at in
        (
          if id == i then f mp else mp,
          get-modified id i f heap mp there,
          ground (arith, named, same_address mp),
        );
    sound = λ i mp at.
        let (old, there, e) = modified-inv id i f heap mp at in
        elim (Bool-cases (id == i)) [
          | inl here ↦
              let e' : mp ≡ f old = ground (arith, e, here) in
              rw e' (keeps old (ground (arith, there, here)) (h.sound i old there))
          | inr elsewhere ↦
              let e' : mp ≡ old = ground (arith, e, elsewhere) in rw e' (h.sound i old there)
        ];
  }

  pub remove-IsSoundMap : (address : Bytes) → IsSoundMap m (remove address peers) heap max_peers
  remove-IsSoundMap address = record {
    distinct = IsDistinct-remove address peers h.distinct;
    bounded = ground (arith, h.bounded, length-remove address peers h.distinct);
    owned = λ a i at. h.owned a i (ground (arith, at, lookup-remove address a peers));
    sound = h.sound;
  }

  pub spawn-IsSoundMap :
      (address : Bytes) (mp : ManagedPeer)
      → lookup address peers ≡ none
      → lebℤ max_peers (pos (length peers)) ≡ false
      → mp.address ≡ address
      → IsSoundPeer m mp
      → IsSoundMap m (insert address (length heap) peers) (heap ++ mp ∷ []) max_peers
  spawn-IsSoundMap address mp absent room_left named good = record {
    distinct = IsDistinct-insert address (length heap) peers h.distinct;
    bounded =
        ground (arith, h.bounded, absent, room_left, length-insert address (length heap) peers);
    owned = λ a i at. elim (Bool-cases (same address a)) [
      | inl here ↦ (
        mp,
        subst (λ n. get_elem? (heap ++ mp ∷ []) n ≡ some mp)
            (ground (arith, at, here, lookup-insert address a (length heap) peers))
            (get-snoc_new mp heap),
        named ∙ (same_iff address a).0 here,
      )
      | inr apart ↦
          let (x, there, its_name) =
            h.owned a i (ground (arith, at, apart, lookup-insert address a (length heap) peers)) in
          (x, get-snoc_old mp heap i x there, its_name)
    ];
    sound = λ i x at. elim (snoc-inv mp heap i x at) [
      | inl old ↦ h.sound i x old
      | inr new ↦ rw (sym new) good
    ];
  }
