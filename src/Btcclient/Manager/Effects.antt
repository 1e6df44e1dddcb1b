-- ===== src/Btcclient/Manager/Effects.antt =====
-- pkg/btcclient/manager.go: the operations of the manager and the map of peers.
use brewery_bitcoin.Stdlib.Sort.{occurs}
use brewery_bitcoin.Btcclient.Base.{ClientError, peer_already_exists, max_peers_reached}
use brewery_bitcoin.Btcclient.Peer.{ManagedPeer, new_managed_peer, cancel_and_disconnect}
use brewery_bitcoin.Btcclient.Manager.{
  PeerManager, spawn, add_peer, remove_peer, to_remove, remove_all, run_health_checks, exceeds,
  add_discovered_peers, evict_peer,
}
use brewery_bitcoin.Prelude.{
  ℕ, ◌+◌, ◌≡◌, refl, sym, ap, ◌∙◌, subst, ◌≢◌, ◌↔◌, ◌⊎◌, inl, inr, Bool, true, false, ◌&&◌, not,
  Option, none, some, List, [], ◌∷◌, arith, ◌==◌, if◌then◌else◌, Bool-cases, Option-cases, is_some,
  length, get_elem?, length-append, All, IsDistinct, pos, lebℤ, Bytes, same, same_iff, same_self,
  Dict, lookup, keys, lookup-insert, lookup-remove, length-insert, get_elem?-modify, get_elem?-snoc,
  none_of_absent,
}

-- The number of peers that a call has added, by its error.
abbrev pub added : Option ClientError → ℕ
added none = 1
added (some e) = 0

-- What a call that adds `a` may do of a manager, by the error that it returns: with one object, one
-- entry and one goroutine more, or none, the object standing last on the heap.
pub record IsAdd (pm : PeerManager) (cancelled : Bool) (a : Bytes) (pm' : PeerManager)
    (e : Option ClientError) : Type 0 where
  pub succeeds :
      (e ≡ none)
      ↔ ((lookup a pm.peers ≡ none) × (lebℤ (pos (length pm.peers + 1)) pm.max_peers ≡ true))
  pub refuses_known : (e ≡ some peer_already_exists) ↔ (is_some (lookup a pm.peers) ≡ true)
  pub objects : length pm'.heap ≡ length pm.heap + added e
  pub entries : length pm'.peers ≡ length pm.peers + added e
  pub goroutines : pm'.wg ≡ pm.wg + added e
  pub object :
      (i : ℕ)
      → get_elem? pm'.heap i ≡ (
          if not (is_some e) && (length pm.heap == i)
          then some (new_managed_peer a cancelled)
          else get_elem? pm.heap i)
  pub entry :
      (j : Bytes)
      → lookup j pm'.peers
        ≡ (if not (is_some e) && same a j then some (length pm.heap) else lookup j pm.peers)
  pub rest : pm' ≡ record pm { heap = pm'.heap; peers = pm'.peers; wg = pm'.wg }

refused-IsAdd :
    (pm : PeerManager) (cancelled : Bool) (a : Bytes) (x : ClientError)
    → (x ≡ peer_already_exists) ↔ (is_some (lookup a pm.peers) ≡ true)
    → lebℤ (pos (length pm.peers + 1)) pm.max_peers && not (is_some (lookup a pm.peers)) ≡ false
    → IsAdd pm cancelled a pm (some x)
refused-IsAdd pm cancelled a x known closed = record {
  succeeds = (λ h. absurd (cc h), λ h. absurd (ground (arith, h, closed)));
  refuses_known = (λ h. known.0 (cc h), λ h. ap some (known.1 h));
  objects = omega arith;
  entries = omega arith;
  goroutines = omega arith;
  object = λ i. refl;
  entry = λ j. refl;
  rest = refl;
}

-- addPeer succeeds exactly if the address is not managed and there is room for one more peer, and
-- says so when the address is the reason that it fails. It adds one new object, one entry for the
-- address and one goroutine in the wait group when it succeeds, and none of them otherwise. Every
-- object that there was, every entry for another address, and all else is as before.
pub add_peer_lem :
    (pm : PeerManager) (cancelled : Bool) (a : Bytes)
    → IsAdd pm cancelled a (add_peer pm cancelled a).0 (add_peer pm cancelled a).1
unfolding add_peer spawn
add_peer_lem pm cancelled a = elim (Option-cases (lookup a pm.peers)) [
  | inr (id, there) ↦
      rw (add_peer, there)
        (refused-IsAdd pm cancelled a peer_already_exists (λ h. ground (arith, there), λ h. refl)
          (ground (arith, there)))
  | inl absent ↦ elim (Bool-cases (lebℤ pm.max_peers (pos (length pm.peers)))) [
    | inl full ↦
        rw (add_peer, absent, full)
          (refused-IsAdd pm cancelled a max_peers_reached
            (λ h. absurd (cc h), λ h. absurd (ground (arith, absent, h))) (ground (arith, full)))
    | inr room ↦
        rw (add_peer, absent, room)
          (record {
            succeeds = (λ h. (absent, ground (arith, room)), λ h. refl);
            refuses_known = (λ h. absurd (cc h), λ h. absurd (ground (arith, absent, h)));
            objects = length-append pm.heap (new_managed_peer a cancelled ∷ []);
            entries = ground (arith, absent, length-insert a (length pm.heap) pm.peers);
            goroutines = refl;
            object = λ i. get_elem?-snoc (new_managed_peer a cancelled) pm.heap i;
            entry = λ j. lookup-insert a j (length pm.heap) pm.peers;
            rest = refl;
          })
  ]
]

lookup-remove_peer :
    (pm : PeerManager) (a j : Bytes)
    → lookup j (remove_peer pm a).0.peers ≡ (if same a j then none else lookup j pm.peers)
unfolding remove_peer
lookup-remove_peer pm a j = elim (Option-cases (lookup a pm.peers)) [
  | inl absent ↦ ground (arith, absent, same_iff a j)
  | inr (id, there) ↦ ground (arith, there, lookup-remove a j pm.peers)
]

lookup-remove_all :
    (addresses : List Bytes) (pm : PeerManager) (j : Bytes)
    → lookup j (remove_all pm addresses).peers
      ≡ (if occurs j addresses then none else lookup j pm.peers)
unfolding remove_all
lookup-remove_all [] pm j = refl
lookup-remove_all (a ∷ rest) pm j =
    lookup-remove_all rest (remove_peer pm a).0 j ∙ ground (arith, lookup-remove_peer pm a j)

occurs-to_remove :
    (pm : PeerManager) (d : Dict ℕ) (j : Bytes)
    → IsDistinct (keys d)
    → occurs j (to_remove pm d) ≡ elim (lookup j d) [ none ↦ false | some id ↦ exceeds pm id ]
unfolding to_remove lookup
occurs-to_remove pm [] j h = refl
occurs-to_remove pm ((a, id) ∷ d) j h = elim (Bool-cases (same a j)) [
  | inl here ↦ ground (
    arith,
    here,
    occurs-to_remove pm d j h.1,
    none_of_absent j d (subst (λ i. All (λ x. i ≢ x) (keys d)) ((same_iff a j).0 here) h.0),
  )
  | inr apart ↦ ground (arith, apart, occurs-to_remove pm d j h.1)
]

-- If no address is managed twice, a health check removes exactly the peers whose failure count is
-- at least MaxFailureCount, and keeps the entries of the others.
pub run_health_checks_lem :
    (pm : PeerManager) (j : Bytes)
    → IsDistinct (keys pm.peers)
    → lookup j (run_health_checks pm).peers ≡ elim (lookup j pm.peers) [
      | none ↦ none
      | some id ↦ elim (get_elem? pm.heap id) [
        | none ↦ some id
        | some mp ↦ if lebℤ pm.max_failure_count mp.failure_count then none else some id
      ]
    ]
unfolding run_health_checks
run_health_checks_lem pm j h =
    lookup-remove_all (to_remove pm pm.peers) pm j
    ∙ ground (arith, occurs-to_remove pm pm.peers j h)

-- evictPeer goes by the address: if the evicted object has left the map and another object is
-- managed under its address, the other one is removed and disconnected, and the evicted one is
-- left as it is.
pub evict_peer-removes_successor :
    (pm : PeerManager) (id id' : ℕ) (mp successor : ManagedPeer)
    → get_elem? pm.heap id ≡ some mp
    → lookup mp.address pm.peers ≡ some id'
    → id ≢ id'
    → get_elem? pm.heap id' ≡ some successor
    → (lookup mp.address (evict_peer pm id).peers ≡ none)
      × (get_elem? (evict_peer pm id).heap id' ≡ some (cancel_and_disconnect successor))
      × (get_elem? (evict_peer pm id).heap id ≡ some mp)
unfolding evict_peer remove_peer
evict_peer-removes_successor pm id id' mp successor there managed differ at = (
  ground
      (arith, there, managed, lookup-remove mp.address mp.address pm.peers, same_self mp.address),
  ground (arith, there, managed, at, get_elem?-modify id' id' cancel_and_disconnect pm.heap),
  ground (arith, there, managed, differ, get_elem?-modify id' id cancel_and_disconnect pm.heap),
)

-- addDiscoveredPeers keeps every managed peer as it is.
pub add_discovered_peers-keeps :
    (addresses : List Bytes) (pm : PeerManager) (j : Bytes) (id : ℕ)
    → lookup j pm.peers ≡ some id
    → lookup j (add_discovered_peers pm addresses).peers ≡ some id
unfolding add_discovered_peers
add_discovered_peers-keeps [] pm j id at = at
add_discovered_peers-keeps (a ∷ rest) pm j id at = ground (
  arith,
  at,
  same_iff a j,
  lookup-insert a j (length pm.heap) pm.peers,
  add_discovered_peers-keeps rest pm j id,
  add_discovered_peers-keeps rest (spawn pm a false) j id,
)

-- Every address is managed, or the manager is full.
abbrev pub CoveredOrFull : List Bytes → PeerManager → Type 0
CoveredOrFull addresses pm =
    All (λ a. is_some (lookup a pm.peers) ≡ true) addresses
    ⊎ (lebℤ pm.max_peers (pos (length pm.peers)) ≡ true)

covered_head :
    (a : Bytes) (rest : List Bytes) (pm : PeerManager) (id : ℕ)
    → lookup a pm.peers ≡ some id
    → CoveredOrFull rest (add_discovered_peers pm rest)
    → CoveredOrFull (a ∷ rest) (add_discovered_peers pm rest)
covered_head a rest pm id there (inl covered) =
    inl (rw (add_discovered_peers-keeps rest pm a id there) refl, covered)
covered_head a rest pm id there (inr full) = inr full

-- After addDiscoveredPeers either every address of the message is managed, or the manager is full.
pub add_discovered_peers-covers :
    (addresses : List Bytes) (pm : PeerManager)
    → CoveredOrFull addresses (add_discovered_peers pm addresses)
unfolding add_discovered_peers
add_discovered_peers-covers [] pm = inl tt
add_discovered_peers-covers (a ∷ rest) pm =
    elim (Bool-cases (lebℤ pm.max_peers (pos (length pm.peers)))) [
      | inl full ↦
          let e : add_discovered_peers pm (a ∷ rest) ≡ pm = rw full in
          subst (CoveredOrFull (a ∷ rest)) (sym e) (inr full)
      | inr room ↦ elim (Option-cases (lookup a pm.peers)) [
        | inr (id, there) ↦
            let e : add_discovered_peers pm (a ∷ rest) ≡ add_discovered_peers pm rest =
              rw (room, there) in
            subst (CoveredOrFull (a ∷ rest)) (sym e)
              (covered_head a rest pm id there (add_discovered_peers-covers rest pm))
        | inl absent ↦
            let e : add_discovered_peers pm (a ∷ rest)
                ≡ add_discovered_peers (spawn pm a false) rest =
              rw (room, absent) in
            subst (CoveredOrFull (a ∷ rest)) (sym e) (
              covered_head a rest (spawn pm a false) (length pm.heap)
                (ground (arith, same_self a, lookup-insert a a (length pm.heap) pm.peers))
                (add_discovered_peers-covers rest (spawn pm a false)))
      ]
    ]
