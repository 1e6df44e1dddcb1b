-- ===== src/Indexer/Resolved.antt =====
-- indexer/indexer.go: what resolvePeers returns, against a description of it without a map.
use brewery_bitcoin.Stdlib.Sort.{occurs}
use brewery_bitcoin.Indexer.Base.{Chaincfg}
use brewery_bitcoin.Indexer.Peers.{collect, seed_addresses, resolve_peers}
use brewery_bitcoin.Prelude.{
  ◌≡◌, refl, sym, ap, ◌∙◌, subst, ◌≢◌, inl, inr, true, false, List, [], ◌∷◌, ◌++◌, append_assoc,
  append-nil, arith, if◌then◌else◌, Bool-cases, is_some, All, IsDistinct, Bytes, same, same_iff,
  Dict, lookup, insert, lookup-insert,
}

-- The list less every copy of x, and the list with only the first copy of each element.
unfoldable pub without : Bytes → List Bytes → List Bytes
without x [] = []
without x (y ∷ ys) = let rest = without x ys in if same x y then rest else y ∷ rest

unfoldable pub first_occurrences : List Bytes → List Bytes
unfolding without
first_occurrences [] = []
first_occurrences (x ∷ xs) = x ∷ without x (first_occurrences xs)

-- the addresses that are no key of seen
unfoldable unseen : Dict (Unit {0}) → List Bytes → List Bytes
unseen seen [] = []
unseen seen (x ∷ xs) =
    let rest = unseen seen xs in if is_some (lookup x seen) then rest else x ∷ rest

unseen-without :
    (seen : Dict (Unit {0})) (x : Bytes) (ys : List Bytes)
    → is_some (lookup x seen) ≡ true
    → unseen seen (without x ys) ≡ unseen seen ys
unfolding unseen without
unseen-without seen x [] h = refl
unseen-without seen x (y ∷ ys) h = ground (arith, same_iff x y, h, unseen-without seen x ys h)

unseen-insert :
    (seen : Dict (Unit {0})) (x : Bytes) (ys : List Bytes)
    → unseen (insert x tt seen) ys ≡ unseen seen (without x ys)
unfolding unseen without
unseen-insert seen x [] = refl
unseen-insert seen x (y ∷ ys) =
    ground (arith, same_iff x y, lookup-insert x y tt seen, unseen-insert seen x ys)

unseen-nil : (ys : List Bytes) → unseen [] ys ≡ ys
unfolding unseen lookup
unseen-nil [] = refl
unseen-nil (y ∷ ys) = ap (λ l. y ∷ l) (unseen-nil ys)

collect_lem :
    (seen : Dict (Unit {0})) (peers xs : List Bytes)
    → (collect seen peers xs).1 ≡ peers ++ unseen seen (first_occurrences xs)
unfolding collect unseen first_occurrences
collect_lem seen peers [] = sym (append-nil peers)
collect_lem seen peers (x ∷ xs) = elim (Bool-cases (is_some (lookup x seen))) [
  | inl h ↦ rw h (
      collect_lem seen peers xs
      ∙ ap (λ l. peers ++ l) (sym (unseen-without seen x (first_occurrences xs) h)))
  | inr h ↦ rw h (
      collect_lem (insert x tt seen) (peers ++ x ∷ []) xs
      ∙ append_assoc peers (x ∷ []) (unseen (insert x tt seen) (first_occurrences xs))
      ∙ ap (λ l. peers ++ x ∷ l) (unseen-insert seen x (first_occurrences xs)))
]

collect-append :
    (seen : Dict (Unit {0})) (peers xs ys : List Bytes)
    → collect seen peers (xs ++ ys)
      ≡ (let (seen', peers') = collect seen peers xs in collect seen' peers' ys)
unfolding collect
collect-append seen peers [] ys = refl
collect-append seen peers (x ∷ xs) ys = ground (
  arith,
  collect-append seen peers xs ys,
  collect-append (insert x tt seen) (peers ++ x ∷ []) xs ys,
)

All-without : (P : Bytes → Type 0) (x : Bytes) (ys : List Bytes) → All P ys → All P (without x ys)
unfolding without
All-without P x [] h = tt
All-without P x (y ∷ ys) h = elim (Bool-cases (same x y)) [
  | inl e ↦ rw e (All-without P x ys h.1)
  | inr e ↦ rw e (h.0, All-without P x ys h.1)
]

without-absent : (x : Bytes) (ys : List Bytes) → All (λ y. x ≢ y) (without x ys)
unfolding without
without-absent x [] = tt
without-absent x (y ∷ ys) = elim (Bool-cases (same x y)) [
  | inl e ↦ rw e (without-absent x ys)
  | inr e ↦ rw e (λ q. cc (e, (same_iff x y).1 q), without-absent x ys)
]

without-IsDistinct : (x : Bytes) (ys : List Bytes) → IsDistinct ys → IsDistinct (without x ys)
unfolding without
without-IsDistinct x [] h = tt
without-IsDistinct x (y ∷ ys) h = elim (Bool-cases (same x y)) [
  | inl e ↦ rw e (without-IsDistinct x ys h.1)
  | inr e ↦ rw e (All-without (λ z. y ≢ z) x ys h.0, without-IsDistinct x ys h.1)
]

first_occurrences-IsDistinct : (xs : List Bytes) → IsDistinct (first_occurrences xs)
unfolding first_occurrences
first_occurrences-IsDistinct [] = tt
first_occurrences-IsDistinct (x ∷ xs) = (
  without-absent x (first_occurrences xs),
  without-IsDistinct x (first_occurrences xs) (first_occurrences-IsDistinct xs),
)

occurs-without :
    (a x : Bytes) (ys : List Bytes)
    → occurs a (without x ys) ≡ (if same x a then false else occurs a ys)
unfolding without
occurs-without a x [] = ground arith
occurs-without a x (y ∷ ys) =
    ground (arith, same_iff x y, same_iff x a, same_iff y a, occurs-without a x ys)

occurs-first_occurrences :
    (a : Bytes) (xs : List Bytes) → occurs a (first_occurrences xs) ≡ occurs a xs
unfolding first_occurrences
occurs-first_occurrences a [] = refl
occurs-first_occurrences a (x ∷ xs) =
    ground (arith, occurs-without a x (first_occurrences xs), occurs-first_occurrences a xs)

module _ (chain : Chaincfg) where
  -- resolvePeers returns the first occurrences of the explicit peers followed by the seed addresses,
  -- in that order: no address twice, and exactly the addresses of the two lists.
  pub resolve_peers_lem :
      (explicit : List Bytes) (params : chain.Params)
      → (resolve_peers chain explicit params
          ≡ first_occurrences (explicit ++ seed_addresses chain params))
        × IsDistinct (resolve_peers chain explicit params)
        × ((a : Bytes)
            → occurs a (resolve_peers chain explicit params)
              ≡ occurs a (explicit ++ seed_addresses chain params))
  unfolding resolve_peers
  resolve_peers_lem explicit params =
      let e =
        ap (λ r. r.1) (sym (collect-append [] [] explicit (seed_addresses chain params)))
        ∙ collect_lem [] [] (explicit ++ seed_addresses chain params)
        ∙ unseen-nil (first_occurrences (explicit ++ seed_addresses chain params)) in
      (
        e,
        subst IsDistinct (sym e)
            (first_occurrences-IsDistinct (explicit ++ seed_addresses chain params)),
        λ a. ap (occurs a) e ∙ occurs-first_occurrences a (explicit ++ seed_addresses chain params),
      )
