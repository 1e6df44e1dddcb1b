-- ===== src/Db/Keys/Scope.antt =====
-- db/pebble.go: the column families in the one key space of the engine.
use brewery_bitcoin.Db.Keys.{cf_prefix, cf_upper_bound, prefixed_key, strip}
use brewery_bitcoin.Prelude.{
  ℕ, zero, suc, ◌≡◌, refl, sym, ◌∙◌, subst, ◌≢◌, ◌↔◌, inl, inr, true, false, ◌&&◌, some, [], ◌∷◌,
  ◌++◌, append_assoc, arith, Bool-cases, length, All, Bytes, same, same_iff, same_self, less,
}

-- `LowerBound <= k < UpperBound`, the range of an iterator over the family.
abbrev pub InBounds : Bytes → Bytes → Type 0
InBounds cf k = (less k (cf_prefix cf) ≡ false) × (less k (cf_upper_bound cf) ≡ true)

-- A name without the byte that ends a prefix.
abbrev pub HasNoNul : Bytes → Type 0
HasNoNul = All (λ b. b ≢ 0)

InBounds-suffix :
    (cf k : Bytes) → InBounds cf k → (rest : Bytes) × (k ≡ prefixed_key (cf_prefix cf) rest)
unfolding cf_prefix cf_upper_bound prefixed_key less
InBounds-suffix [] [] h = cc
InBounds-suffix [] (zero ∷ ks) h = (ks, refl)
InBounds-suffix [] (suc k ∷ []) h = ground arith
InBounds-suffix [] (suc k ∷ (j ∷ ks)) h = ground arith
InBounds-suffix (c ∷ cf) [] h = cc
InBounds-suffix (c ∷ cf) (k ∷ ks) h =
    let (here, below, above) = first c k cf ks h in
    let (rest, e) = InBounds-suffix cf ks (below, above) in (rest, cc (here, e))
  where
    first :
        (c k : ℕ) (cf ks : Bytes)
        → InBounds (c ∷ cf) (k ∷ ks)
        → (c ≡ k) × (less ks (cf_prefix cf) ≡ false) × (less ks (cf_upper_bound cf) ≡ true)
    first c k cf ks h = ground arith

suffix-InBounds : (cf rest : Bytes) → InBounds cf (prefixed_key (cf_prefix cf) rest)
unfolding cf_prefix cf_upper_bound prefixed_key less
suffix-InBounds [] [] = (refl, refl)
suffix-InBounds [] (x ∷ rest) = (refl, refl)
suffix-InBounds (c ∷ cf) rest = ground (arith, suffix-InBounds cf rest)

-- A stored key lies within the bounds of a family's iterator exactly when it is some caller key
-- behind that family's prefix.
pub scope_exact :
    (cf k : Bytes) → InBounds cf k ↔ ((rest : Bytes) × (k ≡ prefixed_key (cf_prefix cf) rest))
scope_exact cf k =
    (InBounds-suffix cf k, λ (rest, e). subst (InBounds cf) (sym e) (suffix-InBounds cf rest))

-- If neither family name holds a NUL byte, two storage keys are equal only if the families and
-- the caller keys are.
pub prefixed_key-injective :
    (cf cf' key key' : Bytes)
    → HasNoNul cf
    → HasNoNul cf'
    → prefixed_key (cf_prefix cf) key ≡ prefixed_key (cf_prefix cf') key'
    → (cf ≡ cf') × (key ≡ key')
unfolding cf_prefix prefixed_key
prefixed_key-injective [] [] key key' h h' e = ground arith
prefixed_key-injective [] (c' ∷ cf') key key' h h' e = ground arith
prefixed_key-injective (c ∷ cf) [] key key' h h' e = ground arith
prefixed_key-injective (c ∷ cf) (c' ∷ cf') key key' h h' e =
    ground (arith, prefixed_key-injective cf cf' key key')

-- So for such names the comparison of two storage keys is that of the families and the keys.
pub same-prefixed_key :
    (cf cf' key key' : Bytes)
    → HasNoNul cf
    → HasNoNul cf'
    → same (prefixed_key (cf_prefix cf) key) (prefixed_key (cf_prefix cf') key')
      ≡ (same cf cf' && same key key')
same-prefixed_key cf cf' key key' h h' =
    elim (Bool-cases (same (prefixed_key (cf_prefix cf) key) (prefixed_key (cf_prefix cf') key'))) [
      | inl equal ↦
          let (family, user) =
            prefixed_key-injective cf cf' key key' h h' ((same_iff _ _).0 equal) in
          equal ∙ sym (both cf cf' key key' family user)
      | inr differ ↦ elim (Bool-cases (same cf cf' && same key key')) [
        | inl equal ↦ absurd (
            ground (
              arith,
              differ,
              same_iff cf cf',
              same_iff key key',
              same_self (prefixed_key (cf_prefix cf) key),
            ))
        | inr other ↦ differ ∙ sym other
      ]
    ]
  where
    both : (a b k j : Bytes) → a ≡ b → k ≡ j → same a b && same k j ≡ true
    both a b k j e f = rw (e, f, same_self b, same_self j)

-- Whatever the families' names, a family whose name goes on with a NUL byte stores its keys
-- inside the range of the family named by the part before that byte.
prefixed_key-collision :
    (cf other key : Bytes)
    → prefixed_key (cf_prefix (cf ++ 0 ∷ other)) key
      ≡ prefixed_key (cf_prefix cf) (prefixed_key (cf_prefix other) key)
unfolding cf_prefix prefixed_key
prefixed_key-collision cf other key = simp append_assoc

-- Within a family the engine's order is the order of the caller's keys.
pub less-prefixed_key :
    (prefix a b : Bytes) → less (prefixed_key prefix a) (prefixed_key prefix b) ≡ less a b
unfolding prefixed_key less
less-prefixed_key [] a b = refl
less-prefixed_key (x ∷ prefix) a b = ground (arith, less-prefixed_key prefix a b)

-- Stripping the prefix of a storage key gives back the caller's key.
pub strip-prefixed_key :
    (prefix key : Bytes) → strip (length prefix) (prefixed_key prefix key) ≡ some key
unfolding prefixed_key strip
strip-prefixed_key [] key = refl
strip-prefixed_key (x ∷ prefix) key = strip-prefixed_key prefix key
