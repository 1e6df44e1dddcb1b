-- ===== src/Prelude/Sizes.antt =====
-- Maps with distinct keys, and `len(m)`.
use Prim.Native.Nat.{suc}
use mathlib.Core.Path.{◌≡◌, refl, sym, ap, subst}
use mathlib.Core.Logic.{◌≢◌, inl, inr}
use mathlib.Core.Option.{none}
use mathlib.Core.List.{[], ◌∷◌}
use native.Mathlib.Omega.{arith}
use brewery_bitcoin.Prelude.Tests.{if◌then◌else◌, is_some, Bool-cases}
use brewery_bitcoin.Prelude.Lists.{length, All, IsDistinct}
use brewery_bitcoin.Prelude.ByteStrings.{Bytes, same, same_iff}
use brewery_bitcoin.Prelude.Dicts.{Dict, lookup, insert, remove, keys}

module _ {ℓ} {V : Type ℓ} where
  absent_of_none : (k : Bytes) (m : Dict V) → lookup k m ≡ none → All (λ j. k ≢ j) (keys m)
  unfolding lookup
  absent_of_none k [] h = tt
  absent_of_none k ((j, v) ∷ m) h = elim (Bool-cases (same j k)) [
    | inl e ↦ absurd (ground (arith))
    | inr n ↦ (λ e. ground (arith, same_iff j k), absent_of_none k m (ground arith))
  ]

  pub none_of_absent : (k : Bytes) (m : Dict V) → All (λ j. k ≢ j) (keys m) → lookup k m ≡ none
  unfolding lookup
  none_of_absent k [] h = refl
  none_of_absent k ((j, v) ∷ m) h = elim (Bool-cases (same j k)) [
    | inl e ↦ absurd (h.0 (sym ((same_iff j k).0 e)))
    | inr n ↦ rw n (none_of_absent k m h.1)
  ]

  All-keys-insert {κ} :
      (P : Bytes → Type κ) (k : Bytes) (v : V) (m : Dict V)
      → P k
      → All P (keys m)
      → All P (keys (insert k v m))
  unfolding insert
  All-keys-insert P k v [] p h = (p, tt)
  All-keys-insert P k v ((j, w) ∷ m) p h = elim (Bool-cases (same j k)) [
    | inl e ↦ rw e h
    | inr n ↦ rw n (h.0, All-keys-insert P k v m p h.1)
  ]

  All-keys-remove {κ} :
      (P : Bytes → Type κ) (k : Bytes) (m : Dict V) → All P (keys m) → All P (keys (remove k m))
  unfolding remove
  All-keys-remove P k [] h = tt
  All-keys-remove P k ((j, w) ∷ m) h = elim (Bool-cases (same j k)) [
    | inl e ↦ rw e (All-keys-remove P k m h.1)
    | inr n ↦ rw n (h.0, All-keys-remove P k m h.1)
  ]

  pub IsDistinct-insert :
      (k : Bytes) (v : V) (m : Dict V) → IsDistinct (keys m) → IsDistinct (keys (insert k v m))
  unfolding insert
  IsDistinct-insert k v [] h = (tt, tt)
  IsDistinct-insert k v ((j, w) ∷ m) h = elim (Bool-cases (same j k)) [
    | inl e ↦ rw e h
    | inr n ↦ rw n (
      All-keys-insert (λ i. j ≢ i) k v m (λ e. ground (arith, same_iff j k)) h.0,
      IsDistinct-insert k v m h.1,
    )
  ]

  pub IsDistinct-remove :
      (k : Bytes) (m : Dict V) → IsDistinct (keys m) → IsDistinct (keys (remove k m))
  unfolding remove
  IsDistinct-remove k [] h = tt
  IsDistinct-remove k ((j, w) ∷ m) h = elim (Bool-cases (same j k)) [
    | inl e ↦ rw e (IsDistinct-remove k m h.1)
    | inr n ↦ rw n (All-keys-remove (λ i. j ≢ i) k m h.0, IsDistinct-remove k m h.1)
  ]

  -- `len` after `m[k] = v`
  pub length-insert :
      (k : Bytes) (v : V) (m : Dict V)
      → length (insert k v m) ≡ (if is_some (lookup k m) then length m else suc (length m))
  unfolding lookup insert
  length-insert k v [] = refl
  length-insert k v ((j, w) ∷ m) = ground (arith, length-insert k v m)

  pub remove_absent : (k : Bytes) (m : Dict V) → lookup k m ≡ none → remove k m ≡ m
  unfolding lookup remove
  remove_absent k [] h = refl
  remove_absent k ((j, w) ∷ m) h = ground (arith, remove_absent k m)

  -- `len` after `delete(m, k)`
  pub length-remove :
      (k : Bytes) (m : Dict V)
      → IsDistinct (keys m)
      → length m ≡ (if is_some (lookup k m) then suc (length (remove k m)) else length (remove k m))
  unfolding lookup remove
  length-remove k [] h = refl
  length-remove k ((j, w) ∷ m) h = elim (Bool-cases (same j k)) [
    | inl e ↦ rw e (
        ap suc (
          ap length (
            sym (
              remove_absent k m (
                none_of_absent k m
                  (subst (λ i. All (λ x. i ≢ x) (keys m)) ((same_iff j k).0 e) h.0))))))
    | inr n ↦ ground (arith, length-remove k m h.1)
  ]
