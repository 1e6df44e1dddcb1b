-- ===== src/Prelude/Heaps.antt =====
-- A heap of objects as a list: an object's identity is its index.
use Prim.Native.Nat.{ℕ, zero, suc}
use mathlib.Core.Path.{◌≡◌, refl, ◌∙◌}
use mathlib.Core.Logic.{◌⊎◌, inl, inr}
use mathlib.Core.Option.{Option, none, some}
use mathlib.Core.List.{List, [], ◌∷◌, ◌++◌}
use native.Mathlib.Omega.{arith}
use brewery_bitcoin.Prelude.Tests.{Option-cases, ◌==◌, if◌then◌else◌}
use brewery_bitcoin.Prelude.Lists.{length, get_elem?}

module _ {ℓ} {A : Type ℓ} where
  -- a write to one object
  unfoldable pub modify : ℕ → (A → A) → List A → List A
  modify i f [] = []
  modify zero f (x ∷ xs) = f x ∷ xs
  modify (suc i) f (x ∷ xs) = x ∷ modify i f xs

  abbrev pub map_option {κ} : {B : Type κ} → (A → B) → Option A → Option B
  map_option f none = none
  map_option f (some x) = some (f x)

  pub get_elem?-modify :
      (i j : ℕ) (f : A → A) (xs : List A)
      → get_elem? (modify i f xs) j
        ≡ (if i == j then map_option f (get_elem? xs j) else get_elem? xs j)
  unfolding modify
  get_elem?-modify i j f [] = ground arith
  get_elem?-modify zero zero f (x ∷ xs) = ground arith
  get_elem?-modify zero (suc j) f (x ∷ xs) = ground arith
  get_elem?-modify (suc i) zero f (x ∷ xs) = ground arith
  get_elem?-modify (suc i) (suc j) f (x ∷ xs) = ground (arith, get_elem?-modify i j f xs)

  pub length-modify : (i : ℕ) (f : A → A) (xs : List A) → length (modify i f xs) ≡ length xs
  unfolding modify
  length-modify i f [] = ground arith
  length-modify zero f (x ∷ xs) = refl
  length-modify (suc i) f (x ∷ xs) = ground (arith, length-modify i f xs)

  -- a new object gets the next identity
  pub get_elem?-snoc :
      (x : A) (xs : List A) (j : ℕ)
      → get_elem? (xs ++ x ∷ []) j ≡ (if length xs == j then some x else get_elem? xs j)
  get_elem?-snoc x [] zero = ground arith
  get_elem?-snoc x [] (suc j) = ground arith
  get_elem?-snoc x (y ∷ xs) zero = ground arith
  get_elem?-snoc x (y ∷ xs) (suc j) = ground (arith, get_elem?-snoc x xs j)

  pub get-modified :
      (i j : ℕ) (f : A → A) (xs : List A) (x : A)
      → get_elem? xs j ≡ some x
      → get_elem? (modify i f xs) j ≡ some (if i == j then f x else x)
  get-modified i j f xs x at = get_elem?-modify i j f xs ∙ ground (arith, at)

  pub modified-inv :
      (i j : ℕ) (f : A → A) (xs : List A) (y : A)
      → get_elem? (modify i f xs) j ≡ some y
      → (x : A) × (get_elem? xs j ≡ some x) × (y ≡ (if i == j then f x else x))
  modified-inv i j f xs y at = elim (Option-cases (get_elem? xs j)) [
    | inl out ↦ absurd (ground (arith, at, out, get_elem?-modify i j f xs))
    | inr (x, there) ↦ (x, there, ground (arith, at, there, get_elem?-modify i j f xs))
  ]

  pub get-snoc_old :
      (x : A) (xs : List A) (j : ℕ) (y : A)
      → get_elem? xs j ≡ some y
      → get_elem? (xs ++ x ∷ []) j ≡ some y
  get-snoc_old x [] j y at = absurd (cc at)
  get-snoc_old x (z ∷ xs) zero y at = at
  get-snoc_old x (z ∷ xs) (suc j) y at = get-snoc_old x xs j y at

  pub get-snoc_new : (x : A) (xs : List A) → get_elem? (xs ++ x ∷ []) (length xs) ≡ some x
  get-snoc_new x [] = refl
  get-snoc_new x (z ∷ xs) = get-snoc_new x xs

  pub snoc-inv :
      (x : A) (xs : List A) (j : ℕ) (y : A)
      → get_elem? (xs ++ x ∷ []) j ≡ some y
      → (get_elem? xs j ≡ some y) ⊎ (x ≡ y)
  snoc-inv x [] zero y at = inr (unwrap at)
    where
      unwrap : some x ≡ some y → x ≡ y
      unwrap q = cc
  snoc-inv x [] (suc j) y at = absurd (cc at)
  snoc-inv x (z ∷ xs) zero y at = inl at
  snoc-inv x (z ∷ xs) (suc j) y at = snoc-inv x xs j y at
