-- ===== src/Stdlib/Sort.antt =====
-- sort.Strings: the strings in ascending order. Equal strings cannot be told apart, so any
-- sorting algorithm gives the same list; an insertion sort stands for it.
use brewery_bitcoin.Prelude.{
  suc, ◌≡◌, refl, ap, ◌∙◌, ◌≢◌, inl, inr, Bool, true, false, List, [], ◌∷◌, arith, if◌then◌else◌,
  Bool-cases, length, All, IsDistinct, Bytes, same, less, less_trans, less_total,
}

insert_sorted : Bytes → List Bytes → List Bytes
insert_sorted x [] = x ∷ []
insert_sorted x (y ∷ ys) = if less y x then y ∷ insert_sorted x ys else x ∷ y ∷ ys

unfoldable pub sort_strings : List Bytes → List Bytes
unfolding insert_sorted
sort_strings [] = []
sort_strings (x ∷ xs) = insert_sorted x (sort_strings xs)

-- Strictly ascending: each string is less than all that follow.
abbrev pub IsAscending : List Bytes → Type 0
IsAscending [] = Unit
IsAscending (x ∷ xs) = All (λ y. less x y ≡ true) xs × IsAscending xs

All-insert_sorted {κ} :
    (P : Bytes → Type κ) (x : Bytes) (ys : List Bytes) → P x → All P ys → All P (insert_sorted x ys)
unfolding insert_sorted
All-insert_sorted P x [] p h = (p, tt)
All-insert_sorted P x (y ∷ ys) p h = elim (Bool-cases (less y x)) [
  | inl lt ↦ rw lt (h.0, All-insert_sorted P x ys p h.1)
  | inr ge ↦ rw ge (p, h)
]

pub All-sort_strings {κ} :
    (P : Bytes → Type κ) (xs : List Bytes) → All P xs → All P (sort_strings xs)
unfolding sort_strings
All-sort_strings P [] h = tt
All-sort_strings P (x ∷ xs) h =
    All-insert_sorted P x (sort_strings xs) h.0 (All-sort_strings P xs h.1)

less-All :
    (x y : Bytes) (zs : List Bytes)
    → less x y ≡ true
    → All (λ z. less y z ≡ true) zs
    → All (λ z. less x z ≡ true) zs
less-All x y [] h a = tt
less-All x y (z ∷ zs) h a = (less_trans x y z h a.0, less-All x y zs h a.1)

insert_sorted-IsAscending :
    (x : Bytes) (ys : List Bytes)
    → All (λ y. x ≢ y) ys
    → IsAscending ys
    → IsAscending (insert_sorted x ys)
unfolding insert_sorted
insert_sorted-IsAscending x [] ne h = (tt, tt)
insert_sorted-IsAscending x (y ∷ ys) ne h = elim (Bool-cases (less y x)) [
  | inl lt ↦ rw lt (
    All-insert_sorted (λ z. less y z ≡ true) x ys lt h.0,
    insert_sorted-IsAscending x ys ne.1 h.1,
  )
  | inr ge ↦ rw ge ((first ge, less-All x y ys (first ge) h.0), h)
]
  where
    first : less y x ≡ false → less x y ≡ true
    first ge = elim (Bool-cases (less x y)) [
      | inl lt ↦ lt
      | inr ge' ↦ absurd (ne.0 (less_total x y ge' ge))
    ]

-- Distinct strings come out strictly ascending.
pub sort_strings-IsAscending : (xs : List Bytes) → IsDistinct xs → IsAscending (sort_strings xs)
unfolding sort_strings
sort_strings-IsAscending [] h = tt
sort_strings-IsAscending (x ∷ xs) h =
    insert_sorted-IsAscending x (sort_strings xs) (All-sort_strings (λ y. x ≢ y) xs h.0)
      (sort_strings-IsAscending xs h.1)

length-insert_sorted : (x : Bytes) (ys : List Bytes) → length (insert_sorted x ys) ≡ suc (length ys)
unfolding insert_sorted
length-insert_sorted x [] = refl
length-insert_sorted x (y ∷ ys) = ground (arith, length-insert_sorted x ys)

pub length-sort_strings : (xs : List Bytes) → length (sort_strings xs) ≡ length xs
unfolding sort_strings
length-sort_strings [] = refl
length-sort_strings (x ∷ xs) =
    length-insert_sorted x (sort_strings xs) ∙ ap suc (length-sort_strings xs)

-- Whether `k` is one of the strings.
abbrev pub occurs : Bytes → List Bytes → Bool
occurs k [] = false
occurs k (x ∷ xs) = if same x k then true else occurs k xs

occurs-insert_sorted :
    (k x : Bytes) (ys : List Bytes)
    → occurs k (insert_sorted x ys) ≡ (if same x k then true else occurs k ys)
unfolding insert_sorted
occurs-insert_sorted k x [] = refl
occurs-insert_sorted k x (y ∷ ys) = ground (arith, occurs-insert_sorted k x ys)

-- Sorting neither loses nor adds a string.
pub occurs-sort_strings : (k : Bytes) (xs : List Bytes) → occurs k (sort_strings xs) ≡ occurs k xs
unfolding sort_strings
occurs-sort_strings k [] = refl
occurs-sort_strings k (x ∷ xs) =
    occurs-insert_sorted k x (sort_strings xs)
    ∙ ap (λ (b : Bool). if same x k then true else b) (occurs-sort_strings k xs)
