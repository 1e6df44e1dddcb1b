-- ===== src/Stdlib/Search.antt =====
-- sort.Search: binary search for the least index at which a monotone test holds. The fuel is the
-- length of the range searched, which at least halves in each round.
use brewery_bitcoin.Prelude.{
  ℕ, zero, suc, ◌+◌, ◌-◌, ◌/◌, ◌≤◌, ◌<◌, ◌≡◌, inl, inr, Bool, true, false, not, arith, ltb,
  if◌then◌else◌, ltb→lt, Bool-cases,
}

-- `for i < j { h := (i + j) / 2; if !f(h) { i = h + 1 } else { j = h } }; return i`
search_loop : ℕ → (ℕ → Bool) → ℕ → ℕ → ℕ
search_loop zero f i j = i
search_loop (suc fuel) f i j =
    let h = (i + j) / 2 in
    let right = search_loop fuel f (h + 1) j in
    let left = search_loop fuel f i h in if ltb i j then (if not (f h) then right else left) else i

unfoldable pub search_index : ℕ → (ℕ → Bool) → ℕ
unfolding search_loop
search_index n f = search_loop n f 0 n

-- The test, once true, stays true up to `n`.
pub record IsMonotone (n : ℕ) (f : ℕ → Bool) : Type 0 where
  pub stays : (i j : ℕ) → i ≤ j → j < n → f i ≡ true → f j ≡ true

-- `r` is the least index below `n` at which the test holds, or `n`.
pub record IsLeast (n : ℕ) (f : ℕ → Bool) (r : ℕ) : Type 0 where
  pub in_range : r ≤ n
  pub before : (i : ℕ) → i < r → f i ≡ false
  pub from : (i : ℕ) → r ≤ i → i < n → f i ≡ true

module _ (n : ℕ) (f : ℕ → Bool) (mono : IsMonotone n f) where
  -- what holds between two rounds
  record Inv (i j : ℕ) : Type 0 where
    ordered : i ≤ j
    fits : j ≤ n
    below : (k : ℕ) → k < i → f k ≡ false
    above : (k : ℕ) → j ≤ k → k < n → f k ≡ true

  false_below : (h : ℕ) → h < n → f h ≡ false → (k : ℕ) → k < h + 1 → f k ≡ false
  false_below h hn e k lt = elim (Bool-cases (f k)) [
    | inl t ↦ absurd (cc (mono.stays k h (omega arith) hn t, e))
    | inr u ↦ u
  ]

  search_loop-IsLeast :
      (fuel i j : ℕ) → j - i ≤ fuel → Inv i j → IsLeast n f (search_loop fuel f i j)
  unfolding search_loop
  search_loop-IsLeast zero i j enough v = record {
    in_range = omega (arith, v.ordered, v.fits);
    before = v.below;
    from = λ k le lt. v.above k (omega (arith, v.ordered)) lt;
  }
  search_loop-IsLeast (suc fuel) i j enough v = elim (Bool-cases (ltb i j)) [
    | inr done ↦ rw done (record {
      in_range = omega (arith, v.ordered, v.fits);
      before = v.below;
      from = λ k le lt. v.above k (ground (arith, v.ordered)) lt;
    })
    | inl more ↦
        let lt : i < j = ltb→lt i j more in
        elim (Bool-cases (f ((i + j) / 2))) [
          | inl yes' ↦
              rw (more, yes')
                (search_loop-IsLeast fuel i ((i + j) / 2) (omega arith) (record {
                  ordered = omega arith;
                  fits = omega (arith, v.fits);
                  below = v.below;
                  above = λ k le kn. mono.stays ((i + j) / 2) k le kn yes';
                }))
          | inr no' ↦
              rw (more, no')
                (search_loop-IsLeast fuel ((i + j) / 2 + 1) j (omega arith) (record {
                  ordered = omega arith;
                  fits = v.fits;
                  below = false_below ((i + j) / 2) (omega (arith, v.fits)) no';
                  above = v.above;
                }))
        ]
  ]

  -- `sort.Search(n, f)` is the least index at which `f` holds, or `n` if there is none.
  pub search_index-IsLeast : IsLeast n f (search_index n f)
  unfolding search_index
  search_index-IsLeast = search_loop-IsLeast n 0 n (omega arith) (record {
    ordered = omega arith;
    fits = omega arith;
    below = λ k h. elim h [ ];
    above = λ k le lt. absurd (omega arith);
  })
