-- ===== src/Stdlib/Decimal.antt =====
-- `%d` of fmt.Sprintf on a number that is not negative: decimal digits, with fuel for their count.
use brewery_bitcoin.Prelude.{
  ℕ, zero, suc, ◌+◌, ◌-◌, ◌*◌, ◌/◌, ◌%◌, ◌^◌, ◌<◌, ◌≡◌, sym, ap, ◌∙◌, ◌≢◌, inl, inr, [], ◌∷◌, arith,
  ltb, if◌then◌else◌, ltb→lt, Bool-cases, All, Bytes,
}

-- the digits of n before those of acc
unfoldable pub digits : ℕ → ℕ → Bytes → Bytes
digits zero n acc = acc
digits (suc fuel) n acc =
    let rest = digits fuel (n / 10) ((48 + n % 10) ∷ acc) in
    if ltb n 10 then (48 + n) ∷ acc else rest

-- A uint16 has at most five digits.
unfoldable pub decimal : ℕ → Bytes
unfolding digits
decimal n = digits 5 n []

-- the number that a list of digits reads as, after the number n
abbrev pub reading : ℕ → Bytes → ℕ
reading n [] = n
reading n (d ∷ ds) = reading (10 * n + (d - 48)) ds

digits_read :
    (fuel n : ℕ) (acc : Bytes) → n < 10 ^ fuel → reading 0 (digits fuel n acc) ≡ reading n acc
unfolding digits
digits_read zero n acc h = let e : n ≡ 0 = omega arith in ap (λ k. reading k acc) (sym e)
digits_read (suc fuel) n acc h = elim (Bool-cases (ltb n 10)) [
  | inl small ↦ rw small (ap (λ k. reading k acc) (omega arith))
  | inr large ↦ rw large (
      digits_read fuel (n / 10) ((48 + n % 10) ∷ acc) (omega arith)
      ∙ ap (λ k. reading k acc) (omega arith))
]

-- Numbers below 2 ^ 16 with the same decimals are equal.
pub decimal-injective : (m n : ℕ) → m < 2 ^ 16 → n < 2 ^ 16 → decimal m ≡ decimal n → m ≡ n
unfolding decimal
decimal-injective m n hm hn e =
    sym (digits_read 5 m [] (omega arith)) ∙ ap (reading 0) e ∙ digits_read 5 n [] (omega arith)

digits-All :
    (P : ℕ → Type 0) (fuel n : ℕ) (acc : Bytes)
    → ((d : ℕ) → d < 10 → P (48 + d))
    → All P acc
    → All P (digits fuel n acc)
unfolding digits
digits-All P zero n acc p h = h
digits-All P (suc fuel) n acc p h = elim (Bool-cases (ltb n 10)) [
  | inl small ↦ rw small (p n (ltb→lt n 10 small), h)
  | inr large ↦
      rw large (digits-All P fuel (n / 10) ((48 + n % 10) ∷ acc) p (p (n % 10) (omega arith), h))
]

-- The decimals of a number hold no colon.
pub decimal_no_colon : (n : ℕ) → All (λ b. b ≢ 58) (decimal n)
unfolding decimal
decimal_no_colon n = digits-All (λ b. b ≢ 58) 5 n [] (λ d h. omega arith) tt
