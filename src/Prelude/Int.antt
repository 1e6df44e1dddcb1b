-- ===== src/Prelude/Int.antt =====
-- Go's signed integers: a mathematical integer, with the wrap-around of `++` and `--` written out
-- at the width's largest value.
use Prim.Native.Nat.{ℕ, zero, suc, ◌+◌, ◌-◌, ◌%◌, ◌^◌, ◌<◌, ◌≤◌}
use mathlib.Core.Path.{◌≡◌}
use native.Mathlib.Omega.{arith}
use mathlib.Core.Bool.{Bool, true, false}
use brewery_bitcoin.Prelude.Tests.{leb, ◌==◌, if◌then◌else◌}

-- `negsuc n` is -(n + 1).
pub data ℤ : Type 0 where
  pos : ℕ → ℤ
  negsuc : ℕ → ℤ

-- The largest int64 and int32.
abbrev pub max_int64 : ℕ
max_int64 = 2 ^ 63 - 1

abbrev pub max_int32 : ℕ
max_int32 = 2 ^ 31 - 1

-- `x++` on a signed integer whose largest value is `top`.
unfoldable pub increment : ℕ → ℤ → ℤ
increment top (pos n) = if n == top then negsuc top else pos (n + 1)
increment top (negsuc zero) = pos 0
increment top (negsuc (suc n)) = negsuc n

-- `x--`
unfoldable pub decrement : ℕ → ℤ → ℤ
decrement top (pos zero) = negsuc 0
decrement top (pos (suc n)) = pos n
decrement top (negsuc n) = if n == top then pos top else negsuc (n + 1)

-- `a <= b`
abbrev pub lebℤ : ℤ → ℤ → Bool
lebℤ (pos a) (pos b) = leb a b
lebℤ (pos a) (negsuc b) = false
lebℤ (negsuc a) (pos b) = true
lebℤ (negsuc a) (negsuc b) = leb b a

-- `x <= 0`
abbrev pub not_positive : ℤ → Bool
not_positive x = lebℤ x (pos 0)

abbrev pub IsPositive : ℤ → Type 0
IsPositive (pos n) = 0 < n
IsPositive (negsuc n) = ⊥

-- The conversion `int32(n)` of an int that is not negative: its low 32 bits, in two's complement.
unfoldable pub int32_of : ℕ → ℤ
int32_of n =
    let low = n % 2 ^ 32 in if leb low max_int32 then pos low else negsuc (2 ^ 32 - 1 - low)

pub int32_of-pos : (n : ℕ) → n ≤ max_int32 → int32_of n ≡ pos n
unfolding int32_of
int32_of-pos n h = ground arith
