-- ===== src/Base/Int.antt =====
-- math/big integers over the native numbers.
use padma.Base.{ℕ, zero, suc, ◌*◌, ◌/◌, ◌%◌, Bool, true, false}

-- `negsuc n` is -(n + 1).
pub data ℤ : Type 0 where
  pos : ℕ → ℤ
  negsuc : ℕ → ℤ

-- -n
abbrev pub neg : ℕ → ℤ
neg zero = pos zero
neg (suc n) = negsuc n

-- x.Sign() < 0
abbrev pub is_negative : ℤ → Bool
is_negative (pos n) = false
is_negative (negsuc n) = true

abbrev pub abs : ℤ → ℕ
abs (pos n) = n
abs (negsuc n) = suc n

-- x.Mul(x, d) for d ≥ 0
abbrev pub mul : ℤ → ℕ → ℤ
mul (pos n) d = pos (n * d)
mul (negsuc n) d = neg (suc n * d)

-- the quotient and the size of the remainder of x.QuoRem(x, d, &rem), which truncates towards zero
abbrev pub quo : ℤ → ℕ → ℤ
quo (pos n) d = pos (n / d)
quo (negsuc n) d = neg (suc n / d)

abbrev pub rem_size : ℤ → ℕ → ℕ
rem_size x d = abs x % d
