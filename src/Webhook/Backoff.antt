-- ===== src/Webhook/Backoff.antt =====
-- internal/webhook/backoff.go: the delay before a retry.
use padma.Base.{
  ℕ, zero, suc, ◌+◌, ◌-◌, ◌*◌, ◌/◌, ◌%◌, ◌^◌, ◌≤◌, ◌<◌, ◌≡◌, refl, Bool, true, false, Bool-cases,
  inl, inr, arith, ltb, leb, if◌then◌else◌,
}
use padma.Base.Int.{ℤ, pos, negsuc, neg, quo}
use native.Mathlib.Nat.{pow-succ', pow-le-pow_right, mod-lt}

-- a time.Duration is a 64-bit integer: `d *= 2` wraps around
unfoldable pub double : ℤ → ℤ
double (pos n) = if ltb (n * 2) (2 ^ 63) then pos (n * 2) else neg (2 ^ 64 - n * 2)
double (negsuc n) = if leb (suc n * 2) (2 ^ 63) then neg (suc n * 2) else pos (2 ^ 64 - suc n * 2)

-- d >= max
unfoldable pub at_least : ℤ → ℤ → Bool
at_least (pos d) (pos m) = leb m d
at_least (pos d) (negsuc m) = true
at_least (negsuc d) (pos m) = false
at_least (negsuc d) (negsuc m) = leb d m

-- the loop, with the rounds that are left
unfoldable pub grow : ℤ → ℕ → ℤ → ℤ
grow max zero d = d
grow max (suc rounds) d =
    let rest = grow max rounds (double d) in if at_least (double d) max then max else rest

-- d, or half + rand.Int64N(half + 1) of the random number `random`
unfoldable pub jittered : ℕ → ℤ → ℤ → ℤ
jittered random d (pos zero) = d
jittered random d (pos (suc half)) = pos (suc half + random % suc (suc half))
jittered random d (negsuc half) = d

-- expJitter, of an attempt from 1 on
unfoldable pub exp_jitter : ℤ → ℤ → ℕ → ℕ → ℤ
unfolding grow jittered
exp_jitter base max random attempt =
    let d = grow max (attempt - 1) base in jittered random d (quo d 2)

-- min(max, base * 2 ^ rounds)
abbrev pub target : ℕ → ℕ → ℕ → ℕ
target base max rounds = if leb max (base * 2 ^ rounds) then max else base * 2 ^ rounds

pow_2-pos : (n : ℕ) → 1 ≤ 2 ^ n
pow_2-pos n = pow-le-pow_right {n = 2} (omega arith) {i = 0} {j = n} (omega arith)

grown_past : (d max n : ℕ) → max ≤ d * 2 → max ≤ d * 2 ^ suc n
grown_past d max n h = grind (arith, pow-succ' 2 n, pow_2-pos n)

doubled : (d n : ℕ) → d * 2 * 2 ^ n ≡ d * 2 ^ suc n
doubled d n = grind (arith, pow-succ' 2 n)

double-pos : (d max : ℕ) → d < max → max ≤ 2 ^ 62 → double (pos d) ≡ pos (d * 2)
unfolding double
double-pos d max h small = ground arith

-- The loop computes the least of the maximum and the exponential, where nothing overflows.
grow-target :
    (rounds d max : ℕ)
    → d < max
    → max ≤ 2 ^ 62
    → grow (pos max) rounds (pos d) ≡ pos (target d max rounds)
unfolding grow at_least
grow-target zero d max h small = ground arith
grow-target (suc rounds) d max h small = elim (Bool-cases (leb max (d * 2))) [
  | inl e ↦ ground (arith, double-pos d max h small, grown_past d max rounds)
  | inr e ↦
      ground (arith, double-pos d max h small, grow-target rounds (d * 2) max, doubled d rounds)
]

-- the delay lies between half of `d`, rounded down, and `d`
abbrev pub Jitters : ℕ → ℤ → Type 0
Jitters d delay = (x : ℕ) × (delay ≡ pos x) × (d / 2 ≤ x) × (x ≤ d)

jittered-Jitters :
    (random d half : ℕ) → half ≡ d / 2 → Jitters d (jittered random (pos d) (pos half))
unfolding jittered
jittered-Jitters random d zero h = (d, refl, omega arith, omega arith)
jittered-Jitters random d (suc half) h = (
  suc half + random % suc (suc half),
  refl,
  omega arith,
  omega (arith, mod-lt random {m = suc (suc half)} (omega arith)),
)

-- Every attempt waits between half of min(max, base * 2^(attempt - 1)) and all of it, where the base
-- is positive and below the maximum, and the maximum is less than 2^62 nanoseconds, 146 years.
pub exp_jitter-Jitters :
    (base max random attempt : ℕ)
    → base < max
    → max ≤ 2 ^ 62
    → Jitters (target base max (attempt - 1)) (exp_jitter (pos base) (pos max) random attempt)
unfolding exp_jitter
exp_jitter-Jitters base max random attempt h small =
    rw (grow-target (attempt - 1) base max h small)
      (jittered-Jitters random (target base max (attempt - 1)) _ refl)
