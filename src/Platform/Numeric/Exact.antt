-- ===== src/Platform/Numeric/Exact.antt =====
-- What a conversion of a NUMERIC returns, over every representation of a value.
use padma.Base.{
  ℕ, zero, suc, ◌<◌, ◌≢◌, ◌⊎◌, eqb_iff, ◌*◌, ◌/◌, ◌%◌, ◌≤◌, ◌≡◌, refl, ap, ◌↔◌, true, false, arith,
  eqb, Bool-cases, inl, inr,
}
use native.Mathlib.Nat.{pow-le-pow_right, mul-mod_left, div-eq_of_eq-mul_left, div-add-mod'}
use padma.Base.Int.{ℤ, pos, negsuc, neg}
use padma.Errors.{Result, ok, err, ◌>>=◌}
use padma.Platform.Fibertypes.{Fibertypes}
use padma.Platform.Numeric.{Numeric, finite, whole, as_amount, numeric_to_amount, pow_10}

-- the numeric stands for the natural number `v`
abbrev pub Denotes : ℤ → ℤ → ℕ → Type 0
Denotes (pos m) (pos e) v = m * pow_10 e ≡ v
Denotes (pos m) (negsuc e) v = m ≡ v * pow_10 (suc e)
Denotes (negsuc m) e v = ⊥

pub record Holds (n : Numeric) (v : ℕ) : Type 0 where
  pub valid : n.valid ≡ true
  pub number : n.nan ≡ false
  pub finite : n.infinity_modifier ≡ finite
  pub denotes : Denotes n.int n.exp v

pow_10-pos : (e : ℕ) → 0 < pow_10 e
pow_10-pos e = pow-le-pow_right {n = 10} (omega arith) {i = 0} {j = e} (omega arith)

-- the tests of the switch, at a value that the power of ten divides
exact_quotient : (m v d : ℕ) → 0 < d → m ≡ v * d → (m % d ≡ 0) × (m / d ≡ v)
exact_quotient m v d h e =
    (rw e (mul-mod_left v d), div-eq_of_eq-mul_left {n = d} {m = m} {k = v} h e)

exact_product : (m d : ℕ) → m % d ≡ 0 → m ≡ m / d * d
exact_product m d h = omega (arith, div-add-mod' m d)

eq_zero_or_pos : (n : ℕ) → (n ≡ 0) ⊎ (0 < n)
eq_zero_or_pos zero = inl refl
eq_zero_or_pos (suc n) = inr (omega arith)

positive_product : (m d : ℕ) → 0 < d → 0 < suc m * d
positive_product m d h = grind arith

positive_quotient : (m d : ℕ) → m % d ≡ 0 → 0 < m → 0 < m / d
positive_quotient m d h p = elim (eq_zero_or_pos (m / d)) [
  | inl e ↦ absurd (omega (arith, exact_product m d h, ap (λ (q : ℕ). q * d) e))
  | inr q ↦ q
]

neg-ne-pos : (n v : ℕ) → 0 < n → neg n ≢ pos v
neg-ne-pos zero v h = absurd (omega arith)
neg-ne-pos (suc n) v h = λ e. cc

whole-Denotes : (m e : ℤ) (v : ℕ) → Denotes m e v → whole m e ≡ ok (pos v)
unfolding whole
whole-Denotes (pos m) (pos e) v d = ap (λ k. ok (pos k)) d
whole-Denotes (pos m) (negsuc e) v d =
    let (r, q) = exact_quotient m v (pow_10 (suc e)) (pow_10-pos (suc e)) d in
    rw ((eqb_iff _ 0).1 r) (ap (λ k. ok (pos k)) q)
whole-Denotes (negsuc m) e v d = absurd d

Denotes-whole : (m e : ℤ) (v : ℕ) → whole m e ≡ ok (pos v) → Denotes m e v
unfolding whole
Denotes-whole (pos m) (pos e) v d = cc
Denotes-whole (pos m) (negsuc e) v d = ground (arith, exact_product m (pow_10 (suc e)))
Denotes-whole (negsuc m) (pos e) v d =
    neg-ne-pos (suc m * pow_10 e) v (positive_product m _ (pow_10-pos e)) (cc)
Denotes-whole (negsuc m) (negsuc e) v d = elim (Bool-cases (eqb (suc m % pow_10 (suc e)) 0)) [
  | inl even ↦
      neg-ne-pos (suc m / pow_10 (suc e)) v
        (positive_quotient (suc m) _ ((eqb_iff _ 0).0 even) (omega arith)) (ground arith)
  | inr odd ↦ ground arith
]

module _ (lib : Fibertypes) where
  open lib use {parse_amount, max_amount, parse_hex}

  as_amount_iff :
      (r : Result ℤ) (v : ℕ)
      → ((r >>= as_amount lib) ≡ ok (record { big_int = v }))
        ↔ ((r ≡ ok (pos v)) × (v ≤ max_amount))
  unfolding as_amount
  as_amount_iff (ok (pos m)) v =
      (λ h. ground (arith, parse_hex m), λ h. ground (arith, parse_hex m))
  as_amount_iff (ok (negsuc m)) v = (λ h. cc, λ h. cc)
  as_amount_iff (err e) v = (λ h. cc, λ h. cc)

  -- A NUMERIC is converted exactly when it is valid, finite and stands for a natural number that
  -- fits, and then to the amount of that number, whatever Int and Exp represent it.
  pub numeric_to_amount_iff :
      (n : Numeric) (v : ℕ)
      → (numeric_to_amount lib n ≡ ok (record { big_int = v })) ↔ (Holds n v × (v ≤ max_amount))
  unfolding numeric_to_amount
  numeric_to_amount_iff n v = (
    λ h. ground (arith, as_amount_iff (whole n.int n.exp) v, Denotes-whole n.int n.exp v),
    λ h. ground (
      arith,
      h.0.valid,
      h.0.number,
      h.0.finite,
      (as_amount_iff (whole n.int n.exp) v).1 (whole-Denotes n.int n.exp v h.0.denotes, h.1),
    ),
  )
