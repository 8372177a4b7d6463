-- ===== src/Platform/Hex.antt =====
-- big.Int.Text(16): the digits of an amount on the wire.
use padma.Base.{
  ℕ, zero, suc, ◌+◌, ◌-◌, ◌*◌, ◌/◌, ◌%◌, ◌≤◌, ◌<◌, ◌≡◌, refl, ap, ◌∙◌, sym, [], ◌∷◌, Option, none,
  some, Text, codes, arith, ltb, leb, eqb, eqb_iff, Bool-cases, inl, inr, ◌&&◌, if◌then◌else◌,
}
use padma.Base.Int.{ℤ, pos, negsuc}

digit : ℕ → ℕ
digit d = if ltb d 10 then b'0' + d else b'a' + (d - 10)

-- one digit a round; a number has fewer digits than its value plus one
emit : ℕ → ℕ → Text → Text
unfolding digit
emit zero n out = out
emit (suc fuel) n out =
    let rest = emit fuel (n / 16) (digit (n % 16) ∷ out) in if eqb n 0 then out else rest

hex_digits : ℕ → Text
unfolding emit
hex_digits n = if eqb n 0 then b'0' ∷ [] else emit n n []

unfoldable pub text_16 : ℤ → Text
unfolding hex_digits
text_16 (pos n) = hex_digits n
text_16 (negsuc n) = b'-' ∷ hex_digits (suc n)

-- reading hexadecimal digits, for what a reader of the wire form sees
digit_value : ℕ → Option ℕ
digit_value c =
    if leb b'0' c && leb c b'9'
    then some (c - b'0')
    else if leb b'a' c && leb c b'f'
    then some (c - b'a' + 10)
    else none

abbrev pick {ℓ κ} : {A : Type ℓ} {B : Type κ} → Option A → (A → Option B) → Option B
pick none f = none
pick (some a) f = f a

read_digits : ℕ → Text → Option ℕ
unfolding digit_value
read_digits acc [] = some acc
read_digits acc (c ∷ cs) = pick (digit_value c) (λ d. read_digits (acc * 16 + d) cs)

unfoldable pub read_hex : Text → Option ℕ
unfolding read_digits
read_hex s = read_digits 0 s

digit_value-digit : (d : ℕ) → d < 16 → digit_value (digit d) ≡ some d
unfolding digit digit_value
digit_value-digit d h = ground arith

read_digits_step :
    (acc d : ℕ) (s : Text) → d < 16 → read_digits acc (digit d ∷ s) ≡ read_digits (acc * 16 + d) s
unfolding read_digits
read_digits_step acc d s h = rw (digit_value-digit d h)

-- with enough fuel the digits in front of `out` are those of `n`
read_digits-emit :
    (fuel n : ℕ) (out : Text) → n ≤ fuel → read_digits 0 (emit fuel n out) ≡ read_digits n out
unfolding emit
read_digits-emit zero n out h = ap (λ k. read_digits k out) (omega arith)
read_digits-emit (suc fuel) n out h = elim (Bool-cases (eqb n 0)) [
  | inl done ↦ rw done (ap (λ k. read_digits k out) (sym ((eqb_iff n 0).0 done)))
  | inr more ↦ rw more (
      read_digits-emit fuel (n / 16) (digit (n % 16) ∷ out) (ground arith)
      ∙ read_digits_step (n / 16) (n % 16) out (omega arith)
      ∙ ap (λ k. read_digits k out) (omega arith))
]

-- The digits of every number read back as that number.
pub read_hex-text_16 : (n : ℕ) → read_hex (text_16 (pos n)) ≡ some n
unfolding read_hex text_16
read_hex-text_16 n = elim (Bool-cases (eqb n 0)) [
  | inl zero_case ↦
      rw (zero_case, hex_digits)
        (unfold read_digits digit_value in ap some (sym ((eqb_iff n 0).0 zero_case)))
  | inr more ↦
      rw (more, hex_digits) (read_digits-emit n n [] (omega arith) ∙ unfold read_digits in refl)
]

text_16_test : text_16 (pos 0xde0b6b3a7640000) ≡ codes "de0b6b3a7640000"
unfolding text_16
text_16_test = refl
