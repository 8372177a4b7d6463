-- ===== src/Checks/Amounts.antt =====
-- Amounts, NUMERIC columns and derived ids on concrete values.
use padma.Base.{
  ℕ, ◌≡◌, refl, ◌↔◌, ◌≤◌, ◌^◌, ◌-◌, true, false, Option, none, some, [], ◌∷◌, Text, codes, leb,
  arith, if◌then◌else◌, ap,
}
use padma.Base.Int.{pos, negsuc}
use padma.Errors.{Error, Result, ok, err, reported}
use padma.Database.{Amount}
use padma.Platform.Hex.{text_16, read_hex, read_hex-text_16}
use padma.Platform.Fibertypes.{Fibertypes, hex_of}
use padma.Platform.Numeric.{Numeric, finite, numeric_to_amount}
use padma.Platform.Numeric.Exact.{Holds, numeric_to_amount_iff}
use padma.Platform.Ids.{HasNoZero, derive_with_prefix_injective}
use padma.Checks.Samples.{digest}

abbrev largest : ℕ
largest = 2 ^ 128 - 1

abbrev overflow : Error
overflow = reported (codes "amount overflows 128 bits")

-- a parser of 0x-hex
abbrev fitting : Option ℕ → Result Amount
fitting none = err (reported (codes "not hexadecimal"))
fitting (some n) = if leb n largest then ok (record { big_int = n }) else err overflow

abbrev parse : Text → Result Amount
parse (c ∷ d ∷ digits) = fitting (read_hex digits)
parse _ = err (reported (codes "no 0x prefix"))

pub parse-hex_of :
    (n : ℕ)
    → parse (hex_of n) ≡ (if leb n largest then ok (record { big_int = n }) else err overflow)
parse-hex_of n = ap fitting (read_hex-text_16 n)

abbrev pub fibertypes : Fibertypes
fibertypes = record {
  max_amount = largest;
  too_large = overflow;
  parse_amount = parse;
  hex = λ a. hex_of a.big_int;
  parse_hex = parse-hex_of;
  hex_lem = λ a. refl;
}

-- 1250 as 12500 * 10 ^ (-1)
abbrev scaled : Numeric
scaled = record {
  int = pos 12500;
  exp = negsuc 0;
  nan = false;
  infinity_modifier = finite;
  valid = true;
}

numeric_to_amount_iff_example :
    (numeric_to_amount fibertypes scaled ≡ ok (record { big_int = 1250 }))
    ↔ (Holds scaled 1250 × (1250 ≤ largest))
numeric_to_amount_iff_example = numeric_to_amount_iff fibertypes scaled 1250

read_hex-text_16_example : read_hex (text_16 (pos 48879)) ≡ some 48879
read_hex-text_16_example = read_hex-text_16 48879

delivery_text : HasNoZero (codes "delivery")
delivery_text = ground arith

derive_with_prefix_injective_example :
    (codes "delivery" ≡ codes "delivery")
    × ((codes "e1" ∷ codes "whk_1" ∷ []) ≡ (codes "e1" ∷ codes "whk_1" ∷ []))
derive_with_prefix_injective_example =
    derive_with_prefix_injective digest (codes "dlv_") (codes "delivery") (codes "delivery")
      (codes "e1" ∷ codes "whk_1" ∷ []) (codes "e1" ∷ codes "whk_1" ∷ []) (λ e. e) delivery_text
      delivery_text (ground arith) (ground arith) refl
