-- ===== src/Platform/Base64.antt =====
-- encoding/base64.RawURLEncoding of the Go library.
use padma.Base.{
  ℕ, ◌+◌, ◌-◌, ◌*◌, ◌/◌, ◌%◌, ◌<◌, ◌≡◌, refl, ap, ap₂, Bool, false, not, ◌&&◌, ◌||◌, Option, none,
  some, [], ◌∷◌, Text, All, select, arith, ltb, leb, eqb, if◌then◌else◌,
}

-- the character of six bits
unfoldable pub sextet : ℕ → ℕ
sextet d =
    if ltb d 26
    then b'A' + d
    else if ltb d 52
    then b'a' + (d - 26)
    else if ltb d 62
    then b'0' + (d - 52)
    else if eqb d 62
    then b'-'
    else b'_'

unfoldable pub sextet_value : ℕ → Option ℕ
sextet_value c =
    if leb b'A' c && leb c b'Z'
    then some (c - b'A')
    else if leb b'a' c && leb c b'z'
    then some (c - b'a' + 26)
    else if leb b'0' c && leb c b'9'
    then some (c - b'0' + 52)
    else if eqb c b'-'
    then some 62
    else if eqb c b'_'
    then some 63
    else none

-- EncodeToString, without padding
unfoldable pub encode_to_string : Text → Text
encode_to_string [] = []
encode_to_string (a ∷ []) = sextet (a / 4) ∷ sextet (a % 4 * 16) ∷ []
encode_to_string (a ∷ b ∷ []) =
    sextet (a / 4) ∷ sextet (a % 4 * 16 + b / 16) ∷ sextet (b % 16 * 4) ∷ []
encode_to_string (a ∷ b ∷ c ∷ rest) =
    sextet (a / 4)
    ∷ sextet (a % 4 * 16 + b / 16)
    ∷ sextet (b % 16 * 4 + c / 64)
    ∷ sextet (c % 64)
    ∷ encode_to_string rest

-- the bytes of four characters, and of two or three at the end, whose last bits are dropped
abbrev bytes_4 : Option ℕ → Option ℕ → Option ℕ → Option ℕ → Option Text → Option Text
bytes_4 (some p) (some q) (some r) (some s) (some rest) =
    some ((p * 4 + q / 16) ∷ (q % 16 * 16 + r / 4) ∷ (r % 4 * 64 + s) ∷ rest)
bytes_4 _ _ _ _ _ = none

abbrev bytes_3 : Option ℕ → Option ℕ → Option ℕ → Option Text
bytes_3 (some p) (some q) (some r) = some ((p * 4 + q / 16) ∷ (q % 16 * 16 + r / 4) ∷ [])
bytes_3 _ _ _ = none

abbrev bytes_2 : Option ℕ → Option ℕ → Option Text
bytes_2 (some p) (some q) = some ((p * 4 + q / 16) ∷ [])
bytes_2 _ _ = none

decode_sextets : Text → Option Text
decode_sextets [] = some []
decode_sextets (a ∷ []) = none
decode_sextets (a ∷ b ∷ []) = bytes_2 (sextet_value a) (sextet_value b)
decode_sextets (a ∷ b ∷ c ∷ []) = bytes_3 (sextet_value a) (sextet_value b) (sextet_value c)
decode_sextets (a ∷ b ∷ c ∷ d ∷ rest) =
    bytes_4 (sextet_value a) (sextet_value b) (sextet_value c) (sextet_value d)
      (decode_sextets rest)

abbrev is_newline : ℕ → Bool
is_newline c = eqb c 10 || eqb c 13

-- DecodeString, which skips line ends
unfoldable pub decode_string : Text → Option Text
unfolding decode_sextets
decode_string s = decode_sextets (select (λ c. not (is_newline c)) s)

abbrev pub IsByte : ℕ → Type 0
IsByte c = c < 256

sextet_value-sextet : (d : ℕ) → d < 64 → sextet_value (sextet d) ≡ some d
unfolding sextet sextet_value
sextet_value-sextet d h = ground arith

sextet-not_newline : (d : ℕ) → is_newline (sextet d) ≡ false
unfolding sextet
sextet-not_newline d = ground arith

select_encoded :
    (s : Text) → select (λ c. not (is_newline c)) (encode_to_string s) ≡ encode_to_string s
unfolding encode_to_string
select_encoded [] = refl
select_encoded (a ∷ []) = simp (sextet-not_newline)
select_encoded (a ∷ b ∷ []) = simp (sextet-not_newline)
select_encoded (a ∷ b ∷ c ∷ rest) = simp (sextet-not_newline, select_encoded rest)

-- the bits of a byte, taken apart and put together
first_byte : (a b : ℕ) → b < 256 → a / 4 * 4 + (a % 4 * 16 + b / 16) / 16 ≡ a
first_byte a b h = omega arith

second_byte :
    (a b c : ℕ)
    → b < 256
    → c < 256
    → (a % 4 * 16 + b / 16) % 16 * 16 + (b % 16 * 4 + c / 64) / 4 ≡ b
second_byte a b c hb hc = omega arith

third_byte : (b c : ℕ) → c < 256 → (b % 16 * 4 + c / 64) % 4 * 64 + c % 64 ≡ c
third_byte b c h = omega arith

decode_sextets-encode_to_string :
    (s : Text) → All IsByte s → decode_sextets (encode_to_string s) ≡ some s
unfolding encode_to_string decode_sextets
decode_sextets-encode_to_string [] h = refl
decode_sextets-encode_to_string (a ∷ []) (ha, u) =
    rw (sextet_value-sextet (a / 4) (omega arith), sextet_value-sextet (a % 4 * 16) (omega arith))
      (ap (λ x. some (x ∷ [])) (omega arith))
decode_sextets-encode_to_string (a ∷ b ∷ []) (ha, (hb, u)) =
    rw
      (
        sextet_value-sextet (a / 4) (omega arith),
        sextet_value-sextet (a % 4 * 16 + b / 16) (omega arith),
        sextet_value-sextet (b % 16 * 4) (omega arith),
      )
      (ap₂ (λ x y. some (x ∷ y ∷ [])) (first_byte a b hb) (omega arith))
decode_sextets-encode_to_string (a ∷ b ∷ c ∷ rest) (ha, (hb, (hc, h))) =
    rw
      (
        sextet_value-sextet (a / 4) (omega arith),
        sextet_value-sextet (a % 4 * 16 + b / 16) (omega arith),
        sextet_value-sextet (b % 16 * 4 + c / 64) (omega arith),
        sextet_value-sextet (c % 64) (omega arith),
        decode_sextets-encode_to_string rest h,
        first_byte a b hb,
        second_byte a b c hb hc,
        third_byte b c hc,
      )
      refl

-- Every text of bytes is read back.
pub decode_string-encode_to_string :
    (s : Text) → All IsByte s → decode_string (encode_to_string s) ≡ some s
unfolding decode_string
decode_string-encode_to_string s h = rw (select_encoded s) (decode_sextets-encode_to_string s h)
