-- ===== src/Query/Cursor/Trip.antt =====
-- A cursor that a page hands out is read back as it was.
use padma.Base.{
  ℕ, ◌≡◌, ◌≢◌, refl, false, some, [], ◌∷◌, ◌++◌, Text, All, All-append, arith, eqb, eqb_iff,
  is_empty, Bool-cases, inl, inr,
}
use padma.Errors.{ok}
use padma.Platform.Base64.{encode_to_string, decode_string-encode_to_string, IsByte}
use padma.Query.Cursor.{Cursor, TimeFormat, cut, encode, decode_cursor}

cut-append : (s t : Text) → All (λ (c : ℕ). c ≢ b'|') s → cut (s ++ b'|' ∷ t) ≡ some (s, t)
unfolding cut
cut-append [] t h = refl
cut-append (c ∷ s) t (hc, h) = elim (Bool-cases (eqb c b'|')) [
  | inl e ↦ absurd (hc ((eqb_iff c b'|').0 e))
  | inr e ↦ rw (e, cut-append s t h) refl
]

-- the encoding of a text with a character is not empty
pub encoded_not_empty : (s t : Text) (c : ℕ) → is_empty (encode_to_string (s ++ c ∷ t)) ≡ false
unfolding encode_to_string
encoded_not_empty [] [] c = refl
encoded_not_empty [] (a ∷ []) c = refl
encoded_not_empty [] (a ∷ b ∷ t) c = refl
encoded_not_empty (a ∷ []) [] c = refl
encoded_not_empty (a ∷ []) (b ∷ t) c = refl
encoded_not_empty (a ∷ b ∷ []) t c = refl
encoded_not_empty (a ∷ b ∷ d ∷ s) t c = refl

module _ (clock : TimeFormat) where
  open clock use {format, parse-format, format-IsByte, no_bar}

  -- Decoding what a cursor encodes to gives that cursor, if the bytes of its id are bytes.
  pub decode_cursor-encode :
      (c : Cursor) → All IsByte c.id → decode_cursor clock (encode clock c) ≡ ok c
  unfolding decode_cursor encode
  decode_cursor-encode c h =
      rw
        (
          encoded_not_empty (format c.time) c.id b'|',
          decode_string-encode_to_string (format c.time ++ b'|' ∷ c.id) (
              All-append IsByte (format c.time) (b'|' ∷ c.id) (format-IsByte c.time)
                (omega arith, h)),
          cut-append (format c.time) c.id (no_bar c.time),
          parse-format c.time,
        )
        refl
