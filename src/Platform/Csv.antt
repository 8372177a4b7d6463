-- ===== src/Platform/Csv.antt =====
-- encoding/csv, as the export uses it: Writer with a comma, "\n" at the end of a record, and quotes
-- where they are needed.
pub mod Reader
pub mod Trip
use padma.Base.{
  ℕ, Bool, true, false, ◌&&◌, ◌||◌, List, [], ◌∷◌, ◌++◌, Text, codes, ◌==◌, leb, eqb, if◌then◌else◌,
}

-- unicode.IsSpace of the first rune, on its UTF-8 bytes
unfoldable pub starts_with_space : Text → Bool
starts_with_space [] = false
starts_with_space (b ∷ []) = (leb 9 b && leb b 13) || eqb b b' '
starts_with_space (b ∷ c ∷ []) =
    (leb 9 b && leb b 13) || eqb b b' ' || (eqb b 0xc2 && (eqb c 0x85 || eqb c 0xa0))
starts_with_space (b ∷ c ∷ d ∷ s) =
    (leb 9 b && leb b 13)
    || eqb b b' '
    || (eqb b 0xc2 && (eqb c 0x85 || eqb c 0xa0))
    || (eqb b 0xe1 && eqb c 0x9a && eqb d 0x80)
    || (eqb b 0xe2
        && eqb c 0x80
        && ((leb 0x80 d && leb d 0x8a) || eqb d 0xa8 || eqb d 0xa9 || eqb d 0xaf))
    || (eqb b 0xe2 && eqb c 0x81 && eqb d 0x9f)
    || (eqb b 0xe3 && eqb c 0x80 && eqb d 0x80)

-- a byte that sends a field into quotes
abbrev pub is_special : ℕ → Bool
is_special c = eqb c 10 || eqb c 13 || eqb c b'"' || eqb c b','

unfoldable pub has_special : Text → Bool
has_special [] = false
has_special (c ∷ s) = is_special c || has_special s

-- fieldNeedsQuotes
unfoldable pub field_needs_quotes : Text → Bool
unfolding has_special starts_with_space
field_needs_quotes [] = false
field_needs_quotes (c ∷ s) =
    (c ∷ s) == codes "\\." || has_special (c ∷ s) || starts_with_space (c ∷ s)

-- the bytes of a field between quotes
unfoldable pub escape : Text → Text
escape [] = []
escape (c ∷ s) = if eqb c b'"' then b'"' ∷ b'"' ∷ escape s else c ∷ escape s

unfoldable pub write_field : Text → Text
unfolding field_needs_quotes escape
write_field s = if field_needs_quotes s then b'"' ∷ (escape s ++ b'"' ∷ []) else s

-- the fields behind the first, each behind a comma, and the end of the record
unfoldable pub write_rest : List Text → Text
unfolding write_field
write_rest [] = 10 ∷ []
write_rest (s ∷ ss) = b',' ∷ (write_field s ++ write_rest ss)

-- Writer.Write
unfoldable pub write : List Text → Text
unfolding write_field write_rest
write [] = 10 ∷ []
write (s ∷ ss) = write_field s ++ write_rest ss

-- Write of every record
unfoldable pub write_all : List (List Text) → Text
unfolding write
write_all [] = []
write_all (r ∷ rs) = write r ++ write_all rs
