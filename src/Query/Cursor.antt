-- ===== src/Query/Cursor.antt =====
-- internal/query/cursor.go: the position behind a page, as an opaque text.
pub mod Trip
use padma.Base.{
  ℕ, Bool, true, false, ◌&&◌, Option, none, some, List, [], ◌∷◌, ◌++◌, Text, codes, is_empty, eqb,
  if◌then◌else◌, ◌≡◌, All, ◌≢◌,
}
use padma.Errors.{Error, Result, ok, err, message, wrapped, reported, or_wrap, ◌>>=◌}
use padma.Database.Rows.{Time}
use padma.Platform.Base64.{encode_to_string, decode_string, IsByte}

-- Cursor
pub record Cursor : Type 0 where
  pub time : Time
  pub id : Text

-- time.Format and time.Parse with time.RFC3339Nano: what the code relies on, on UTC times up to the
-- year 9999
pub record TimeFormat : Type 0 where
  pub format : Time → Text
  pub parse : Text → Result Time
  pub parse-format : (t : Time) → parse (format t) ≡ ok t
  pub format-IsByte : (t : Time) → All IsByte (format t)
  pub no_bar : (t : Time) → All (λ (c : ℕ). c ≢ b'|') (format t)

-- IsZero
unfoldable pub is_zero : Cursor → Bool
is_zero c = eqb c.time 0 && is_empty c.id

-- strings.Cut(s, "|"): what stands before and after the first bar
unfoldable pub cut : Text → Option (Text × Text)
cut [] = none
cut (c ∷ s) = let rest = cut s in if eqb c b'|' then some ([], s) else keep c rest
  where
    keep : ℕ → Option (Text × Text) → Option (Text × Text)
    keep c none = none
    keep c (some (before, after)) = some (c ∷ before, after)

module _ (clock : TimeFormat) where
  open clock use {format, parse}

  -- Encode
  unfoldable pub encode : Cursor → Text
  encode c = encode_to_string (format c.time ++ b'|' ∷ c.id)

  abbrev pub cut_cursor : Option (Text × Text) → Result Cursor
  cut_cursor none = err (message "query: cursor missing separator" [])
  cut_cursor (some (ts, id)) =
      or_wrap (wrapped "query: invalid cursor time: %w" []) (parse ts) >>= λ t.
      ok (record { time = t; id = id })

  abbrev pub decoded_cursor : Option Text → Result Cursor
  decoded_cursor none =
      err (wrapped "query: invalid cursor encoding: %w" [] (reported (codes "illegal base64 data")))
  decoded_cursor (some b) = cut_cursor (cut b)

  -- DecodeCursor
  unfoldable pub decode_cursor : Text → Result Cursor
  unfolding cut
  decode_cursor s =
      if is_empty s then ok (record { time = 0; id = [] }) else decoded_cursor (decode_string s)
