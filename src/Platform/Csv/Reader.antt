-- ===== src/Platform/Csv/Reader.antt =====
-- A reader of RFC 4180 texts, to say what the writer has written.
use padma.Base.{ℕ, Option, none, some, List, [], ◌∷◌, ◌++◌, Text, eqb, if◌then◌else◌}

-- where the reader stands: in front of a field, in a bare field, between quotes, behind a quote
-- that ends the field or escapes a quote, or behind an error
pub data Mode : Type 0 where
  start bare quoted closing failed : Mode

-- what has been read of the field, the fields of the record before it, and the records before that
pub record State : Type 0 where
  pub mode : Mode
  pub field : Text
  pub fields : List Text
  pub records : List (List Text)

abbrev pub add_byte : Mode → ℕ → State → State
add_byte m c st = record st { mode = m; field = st.field ++ c ∷ [] }

abbrev pub end_field : State → State
end_field st = record st { mode = start; field = []; fields = st.fields ++ st.field ∷ [] }

abbrev pub end_record : State → State
end_record st = record st {
  mode = start;
  field = [];
  fields = [];
  records = st.records ++ (st.fields ++ st.field ∷ []) ∷ [];
}

abbrev pub fail : State → State
fail st = record st { mode = failed }

abbrev pub separator : ℕ → State → State → State
separator c st other =
    if eqb c b',' then end_field st else if eqb c 10 then end_record st else other

unfoldable pub step : Mode → ℕ → State → State
step start c st =
    if eqb c b'"' then record st { mode = quoted } else separator c st (add_byte bare c st)
step bare c st = if eqb c b'"' then fail st else separator c st (add_byte bare c st)
step quoted c st = if eqb c b'"' then record st { mode = closing } else add_byte quoted c st
step closing c st = if eqb c b'"' then add_byte quoted c st else separator c st (fail st)
step failed c st = st

unfoldable pub read : State → Text → State
unfolding step
read st [] = st
read st (c ∷ s) = read (step st.mode c st) s

abbrev pub finished : Mode → State → Option (List (List Text))
finished start st = some st.records
finished _ st = none

-- the records of a text that is well formed and whose last line is ended
unfoldable pub read_csv : Text → Option (List (List Text))
unfolding read
read_csv s =
    let st = read (record { mode = start; field = []; fields = []; records = [] }) s in
    finished st.mode st
