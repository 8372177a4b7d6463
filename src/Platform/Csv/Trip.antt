-- ===== src/Platform/Csv/Trip.antt =====
-- The reader reads what the writer has written.
use padma.Base.{
  ℕ, false, ◌≡◌, ◌≢◌, refl, ap, ◌∙◌, All, some, List, [], ◌∷◌, ◌++◌, Text, append_assoc, append-nil,
  eqb, eqb_iff, arith, Bool-cases, inl, inr, ◌⊎◌,
}
use padma.Platform.Csv.{
  has_special, is_special, field_needs_quotes, escape, write_field, write_rest, write, write_all,
}
use padma.Platform.Csv.Reader.{
  Mode, State, add_byte, step, read, finished, read_csv, start, bare, quoted, closing,
}

read-append : (a b : Text) (st : State) → read st (a ++ b) ≡ read (read st a) b
unfolding read
read-append [] b st = refl
read-append (c ∷ a) b st = read-append a b (step st.mode c st)

-- a state in front of a field
abbrev fresh : List Text → List (List Text) → State
fresh fields records = record { mode = start; field = []; fields = fields; records = records }

-- a state in which the field has been read, and nothing but a separator may come
abbrev read_field : Mode → Text → List Text → List (List Text) → State
read_field m f fields records = record { mode = m; field = f; fields = fields; records = records }

step-quoted : (c : ℕ) (st : State) → eqb c b'"' ≡ false → step quoted c st ≡ add_byte quoted c st
unfolding step
step-quoted c st e = rw e

read-escape :
    (s f : Text) (fields : List Text) (records : List (List Text))
    → read (read_field quoted f fields records) (escape s ++ b'"' ∷ [])
      ≡ read_field closing (f ++ s) fields records
unfolding read escape
read-escape [] f fields records = simp append-nil
read-escape (c ∷ s) f fields records = elim (Bool-cases (eqb c b'"')) [
  | inl e ↦ rw ((eqb_iff c b'"').0 e) (
      read-escape s (f ++ b'"' ∷ []) fields records
      ∙ ap (λ g. read_field closing g fields records) (append_assoc f (b'"' ∷ []) s))
  | inr e ↦ rw e (
      ap (λ st. read st (escape s ++ b'"' ∷ []))
        (step-quoted c (read_field quoted f fields records) e)
      ∙ read-escape s (f ++ c ∷ []) fields records
      ∙ ap (λ g. read_field closing g fields records) (append_assoc f (c ∷ []) s))
]

-- a byte that is not special goes on the bare field
step_plain :
    (c : ℕ) (st : State)
    → is_special c ≡ false
    → (step start c st ≡ add_byte bare c st) × (step bare c st ≡ add_byte bare c st)
unfolding step
step_plain c st h = (ground arith, ground arith)

read_bare :
    (s f : Text) (fields : List Text) (records : List (List Text))
    → has_special s ≡ false
    → read (read_field bare f fields records) s ≡ read_field bare (f ++ s) fields records
unfolding read has_special
read_bare [] f fields records h = simp append-nil
read_bare (c ∷ s) f fields records h =
    let plain : is_special c ≡ false = ground arith in
    ap (λ st. read st s) (step_plain c (read_field bare f fields records) plain).1
    ∙ read_bare s (f ++ c ∷ []) fields records (ground arith)
    ∙ ap (λ g. read_field bare g fields records) (append_assoc f (c ∷ []) s)

-- the modes in which a field may end
abbrev Ends : Mode → Type 0
Ends m = (m ≡ start) ⊎ (m ≡ bare) ⊎ (m ≡ closing)

bare_of_not_quoted :
    (c : ℕ) (s : Text)
    → field_needs_quotes (c ∷ s) ≡ false
    → (is_special c ≡ false) × (has_special s ≡ false)
unfolding field_needs_quotes has_special
bare_of_not_quoted c s h = (ground arith, ground arith)

module _ (fields : List Text) (records : List (List Text)) where
  read_unquoted :
      (s : Text)
      → field_needs_quotes s ≡ false
      → (m : Mode) × Ends m × (read (fresh fields records) s ≡ read_field m s fields records)
  unfolding read
  read_unquoted [] h = (start, inl refl, refl)
  read_unquoted (c ∷ s) h =
      let (plain, others) = bare_of_not_quoted c s h in
      (
        bare,
        inr (inl refl),
        ap (λ st. read st s) (step_plain c (fresh fields records) plain).0
            ∙ read_bare s (c ∷ []) fields records others,
      )

  -- what is written of a field is read as the field, and only its end is missing
  read-write_field :
      (s : Text)
      → (m : Mode) × Ends m
        × (read (fresh fields records) (write_field s) ≡ read_field m s fields records)
  unfolding write_field read
  read-write_field s = elim (Bool-cases (field_needs_quotes s)) [
    | inl e ↦ rw e (closing, inr (inr refl), read-escape s [] fields records)
    | inr e ↦ rw e (read_unquoted s e)
  ]

  step_comma :
      (m : Mode) (s : Text)
      → Ends m
      → step m b',' (read_field m s fields records) ≡ fresh (fields ++ s ∷ []) records
  unfolding step
  step_comma m s (inl e) = rw e refl
  step_comma m s (inr (inl e)) = rw e refl
  step_comma m s (inr (inr e)) = rw e refl

  step_end :
      (m : Mode) (s : Text)
      → Ends m
      → step m 10 (read_field m s fields records) ≡ fresh [] (records ++ (fields ++ s ∷ []) ∷ [])
  unfolding step
  step_end m s (inl e) = rw e refl
  step_end m s (inr (inl e)) = rw e refl
  step_end m s (inr (inr e)) = rw e refl

-- a field, and what stands behind it
read_then :
    (s rest : Text) (fields : List Text) (records : List (List Text))
    → (m : Mode) × Ends m
      × (read (fresh fields records) (write_field s ++ rest)
          ≡ read (read_field m s fields records) rest)
read_then s rest fields records =
    let (m, ends, e) = read-write_field fields records s in
    (m, ends, read-append (write_field s) rest (fresh fields records) ∙ ap (λ st. read st rest) e)

read-write_rest :
    (ss : List Text) (s : Text) (m : Mode) (fields : List Text) (records : List (List Text))
    → Ends m
    → read (read_field m s fields records) (write_rest ss)
      ≡ fresh [] (records ++ (fields ++ s ∷ ss) ∷ [])
unfolding write_rest read
read-write_rest [] s m fields records ends = step_end fields records m s ends
read-write_rest (s' ∷ ss) s m fields records ends =
    let (m', ends', e) = read_then s' (write_rest ss) (fields ++ s ∷ []) records in
    ap (λ st. read st (write_field s' ++ write_rest ss)) (step_comma fields records m s ends)
    ∙ e
    ∙ read-write_rest ss s' m' (fields ++ s ∷ []) records ends'
    ∙ ap (λ fs. fresh [] (records ++ fs ∷ [])) (append_assoc fields (s ∷ []) (s' ∷ ss))

read-write :
    (s : Text) (ss : List Text) (records : List (List Text))
    → read (fresh [] records) (write (s ∷ ss)) ≡ fresh [] (records ++ (s ∷ ss) ∷ [])
unfolding write
read-write s ss records =
    let (m, ends, e) = read_then s (write_rest ss) [] records in
    e ∙ read-write_rest ss s m [] records ends

-- a record has a field
abbrev pub HasField : List Text → Type 0
HasField r = r ≢ []

read-write_all :
    (rs records : List (List Text))
    → All HasField rs
    → read (fresh [] records) (write_all rs) ≡ fresh [] (records ++ rs)
unfolding write_all read
read-write_all [] records h = simp append-nil
read-write_all ([] ∷ rs) records h = absurd (h.0 refl)
read-write_all ((s ∷ ss) ∷ rs) records h =
    read-append (write (s ∷ ss)) (write_all rs) (fresh [] records)
    ∙ ap (λ st. read st (write_all rs)) (read-write s ss records)
    ∙ read-write_all rs (records ++ (s ∷ ss) ∷ []) h.1
    ∙ ap (fresh []) (append_assoc records ((s ∷ ss) ∷ []) rs)

-- What is written is read back, whatever bytes the fields hold.
pub read_csv-write_all :
    (rs : List (List Text)) → All HasField rs → read_csv (write_all rs) ≡ some rs
unfolding read_csv
read_csv-write_all rs h = ap (λ (st : State). finished st.mode st) (read-write_all rs [] h)
