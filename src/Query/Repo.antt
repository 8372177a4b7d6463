-- ===== src/Query/Repo.antt =====
-- internal/query/repo.go: the response models, the conditions of a query, and the pages.
use padma.Base.{
  ℕ, ◌-◌, Bool, true, false, ◌&&◌, ◌||◌, Option, none, some, List, [], ◌∷◌, ◌++◌, Text, ◌==◌,
  is_empty, lt_text, take, length, ltb, leb, eqb, if◌then◌else◌,
}
use padma.Base.Int.{ℤ, pos, negsuc}
use padma.Database.Rows.{Time}
use padma.Platform.Fibertypes.{Fibertypes}
use padma.Platform.Numeric.{numeric_to_amount}
use padma.Platform.Columns.{Pgx, scan_numeric, hex_or_nothing}
use padma.Query.Cursor.{Cursor, TimeFormat, is_zero, encode}

-- Page
pub record Page {ℓ} (T : Type ℓ) : Type ℓ where
  pub items : List T
  pub next_cursor : Text

-- Payment
pub record Payment : Type 0 where
  pub payment_hash : Text
  pub direction : Text
  pub status : Text
  pub asset : Text
  pub amount : Text
  pub fee : Text
  pub peer : Text
  pub created_at : Option Time
  pub updated_at : Option Time

-- Channel
pub record Channel : Type 0 where
  pub channel_id : Text
  pub peer : Text
  pub state : Text
  pub capacity : Text
  pub local_balance : Text
  pub remote_balance : Text
  pub opened_at : Option Time
  pub closed_at : Option Time

-- Event
pub record Event : Type 0 where
  pub id : Text
  pub event_type : Text
  pub fiber_ref : Text
  pub asset : Text
  pub amount : Text
  pub body : Text
  pub occurred_at : Time

-- StatRow
pub record StatRow : Type 0 where
  pub asset : Text
  pub count : ℕ
  pub total : Text

-- PaymentFilter, ChannelFilter, EventFilter
pub record PaymentFilter : Type 0 where
  pub direction : Text
  pub status : Text
  pub asset : Text
  pub peer : Text
  pub from : Option Time
  pub to : Option Time

pub record ChannelFilter : Type 0 where
  pub state : Text
  pub peer : Text

pub record EventFilter : Type 0 where
  pub event_type : Text
  pub from : Option Time
  pub to : Option Time

-- conds: the conditions that were added, each with its arguments
abbrev pub Conds : Type 0 → Type 0
Conds R = List (R → Bool)

-- (t, id) < ($n, $m)
unfoldable pub below : Time → Text → Time → Text → Bool
below t id t' id' = ltb t t' || (eqb t t' && lt_text id id')

module _ {R : Type 0} where
  -- column = $n; NULL equals nothing
  abbrev pub equals : (R → Option Text) → Text → R → Bool
  equals column val r = holds (column r)
    where
      holds : Option Text → Bool
      holds none = false
      holds (some s) = s == val

  -- eq
  unfoldable pub eq : (R → Option Text) → Text → Conds R → Conds R
  eq column val c = if is_empty val then c else c ++ equals column val ∷ []

  abbrev pub time_holds : (Time → Bool) → (R → Option Time) → R → Bool
  time_holds test column r = holds (column r)
    where
      holds : Option Time → Bool
      holds none = false
      holds (some t) = test t

  abbrev pub lower : (R → Option Time) → Option Time → Conds R → Conds R
  lower column none c = c
  lower column (some from) c = c ++ time_holds (λ t. leb from t) column ∷ []

  abbrev pub upper : (R → Option Time) → Option Time → Conds R → Conds R
  upper column none c = c
  upper column (some to) c = c ++ time_holds (λ t. leb t to) column ∷ []

  -- tsRange
  unfoldable pub ts_range : (R → Option Time) → Option Time → Option Time → Conds R → Conds R
  ts_range column from to c = upper column to (lower column from c)

  unfoldable pub is_after : (R → Option Time) → (R → Text) → Cursor → R → Bool
  unfolding below
  is_after ts_col id_col cur r = time_holds (λ t. below t (id_col r) cur.time cur.id) ts_col r

  -- keyset
  unfoldable pub keyset : (R → Option Time) → (R → Text) → Cursor → Conds R → Conds R
  unfolding is_after
  keyset ts_col id_col cur c = if is_zero cur then c else c ++ is_after ts_col id_col cur ∷ []

  -- clause: all conditions hold
  unfoldable pub clause : Conds R → R → Bool
  clause [] r = true
  clause (c ∷ cs) r = c r && clause cs r

  -- ts DESC, id DESC; NULLs come first
  unfoldable pub comes_first : (R → Option Time) → (R → Text) → R → R → Bool
  unfolding below
  comes_first ts_col id_col r r' = against (ts_col r) (ts_col r')
    where
      against : Option Time → Option Time → Bool
      against none none = lt_text (id_col r') (id_col r)
      against none (some t') = true
      against (some t) none = false
      against (some t) (some t') = below t' (id_col r') t (id_col r)

  unfoldable pub insert_desc : (R → Option Time) → (R → Text) → R → List R → List R
  unfolding comes_first
  insert_desc ts_col id_col r [] = r ∷ []
  insert_desc ts_col id_col r (x ∷ xs) =
      if comes_first ts_col id_col x r then x ∷ insert_desc ts_col id_col r xs else r ∷ x ∷ xs

  -- ORDER BY ts_col DESC, id_col DESC
  unfoldable pub order_desc : (R → Option Time) → (R → Text) → List R → List R
  unfolding insert_desc
  order_desc ts_col id_col [] = []
  order_desc ts_col id_col (r ∷ rs) = insert_desc ts_col id_col r (order_desc ts_col id_col rs)

-- clampLimit
unfoldable pub clamp_limit : ℤ → ℕ
clamp_limit (negsuc n) = 50
clamp_limit (pos n) = if eqb n 0 then 50 else if ltb 200 n then 200 else n

-- str
abbrev pub str : Option Text → Text
str none = []
str (some s) = s

-- deref
abbrev pub deref : Option Time → Time
deref none = 0
deref (some t) = t

-- hexOrEmpty of a NUMERIC column
unfoldable pub hex_or_empty : Fibertypes → Pgx → Option ℕ → Text
hex_or_empty lib pgx n = shown (scan_numeric pgx n).valid
  where
    shown : Bool → Text
    shown false = []
    shown true = hex_or_nothing lib (numeric_to_amount lib (scan_numeric pgx n))

module _ {T : Type 0} (clock : TimeFormat) where
  -- items[n], which is there wherever the code reads it
  abbrev pub item_at : List T → ℕ → Option T
  item_at [] n = none
  item_at (x ∷ xs) n = let rest = item_at xs (n - 1) in if eqb n 0 then some x else rest

  abbrev pub cursor_after : (T → Cursor) → Option T → Text
  cursor_after cursor_of none = []
  cursor_after cursor_of (some x) = encode clock (cursor_of x)

  -- paginate, with a positive limit: `limit` is clamped before it is called
  unfoldable pub paginate : List T → ℕ → (T → Cursor) → Page T
  paginate items limit cursor_of =
      if ltb limit (length items)
      then record {
        items = take limit items;
        next_cursor = cursor_after cursor_of (item_at items (limit - 1));
      }
      else record { items = items; next_cursor = [] }
