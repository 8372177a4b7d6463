-- ===== src/Platform/Http.antt =====
-- internal/platform/httpx/httpx.go: answers, and the parameters of a request. Requests and answers
-- are what net/http and the router hand over: the headers, parameters and bodies that are read here.
use padma.Base.{
  ℕ, ◌+◌, ◌-◌, ◌*◌, ◌/◌, ◌^◌, ◌≡◌, refl, Bool, ◌&&◌, ◌||◌, Option, none, some, [], ◌∷◌, Text, codes,
  is_empty, leb, ltb, eqb, not, if◌then◌else◌,
}
use padma.Base.Int.{ℤ, pos, negsuc, neg}
use padma.Errors.{Error, Result, ok, err, wrapped, reported, quoted}
use padma.Database.Rows.{Time}

pub record Request : Type 0 where
  pub authorization : Text
  -- r.URL.Query().Get: empty where the parameter is absent
  pub query_param : Text → Text
  -- chi.URLParam
  pub url_param : Text → Text
  pub body : Text

-- what is written: a value as JSON, an error envelope, or bytes
pub data Content (J : Type 0) : Type 0 where
  json : J → Content J
  problem : Text → Content J
  bytes : Text → Content J

pub record Response (J : Type 0) : Type 0 where
  pub status : ℕ
  pub content_type : Text
  pub content_disposition : Text
  pub content : Content J

module _ {J : Type 0} where
  -- JSON
  abbrev pub json_response : ℕ → J → Response J
  json_response status v = record {
    status = status;
    content_type = codes "application/json";
    content_disposition = [];
    content = json v;
  }

  -- Error
  abbrev pub error_response : ℕ → Text → Response J
  error_response status msg = record {
    status = status;
    content_type = codes "application/json";
    content_disposition = [];
    content = problem msg;
  }

abbrev syntax_error : Text → Error
syntax_error s =
    wrapped "strconv.Atoi: parsing %s: %w" (quoted s) (reported (codes "invalid syntax"))

abbrev range_error : Text → Error
range_error s =
    wrapped "strconv.Atoi: parsing %s: %w" (quoted s) (reported (codes "value out of range"))

abbrev is_digit : ℕ → Bool
is_digit c = leb b'0' c && leb c b'9'

-- the loop of strconv.ParseUint in base 10, with 64 bits; `whole` is the text that an error names
unfoldable pub parse_uint : Text → ℕ → Text → Result ℕ
parse_uint whole n [] = ok n
parse_uint whole n (c ∷ s) =
    let rest = parse_uint whole (n * 10 + (c - b'0')) s in
    if not (is_digit c)
    then err (syntax_error whole)
    else if ltb ((2 ^ 64 - 1) / 10) n || ltb (2 ^ 64 - 1) (n * 10 + (c - b'0'))
    then err (range_error whole)
    else rest

abbrev pub non_empty : Text → Text → Result ℕ
non_empty whole [] = err (syntax_error whole)
non_empty whole (c ∷ s) = parse_uint whole 0 (c ∷ s)

-- the range of a 64-bit int
abbrev pub positive : Text → Result ℕ → Result ℤ
positive whole (ok n) = if leb (2 ^ 63) n then err (range_error whole) else ok (pos n)
positive whole (err e) = err e

abbrev pub negative : Text → Result ℕ → Result ℤ
negative whole (ok n) = if ltb (2 ^ 63) n then err (range_error whole) else ok (neg n)
negative whole (err e) = err e

-- strconv.Atoi
unfoldable pub atoi : Text → Result ℤ
unfolding parse_uint
atoi [] = err (syntax_error [])
atoi (c ∷ s) =
    if eqb c b'-'
    then negative (c ∷ s) (non_empty (c ∷ s) s)
    else if eqb c b'+'
    then positive (c ∷ s) (non_empty (c ∷ s) s)
    else positive (c ∷ s) (parse_uint (c ∷ s) 0 (c ∷ s))

abbrev int_or : ℤ → Result ℤ → ℤ
int_or def (ok n) = n
int_or def (err e) = def

-- QueryInt
unfoldable pub query_int : Request → Text → ℤ → ℤ
unfolding atoi
query_int r key def =
    if is_empty (r.query_param key) then def else int_or def (atoi (r.query_param key))

abbrev present : Result Time → Result (Option Time)
present (ok t) = ok (some t)
present (err e) = err e

-- QueryTime; `parse_rfc3339` is time.Parse with time.RFC3339
unfoldable pub query_time : (Text → Result Time) → Request → Text → Result (Option Time)
query_time parse_rfc3339 r key =
    if is_empty (r.query_param key) then ok none else present (parse_rfc3339 (r.query_param key))

atoi_tests :
    (atoi (codes "-42") ≡ ok (negsuc 41))
    × (atoi (codes "+7") ≡ ok (pos 7))
    × (atoi (codes "9223372036854775808") ≡ err (range_error (codes "9223372036854775808")))
    × (atoi (codes "-9223372036854775808") ≡ ok (negsuc 9223372036854775807))
    × (atoi (codes "12x") ≡ err (syntax_error (codes "12x")))
    × (atoi (codes "-") ≡ err (syntax_error (codes "-")))
unfolding atoi
atoi_tests = (refl, refl, refl, refl, refl, refl)
