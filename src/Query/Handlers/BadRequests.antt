-- ===== src/Query/Handlers/BadRequests.antt =====
-- Which requests the query endpoints reject, and that no request changes the database.
use padma.Base.{
  ◌≡◌, ◌≢◌, ◌↔◌, refl, Bool, true, false, ◌||◌, Text, codes, arith, inl, inr, Bool-cases, Option,
}
use padma.Errors.{Error, Result, ok, err, is, query_not_found, no_rows}
use padma.Database.{Db, World, query_row}
use padma.Database.Rows.{Time}
use padma.Database.Preserves.{Preserves, preserves_rules, Preserves-query_row}
use padma.Platform.Http.{Request, Response, query_time}
use padma.Platform.Fibertypes.{Fibertypes}
use padma.Platform.Columns.{Pgx}
use padma.Query.Cursor.{Cursor, TimeFormat, decode_cursor}
use padma.Query.Repo.{PaymentFilter, ChannelFilter, EventFilter}
use padma.Base.Int.{ℤ}
use padma.Query.Lists.{
  payments, payment_by_hash, channels, channel_by_id, events, stats_payments, one_or_not_found,
}
use padma.Query.Handlers.{
  Reply, Route, list_payments, get_payment, list_channels, get_channel, list_events, payment_stats,
  or_bad_request, answered, answered_one, serve,
}

abbrev pub is_err : {A : Type 0} → Result A → Bool
is_err (ok a) = false
is_err (err e) = true

-- the answer is 400 exactly if `bad`, and then nothing has been done; the database stays in any case
pub record Rejects (bad : Bool) (w : World) (r : Response Reply × World) : Type 0 where
  pub rejects : (r.0.status ≡ 400) ↔ (bad ≡ true)
  pub untouched : bad ≡ true → r.1 ≡ w
  pub same_db : r.1.db ≡ w.db

not_rejected :
    (w : World) (r : Response Reply × World) → r.0.status ≢ 400 → r.1.db ≡ w.db → Rejects false w r
not_rejected w r other same = record {
  rejects = (λ e. absurd (other e), λ e. absurd (cc));
  untouched = λ e. absurd (cc);
  same_db = same;
}

module _ {A : Type 0} where
  or_bad_request-Rejects :
      (bad : Bool) (label : Text) (q : Result A) (go_on : A → World → Response Reply × World)
      (w : World)
      → ((a : A) → Rejects bad w (go_on a w))
      → Rejects (is_err q || bad) w (or_bad_request label q go_on w)
  unfolding or_bad_request
  or_bad_request-Rejects bad label (ok a) go_on w h = h a
  or_bad_request-Rejects bad label (err e) go_on w h = record {
    rejects = (λ _. refl, λ _. refl);
    untouched = λ _. refl;
    same_db = refl;
  }

  answered-Rejects :
      (reply : A → Reply) (w : World) (r : Result A × World)
      → r.1.db ≡ w.db
      → Rejects false w (answered reply r)
  unfolding answered
  answered-Rejects reply w (ok a, v) h = not_rejected w _ (λ e. omega arith) h
  answered-Rejects reply w (err e, v) h = not_rejected w _ (λ s. omega arith) h

  answered_one-Rejects :
      (missing : Text) (reply : A → Reply) (w : World) (r : Result A × World)
      → r.1.db ≡ w.db
      → Rejects false w (answered_one missing reply r)
  unfolding answered_one
  answered_one-Rejects missing reply w (ok a, v) h = not_rejected w _ (λ e. omega arith) h
  answered_one-Rejects missing reply w (err e, v) h = elim (Bool-cases (is e query_not_found)) [
    | inl it_is ↦ rw it_is (not_rejected w _ (λ s. omega arith) h)
    | inr other ↦ rw other (not_rejected w _ (λ s. omega arith) h)
  ]

-- the repository reads
abbrev Same : Db → Db → Type 0
Same db db' = db' ≡ db

one_row-Preserves :
    {A : Type 0} (db : Db) (f : Error → Error) (row : Db → Option A)
    → Preserves {A = A} (Same db) (λ w. one_or_not_found f (query_row row w))
one_row-Preserves {A} db f row = record {
  at = λ w h. looked (query_row row w) ((Preserves-query_row (Same db) row).at w h);
}
  where
    looked : (r : Result A × World) → Same db r.1.db → Same db (one_or_not_found f r).1.db
    looked (ok a, v) h = h
    looked (err e, v) h = elim (Bool-cases (is e no_rows)) [
      | inl it_is ↦ rw it_is h
      | inr other ↦ rw other h
    ]

module _ (lib : Fibertypes) (pgx : Pgx) (clock : TimeFormat) (w : World) where
  payments-same :
      (f : PaymentFilter) (cur : Cursor) (n : ℤ) → (payments lib pgx clock f cur n w).1.db ≡ w.db
  unfolding payments
  payments-same f cur n =
      let keeps : Preserves (Same w.db) (payments lib pgx clock f cur n) = search preserves_rules in
      keeps.at w refl

  channels-same :
      (f : ChannelFilter) (cur : Cursor) (n : ℤ) → (channels lib pgx clock f cur n w).1.db ≡ w.db
  unfolding channels
  channels-same f cur n =
      let keeps : Preserves (Same w.db) (channels lib pgx clock f cur n) = search preserves_rules in
      keeps.at w refl

  events-same :
      (f : EventFilter) (cur : Cursor) (n : ℤ) → (events lib pgx clock f cur n w).1.db ≡ w.db
  unfolding events
  events-same f cur n =
      let keeps : Preserves (Same w.db) (events lib pgx clock f cur n) = search preserves_rules in
      keeps.at w refl

  stats_payments-same : (from to : Option Time) → (stats_payments lib pgx from to w).1.db ≡ w.db
  unfolding stats_payments
  stats_payments-same from to =
      let keeps : Preserves (Same w.db) (stats_payments lib pgx from to) = search preserves_rules in
      keeps.at w refl

  payment_by_hash-same : (hash : Text) → (payment_by_hash lib pgx hash w).1.db ≡ w.db
  unfolding payment_by_hash
  payment_by_hash-same hash = (one_row-Preserves w.db _ _).at w refl

  channel_by_id-same : (id : Text) → (channel_by_id lib pgx id w).1.db ≡ w.db
  unfolding channel_by_id
  channel_by_id-same id = (one_row-Preserves w.db _ _).at w refl

  module _ (parse_rfc3339 : Text → Result Time) where
    abbrev pub bad_cursor : Request → Bool
    bad_cursor r = is_err (decode_cursor clock (r.query_param (codes "cursor")))

    abbrev pub bad_times : Request → Bool
    bad_times r =
        is_err (query_time parse_rfc3339 r (codes "from"))
        || (is_err (query_time parse_rfc3339 r (codes "to")) || false)

    -- whether a parameter of the route does not parse
    abbrev pub malformed : Route → Request → Bool
    malformed list_payments r = bad_cursor r || bad_times r
    malformed get_payment r = false
    malformed list_channels r = bad_cursor r || false
    malformed get_channel r = false
    malformed list_events r = bad_cursor r || bad_times r
    malformed payment_stats r = bad_times r

    -- A query endpoint answers 400 exactly where the cursor or a time of the request does not parse,
    -- and then it has done nothing at all; it never changes the database.
    pub serve-Rejects :
        (route : Route) (r : Request)
        → Rejects (malformed route r) w (serve lib pgx clock parse_rfc3339 route r w)
    unfolding serve
    serve-Rejects list_payments r = or_bad_request-Rejects _ _ _ _ w λ cur.
        or_bad_request-Rejects _ _ _ _ w λ from.
          or_bad_request-Rejects _ _ _ _ w λ to. answered-Rejects _ w _ (payments-same _ cur _)
    serve-Rejects get_payment r = answered_one-Rejects _ _ w _ (payment_by_hash-same _)
    serve-Rejects list_channels r =
        or_bad_request-Rejects _ _ _ _ w λ cur. answered-Rejects _ w _ (channels-same _ cur _)
    serve-Rejects get_channel r = answered_one-Rejects _ _ w _ (channel_by_id-same _)
    serve-Rejects list_events r = or_bad_request-Rejects _ _ _ _ w λ cur.
        or_bad_request-Rejects _ _ _ _ w λ from.
          or_bad_request-Rejects _ _ _ _ w λ to. answered-Rejects _ w _ (events-same _ cur _)
    serve-Rejects payment_stats r = or_bad_request-Rejects _ _ _ _ w λ from.
        or_bad_request-Rejects _ _ _ _ w λ to. answered-Rejects _ w _ (stats_payments-same from to)
