-- ===== src/Query/Handlers/Answers.antt =====
-- What the query endpoints answer: pages of at most 200 rows, 400 for what does not parse.
use padma.Base.{
  ℕ, ◌≤◌, ◌≡◌, refl, ap, List, Text, codes, length, length-take, arith, inl, inr, Bool-cases,
}
use padma.Base.Int.{ℤ, pos, negsuc}
use padma.Errors.{Result, ok, err, is, query_not_found, ok_injective}
use padma.Database.{World, pure}
use padma.Database.Rows.{Time}
use padma.Database.Returns.{bind-Passed}
use padma.Platform.Http.{Request, Response, Content, json}
use padma.Platform.Fibertypes.{Fibertypes}
use padma.Platform.Columns.{Pgx}
use padma.Query.Cursor.{Cursor, TimeFormat}
use padma.Query.Repo.{
  Page, Payment, Channel, Event, PaymentFilter, ChannelFilter, EventFilter, clamp_limit, paginate,
}
use padma.Query.Lists.{payments, channels, events}
use padma.Query.Handlers.{
  Reply, payment_page, one_payment, channel_page, one_channel, event_page, buckets_by, Route,
  list_payments, get_payment, list_channels, get_channel, list_events, payment_stats,
  or_bad_request, answered, answered_one, serve, limit_of, payment_filter, event_filter,
  channel_filter,
}

clamp_limit-le : (n : ℤ) → clamp_limit n ≤ 200
unfolding clamp_limit
clamp_limit-le (negsuc n) = omega arith
clamp_limit-le (pos n) = ground arith

length-paginate :
    {T : Type 0} (clock : TimeFormat) (items : List T) (limit : ℕ) (cursor_of : T → Cursor)
    → length (paginate clock items limit cursor_of).items ≤ limit
unfolding paginate
length-paginate clock items limit cursor_of = ground (arith, length-take limit items)

-- a page holds at most 200 rows
abbrev pub Small : Reply → Type 0
Small (payment_page p) = length p.items ≤ 200
Small (channel_page p) = length p.items ≤ 200
Small (event_page p) = length p.items ≤ 200
Small _ = Unit {0}

abbrev pub SmallContent : Content Reply → Type 0
SmallContent (json reply) = Small reply
SmallContent _ = Unit {0}

pub record IsSmall (r : Response Reply × World) : Type 0 where
  pub small : SmallContent r.0.content

or_bad_request-IsSmall :
    {A : Type 0} (label : Text) (q : Result A) (go_on : A → World → Response Reply × World)
    (w : World)
    → ((a : A) → IsSmall (go_on a w))
    → IsSmall (or_bad_request label q go_on w)
unfolding or_bad_request
or_bad_request-IsSmall label (ok a) go_on w h = h a
or_bad_request-IsSmall label (err e) go_on w h = record { small = tt }

answered-IsSmall :
    {A : Type 0} (reply : A → Reply) (r : Result A × World)
    → ((a : A) (v : World) → r ≡ (ok a, v) → Small (reply a))
    → IsSmall (answered reply r)
unfolding answered
answered-IsSmall reply (ok a, v) h = record { small = h a v refl }
answered-IsSmall reply (err e, v) h = record { small = tt }

answered_one-IsSmall :
    {A : Type 0} (missing : Text) (reply : A → Reply) (r : Result A × World)
    → ((a : A) → Small (reply a))
    → IsSmall (answered_one missing reply r)
unfolding answered_one
answered_one-IsSmall missing reply (ok a, v) h = record { small = h a }
answered_one-IsSmall missing reply (err e, v) h = elim (Bool-cases (is e query_not_found)) [
  | inl it_is ↦ rw it_is (record { small = tt })
  | inr other ↦ rw other (record { small = tt })
]

module _ (lib : Fibertypes) (pgx : Pgx) (clock : TimeFormat) where
  paged_length :
      {T : Type 0} (items : List T) (n : ℤ) (cursor_of : T → Cursor) (p : Page T)
      → paginate clock items (clamp_limit n) cursor_of ≡ p
      → length p.items ≤ 200
  paged_length items n cursor_of p same =
      rw (← same)
        (omega (arith, clamp_limit-le n, length-paginate clock items (clamp_limit n) cursor_of))

  payments-Small :
      (f : PaymentFilter) (cur : Cursor) (n : ℤ) (w v : World) (p : Page Payment)
      → payments lib pgx clock f cur n w ≡ (ok p, v)
      → length p.items ≤ 200
  unfolding payments pure
  payments-Small f cur n w v p h =
      let (rows, u, reads, h₁) = bind-Passed _ p v _ w h in
      paged_length _ n _ p (ok_injective (ap (λ (q : Result (Page Payment) × World). q.0) h₁))

  channels-Small :
      (f : ChannelFilter) (cur : Cursor) (n : ℤ) (w v : World) (p : Page Channel)
      → channels lib pgx clock f cur n w ≡ (ok p, v)
      → length p.items ≤ 200
  unfolding channels pure
  channels-Small f cur n w v p h =
      let (rows, u, reads, h₁) = bind-Passed _ p v _ w h in
      paged_length _ n _ p (ok_injective (ap (λ (q : Result (Page Channel) × World). q.0) h₁))

  events-Small :
      (f : EventFilter) (cur : Cursor) (n : ℤ) (w v : World) (p : Page Event)
      → events lib pgx clock f cur n w ≡ (ok p, v)
      → length p.items ≤ 200
  unfolding events pure
  events-Small f cur n w v p h =
      let (rows, u, reads, h₁) = bind-Passed _ p v _ w h in
      paged_length _ n _ p (ok_injective (ap (λ (q : Result (Page Event) × World). q.0) h₁))

  module _ (parse_rfc3339 : Text → Result Time) where
    -- Whatever the parameters of a request, `limit` included, no answer of a query endpoint holds a
    -- page of more than 200 rows.
    pub serve-IsSmall :
        (route : Route) (r : Request) (w : World)
        → IsSmall (serve lib pgx clock parse_rfc3339 route r w)
    unfolding serve
    serve-IsSmall list_payments r w = or_bad_request-IsSmall _ _ _ w λ cur.
        or_bad_request-IsSmall _ _ _ w λ from. or_bad_request-IsSmall _ _ _ w λ to.
          answered-IsSmall payment_page _ λ p v.
            payments-Small (payment_filter lib pgx clock parse_rfc3339 r from to) cur
              (limit_of lib pgx clock parse_rfc3339 r) w v p
    serve-IsSmall get_payment r w = answered_one-IsSmall _ one_payment _ (λ p. tt)
    serve-IsSmall list_channels r w = or_bad_request-IsSmall _ _ _ w λ cur.
        answered-IsSmall channel_page _ λ p v.
          channels-Small (channel_filter lib pgx clock parse_rfc3339 r) cur
            (limit_of lib pgx clock parse_rfc3339 r) w v p
    serve-IsSmall get_channel r w = answered_one-IsSmall _ one_channel _ (λ c. tt)
    serve-IsSmall list_events r w = or_bad_request-IsSmall _ _ _ w λ cur.
        or_bad_request-IsSmall _ _ _ w λ from. or_bad_request-IsSmall _ _ _ w λ to.
          answered-IsSmall event_page _ λ p v.
            events-Small (event_filter lib pgx clock parse_rfc3339 r from to) cur
              (limit_of lib pgx clock parse_rfc3339 r) w v p
    serve-IsSmall payment_stats r w = or_bad_request-IsSmall _ _ _ w λ from.
        or_bad_request-IsSmall _ _ _ w
          λ to. answered-IsSmall (buckets_by (codes "asset")) _ λ rows v h. tt
