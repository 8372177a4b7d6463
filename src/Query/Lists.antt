-- ===== src/Query/Lists.antt =====
-- internal/query/queries.go: the lists, the single rows and the sums.
use padma.Base.{
  ℕ, ◌+◌, Option, none, some, List, [], ◌∷◌, map, Text, codes, ◌==◌, lt_text, take, select, find,
  map_row, if◌then◌else◌,
}
use padma.Base.Int.{ℤ}
use padma.Errors.{Error, Result, ok, err, sentinel, wrapped, is, no_rows, query_not_found}
use padma.Database.{World, Action, pure, query, query_row, wrap, ◌>>=◌}
use padma.Database.Rows.{Time, PaymentRow, ChannelRow, EventRow}
use padma.Platform.Fibertypes.{Fibertypes}
use padma.Platform.Columns.{Pgx}
use padma.Query.Cursor.{Cursor, TimeFormat}
use padma.Query.Repo.{
  Page, Payment, Channel, Event, StatRow, PaymentFilter, ChannelFilter, EventFilter, Conds, eq,
  ts_range, keyset, clause, order_desc, clamp_limit, str, deref, hex_or_empty, paginate,
}

module _ {R : Type 0} (ts_col : R → Option Time) (id_col : R → Text) where
  -- SELECT … WHERE clause ORDER BY … DESC LIMIT limit + 1
  abbrev pub page_rows : Conds R → ℕ → List R → List R
  page_rows c limit table = take (limit + 1) (order_desc ts_col id_col (select (clause c) table))

abbrev pub payment_ts : PaymentRow → Option Time
payment_ts r = r.created_at

abbrev pub payment_id : PaymentRow → Text
payment_id r = r.payment_hash

abbrev pub channel_ts : ChannelRow → Option Time
channel_ts r = r.opened_at

abbrev pub channel_id : ChannelRow → Text
channel_id r = r.channel_id

abbrev pub event_ts : EventRow → Option Time
event_ts r = some r.occurred_at

abbrev pub event_id : EventRow → Text
event_id r = r.id

-- the conditions of a filter
abbrev pub payment_conds : PaymentFilter → Conds PaymentRow
payment_conds f = ts_range payment_ts f.from f.to (
    eq (λ r. r.peer) f.peer
      (eq (λ r. r.asset) f.asset
        (eq (λ r. some r.status) f.status (eq (λ r. some r.direction) f.direction []))))

abbrev pub channel_conds : ChannelFilter → Conds ChannelRow
channel_conds f = eq (λ r. r.peer) f.peer (eq (λ r. r.state) f.state [])

abbrev pub event_conds : EventFilter → Conds EventRow
event_conds f = ts_range event_ts f.from f.to (eq (λ r. some r.event_type) f.event_type [])

-- the one row of a key, or ErrNotFound
abbrev pub one_or_not_found : {A : Type 0} → (Error → Error) → Result A × World → Result A × World
one_or_not_found f (ok a, w) = (ok a, w)
one_or_not_found f (err e, w) =
    if is e no_rows then (err (sentinel query_not_found), w) else (err (f e), w)

-- GROUP BY COALESCE(asset, 'unknown') ORDER BY asset, with count(*) and COALESCE(sum(amount), 0)
pub record Group : Type 0 where
  pub asset : Text
  pub count : ℕ
  pub sum : ℕ

abbrev pub amount_or_0 : Option ℕ → ℕ
amount_or_0 none = 0
amount_or_0 (some n) = n

abbrev pub asset_or_unknown : Option Text → Text
asset_or_unknown none = codes "unknown"
asset_or_unknown (some s) = s

unfoldable pub add_to_groups : PaymentRow → List Group → List Group
add_to_groups r [] =
    record { asset = asset_or_unknown r.asset; count = 1; sum = amount_or_0 r.amount } ∷ []
add_to_groups r (g ∷ gs) =
    let rest = add_to_groups r gs in
    if g.asset == asset_or_unknown r.asset
    then record g { count = g.count + 1; sum = g.sum + amount_or_0 r.amount } ∷ gs
    else if lt_text g.asset (asset_or_unknown r.asset)
    then g ∷ rest
    else record { asset = asset_or_unknown r.asset; count = 1; sum = amount_or_0 r.amount } ∷ g ∷ gs

unfoldable pub groups : List PaymentRow → List Group
unfolding add_to_groups
groups [] = []
groups (r ∷ rs) = add_to_groups r (groups rs)

module _ (lib : Fibertypes) (pgx : Pgx) where
  unfoldable pub payment_of : PaymentRow → Payment
  payment_of r = record {
    payment_hash = r.payment_hash;
    direction = r.direction;
    status = r.status;
    asset = str r.asset;
    amount = hex_or_empty lib pgx r.amount;
    fee = hex_or_empty lib pgx r.fee;
    peer = str r.peer;
    created_at = r.created_at;
    updated_at = r.updated_at;
  }

  unfoldable pub channel_of : ChannelRow → Channel
  channel_of r = record {
    channel_id = r.channel_id;
    peer = str r.peer;
    state = str r.state;
    capacity = hex_or_empty lib pgx r.capacity;
    local_balance = hex_or_empty lib pgx r.local_balance;
    remote_balance = hex_or_empty lib pgx r.remote_balance;
    opened_at = r.opened_at;
    closed_at = r.closed_at;
  }

  unfoldable pub event_of : EventRow → Event
  event_of r = record {
    id = r.id;
    event_type = r.event_type;
    fiber_ref = str r.fiber_ref;
    asset = str r.asset;
    amount = hex_or_empty lib pgx r.amount;
    body = r.payload;
    occurred_at = r.occurred_at;
  }

  unfoldable pub stat_of : Group → StatRow
  stat_of g = record { asset = g.asset; count = g.count; total = hex_or_empty lib pgx (some g.sum) }

  -- PaymentByHash
  unfoldable pub payment_by_hash : Text → Action Payment
  payment_by_hash hash w =
      one_or_not_found (wrapped "query: payment by hash: %w" [])
        (query_row (λ db. map_row payment_of (find payment_id hash db.payments)) w)

  -- ChannelByID
  unfoldable pub channel_by_id : Text → Action Channel
  channel_by_id id w =
      one_or_not_found (wrapped "query: channel by id: %w" [])
        (query_row (λ db. map_row channel_of (find channel_id id db.channels)) w)

  -- StatsPayments
  unfoldable pub stats_payments : Option Time → Option Time → Action (List StatRow)
  stats_payments from to = wrap (wrapped "query: stats: %w" []) (
      query
        (λ db. map stat_of (groups (select (clause (ts_range payment_ts from to [])) db.payments))))

  module _ (clock : TimeFormat) where
    -- Payments
    unfoldable pub payments : PaymentFilter → Cursor → ℤ → Action (Page Payment)
    payments f cur limit = do
      rows ← wrap (wrapped "query: payments: %w" []) (
          query λ db.
            page_rows payment_ts payment_id (keyset payment_ts payment_id cur (payment_conds f))
              (clamp_limit limit) db.payments)
      pure (
          paginate clock (map payment_of rows) (clamp_limit limit)
            λ p. record { time = deref p.created_at; id = p.payment_hash })

    -- Channels
    unfoldable pub channels : ChannelFilter → Cursor → ℤ → Action (Page Channel)
    channels f cur limit = do
      rows ← wrap (wrapped "query: channels: %w" []) (
          query λ db.
            page_rows channel_ts channel_id (keyset channel_ts channel_id cur (channel_conds f))
              (clamp_limit limit) db.channels)
      pure (
          paginate clock (map channel_of rows) (clamp_limit limit)
            λ ch. record { time = deref ch.opened_at; id = ch.channel_id })

    -- Events
    unfoldable pub events : EventFilter → Cursor → ℤ → Action (Page Event)
    events f cur limit = do
      rows ← wrap (wrapped "query: events: %w" []) (
          query λ db.
            page_rows event_ts event_id (keyset event_ts event_id cur (event_conds f))
              (clamp_limit limit) db.events)
      pure (
          paginate clock (map event_of rows) (clamp_limit limit)
            λ e. record { time = e.occurred_at; id = e.id })
