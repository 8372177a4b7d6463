-- ===== src/Query/Complete.antt =====
-- The lists of internal/query/queries.go, read to the end through their cursors.
use padma.Base.{
  ℕ, zero, suc, ◌≤◌, ◌≡◌, refl, false, Option, List, [], map, Text, is_empty, All, All-imp, select,
  length, ltb, Bool-cases, inl, inr, arith,
}
use padma.Base.Int.{ℤ, pos, negsuc}
use padma.Errors.{ok}
use padma.Database.{World, query, statement, attempt, wrap, pure, ◌>>=◌}
use padma.Database.Outcome.{calm}
use padma.Database.Rows.{Time}
use padma.Platform.Base64.{IsByte}
use padma.Platform.Fibertypes.{Fibertypes}
use padma.Platform.Columns.{Pgx}
use padma.Query.Cursor.{Cursor, TimeFormat}
use padma.Query.Repo.{
  Conds, PaymentFilter, ChannelFilter, EventFilter, keyset, clause, order_desc, clamp_limit, deref,
  paginate,
}
use padma.Query.Lists.{
  payments, payment_of, payment_ts, payment_id, payment_conds, channels, channel_of, channel_ts,
  channel_id, channel_conds, events, event_of, event_ts, event_id, event_conds, page_rows,
}
use padma.Query.Ordered.{IsTimed}
use padma.Query.Ordered.Sort.{IsDistinct}
use padma.Query.Follow.{follow}
use padma.Query.Follow.Pages.{follow_complete}

-- A page has room for one item at least, and for 200 at most.
clamp_limit-suc : (n : ℤ) → (k : ℕ) × (clamp_limit n ≡ suc k)
unfolding clamp_limit
clamp_limit-suc (negsuc n) = (49, refl)
clamp_limit-suc (pos zero) = (49, refl)
clamp_limit-suc (pos (suc n)) = elim (Bool-cases (ltb 200 (suc n))) [
  | inl e ↦ (199, ground arith)
  | inr e ↦ (n, ground arith)
]

-- a row that has a time and a name of bytes that is not empty
abbrev pub IsNamed : {R : Type 0} → (R → Option Time) → (R → Text) → R → Type 0
IsNamed ts_col id_col r =
    IsTimed ts_col id_col r × (is_empty (id_col r) ≡ false) × All IsByte (id_col r)

module _ {R T : Type 0} (clock : TimeFormat) (ts_col : R → Option Time) (id_col : R → Text)
    (view : R → T) (cursor_of : T → Cursor)
    (own : (r : R) → cursor_of (view r) ≡ record { time = deref (ts_col r); id = id_col r })
    (conds : Conds R) (table : List R) where
  -- pages whose size is a limit of a request
  follow_clamped :
      (limit : ℤ) (n : ℕ)
      → All (IsNamed ts_col id_col) table
      → IsDistinct ts_col id_col table
      → length (order_desc ts_col id_col (select (clause conds) table)) ≤ n
      → follow clock
          (λ cur. ok (
            paginate clock
              (map view (
                page_rows ts_col id_col (keyset ts_col id_col cur conds) (clamp_limit limit) table))
              (clamp_limit limit)
              cursor_of))
          (suc n)
          []
        ≡ ok (map view (order_desc ts_col id_col (select (clause conds) table)))
  follow_clamped limit n named distinct fits =
      let (k, room) = clamp_limit-suc limit in
      rw room (
        follow_complete clock ts_col id_col view cursor_of conds table k
          (All-imp (IsNamed ts_col id_col) _ (λ r h. (h.0, h.1, h.2, own r)) table named) distinct n
          fits)

module _ (lib : Fibertypes) (pgx : Pgx) (clock : TimeFormat) where
  -- Reading the payments page by page, on a database that does not change, gives every payment that
  -- meets the filter, newest first and each once, if at least so many pages are read, where the
  -- payments have times and their hashes are distinct texts of bytes, none empty.
  pub payments_complete :
      (f : PaymentFilter) (limit : ℤ) (w : World) (n : ℕ)
      → All (IsNamed payment_ts payment_id) w.db.payments
      → IsDistinct payment_ts payment_id w.db.payments
      → length (order_desc payment_ts payment_id (select (clause (payment_conds f)) w.db.payments))
        ≤ n
      → follow clock (λ cur. (payments lib pgx clock f cur limit (calm w)).0) (suc n) []
        ≡ ok (
            map
              (payment_of lib pgx)
              (order_desc payment_ts payment_id (select (clause (payment_conds f)) w.db.payments)))
  unfolding payments query wrap pure ◌>>=◌ statement attempt payment_of
  payments_complete f limit w n =
      follow_clamped clock payment_ts payment_id (payment_of lib pgx) _ (λ r. refl)
        (payment_conds f) w.db.payments limit n

  -- Reading the channels page by page, on a database that does not change, gives every channel that
  -- meets the filter, newest first and each once, if at least so many pages are read, where the
  -- channels have times and their ids are distinct texts of bytes, none empty.
  pub channels_complete :
      (f : ChannelFilter) (limit : ℤ) (w : World) (n : ℕ)
      → All (IsNamed channel_ts channel_id) w.db.channels
      → IsDistinct channel_ts channel_id w.db.channels
      → length (order_desc channel_ts channel_id (select (clause (channel_conds f)) w.db.channels))
        ≤ n
      → follow clock (λ cur. (channels lib pgx clock f cur limit (calm w)).0) (suc n) []
        ≡ ok (
            map
              (channel_of lib pgx)
              (order_desc channel_ts channel_id (select (clause (channel_conds f)) w.db.channels)))
  unfolding channels query wrap pure ◌>>=◌ statement attempt channel_of
  channels_complete f limit w n =
      follow_clamped clock channel_ts channel_id (channel_of lib pgx) _ (λ r. refl)
        (channel_conds f) w.db.channels limit n

  -- Reading the events page by page, on a database that does not change, gives every event that
  -- meets the filter, newest first and each once, if at least so many pages are read, where the
  -- events have times and their ids are distinct texts of bytes, none empty.
  pub events_complete :
      (f : EventFilter) (limit : ℤ) (w : World) (n : ℕ)
      → All (IsNamed event_ts event_id) w.db.events
      → IsDistinct event_ts event_id w.db.events
      → length (order_desc event_ts event_id (select (clause (event_conds f)) w.db.events)) ≤ n
      → follow clock (λ cur. (events lib pgx clock f cur limit (calm w)).0) (suc n) []
        ≡ ok (
            map
              (event_of lib pgx)
              (order_desc event_ts event_id (select (clause (event_conds f)) w.db.events)))
  unfolding events query wrap pure ◌>>=◌ statement attempt event_of
  events_complete f limit w n =
      follow_clamped clock event_ts event_id (event_of lib pgx) _ (λ r. refl) (event_conds f)
        w.db.events limit n
