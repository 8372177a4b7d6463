-- ===== src/Checks/Reading.antt =====
-- The read side of internal/query on concrete rows.
use padma.Base.{
  ◌==◌, lt_text, select, ==_iff, none, List, map, ap, false, ◌≤◌, ℕ, zero, suc, ◌≡◌, ◌≢◌, refl, ap,
  some, [], ◌∷◌, Text, codes, All, length, arith,
}
use padma.Base.Int.{pos}
use padma.Errors.{ok}
use padma.Database.Rows.{Time, PaymentRow, ChannelRow, EventRow}
use padma.Platform.Base64.{IsByte, encode_to_string, decode_string, sextet, sextet_value}
use padma.Query.Cursor.{Cursor, TimeFormat, encode, decode_cursor}
use padma.Query.Cursor.Trip.{decode_cursor-encode}
use padma.Query.Repo.{
  PaymentFilter, ChannelFilter, EventFilter, ts_range, eq, clause, clamp_limit, order_desc,
}
use padma.Query.Lists.{
  payments, payment_of, payment_ts, payment_id, payment_conds, channels, channel_of, channel_ts,
  channel_id, channel_conds, events, event_of, event_ts, event_id, event_conds,
}
use padma.Query.Follow.{follow}
use padma.Query.Complete.{IsNamed, payments_complete, channels_complete, events_complete}
use padma.Query.Ordered.Sort.{IsDistinct}
use padma.Database.{World}
use padma.Database.Outcome.{calm}
use padma.Checks.Samples.{world, database}
use padma.Checks.Amounts.{fibertypes}
use padma.Checks.Gateway.{pgx, payment}

-- a clock that writes a time as so many ones
abbrev pub ones : Time → Text
ones zero = []
ones (suc t) = b'1' ∷ ones t

pub ones-IsByte : (t : Time) → All IsByte (ones t)
ones-IsByte zero = tt
ones-IsByte (suc t) = (omega arith, ones-IsByte t)

pub ones-no_bar : (t : Time) → All (λ (c : ℕ). c ≢ b'|') (ones t)
ones-no_bar zero = tt
ones-no_bar (suc t) = (λ e. omega arith, ones-no_bar t)

pub length-ones : (t : Time) → length (ones t) ≡ t
length-ones zero = refl
length-ones (suc t) = omega (arith, length-ones t)

abbrev pub clock : TimeFormat
clock = record {
  format = ones;
  parse = λ s. ok (length s);
  parse-format = λ t. ap ok (length-ones t);
  format-IsByte = ones-IsByte;
  no_bar = ones-no_bar;
}

encode_test : encode_to_string (codes "a|b~") ≡ codes "YXxifg"
unfolding encode_to_string sextet
encode_test = refl

decode_test : decode_string (codes "YXxifg") ≡ some (codes "a|b~")
unfolding decode_string sextet_value
decode_test = refl

clamp_test : (clamp_limit (pos 0) ≡ 50) × (clamp_limit (pos 7) ≡ 7) × (clamp_limit (pos 500) ≡ 200)
unfolding clamp_limit
clamp_test = (refl, refl, refl)

abbrev position : Cursor
position = record { time = 3; id = codes "0x|1" }

decode_cursor-encode_example : decode_cursor clock (encode clock position) ≡ ok position
decode_cursor-encode_example = decode_cursor-encode clock position (ground arith)

abbrev second_payment : PaymentRow
second_payment = record payment { payment_hash = codes "0x02"; created_at = some 45 }

abbrev third_payment : PaymentRow
third_payment = record payment { payment_hash = codes "0x03" }

abbrev pub ledger : World
ledger = record world {
  db = record database { payments = payment ∷ second_payment ∷ third_payment ∷ [] };
}

abbrev received : PaymentFilter
received = record {
  direction = codes "received";
  status = [];
  asset = [];
  peer = [];
  from = none;
  to = none;
}

abbrev newest_first : List PaymentRow
newest_first =
    order_desc payment_ts payment_id (select (clause (payment_conds received)) ledger.db.payments)

newest_first_test : newest_first ≡ second_payment ∷ third_payment ∷ payment ∷ []
unfolding clause order_desc ts_range eq ◌==◌ lt_text
newest_first_test = refl

ledger-IsNamed : All (IsNamed payment_ts payment_id) ledger.db.payments
ledger-IsNamed = (
  ((41, refl), refl, ground arith),
  (((45, refl), refl, ground arith), (((41, refl), refl, ground arith), tt)),
)

different : (a b : Text) → (a == b) ≡ false → a ≢ b
different a b h = λ e. cc (h, (==_iff a b).1 e)

ledger-IsDistinct : IsDistinct payment_ts payment_id ledger.db.payments
ledger-IsDistinct = (
  (different _ _ (unfold ◌==◌ in refl), (different _ _ (unfold ◌==◌ in refl), tt)),
  ((different _ _ (unfold ◌==◌ in refl), tt), (tt, tt)),
)

length-newest_first : length newest_first ≤ 3
length-newest_first = omega (arith, ap (λ (rs : List PaymentRow). length rs) newest_first_test)

-- one payment a page
payments_complete_example :
    follow clock (λ cur. (payments fibertypes pgx clock received cur (pos 1) (calm ledger)).0) 4 []
    ≡ ok (map (payment_of fibertypes pgx) newest_first)
payments_complete_example =
    payments_complete fibertypes pgx clock received (pos 1) ledger 3 ledger-IsNamed
      ledger-IsDistinct length-newest_first

abbrev channel : ChannelRow
channel = record {
  channel_id = codes "0xcc";
  peer = some (codes "0xaa");
  state = some (codes "open");
  capacity = some 5000;
  local_balance = none;
  remote_balance = none;
  opened_at = some 41;
  closed_at = none;
}

abbrev any_channel : ChannelFilter
any_channel = record { state = codes "open"; peer = [] }

abbrev event : EventRow
event = record {
  id = codes "e1";
  event_type = codes "channel.opened";
  fiber_ref = none;
  asset = none;
  amount = none;
  payload = codes "{}";
  occurred_at = 41;
  checkpoint = 9;
}

abbrev since_40 : EventFilter
since_40 = record { event_type = []; from = some 40; to = none }

abbrev node : World
node = record world { db = record database { channels = channel ∷ []; events = event ∷ [] } }

channels_test :
    order_desc channel_ts channel_id (select (clause (channel_conds any_channel)) node.db.channels)
    ≡ channel ∷ []
unfolding clause order_desc eq ◌==◌
channels_test = refl

channels_complete_example :
    follow clock (λ cur. (channels fibertypes pgx clock any_channel cur (pos 1) (calm node)).0) 2 []
    ≡ ok (
        map (channel_of fibertypes pgx) (
          order_desc channel_ts channel_id
            (select (clause (channel_conds any_channel)) node.db.channels)))
channels_complete_example =
    channels_complete fibertypes pgx clock any_channel (pos 1) node 1
      (((41, refl), refl, ground arith), tt) (tt, tt)
      (omega (arith, ap (λ (rs : List ChannelRow). length rs) channels_test))

events_test :
    order_desc event_ts event_id (select (clause (event_conds since_40)) node.db.events)
    ≡ event ∷ []
unfolding clause order_desc eq ts_range
events_test = refl

events_complete_example :
    follow clock (λ cur. (events fibertypes pgx clock since_40 cur (pos 0) (calm node)).0) 2 []
    ≡ ok (
        map
          (event_of fibertypes pgx)
          (order_desc event_ts event_id (select (clause (event_conds since_40)) node.db.events)))
events_complete_example =
    events_complete fibertypes pgx clock since_40 (pos 0) node 1
      (((41, refl), refl, ground arith), tt) (tt, tt)
      (omega (arith, ap (λ (rs : List EventRow). length rs) events_test))
