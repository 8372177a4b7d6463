-- ===== src/Lifecycle.antt =====
-- An order under everything that writes merchant_orders: the indexer (internal/indexer) pays it, the
-- merchant backend (internal/merchant) makes and refunds it.
pub mod Writes
pub mod Refunds
pub mod Turns
use padma.Base.{◌≡◌, some, List, Text, find, IsUnique}
use padma.Database.Rows.{OrderRow, OrderStatus, pending, paid, expired, refunded}

abbrev pub order_key : OrderRow → Text
order_key o = o.id

-- pending, then paid, then refunded; nothing leaves expired
abbrev pub Grows : OrderStatus → OrderStatus → Type 0
Grows pending expired = ⊥
Grows pending s = Unit {0}
Grows paid paid = Unit {0}
Grows paid refunded = Unit {0}
Grows paid s = ⊥
Grows expired expired = Unit {0}
Grows expired s = ⊥
Grows refunded refunded = Unit {0}
Grows refunded s = ⊥

-- the order as it was but for its status, which has only grown, and the time of its payment
abbrev pub Grown : OrderRow → OrderRow → Type 0
Grown o x = (x ≡ record o { status = x.status; paid_at = x.paid_at }) × Grows o.status x.status

-- the order is still there under its id, and ids are unique
abbrev pub Lives : Text → OrderRow → List OrderRow → Type 0
Lives k o os = IsUnique order_key os × ((x : OrderRow) × (find order_key k os ≡ some x) × Grown o x)
