-- ===== src/Merchant/Node.antt =====
-- FiberRPC (internal/merchant/merchant.go): the calls of the node that the merchant backend makes.
-- While a call is under way, other processes work on the database: `others` is what they do to it.
use padma.Base.{[], ◌∷◌, ◌++◌, length}
use padma.Database.{Db, World, Action, Call, NewInvoiceParams, Invoice, SendPaymentParams, Payment}

abbrev pub called : (Db → Db) → Call → World → World
called others c w = record w { calls = w.calls ++ c ∷ []; db = others w.db }

unfoldable pub new_invoice : (Db → Db) → NewInvoiceParams → Action Invoice
new_invoice others p w = (w.invoice_reply (length w.calls), called others (Call.new_invoice p) w)

unfoldable pub send_payment : (Db → Db) → SendPaymentParams → Action Payment
send_payment others p w = (w.payment_reply (length w.calls), called others (Call.send_payment p) w)
