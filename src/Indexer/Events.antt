-- ===== src/Indexer/Events.antt =====
-- The events package of the kanaka library, as far as the indexer reads it: an event, its typed
-- payloads, and encoding/json on them.
use padma.Base.{Text, codes}
use padma.Errors.{Result}
use padma.Database.{Amount}
use padma.Database.Rows.{Time}

pub record Event : Type 0 where
  pub id : Text
  pub event_type : Text
  pub created_at : Time
  pub fiber_ref : Text
  pub payload : Text

pub record InvoicePaidData : Type 0 where
  pub payment_hash : Text
  pub amount : Amount
  pub asset : Text
  pub settled_at : Time

pub record PaymentReceivedData : Type 0 where
  pub payment_hash : Text
  pub amount : Amount
  pub asset : Text
  pub payer_pubkey : Text

pub record ChannelOpenedData : Type 0 where
  pub channel_id : Text
  pub peer : Text
  pub capacity : Amount

-- json.Unmarshal of a payload and json.Marshal of an event
pub record Codec : Type 0 where
  pub invoice_paid_data : Text → Result InvoicePaidData
  pub payment_received_data : Text → Result PaymentReceivedData
  pub channel_opened_data : Text → Result ChannelOpenedData
  pub marshal : Event → Result Text

-- the values of the EventType constants, as README and testdata/seed have them
abbrev pub invoice_paid : Text
invoice_paid = codes "invoice.paid"

abbrev pub payment_received : Text
payment_received = codes "payment.received"

abbrev pub channel_opened : Text
channel_opened = codes "channel.opened"
