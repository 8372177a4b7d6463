-- ===== src/Database/Rows.antt =====
-- The rows of migrations/0001_ingest_index.sql, 0002_webhook.sql and 0003_merchant.sql, with the
-- columns that the code reads or writes. A nullable column is an `Option`. A NUMERIC column holds a
-- whole amount: `AmountToNumeric` is the only writer.
use padma.Base.{ℕ, Bool, Option, List, Text}

-- nanoseconds since Go's zero time, so that `IsZero` is the test with 0
abbrev pub Time : Type 0
Time = ℕ

pub record Checkpoint : Type 0 where
  pub last_seq : ℕ
  pub updated_at : Time

pub record EventRow : Type 0 where
  pub id : Text
  pub event_type : Text
  pub fiber_ref : Option Text
  pub asset : Option Text
  pub amount : Option ℕ
  pub payload : Text
  pub occurred_at : Time
  pub checkpoint : ℕ

pub record PaymentRow : Type 0 where
  pub payment_hash : Text
  pub direction : Text
  pub status : Text
  pub asset : Option Text
  pub amount : Option ℕ
  pub fee : Option ℕ
  pub peer : Option Text
  pub created_at : Option Time
  pub updated_at : Option Time

pub record ChannelRow : Type 0 where
  pub channel_id : Text
  pub peer : Option Text
  pub state : Option Text
  pub capacity : Option ℕ
  pub local_balance : Option ℕ
  pub remote_balance : Option ℕ
  pub opened_at : Option Time
  pub closed_at : Option Time

pub record InvoiceRow : Type 0 where
  pub payment_hash : Text
  pub status : Text
  pub asset : Option Text
  pub amount : Option ℕ
  pub settled_at : Option Time

pub record EndpointRow : Type 0 where
  pub id : Text
  pub url : Text
  pub secret : Text
  pub event_types : List Text
  pub active : Bool
  pub created_at : Time

-- pending|delivering|succeeded|failed|dead
pub data DeliveryStatus : Type 0 where
  pending delivering succeeded failed dead : DeliveryStatus

pub record DeliveryRow : Type 0 where
  pub id : Text
  pub endpoint_id : Text
  pub event_id : Text
  pub url : Text
  pub secret : Text
  pub payload : Text
  pub status : DeliveryStatus
  pub attempts : ℕ
  pub next_attempt_at : Time
  pub last_error : Option Text

pub record DeliveryLogRow : Type 0 where
  pub delivery_id : Text
  pub attempt_no : ℕ
  pub error : Option Text

pub record MerchantRow : Type 0 where
  pub id : Text
  pub name : Text
  pub api_key_hash : Text
  pub settlement_asset : Text

-- pending|paid|expired|refunded
pub data OrderStatus : Type 0 where
  pending paid expired refunded : OrderStatus

pub record OrderRow : Type 0 where
  pub id : Text
  pub merchant_id : Text
  pub external_order_id : Option Text
  pub invoice_payment_hash : Option Text
  pub amount : Option ℕ
  pub asset : Option Text
  pub status : OrderStatus
  pub created_at : Time
  pub paid_at : Option Time

pub record RefundRow : Type 0 where
  pub id : Text
  pub order_id : Text
  pub amount : Option ℕ
  pub asset : Option Text
  pub reason : Text
  pub status : Text
  pub fiber_payment_hash : Text

pub record SettlementRecord : Type 0 where
  pub id : Text
  pub merchant_id : Text
  pub period : Text
  pub gross : Option ℕ
  pub fees : Option ℕ
  pub net : Option ℕ
  pub asset : Text
  pub status : Text

pub record RunRow : Type 0 where
  pub id : Text
  pub merchant_id : Text
  pub period : Text
  pub matched : ℕ
  pub unmatched_count : ℕ
  pub discrepancy_total : Option ℕ
