-- ===== src/Checks/Samples.antt =====
-- Concrete data for the tests and examples: a small database, events of each type, and the libraries
-- that the development takes as parameters, by concrete functions.
use padma.Base.{ℕ, true, none, some, [], ◌∷◌, Text, codes, ◌==◌, if◌then◌else◌}
use padma.Errors.{Result, ok, err, reported}
use padma.Database.{Db, World, Amount}
use padma.Database.Rows.{EndpointRow, OrderRow, OrderStatus, DeliveryRow, DeliveryStatus}
use padma.Indexer.Events.{Event, Codec}

abbrev pub amount : ℕ → Amount
amount n = record { big_int = n }

abbrev decoded {ℓ} : {A : Type ℓ} → A → Text → Result A
decoded a payload =
    if payload == codes "{" then err (reported (codes "unexpected end of JSON input")) else ok a

abbrev pub codec : Codec
codec = record {
  invoice_paid_data = decoded (record {
    payment_hash = codes "0x01";
    amount = amount 100;
    asset = codes "CKB";
    settled_at = 40;
  });
  payment_received_data = decoded (record {
    payment_hash = codes "0x02";
    amount = amount 7;
    asset = [];
    payer_pubkey = codes "0xaa";
  });
  channel_opened_data =
      decoded (record { channel_id = codes "0xcc"; peer = codes "0xaa"; capacity = amount 5000 });
  marshal = λ e. ok e.payload;
}

abbrev pub digest : Text → Text
digest s = s

abbrev pub paid_event : Event
paid_event = record {
  id = codes "e1";
  event_type = codes "invoice.paid";
  created_at = 41;
  fiber_ref = codes "0x01";
  payload = codes "{}";
}

abbrev pub broken_event : Event
broken_event = record paid_event { id = codes "e2"; payload = codes "{" }

abbrev pub received_event : Event
received_event = record paid_event { id = codes "e3"; event_type = codes "payment.received" }

abbrev pub endpoint : EndpointRow
endpoint = record {
  id = codes "whk_1";
  url = codes "http://shop";
  secret = codes "s";
  event_types = codes "invoice.paid" ∷ codes "payment.received" ∷ [];
  active = true;
  created_at = 1;
}

abbrev pub order : OrderRow
order = record {
  id = codes "o1";
  merchant_id = codes "m1";
  external_order_id = some (codes "x1");
  invoice_payment_hash = some (codes "0x01");
  amount = some 100;
  asset = some (codes "CKB");
  status = OrderStatus.pending;
  created_at = 10;
  paid_at = none;
}

abbrev pub due_delivery : DeliveryRow
due_delivery = record {
  id = codes "dlv_1";
  endpoint_id = codes "whk_1";
  event_id = codes "e1";
  url = codes "http://shop";
  secret = codes "s";
  payload = codes "{}";
  status = DeliveryStatus.pending;
  attempts = 0;
  next_attempt_at = 20;
  last_error = none;
}

abbrev pub later_delivery : DeliveryRow
later_delivery = record due_delivery { id = codes "dlv_2"; next_attempt_at = 900 }

abbrev pub database : Db
database = record {
  has_webhook_tables = true;
  has_merchant_tables = true;
  ingest_checkpoint = none;
  events = [];
  payments = [];
  channels = [];
  invoices = [];
  webhook_endpoints = endpoint ∷ [];
  webhook_deliveries = due_delivery ∷ later_delivery ∷ [];
  webhook_delivery_log = [];
  merchants = [];
  merchant_orders = order ∷ [];
  refunds = [];
  settlements = [];
  reconciliation_runs = [];
}

abbrev pub world : World
world = record {
  db = database;
  faults = [];
  now = 50;
  ulids = λ n. b'u' ∷ n ∷ [];
  minted = 0;
  random_bytes = λ n. b'k' ∷ n ∷ [];
  drawn = 0;
  invoice_reply = λ n. ok (record { payment_hash = codes "0x05"; address = codes "fibt1" });
  payment_reply = λ n. ok (record { payment_hash = codes "0x06" });
  calls = [];
}

abbrev pub lost_connection : Text
lost_connection = codes "connection reset by peer"
