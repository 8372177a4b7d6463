-- ===== src/Indexer/Idempotent.antt =====
-- Applying an event a second time, at any later checkpoint and time, changes nothing.
use padma.Base.{
  ℕ, ◌≡◌, refl, sym, ap, subst, Bool, true, false, some, Option, List, [], ◌∷◌, Text, ◌==◌, find,
  insert_new_present, insert_new_found, if◌then◌else◌,
}
use padma.Errors.{Result, ok, err, wrapped, or_wrap, ok_injective, bind-eq-ok, ◌>>=◌}
use padma.Database.{Db}
use padma.Database.Rows.{Time, Checkpoint, DeliveryRow, EventRow}
use padma.Indexer.Events.{
  Event, Codec, InvoicePaidData, PaymentReceivedData, ChannelOpenedData, invoice_paid,
  payment_received, channel_opened,
}
use padma.Indexer.Deliveries.{EndpointSnapshot}
use padma.Indexer.Projector.{event_row}
use padma.Indexer.Projections.{insert_event, put_payment, put_channel}
use padma.Indexer.Effect.{
  add_deliveries, settle_invoice, subscribers, fan_out, invoice_paid_effect,
  payment_received_effect, channel_opened_effect, projected, applied,
}
use padma.Indexer.Outbox.{IsQueued-add_deliveries, add_deliveries_queued}
use padma.Indexer.Replay.{projected_again}

-- another checkpoint and another outbox
abbrev pub around : Option Checkpoint → Db → List DeliveryRow → Db
around cp d ds = record d { ingest_checkpoint = cp; webhook_deliveries = ds }

module _ (codec : Codec) (digest : Text → Text) where
  module _ (P : Db → Type 0) (d : Db) where
    -- a chosen branch that returned
    chosen :
        (b : Bool) (s t : Result Db)
        → (s ≡ ok d → P d)
        → (t ≡ ok d → P d)
        → (if b then s else t) ≡ ok d
        → P d
    chosen true s t hs ht h = hs h
    chosen false s t hs ht h = ht h

    decoded_frame :
        {D : Type 0} (r : Result D) (f : D → Db)
        → ((x : D) → P (f x))
        → (r >>= λ x. ok (f x)) ≡ ok d
        → P d
    decoded_frame (ok x) f keeps h = subst P (ok_injective h) (keeps x)
    decoded_frame (err e) f keeps h = absurd (cc)

    -- what holds after each projection holds after the switch
    pub projected_frame :
        (e : Event) (db : Db)
        → ((x : InvoicePaidData) → P (settle_invoice x db))
        → ((x : PaymentReceivedData) → P (put_payment e x db))
        → ((x : ChannelOpenedData) → P (put_channel e x db))
        → P db
        → projected codec digest e db ≡ ok d
        → P d
    unfolding projected invoice_paid_effect payment_received_effect channel_opened_effect
    projected_frame e db hi hp hc h0 =
        chosen (e.event_type == invoice_paid) (invoice_paid_effect codec digest e db) _
          (decoded_frame _ (λ x. settle_invoice x db) hi)
          (chosen (e.event_type == payment_received) (payment_received_effect codec digest e db) _
            (decoded_frame _ (λ x. put_payment e x db) hp)
            (chosen (e.event_type == channel_opened) (channel_opened_effect codec digest e db)
              (ok db) (decoded_frame _ (λ x. put_channel e x db) hc)
              (λ h. subst P (ok_injective h) h0)))

  -- the projections do not touch the event store
  pub events-projected :
      (e : Event) (db d : Db) → projected codec digest e db ≡ ok d → d.events ≡ db.events
  events-projected e db d =
      projected_frame (λ y. y.events ≡ db.events) d e db (λ x. refl) (λ x. refl) (λ x. refl) refl

  abbrev IsFannedOut : Event → List EndpointSnapshot → Db → Db → Type 0
  IsFannedOut e eps d₁ d =
      (ds : List DeliveryRow) × (d ≡ record d₁ { webhook_deliveries = ds })
      × ((cp : Option Checkpoint) (now : Time)
          → fan_out codec digest e now eps (around cp d₁ ds) ≡ ok (around cp d₁ ds))

  fanned_out :
      (e : Event) (now : Time) (eps : List EndpointSnapshot) (d₁ d : Db)
      → fan_out codec digest e now eps d₁ ≡ ok d
      → IsFannedOut e eps d₁ d
  unfolding fan_out
  fanned_out e now [] d₁ d h = (d₁.webhook_deliveries, sym (ok_injective h), λ cp now'. refl)
  fanned_out e now (ep ∷ eps) d₁ d h =
      let ds = λ (payload : Text).
        add_deliveries codec digest e payload now (ep ∷ eps) d₁.webhook_deliveries in
      let (payload, encoded, stored) =
        bind-eq-ok (or_wrap (wrapped "indexer: marshal delivery payload: %w" []) (codec.marshal e))
          (λ payload. ok (record d₁ { webhook_deliveries = ds payload })) h in
      (
        ds payload,
        sym (ok_injective stored),
        λ cp now'. rw encoded (
            ap (λ (x : List DeliveryRow). ok (around cp d₁ x))
              (add_deliveries_queued codec digest e payload now' (ep ∷ eps) (ds payload) (
                IsQueued-add_deliveries codec digest e payload now (ep ∷ eps)
                  d₁.webhook_deliveries))),
      )

  abbrev event_key : EventRow → Text
  event_key r = r.id

  -- inserting an event whose id is stored changes nothing
  insert_event_stored :
      (seq : ℕ) (e : Event) (r : EventRow) (d : Db)
      → find event_key e.id d.events ≡ some r
      → insert_event (event_row codec digest e seq) d ≡ d
  unfolding event_row
  insert_event_stored seq e r d h =
      ap (λ (t : List EventRow). record d { events = t })
        (insert_new_present event_key (event_row codec digest e seq) r d.events h)

  stored_event :
      (seq : ℕ) (e : Event) (db d : Db)
      → d.events ≡ (insert_event (event_row codec digest e seq) db).events
      → (r : EventRow) × (find event_key e.id d.events ≡ some r)
  unfolding event_row
  stored_event seq e db d h =
      let (r, found) = insert_new_found event_key (event_row codec digest e seq) db.events in
      (r, rw h found)

  -- Applying an event again, at any later checkpoint and time, changes nothing.
  pub applied_again :
      (seq seq' : ℕ) (now now' : Time) (e : Event) (db d : Db) (cp : Option Checkpoint)
      → applied codec digest seq now e db ≡ ok d
      → applied codec digest seq' now' e (record d { ingest_checkpoint = cp })
        ≡ ok (record d { ingest_checkpoint = cp })
  unfolding applied
  applied_again seq seq' now now' e db d cp h =
      let db₁ = insert_event (event_row codec digest e seq) db in
      let (d₁, projects, fans) =
        bind-eq-ok (projected codec digest e db₁)
          (λ (y : Db). fan_out codec digest e now (subscribers e y) y) h in
      let (ds, same, again) = fanned_out e now (subscribers e d₁) d₁ d fans in
      let (r, found) = stored_event seq e db d₁ (events-projected e db₁ d₁ projects) in
      rw same (
        rw (insert_event_stored seq' e r (around cp d₁ ds) found) (
          rw (projected_again codec digest e db₁ d₁ cp ds projects)
            (unfold subscribers in again cp now')))
