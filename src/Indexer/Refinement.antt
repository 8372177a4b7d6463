-- ===== src/Indexer/Refinement.antt =====
-- The projector's transaction implements the specification of Indexer/Effect.antt.
use padma.Base.{
  ℕ, ◌≡◌, refl, Bool, true, false, List, [], ◌∷◌, map, select, Text, ◌==◌, if◌then◌else◌,
}
use padma.Errors.{Result, ok, err, wrapped}
use padma.Database.{
  Db, World, Action, pure, exec, query, wrap, lift, statement, attempt, read_now, continue, ◌>>=◌,
}
use padma.Database.Outcome.{calm}
use padma.Database.Meets.{Meets, Meets-pure, Meets-seq, forget_db}
use padma.Indexer.Events.{
  Event, Codec, InvoicePaidData, PaymentReceivedData, ChannelOpenedData, invoice_paid,
  payment_received, channel_opened,
}
use padma.Indexer.Deliveries.{
  EndpointSnapshot, insert_deliveries, enqueue, enqueue_deliveries, new_delivery, insert_delivery,
  matches, snapshot,
}
use padma.Indexer.Projector.{
  project, project_invoice_paid, project_payment_received, project_channel_opened, apply_event,
  apply_events, event_row, flush,
}
use padma.Indexer.Projections.{match_merchant_order, pay_orders, put_invoice, insert_event, advance}
use padma.Indexer.Effect.{
  add_deliveries, paid_if, subscribers, fan_out, invoice_paid_effect, payment_received_effect,
  channel_opened_effect, projected, applied, applied_all, flushed,
}

module _ (codec : Codec) (digest : Text → Text) where
  insert_deliveries-Meets :
      (e : Event) (payload : Text) (eps : List EndpointSnapshot) (w : World)
      → Meets w (insert_deliveries codec digest e payload eps (calm w)) (
          ok (record w.db {
            webhook_deliveries =
                add_deliveries codec digest e payload w.now eps w.db.webhook_deliveries;
          }))
  unfolding insert_deliveries add_deliveries ◌>>=◌ pure wrap exec statement attempt read_now
  insert_deliveries-Meets e payload [] w = refl
  insert_deliveries-Meets e payload (ep ∷ eps) w =
      insert_deliveries-Meets e payload eps
        (record w { db = insert_delivery (new_delivery codec digest e payload w.now ep) w.db })

  enqueue-Meets :
      (e : Event) (eps : List EndpointSnapshot) (w : World)
      → Meets w (enqueue codec digest e eps (calm w)) (fan_out codec digest e w.now eps w.db)
  unfolding enqueue fan_out ◌>>=◌ pure lift
  enqueue-Meets e [] w = refl
  enqueue-Meets e (ep ∷ eps) w = marshalled (codec.marshal e) refl
    where
      marshalled :
          (r : Result Text)
          → codec.marshal e ≡ r
          → Meets w
              (enqueue codec digest e (ep ∷ eps) (calm w))
              (fan_out codec digest e w.now (ep ∷ eps) w.db)
      marshalled (ok payload) h = rw h (insert_deliveries-Meets e payload (ep ∷ eps) w)
      marshalled (err x) h = rw h refl

  selected-Meets :
      (exists : Bool) (e : Event) (w : World)
      → Meets w
          (continue
            ((if exists
                then wrap (wrapped "indexer: select endpoints: %w" []) (
                    query (λ db. map snapshot (select (matches e.event_type) db.webhook_endpoints)))
                else pure [])
              (calm w))
            (enqueue codec digest e))
          (fan_out codec digest e w.now
            (if exists
              then map snapshot (select (matches e.event_type) w.db.webhook_endpoints)
              else [])
            w.db)
  unfolding ◌>>=◌ wrap query pure statement attempt
  selected-Meets true e w = enqueue-Meets e _ w
  selected-Meets false e w = enqueue-Meets e [] w

  enqueue_deliveries-Meets :
      (e : Event) (w : World)
      → Meets w
          (enqueue_deliveries codec digest e (calm w))
          (fan_out codec digest e w.now (subscribers e w.db) w.db)
  unfolding enqueue_deliveries subscribers ◌>>=◌ wrap query pure statement attempt
  enqueue_deliveries-Meets e w = selected-Meets w.db.has_webhook_tables e w

  optional-Meets :
      (exists : Bool) (d : InvoicePaidData) (w : World)
      → Meets w
          ((if exists
              then wrap (wrapped "indexer: match merchant order: %w" []) (exec (pay_orders d))
              else pure tt)
            (calm w))
          (ok (record w.db { merchant_orders = paid_if exists d w.db.merchant_orders }))
  unfolding wrap exec pure statement attempt paid_if
  optional-Meets true d w = refl
  optional-Meets false d w = refl

  match_merchant_order-Meets :
      (d : InvoicePaidData) (w : World)
      → Meets w (match_merchant_order d (calm w)) (
          ok (record w.db {
            merchant_orders = paid_if w.db.has_merchant_tables d w.db.merchant_orders;
          }))
  unfolding match_merchant_order ◌>>=◌ wrap query exec pure statement attempt
  match_merchant_order-Meets d w = optional-Meets w.db.has_merchant_tables d w

  choose-Meets :
      (b : Bool) (m n : Action (Unit {0})) (s t : Result Db) (w : World)
      → Meets w (m (calm w)) s
      → Meets w (n (calm w)) t
      → Meets w ((if b then m else n) (calm w)) (if b then s else t)
  choose-Meets true m n s t w hm hn = hm
  choose-Meets false m n s t w hm hn = hn

  project_invoice_paid-Meets :
      (e : Event) (w : World)
      → Meets w
          (project_invoice_paid codec digest e (calm w))
          (invoice_paid_effect codec digest e w.db)
  unfolding project_invoice_paid invoice_paid_effect ◌>>=◌ lift wrap exec statement attempt
  project_invoice_paid-Meets e w = decoded (codec.invoice_paid_data e.payload) refl
    where
      decoded :
          (r : Result InvoicePaidData)
          → codec.invoice_paid_data e.payload ≡ r
          → Meets w
              (project_invoice_paid codec digest e (calm w))
              (invoice_paid_effect codec digest e w.db)
      decoded (ok d) h = rw h (match_merchant_order-Meets d (record w { db = put_invoice d w.db }))
      decoded (err x) h = rw h refl

  project_payment_received-Meets :
      (e : Event) (w : World)
      → Meets w
          (project_payment_received codec digest e (calm w))
          (payment_received_effect codec digest e w.db)
  unfolding project_payment_received payment_received_effect ◌>>=◌ lift wrap exec statement attempt
  project_payment_received-Meets e w = decoded (codec.payment_received_data e.payload) refl
    where
      decoded :
          (r : Result PaymentReceivedData)
          → codec.payment_received_data e.payload ≡ r
          → Meets w
              (project_payment_received codec digest e (calm w))
              (payment_received_effect codec digest e w.db)
      decoded (ok d) h = rw h refl
      decoded (err x) h = rw h refl

  project_channel_opened-Meets :
      (e : Event) (w : World)
      → Meets w
          (project_channel_opened codec digest e (calm w))
          (channel_opened_effect codec digest e w.db)
  unfolding project_channel_opened channel_opened_effect ◌>>=◌ lift wrap exec statement attempt
  project_channel_opened-Meets e w = decoded (codec.channel_opened_data e.payload) refl
    where
      decoded :
          (r : Result ChannelOpenedData)
          → codec.channel_opened_data e.payload ≡ r
          → Meets w
              (project_channel_opened codec digest e (calm w))
              (channel_opened_effect codec digest e w.db)
      decoded (ok d) h = rw h refl
      decoded (err x) h = rw h refl

  project-Meets :
      (e : Event) (w : World)
      → Meets w (project codec digest e (calm w)) (projected codec digest e w.db)
  unfolding project projected
  project-Meets e w =
      choose-Meets (e.event_type == invoice_paid) (project_invoice_paid codec digest e) _
        (invoice_paid_effect codec digest e w.db) _ w (project_invoice_paid-Meets e w)
        (choose-Meets (e.event_type == payment_received) (project_payment_received codec digest e) _
          (payment_received_effect codec digest e w.db) _ w (project_payment_received-Meets e w)
          (choose-Meets (e.event_type == channel_opened) (project_channel_opened codec digest e)
            (pure tt) (channel_opened_effect codec digest e w.db) (ok w.db) w
            (project_channel_opened-Meets e w) (Meets-pure w)))

  apply_event-Meets :
      (seq : ℕ) (e : Event) (w : World)
      → Meets w (apply_event codec digest seq e (calm w)) (applied codec digest seq w.now e w.db)
  unfolding apply_event applied ◌>>=◌ wrap exec statement attempt
  apply_event-Meets seq e w =
      let d₁ = insert_event (event_row codec digest e seq) w.db in
      let w₁ = record w { db = d₁ } in
      forget_db w d₁ _ (applied codec digest seq w.now e w.db) (
        Meets-seq w₁ (project codec digest e) (enqueue_deliveries codec digest e)
          (projected codec digest e d₁) (λ d. fan_out codec digest e w.now (subscribers e d) d)
          (project-Meets e w₁) (λ d _. enqueue_deliveries-Meets e (record w { db = d })))

  apply_events-Meets :
      (seq : ℕ) (es : List Event) (w : World)
      → Meets w
          (apply_events codec digest seq es (calm w))
          (applied_all codec digest seq w.now es w.db)
  unfolding apply_events applied_all
  apply_events-Meets seq [] w = Meets-pure w
  apply_events-Meets seq (e ∷ es) w =
      Meets-seq w (apply_event codec digest seq e) (apply_events codec digest seq es)
        (applied codec digest seq w.now e w.db) (applied_all codec digest seq w.now es)
        (apply_event-Meets seq e w) (λ d _. apply_events-Meets seq es (record w { db = d }))

  pub flush-Meets :
      (seq : ℕ) (buf : List Event) (w : World)
      → Meets w (flush codec digest seq buf (calm w)) (flushed codec digest seq w.now buf w.db)
  unfolding flush flushed
  flush-Meets seq buf w =
      Meets-seq w (apply_events codec digest seq buf) _
        (applied_all codec digest seq w.now buf w.db) (λ d. ok (advance seq w.now d))
        (apply_events-Meets seq buf w)
        (λ d _. (unfold ◌>>=◌ wrap exec statement attempt read_now in refl))
