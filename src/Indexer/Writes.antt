-- ===== src/Indexer/Writes.antt =====
-- What the indexer does to merchant orders: of all that Save writes, matchMerchantOrder alone.
use padma.Base.{ℕ, ◌≡◌, refl, List, [], ◌∷◌, Text}
use padma.Database.{Db, World, exec}
use padma.Database.Preserves.{
  Preserves, Preserves-pure, Preserves-lift, Preserves-wrap, Preserves-exec, Preserves-read_now,
  Preserves-bind, preserves_rules, either-Preserves,
}
use padma.Database.Tx.{in_tx-Preserves}
use padma.Indexer.Events.{Event, Codec, InvoicePaidData}
use padma.Indexer.Deliveries.{
  EndpointSnapshot, enqueue_deliveries, enqueue, matching_endpoints, insert_deliveries,
}
use padma.Indexer.Projector.{
  Projector, project_invoice_paid, project_payment_received, project_channel_opened, project,
  apply_event, apply_events, flush, save,
}
use padma.Indexer.Projections.{pay_orders, match_merchant_order}

module _ {κ} (P : Db → Type κ)
    (elsewhere : (db db' : Db) → db'.merchant_orders ≡ db.merchant_orders → P db → P db')
    (pays_keep : (d : InvoicePaidData) (db : Db) → P db → P (pay_orders d db)) where
  -- a statement that writes no order
  exec_elsewhere :
      (f : Db → Db)
      → ((db : Db) → (f db).merchant_orders ≡ db.merchant_orders)
      → Preserves P (exec f)
  exec_elsewhere f same = Preserves-exec P f (λ db h. elsewhere db (f db) (same db) h)

  match_merchant_order-Preserves : (d : InvoicePaidData) → Preserves P (match_merchant_order d)
  unfolding match_merchant_order
  match_merchant_order-Preserves d = search (preserves_rules, pays_keep) depth 12 fits 2000

  module _ (codec : Codec) (digest : Text → Text) where
    insert_deliveries-Preserves :
        (e : Event) (payload : Text) (eps : List EndpointSnapshot)
        → Preserves P (insert_deliveries codec digest e payload eps)
    unfolding insert_deliveries
    insert_deliveries-Preserves e payload [] = Preserves-pure P tt
    insert_deliveries-Preserves e payload (ep ∷ eps) =
        Preserves-bind P _ _ (search preserves_rules) λ now.
          Preserves-bind P _ _ (Preserves-wrap P _ _ (exec_elsewhere _ (λ db. refl)))
            λ _. insert_deliveries-Preserves e payload eps

    enqueue-Preserves :
        (e : Event) (eps : List EndpointSnapshot) → Preserves P (enqueue codec digest e eps)
    unfolding enqueue
    enqueue-Preserves e [] = Preserves-pure P tt
    enqueue-Preserves e (ep ∷ eps) = search (preserves_rules, insert_deliveries-Preserves)

    matching_endpoints-Preserves : (event_type : Text) → Preserves P (matching_endpoints event_type)
    unfolding matching_endpoints
    matching_endpoints-Preserves event_type = search preserves_rules depth 12 fits 2000

    enqueue_deliveries-Preserves : (e : Event) → Preserves P (enqueue_deliveries codec digest e)
    unfolding enqueue_deliveries
    enqueue_deliveries-Preserves e =
        search (preserves_rules, matching_endpoints-Preserves, enqueue-Preserves)

    project_invoice_paid-Preserves : (e : Event) → Preserves P (project_invoice_paid codec digest e)
    unfolding project_invoice_paid
    project_invoice_paid-Preserves e = Preserves-bind P _ _ (Preserves-lift P _) λ d.
        Preserves-bind P _ _ (Preserves-wrap P _ _ (exec_elsewhere _ (λ db. refl)))
          λ _. match_merchant_order-Preserves d

    project_payment_received-Preserves :
        (e : Event) → Preserves P (project_payment_received codec digest e)
    unfolding project_payment_received
    project_payment_received-Preserves e =
        Preserves-bind P _ _ (Preserves-lift P _)
          λ d. Preserves-wrap P _ _ (exec_elsewhere _ (λ db. refl))

    project_channel_opened-Preserves :
        (e : Event) → Preserves P (project_channel_opened codec digest e)
    unfolding project_channel_opened
    project_channel_opened-Preserves e =
        Preserves-bind P _ _ (Preserves-lift P _)
          λ d. Preserves-wrap P _ _ (exec_elsewhere _ (λ db. refl))

    project-Preserves : (e : Event) → Preserves P (project codec digest e)
    unfolding project
    project-Preserves e = search (
      either-Preserves, Preserves-pure, project_invoice_paid-Preserves,
      project_payment_received-Preserves, project_channel_opened-Preserves,
    )

    apply_event-Preserves : (seq : ℕ) (e : Event) → Preserves P (apply_event codec digest seq e)
    unfolding apply_event
    apply_event-Preserves seq e =
        Preserves-bind P _ _ (Preserves-wrap P _ _ (exec_elsewhere _ (λ db. refl)))
          λ _. Preserves-bind P _ _ (project-Preserves e) λ _. enqueue_deliveries-Preserves e

    apply_events-Preserves :
        (seq : ℕ) (es : List Event) → Preserves P (apply_events codec digest seq es)
    unfolding apply_events
    apply_events-Preserves seq [] = Preserves-pure P tt
    apply_events-Preserves seq (e ∷ es) =
        Preserves-bind P _ _ (apply_event-Preserves seq e) λ _. apply_events-Preserves seq es

    -- Save keeps what the payment of pending orders keeps and what no other table matters to.
    pub save-Preserves :
        (seq : ℕ) (p : Projector) (w : World) → P w.db → P (save codec digest seq p w).0.1.db
    unfolding save flush
    save-Preserves seq p w h =
        (in_tx-Preserves P (flush codec digest seq p.buf) (
            Preserves-bind P _ _ (apply_events-Preserves seq p.buf) λ _.
              Preserves-bind P _ _ (Preserves-read_now P)
                λ now. Preserves-wrap P _ _ (exec_elsewhere _ (λ db. refl)))).at
          w h
