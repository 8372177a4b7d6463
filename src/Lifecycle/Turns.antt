-- ===== src/Lifecycle/Turns.antt =====
-- Orders under any interleaving of the indexer and the merchant backend.
use padma.Base.{ℕ, ◌≡◌, sym, subst, inl, inr, Option, none, some, List, Text}
use padma.Database.{Db, World, row_or_none}
use padma.Database.Rows.{OrderRow}
use padma.Platform.Http.{Request}
use padma.Errors.{is}
use padma.Indexer.Events.{Codec}
use padma.Indexer.Projector.{Projector, save}
use padma.Indexer.Writes.{save-Preserves}
use padma.Merchant.Handlers.{Outside, Route, serve, handle, identified}
use padma.Merchant.Handlers.Guard.{auth_cases, key_owner}
use padma.Merchant.Handlers.Keeping.{handle_keeps}
use padma.Lifecycle.{Lives}
use padma.Lifecycle.Writes.{pay_orders-Lives, insert_order-Lives}
use padma.Lifecycle.Refunds.{LivesIn, refund-Lives}

-- Saves of the indexer and requests of merchants one after another, in which further ones may come
-- between a request's call of the node and its answer; a statement may fail anywhere. What the rest
-- of the program does writes no order.
pub data Turns : Db → Db → Type 1 where
  stop : (db : Db) → Turns db db
  saves :
      (db : Db) (codec : Codec) (digest : Text → Text) (seq : ℕ) (p : Projector) (w : World)
      → Turns db w.db
      → Turns db (save codec digest seq p w).0.1.db
  serves :
      (db : Db) (o : Outside) (route : Route) (r : Request) (w : World)
      → ((x : Db) → Turns x (o.others x))
      → Turns db w.db
      → Turns db (serve o route r w).1.db
  elsewhere : (db x y : Db) → y.merchant_orders ≡ x.merchant_orders → Turns db x → Turns db y

module _ (k : Text) (x : OrderRow) where
  serve-Lives :
      (o : Outside) (route : Route) (r : Request) (w : World)
      → ((db : Db) → LivesIn k x db → LivesIn k x (o.others db))
      → LivesIn k x w.db
      → LivesIn k x (serve o route r w).1.db
  unfolding serve is
  serve-Lives o route r w others_keep h = elim (auth_cases o (λ m. handle o route m r) r w) [
    | inl (lacks, e) ↦ rw e h
    | inr (has, (rest, inl e)) ↦ rw e (identified-Lives rest (key_owner o r w.db))
    | inr (has, (rest, inr (m, e))) ↦ rw e h
  ]
    where
      identified-Lives :
          (rest : List (Option Text)) (owner : Option Text)
          → LivesIn k x
              (identified o
                (λ m. handle o route m r)
                (row_or_none owner, record w { faults = rest })).1.db
      identified-Lives rest none = h
      identified-Lives rest (some m) =
          handle_keeps (LivesIn k x) o others_keep (insert_order-Lives k x) (λ s db l. l)
            (λ s db l. l) route m r (record w { faults = rest })
            (λ order_id amount_hex reason.
              refund-Lives k x o others_keep m order_id amount_hex reason
                (record w { faults = rest }))
            h

  -- An order that is in the table stays there under every interleaving of saves and requests,
  -- whatever fails: its id, merchant, external id, invoice, amount and asset never change, its status
  -- goes from pending over paid to refunded and never back, and the ids of the orders stay unique.
  pub Turns-Lives :
      (db db' : Db) → Turns db db' → Lives k x db.merchant_orders → Lives k x db'.merchant_orders
  Turns-Lives _ _ (stop db) h = h
  Turns-Lives _ _ (saves db codec digest seq p w before) h =
      save-Preserves (LivesIn k x) (λ y z same l. subst (Lives k x) (sym same) l)
        (pay_orders-Lives k x) codec digest seq p w (Turns-Lives db w.db before h)
  Turns-Lives _ _ (serves db o route r w during before) h =
      serve-Lives o route r w (λ y l. Turns-Lives y (o.others y) (during y) l)
        (Turns-Lives db w.db before h)
  Turns-Lives _ _ (elsewhere db y z same before) h =
      subst (Lives k x) (sym same) (Turns-Lives db y before h)
