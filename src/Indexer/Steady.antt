-- ===== src/Indexer/Steady.antt =====
-- The function that Save runs in its transaction returns the same where no statement fails.
use padma.Base.{ℕ, List, [], ◌∷◌, Text}
use padma.Database.Outcome.{IsSteady, IsSteady-bind, IsSteady-now, steady_rules}
use padma.Indexer.Events.{Event, Codec, InvoicePaidData}
use padma.Indexer.Deliveries.{
  EndpointSnapshot, insert_deliveries, enqueue, enqueue_deliveries, matching_endpoints,
}
use padma.Indexer.Projector.{project, apply_event, apply_events, flush}
use padma.Indexer.Projections.{match_merchant_order}

matching_endpoints-IsSteady : (t : Text) → IsSteady (matching_endpoints t)
unfolding matching_endpoints
matching_endpoints-IsSteady t = search steady_rules

match_merchant_order-IsSteady : (d : InvoicePaidData) → IsSteady (match_merchant_order d)
unfolding match_merchant_order
match_merchant_order-IsSteady d = search steady_rules

module _ (codec : Codec) (digest : Text → Text) where
  insert_deliveries-IsSteady :
      (e : Event) (payload : Text) (eps : List EndpointSnapshot)
      → IsSteady (insert_deliveries codec digest e payload eps)
  unfolding insert_deliveries
  insert_deliveries-IsSteady e payload [] = search steady_rules
  insert_deliveries-IsSteady e payload (ep ∷ eps) =
      IsSteady-bind _ _ IsSteady-now λ now.
        IsSteady-bind _ _ (search steady_rules) (λ _. insert_deliveries-IsSteady e payload eps)

  enqueue-IsSteady :
      (e : Event) (eps : List EndpointSnapshot) → IsSteady (enqueue codec digest e eps)
  unfolding enqueue
  enqueue-IsSteady e [] = search steady_rules
  enqueue-IsSteady e (ep ∷ eps) = search (steady_rules, insert_deliveries-IsSteady)

  enqueue_deliveries-IsSteady : (e : Event) → IsSteady (enqueue_deliveries codec digest e)
  unfolding enqueue_deliveries
  enqueue_deliveries-IsSteady e =
      search (steady_rules, matching_endpoints-IsSteady, enqueue-IsSteady)

  project-IsSteady : (e : Event) → IsSteady (project codec digest e)
  unfolding project
  project-IsSteady e = search (steady_rules, match_merchant_order-IsSteady) depth 8

  apply_event-IsSteady : (seq : ℕ) (e : Event) → IsSteady (apply_event codec digest seq e)
  unfolding apply_event
  apply_event-IsSteady seq e = search (steady_rules, project-IsSteady, enqueue_deliveries-IsSteady)

  apply_events-IsSteady : (seq : ℕ) (es : List Event) → IsSteady (apply_events codec digest seq es)
  unfolding apply_events
  apply_events-IsSteady seq [] = search steady_rules
  apply_events-IsSteady seq (e ∷ es) =
      IsSteady-bind _ _ (apply_event-IsSteady seq e) (λ _. apply_events-IsSteady seq es)

  pub flush-IsSteady : (seq : ℕ) (buf : List Event) → IsSteady (flush codec digest seq buf)
  unfolding flush
  flush-IsSteady seq buf = search (steady_rules, apply_events-IsSteady)
