-- ===== src/Merchant/Reconcile/Counts.antt =====
-- What a reconciliation counts: the orders whose invoice a payment settles, and the others.
use padma.Base.{
  ℕ, ◌+◌, ◌≡◌, refl, sym, ap, ◌∙◌, Bool, false, not, Bool-cases, inl, inr, Option, none, some, List,
  [], ◌∷◌, ◌++◌, append-nil, append_assoc, map, Text, length, select, find, arith, ltb, ◌==◌,
  length-map, subst,
}
use padma.Errors.{Result, ok, ok_injective}
use padma.Database.{Db, World, pure, query}
use padma.Database.Returns.{bind-Passed, wrap_returned, statement_returned}
use padma.Database.Rows.{Time, OrderRow, PaymentRow}
use padma.Platform.Fibertypes.{Fibertypes}
use padma.Platform.Columns.{Pgx}
use padma.Merchant.Settlement.{Reconciliation, Checked}
use padma.Merchant.Settlement.Paid.{was_paid, select-was_paid}
use padma.Merchant.Reconcile.{
  joined, check_order, Tally, tally_order, tally_orders, no_orders, summary, reconciliation,
}

abbrev unmatched_ids : List Checked → List Text
unmatched_ids cs = map (λ (c : Checked). c.order_id) (select (λ (c : Checked). not c.matched) cs)

module _ (lib : Fibertypes) (pgx : Pgx) where
  matched_step :
      (t : Tally) (c : Checked) (cs : List Checked)
      → (tally_order lib pgx t c).matched + length (select (λ (x : Checked). x.matched) cs)
        ≡ t.matched + length (select (λ (x : Checked). x.matched) (c ∷ cs))
  unfolding tally_order
  matched_step t c cs = ground arith

  unmatched_step :
      (t : Tally) (c : Checked) (cs : List Checked)
      → (tally_order lib pgx t c).unmatched_count
          + length (select (λ (x : Checked). not x.matched) cs)
        ≡ t.unmatched_count + length (select (λ (x : Checked). not x.matched) (c ∷ cs))
  unfolding tally_order
  unmatched_step t c cs = ground arith

  listed_step :
      (t : Tally) (c : Checked) (cs : List Checked)
      → (tally_order lib pgx t c).unmatched_orders ++ unmatched_ids cs
        ≡ t.unmatched_orders ++ unmatched_ids (c ∷ cs)
  unfolding tally_order
  listed_step t c cs = elim (Bool-cases c.matched) [
    | inl e ↦ rw e refl
    | inr e ↦ rw e (append_assoc t.unmatched_orders (c.order_id ∷ []) (unmatched_ids cs))
  ]

  -- the loop adds to each count the orders that it is of, and lists those without a payment
  tally_counts :
      (cs : List Checked) (t : Tally)
      → ((tally_orders lib pgx t cs).matched
          ≡ t.matched + length (select (λ (c : Checked). c.matched) cs))
        × ((tally_orders lib pgx t cs).unmatched_count
            ≡ t.unmatched_count + length (select (λ (c : Checked). not c.matched) cs))
        × ((tally_orders lib pgx t cs).unmatched_orders ≡ t.unmatched_orders ++ unmatched_ids cs)
  unfolding tally_orders
  tally_counts [] t = (omega arith, omega arith, sym (append-nil t.unmatched_orders))
  tally_counts (c ∷ cs) t =
      let (n, m, ids) = tally_counts cs (tally_order lib pgx t c) in
      (n ∙ matched_step t c cs, m ∙ unmatched_step t c cs, ids ∙ listed_step t c cs)

-- the payment is of the invoice of the order
abbrev pub pays_for : OrderRow → PaymentRow → Bool
pays_for o p = elim o.invoice_payment_hash [ none ↦ false | some hash ↦ p.payment_hash == hash ]

-- some payment is
abbrev pub is_settled : List PaymentRow → OrderRow → Bool
is_settled ps o = ltb 0 (length (select (pays_for o) ps))

found_some :
    (hash : Text) (ps : List PaymentRow)
    → joined ps (some hash)
      ≡ ltb 0 (length (select (λ (p : PaymentRow). p.payment_hash == hash) ps))
unfolding find
found_some hash [] = refl
found_some hash (p ∷ ps) = ground (arith, found_some hash ps)

none_there : (ps : List PaymentRow) → length (select (λ (p : PaymentRow). false) ps) ≡ 0
none_there [] = refl
none_there (p ∷ ps) = none_there ps

joined_settled :
    (ps : List PaymentRow) (o : OrderRow) (hash : Option Text)
    → o.invoice_payment_hash ≡ hash
    → joined ps o.invoice_payment_hash ≡ is_settled ps o
joined_settled ps o none h = rw (h, none_there ps) refl
joined_settled ps o (some hash) h = rw h (found_some hash ps)

from_zero : {m n : ℕ} → m ≡ 0 + n → m ≡ n
from_zero h = omega (arith, h)

module _ (ps : List PaymentRow) (f : Bool → Bool) where
  -- the checks that pass are those of the orders that a payment settles, or that none does
  checked_select :
      (os : List OrderRow)
      → select (λ (c : Checked). f c.matched) (map (check_order ps) os)
        ≡ map (check_order ps) (select (λ (o : OrderRow). f (is_settled ps o)) os)
  checked_select [] = refl
  checked_select (o ∷ os) =
      let same = joined_settled ps o o.invoice_payment_hash refl in
      elim (Bool-cases (f (is_settled ps o))) [
        | inl e ↦ rw (ap f same ∙ e, e) (ap (◌∷◌ (check_order ps o)) (checked_select os))
        | inr e ↦ rw (ap f same ∙ e, e) (checked_select os)
      ]

  length-checked :
      (os : List OrderRow)
      → length (select (λ (c : Checked). f c.matched) (map (check_order ps) os))
        ≡ length (select (λ (o : OrderRow). f (is_settled ps o)) os)
  length-checked os = ap length (checked_select os) ∙ length-map (check_order ps) _

map_ids :
    (ps : List PaymentRow) (os : List OrderRow)
    → map (λ (c : Checked). c.order_id) (map (check_order ps) os) ≡ map (λ (o : OrderRow). o.id) os
map_ids ps [] = refl
map_ids ps (o ∷ os) = ap (◌∷◌ o.id) (map_ids ps os)

-- what a reconciliation says of the orders that are due, given the payments
pub record Counted (ps : List PaymentRow) (os : List OrderRow) (rec : Reconciliation) : Type 0 where
  pub matched : rec.matched ≡ length (select (is_settled ps) os)
  pub unmatched : rec.unmatched_count ≡ length (select (λ (o : OrderRow). not (is_settled ps o)) os)
  pub listed :
      rec.unmatched_orders
      ≡ map (λ (o : OrderRow). o.id) (select (λ (o : OrderRow). not (is_settled ps o)) os)

module _ (lib : Fibertypes) (pgx : Pgx) where
  summary-Counted :
      (period : Text) (ps : List PaymentRow) (os : List OrderRow)
      → Counted ps os (
          summary lib pgx period
            (tally_orders lib pgx (no_orders lib pgx) (map (check_order ps) os)))
  summary-Counted period ps os =
      let (n, m, ids) = tally_counts lib pgx (map (check_order ps) os) (no_orders lib pgx) in
      record {
        matched = from_zero n ∙ length-checked ps (λ b. b) os;
        unmatched = from_zero m ∙ length-checked ps not os;
        listed =
            ids ∙ ap (map (λ (c : Checked). c.order_id)) (checked_select ps not os) ∙ map_ids ps _;
      }

  module _ (period_of : Time → Text) where
    -- A reconciliation that returned counts as matched the merchant's orders paid in the period for
    -- whose invoice there is a payment, as unmatched those for whose invoice there is none, and
    -- lists the ids of the unmatched ones in the order of the table.
    pub reconciliation_counts :
        (merchant_id period : Text) (rec : Reconciliation) (w w' : World)
        → reconciliation lib pgx period_of merchant_id period w ≡ (ok rec, w')
        → Counted w.db.payments
            (select (was_paid period_of merchant_id period) w.db.merchant_orders)
            rec
    unfolding reconciliation query pure
    reconciliation_counts merchant_id period rec w w' h =
        let (rows, v, queries, h₁) = bind-Passed _ rec w' _ w h in
        let (id, v₁, draws, h₂) = bind-Passed _ rec w' _ v h₁ in
        let (u, v₂, inserts, h₃) = bind-Passed _ rec w' _ v₁ h₂ in
        let (read, _) = statement_returned _ rows w v (wrap_returned _ _ rows w v queries) in
        let os = select (was_paid period_of merchant_id period) w.db.merchant_orders in
        let same : map (check_order w.db.payments) os ≡ rows =
          ap (map (check_order w.db.payments))
            (sym (select-was_paid period_of merchant_id period w.db.merchant_orders))
          ∙ ok_injective (ap (λ (p : Result (List Checked) × Db). p.0) read) in
        subst (Counted w.db.payments os)
          (ap
              (λ (cs : List Checked).
                summary lib pgx period (tally_orders lib pgx (no_orders lib pgx) cs))
              same
            ∙ ok_injective (ap (λ (p : Result Reconciliation × World). p.0) h₃))
          (summary-Counted period w.db.payments os)
