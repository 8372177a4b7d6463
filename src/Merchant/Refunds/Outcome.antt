-- ===== src/Merchant/Refunds/Outcome.antt =====
-- What a refund does on each path: whether money leaves the node, and what is recorded of it.
use padma.Base.{
  ◌≡◌, refl, ap, ◌∙◌, ◌⊎◌, inl, inr, true, false, is_empty, Option, none, some, List, [], ◌∷◌, ◌++◌,
  Text, length, first,
}
use padma.Errors.{Error, Result, ok, err, reported, wrapped, is}
use padma.Database.{
  Db, World, Amount, Payment, Call, continue, rewrap, pure, raise, lift, wrap, query_row,
  row_or_none, ◌>>=◌,
}
use padma.Database.Rows.{Time, OrderRow, OrderStatus}
use padma.Database.Cases.{statement_cases}
use padma.Database.Keeps.{Keeps, calls_of, keeps_rules}
use padma.Platform.Fibertypes.{Fibertypes}
use padma.Platform.Columns.{Pgx}
use padma.Merchant.Node.{send_payment, called}
use padma.Merchant.Orders.{Order, get_order, has_id, order_of, or_empty}
use padma.Merchant.Orders.Repeat.{scan_order_cases, looked_up}
use padma.Merchant.Refunds.{
  Refund, refund, refund_paid, pay_back, record_refund, payer_pubkey, payer_or_error, peer_of,
}

-- the call that pays an amount back
abbrev pub payment_to : Text → Amount → Call
payment_to payer amount =
    Call.send_payment (record { target_pubkey = payer; amount = amount; keysend = true })

-- an error before any call: the database and the node are as they were
abbrev pub Refused : World → Result Refund × World → Type 0
Refused w r = ((e : Error) × (r.0 ≡ err e)) × (r.1.db ≡ w.db) × (r.1.calls ≡ w.calls)

-- the one call went out, to the peer of the payment that settled the order
abbrev pub Sent : Text → Amount → World → Result Refund × World → Type 0
Sent payment_hash amount w r =
    (payer : Text) × (peer_of payment_hash w.db ≡ some (some payer))
    × (r.1.calls ≡ w.calls ++ payment_to payer amount ∷ [])

-- a look for the payer finds the peer of the payment, or it is an error
abbrev pub Pays : Text → World → Result Text × World → Type 0
Pays payment_hash w r =
    (rest : List (Option Text)) × (((payer : Text) × (peer_of payment_hash w.db ≡ some (some payer))
        × (is_empty payer ≡ false)
        × (r ≡ (ok payer, record w { faults = rest })))
      ⊎ ((e : Error) × (r ≡ (err e, record w { faults = rest }))))

found_payer :
    (payment_hash : Text) (w : World) (rest : List (Option Text)) (peer : Option (Option Text))
    → peer_of payment_hash w.db ≡ peer
    → Pays payment_hash w (payer_or_error (row_or_none peer, record w { faults = rest }))
unfolding is
found_payer payment_hash w rest none h = (rest, inr (_, refl))
found_payer payment_hash w rest (some none) h = (rest, inr (_, refl))
found_payer payment_hash w rest (some (some [])) h = (rest, inr (_, refl))
found_payer payment_hash w rest (some (some (c ∷ s))) h = (rest, inl (c ∷ s, h, refl, refl))

pub payer_cases :
    (payment_hash : Text) (w : World) → Pays payment_hash w (payer_pubkey payment_hash w)
unfolding payer_pubkey query_row is
payer_cases payment_hash w =
    let (rest, fared) = statement_cases (λ db. (row_or_none (peer_of payment_hash db), db)) w in
    elim fared [
      | inl e ↦ rw e (found_payer payment_hash w rest (peer_of payment_hash w.db) refl)
      | inr (m, e) ↦ (rest, inr (wrapped "merchant: lookup payer: %w" [] (reported m), rw e refl))
    ]

module _ (lib : Fibertypes) (pgx : Pgx) (rfc3339 : Time → Text) where
  -- nothing after SendPayment calls the node
  record_refund-Keeps :
      (order_id reason : Text) (order : Order) (amount : Amount) (pay : Payment)
      → Keeps calls_of (record_refund lib pgx rfc3339 order_id reason order amount pay)
  unfolding record_refund
  record_refund-Keeps order_id reason order amount pay = search keeps_rules

  module _ (others : Db → Db) (order_id amount_hex reason : Text) where
    pub pay_back_calls :
        (order : Order) (amount : Amount) (payer : Text) (w : World)
        → (pay_back lib pgx rfc3339 others order_id reason order amount payer w).1.calls
          ≡ w.calls ++ payment_to payer amount ∷ []
    unfolding pay_back send_payment wrap ◌>>=◌
    pay_back_calls order amount payer w = answered (w.payment_reply (length w.calls))
      where
        answered :
            (reply : Result Payment)
            → (continue {B = Refund}
                (rewrap
                  (wrapped "merchant: send refund: %w" [])
                  (reply, called others (payment_to payer amount) w))
                (record_refund lib pgx rfc3339 order_id reason order amount)).1.calls
              ≡ w.calls ++ payment_to payer amount ∷ []
        answered (ok pay) =
            (record_refund-Keeps order_id reason order amount pay).at
              (called others (payment_to payer amount) w)
        answered (err e) = refl

    -- the refund comes to the payment, of the amount to the peer of the order's payment
    abbrev Reaches : Order → Amount → World → Result Refund × World → Type 0
    Reaches order amount w r =
        (payer : Text) × (peer_of order.invoice_payment_hash w.db ≡ some (some payer))
        × (is_empty payer ≡ false)
        × ((rest : List (Option Text)) × (r
              ≡ pay_back lib pgx rfc3339 others order_id reason order amount payer
                  (record w { faults = rest })))

    -- a refund of an order whose status and amount are accepted
    accepted :
        (order : Order) (amount : Amount) (w : World)
        → let r =
            (payer_pubkey order.invoice_payment_hash
                >>= pay_back lib pgx rfc3339 others order_id reason order amount)
              w in
          Refused w r ⊎ Reaches order amount w r
    unfolding ◌>>=◌
    accepted order amount w =
        let (rest, pays) = payer_cases order.invoice_payment_hash w in
        elim pays [
          | inl (payer, peer, full, e) ↦ rw e (inr (payer, peer, full, (rest, refl)))
          | inr (x, e) ↦ rw e (inl ((x, refl), refl, refl))
        ]

    -- the outcomes of a refund once its order is found
    abbrev Outcomes : Order → World → Result Refund × World → Type 0
    Outcomes order w r =
        Refused w r
        ⊎ ((amount : Amount) × (order.status ≡ OrderStatus.paid)
            × (lib.parse_amount amount_hex ≡ ok amount)
            × Reaches order amount w r)

    parsed-Outcomes :
        (order : Order) (w : World) (parsed : Result Amount)
        → order.status ≡ OrderStatus.paid
        → lib.parse_amount amount_hex ≡ parsed
        → Outcomes order w (refund_paid lib pgx rfc3339 others order_id amount_hex reason order w)
    unfolding refund_paid ◌>>=◌ lift pure pay_back record_refund
    parsed-Outcomes order w (ok amount) paid e =
        rw (paid, e)
          (elim (accepted order amount w) [
            | inl r ↦ inl r
            | inr sent ↦ inr (amount, refl, refl, sent)
          ])
    parsed-Outcomes order w (err x) paid e = rw (paid, e) (inl ((_, refl), refl, refl))

    status-Outcomes :
        (order : Order) (w : World) (status : OrderStatus)
        → order.status ≡ status
        → Outcomes order w (refund_paid lib pgx rfc3339 others order_id amount_hex reason order w)
    unfolding refund_paid ◌>>=◌ raise
    status-Outcomes order w OrderStatus.paid e =
        parsed-Outcomes order w (lib.parse_amount amount_hex) e refl
    status-Outcomes order w OrderStatus.pending e = rw e (inl ((_, refl), refl, refl))
    status-Outcomes order w OrderStatus.expired e = rw e (inl ((_, refl), refl, refl))
    status-Outcomes order w OrderStatus.refunded e = rw e (inl ((_, refl), refl, refl))

  module _ (others : Db → Db) (merchant_id order_id amount_hex reason : Text) where
    abbrev pub refunding : World → Result Refund × World
    refunding w = refund lib pgx rfc3339 others merchant_id order_id amount_hex reason w

    -- the merchant's order is paid, and the amount goes to the peer of the payment of its invoice
    abbrev pub SentBack : World → Result Refund × World → Type 0
    SentBack w r =
        (row : OrderRow) × (amount : Amount) × (first (has_id order_id merchant_id)
            w.db.merchant_orders
          ≡ some row)
        × (row.status ≡ OrderStatus.paid)
        × (lib.parse_amount amount_hex ≡ ok amount)
        × Sent (or_empty row.invoice_payment_hash) amount w r

    -- the refund of a paid order comes to the payment, on a database that is as it was
    abbrev pub PaysBack : World → Result Refund × World → Type 0
    PaysBack w r =
        (row : OrderRow) × (amount : Amount) × (payer : Text) × (first (has_id order_id merchant_id)
            w.db.merchant_orders
          ≡ some row)
        × (row.status ≡ OrderStatus.paid)
        × (lib.parse_amount amount_hex ≡ ok amount)
        × (peer_of (or_empty row.invoice_payment_hash) w.db ≡ some (some payer))
        × (is_empty payer ≡ false)
        × ((rest : List (Option Text)) × (r
              ≡ pay_back lib pgx rfc3339 others order_id reason (order_of lib pgx rfc3339 row)
                  amount payer (record w { faults = rest })))

    looked-PaysBack :
        (v : World) (found : Option OrderRow)
        → first (has_id order_id merchant_id) v.db.merchant_orders ≡ found
        → let r =
            continue {B = Refund}
              (looked_up lib pgx rfc3339 found, v)
              (refund_paid lib pgx rfc3339 others order_id amount_hex reason) in
          Refused v r ⊎ PaysBack v r
    looked-PaysBack v none e = inl ((_, refl), refl, refl)
    looked-PaysBack v (some row) e =
        elim (status-Outcomes others order_id amount_hex reason (order_of lib pgx rfc3339 row) v
          row.status (unfold order_of in refl)) [
            | inl r ↦ inl r
            | inr (amount, paid, parsed, (payer, peer, full, (rest, reached))) ↦ inr (
              row,
              amount,
              payer,
              e,
              (unfold order_of in paid),
              parsed,
              (unfold order_of in peer),
              full,
              (rest, reached),
            )
          ]

    -- a refund is refused before any call, or comes to the payment
    pub refund_cases : (w : World) → Refused w (refunding w) ⊎ PaysBack w (refunding w)
    unfolding refund get_order ◌>>=◌
    refund_cases w =
        let (rest, looks) =
          scan_order_cases lib pgx rfc3339
            (λ db. first (has_id order_id merchant_id) db.merchant_orders) w in
        elim looks [
          | inl e ↦ rw e (looked-PaysBack (record w { faults = rest }) _ refl)
          | inr (m, e) ↦ rw e (inl ((_, refl), refl, refl))
        ]

    -- A refund either ends in an error before any call of the node, with the database as it was, or
    -- makes one call: the order is the merchant's and paid, the amount is the one that was asked for,
    -- and it goes to the peer of the payment of the order's invoice.
    pub refund_sends : (w : World) → Refused w (refunding w) ⊎ SentBack w (refunding w)
    refund_sends w = elim (refund_cases w) [
      | inl refused ↦ inl refused
      | inr (row, amount, payer, there, paid, parsed, peer, full, (rest, reached)) ↦
          let calls =
            pay_back_calls others order_id amount_hex reason (order_of lib pgx rfc3339 row) amount
              payer (record w { faults = rest }) in
          inr (
            row,
            amount,
            there,
            paid,
            parsed,
            (payer, peer, ap (λ (r : Result Refund × World). r.1.calls) reached ∙ calls),
          )
    ]
