-- ===== src/Merchant/Settlement/Groups.antt =====
-- The groups of the settlement query against totals over the orders and their refunds.
use padma.Base.{
  ℕ, ◌+◌, ◌≤◌, ◌≡◌, refl, ap, subst, ◌∙◌, Bool, true, inl, inr, Bool-cases, List, [], ◌∷◌, Text,
  ◌==◌, ==_iff, ==_self, lt_text, lt_text_irreflexive, lt_text_trans, comes_before, All, All-imp,
  All-both, length, select, total, if◌then◌else◌, arith,
}
use padma.Database.Rows.{OrderRow, RefundRow}
use padma.Merchant.Settlement.{Bucket, or_0, or_ckb, refunds_of, add_to_bucket, buckets}

-- the asset that an order counts for
abbrev pub asset_of : OrderRow → Text
asset_of o = or_ckb o.asset

abbrev pub is_of : Text → OrderRow → Bool
is_of a o = asset_of o == a

-- what was refunded of the order
abbrev pub refunded : List RefundRow → OrderRow → ℕ
refunded rs o =
    total (λ (r : RefundRow). or_0 r.amount) (select (λ (r : RefundRow). r.order_id == o.id) rs)

abbrev pub gross_of : List OrderRow → Text → ℕ
gross_of os a = total (λ (o : OrderRow). or_0 o.amount) (select (is_of a) os)

abbrev pub fees_of : List RefundRow → List OrderRow → Text → ℕ
fees_of rs os a = total (refunded rs) (select (is_of a) os)

-- every group is of a later asset
abbrev Above : Text → List Bucket → Type 0
Above a bs = All (λ (b : Bucket). lt_text a b.asset ≡ true) bs

-- the groups go up by their asset, so that each asset has one
abbrev pub Ascending : List Bucket → Type 0
Ascending [] = Unit {0}
Ascending (b ∷ bs) = Above b.asset bs × Ascending bs

refunds_of-refunded : (o : OrderRow) (rs : List RefundRow) → refunds_of o.id rs ≡ refunded rs o
unfolding refunds_of
refunds_of-refunded o [] = refl
refunds_of-refunded o (r ∷ rs) = ground (arith, refunds_of-refunded o rs)

module _ (rs : List RefundRow) where
  -- the assets are those that were there, and the order's
  module _ (P : Text → Type 0) (o : OrderRow) (of_order : P (asset_of o)) where
    add_to_bucket-All :
        (bs : List Bucket)
        → All (λ (b : Bucket). P b.asset) bs
        → All (λ (b : Bucket). P b.asset) (add_to_bucket rs o bs)
    unfolding add_to_bucket
    add_to_bucket-All [] h = (of_order, tt)
    add_to_bucket-All (b ∷ bs) h = elim (Bool-cases (b.asset == asset_of o)) [
      | inl same ↦ rw same h
      | inr other ↦ elim (Bool-cases (lt_text b.asset (asset_of o))) [
        | inl later ↦ rw (other, later) (h.0, add_to_bucket-All bs h.1)
        | inr not_later ↦ rw (other, not_later) (of_order, h)
      ]
    ]

  Above-trans : (a b : Text) (bs : List Bucket) → lt_text a b ≡ true → Above b bs → Above a bs
  Above-trans a b bs h above =
      All-imp _ _ (λ (c : Bucket) (k : lt_text b c.asset ≡ true). lt_text_trans a b c.asset h k) bs
        above

  add_to_bucket-Ascending :
      (o : OrderRow) (bs : List Bucket) → Ascending bs → Ascending (add_to_bucket rs o bs)
  unfolding add_to_bucket
  add_to_bucket-Ascending o [] up = (tt, tt)
  add_to_bucket-Ascending o (b ∷ bs) up = elim (Bool-cases (b.asset == asset_of o)) [
    | inl same ↦ rw same up
    | inr other ↦ elim (Bool-cases (lt_text b.asset (asset_of o))) [
      | inl later ↦
          rw (other, later)
            (
              add_to_bucket-All (λ a. lt_text b.asset a ≡ true) o later bs up.0,
              add_to_bucket-Ascending o bs up.1,
            )
      | inr not_later ↦
          let first = comes_before b.asset (asset_of o) other not_later in
          rw (other, not_later) ((first, Above-trans (asset_of o) b.asset bs first up.0), up)
    ]
  ]

  buckets-Ascending : (os : List OrderRow) → Ascending (buckets rs os)
  unfolding buckets
  buckets-Ascending [] = tt
  buckets-Ascending (o ∷ os) = add_to_bucket-Ascending o (buckets rs os) (buckets-Ascending os)

  -- a group has an order of its asset
  abbrev pub IsInhabited : List OrderRow → Bucket → Type 0
  IsInhabited os b = 1 ≤ length (select (is_of b.asset) os)

  one_more :
      (o : OrderRow) (os : List OrderRow) (b : Bucket) → IsInhabited os b → IsInhabited (o ∷ os) b
  one_more o os b h = ground arith

  buckets-IsInhabited : (os : List OrderRow) → All (IsInhabited os) (buckets rs os)
  unfolding buckets
  buckets-IsInhabited [] = tt
  buckets-IsInhabited (o ∷ os) =
      add_to_bucket-All (λ a. 1 ≤ length (select (is_of a) (o ∷ os))) o
        (rw (==_self (asset_of o)) (omega arith)) (buckets rs os)
        (All-imp _ _ (one_more o os) (buckets rs os) (buckets-IsInhabited os))

-- what the group of an asset is worth
module _ (worth : Bucket → ℕ) where
  abbrev pub worth_of : Text → List Bucket → ℕ
  worth_of a [] = 0
  worth_of a (b ∷ bs) = if b.asset == a then worth b else worth_of a bs

  worth_of-Above : (a : Text) (bs : List Bucket) → Above a bs → worth_of a bs ≡ 0
  worth_of-Above a [] above = refl
  worth_of-Above a (b ∷ bs) above = elim (Bool-cases (b.asset == a)) [
    | inl same ↦ absurd (cc (above.0, lt_text_irreflexive a, (==_iff b.asset a).0 same))
    | inr other ↦ rw other (worth_of-Above a bs above.1)
  ]

  -- a group that comes later is still the one of its asset
  later_own :
      (b : Bucket) (bs cs : List Bucket)
      → Above b.asset cs
      → All (λ (c : Bucket). worth c ≡ worth_of c.asset bs) cs
      → All (λ (c : Bucket). worth c ≡ worth_of c.asset (b ∷ bs)) cs
  later_own b bs [] above h = tt
  later_own b bs (c ∷ cs) above h = elim (Bool-cases (b.asset == c.asset)) [
    | inl same ↦ absurd (cc (above.0, lt_text_irreflexive c.asset, (==_iff b.asset c.asset).0 same))
    | inr other ↦ (rw other h.0, later_own b bs cs above.1 h.1)
  ]

  worth_of_own :
      (bs : List Bucket) → Ascending bs → All (λ (b : Bucket). worth b ≡ worth_of b.asset bs) bs
  worth_of_own [] up = tt
  worth_of_own (b ∷ bs) up =
      (rw (==_self b.asset) refl, later_own b bs bs up.0 (worth_of_own bs up.1))

  module _ (rs : List RefundRow) (value : OrderRow → ℕ)
      (alone : (o : OrderRow)
        → worth (record { asset = asset_of o; gross = or_0 o.amount; fees = refunds_of o.id rs })
          ≡ value o)
      (more : (b : Bucket) (o : OrderRow)
        → worth (record b { gross = b.gross + or_0 o.amount; fees = b.fees + refunds_of o.id rs })
          ≡ worth b + value o)
      (a : Text) where
    add_to_bucket_worth :
        (o : OrderRow) (bs : List Bucket)
        → Ascending bs
        → worth_of a (add_to_bucket rs o bs)
          ≡ (if asset_of o == a then value o else 0) + worth_of a bs
    unfolding add_to_bucket
    add_to_bucket_worth o [] up = elim (Bool-cases (asset_of o == a)) [
      | inl same ↦ rw same (omega (arith, alone o))
      | inr other ↦ rw other refl
    ]
    add_to_bucket_worth o (b ∷ bs) up = elim (Bool-cases (b.asset == asset_of o)) [
      | inl same ↦
          let is_same = (==_iff b.asset (asset_of o)).0 same in
          rw same (rw is_same (ground (arith, more b o)))
      | inr other ↦ elim (Bool-cases (lt_text b.asset (asset_of o))) [
        | inl later ↦
            rw (other, later)
              (ground (
                arith,
                add_to_bucket_worth o bs up.1,
                ==_iff b.asset a,
                ==_iff (asset_of o) a,
                ==_iff b.asset (asset_of o),
              ))
        | inr not_later ↦
            let first = comes_before b.asset (asset_of o) other not_later in
            let above : Above (asset_of o) (b ∷ bs) =
              (first, Above-trans rs (asset_of o) b.asset bs first up.0) in
            rw (other, not_later)
              (elim (Bool-cases (asset_of o == a)) [
                | inl is_a ↦
                    let none_there = worth_of-Above a (b ∷ bs) (
                      subst (λ (k : Text). Above k (b ∷ bs)) ((==_iff (asset_of o) a).0 is_a)
                        above) in
                    rw is_a (omega (arith, alone o, none_there))
                | inr not_a ↦ rw not_a (omega arith)
              ])
      ]
    ]

    -- over all orders
    buckets_worth :
        (os : List OrderRow) → worth_of a (buckets rs os) ≡ total value (select (is_of a) os)
    unfolding buckets
    buckets_worth [] = refl
    buckets_worth (o ∷ os) =
        ground
          (arith, add_to_bucket_worth o (buckets rs os) (buckets-Ascending rs os), buckets_worth os)

-- the groups are those of the orders: one for each asset that occurs, by asset, with the sum of its
-- orders' amounts and the sum of what was refunded of them
pub record Sums (rs : List RefundRow) (os : List OrderRow) (bs : List Bucket) : Type 0 where
  pub ascending : Ascending bs
  pub inhabited : All (IsInhabited rs os) bs
  pub gross : (a : Text) → worth_of (λ b. b.gross) a bs ≡ gross_of os a
  pub fees : (a : Text) → worth_of (λ b. b.fees) a bs ≡ fees_of rs os a

pub buckets-Sums : (rs : List RefundRow) (os : List OrderRow) → Sums rs os (buckets rs os)
buckets-Sums rs os = record {
  ascending = buckets-Ascending rs os;
  inhabited = buckets-IsInhabited rs os;
  gross = λ a. buckets_worth (λ b. b.gross) rs (λ o. or_0 o.amount) (λ o. refl) (λ b o. refl) a os;
  fees = λ a.
      buckets_worth (λ b. b.fees) rs (refunded rs) (λ o. refunds_of-refunded o rs)
        (λ b o. ap (λ (n : ℕ). b.fees + n) (refunds_of-refunded o rs)) a os;
}

-- each group has the sums of its asset
pub Sums-own :
    (rs : List RefundRow) (os : List OrderRow) (bs : List Bucket)
    → Sums rs os bs
    → All (λ (b : Bucket). (b.gross ≡ gross_of os b.asset) × (b.fees ≡ fees_of rs os b.asset)) bs
Sums-own rs os bs sums =
    All-both _ _ _
      (λ b (g : b.gross ≡ worth_of (λ c. c.gross) b.asset bs)
          (f : b.fees ≡ worth_of (λ c. c.fees) b.asset bs).
        (g ∙ sums.gross b.asset, f ∙ sums.fees b.asset))
      bs (worth_of_own (λ b. b.gross) bs sums.ascending)
      (worth_of_own (λ b. b.fees) bs sums.ascending)
