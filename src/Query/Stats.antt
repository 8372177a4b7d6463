-- ===== src/Query/Stats.antt =====
-- internal/query/queries.go: the sums of StatsPayments, group by group.
use padma.Base.{
  ℕ, ◌+◌, ◌≤◌, ◌≡◌, refl, sym, ap, subst, ◌∙◌, Bool, true, inl, inr, Bool-cases, Option, List, [],
  ◌∷◌, map, Text, ◌==◌, ==_iff, lt_text, lt_text_irreflexive, lt_text_trans, All, All-imp,
  comes_before, total, length, select, if◌then◌else◌, arith,
}
use padma.Errors.{ok, ok_injective, Result}
use padma.Database.{Db, World, query}
use padma.Database.Returns.{wrap_returned, statement_returned}
use padma.Database.Rows.{Time, PaymentRow}
use padma.Platform.Fibertypes.{Fibertypes}
use padma.Platform.Columns.{Pgx}
use padma.Query.Repo.{StatRow, ts_range, clause}
use padma.Query.Lists.{
  Group, amount_or_0, asset_or_unknown, add_to_groups, groups, stat_of, stats_payments, payment_ts,
}

-- the asset that a payment counts for
abbrev pub asset_of : PaymentRow → Text
asset_of r = asset_or_unknown r.asset

abbrev pub is_of : Text → PaymentRow → Bool
is_of a r = asset_of r == a

-- every group is of a later asset
abbrev Above : Text → List Group → Type 0
Above a gs = All (λ (g : Group). lt_text a g.asset ≡ true) gs

-- the groups go up by their asset, so that each asset has one
abbrev pub Ascending : List Group → Type 0
Ascending [] = Unit {0}
Ascending (g ∷ gs) = Above g.asset gs × Ascending gs

Above-trans : (a b : Text) (gs : List Group) → lt_text a b ≡ true → Above b gs → Above a gs
Above-trans a b gs h above =
    All-imp _ _ (λ (g : Group) (k : lt_text b g.asset ≡ true). lt_text_trans a b g.asset h k) gs
      above

add_to_groups-Above :
    (a : Text) (r : PaymentRow) (gs : List Group)
    → lt_text a (asset_of r) ≡ true
    → Above a gs
    → Above a (add_to_groups r gs)
unfolding add_to_groups
add_to_groups-Above a r [] h above = (h, tt)
add_to_groups-Above a r (g ∷ gs) h above = ground (arith, add_to_groups-Above a r gs)

add_to_groups-Ascending :
    (r : PaymentRow) (gs : List Group) → Ascending gs → Ascending (add_to_groups r gs)
unfolding add_to_groups
add_to_groups-Ascending r [] up = (tt, tt)
add_to_groups-Ascending r (g ∷ gs) up = elim (Bool-cases (g.asset == asset_of r)) [
  | inl same ↦ rw same up
  | inr other ↦ elim (Bool-cases (lt_text g.asset (asset_of r))) [
    | inl later ↦
        rw (other, later)
          (add_to_groups-Above g.asset r gs later up.0, add_to_groups-Ascending r gs up.1)
    | inr not_later ↦
        let first = comes_before g.asset (asset_of r) other not_later in
        rw (other, not_later) ((first, Above-trans (asset_of r) g.asset gs first up.0), up)
  ]
]

groups-Ascending : (rs : List PaymentRow) → Ascending (groups rs)
unfolding groups
groups-Ascending [] = tt
groups-Ascending (r ∷ rs) = add_to_groups-Ascending r (groups rs) (groups-Ascending rs)

-- what the groups of an asset are worth together, by a count or a sum
module _ (worth : Group → ℕ) (a : Text) where
  abbrev pub worth_of : List Group → ℕ
  worth_of [] = 0
  worth_of (g ∷ gs) = if g.asset == a then worth g else worth_of gs

  worth_of-Above : (gs : List Group) → Above a gs → worth_of gs ≡ 0
  worth_of-Above [] above = refl
  worth_of-Above (g ∷ gs) above = elim (Bool-cases (g.asset == a)) [
    | inl same ↦ absurd (cc (above.0, lt_text_irreflexive a, (==_iff g.asset a).0 same))
    | inr other ↦ rw other (worth_of-Above gs above.1)
  ]

  module _ (value : PaymentRow → ℕ)
      (alone : (r : PaymentRow)
        → worth (record { asset = asset_of r; count = 1; sum = amount_or_0 r.amount }) ≡ value r)
      (more : (g : Group) (r : PaymentRow)
        → worth (record g { count = g.count + 1; sum = g.sum + amount_or_0 r.amount })
          ≡ worth g + value r) where
    add_to_groups_worth :
        (r : PaymentRow) (gs : List Group)
        → Ascending gs
        → worth_of (add_to_groups r gs) ≡ (if asset_of r == a then value r else 0) + worth_of gs
    unfolding add_to_groups
    add_to_groups_worth r [] up = elim (Bool-cases (asset_of r == a)) [
      | inl same ↦ rw same (omega (arith, alone r))
      | inr other ↦ rw other refl
    ]
    add_to_groups_worth r (g ∷ gs) up = elim (Bool-cases (g.asset == asset_of r)) [
      | inl same ↦
          let is_same = (==_iff g.asset (asset_of r)).0 same in
          rw same (rw is_same (ground (arith, more g r)))
      | inr other ↦ elim (Bool-cases (lt_text g.asset (asset_of r))) [
        | inl later ↦
            rw (other, later)
              (ground (
                arith,
                add_to_groups_worth r gs up.1,
                ==_iff g.asset a,
                ==_iff (asset_of r) a,
                ==_iff g.asset (asset_of r),
              ))
        | inr not_later ↦
            let first = comes_before g.asset (asset_of r) other not_later in
            let above : Above (asset_of r) (g ∷ gs) =
              (first, Above-trans (asset_of r) g.asset gs first up.0) in
            rw (other, not_later)
              (elim (Bool-cases (asset_of r == a)) [
                | inl is_a ↦
                    let none_there = worth_of-Above (g ∷ gs) (
                      subst (λ (k : Text). Above k (g ∷ gs)) ((==_iff (asset_of r) a).0 is_a)
                        above) in
                    rw is_a (omega (arith, alone r, none_there))
                | inr not_a ↦ rw not_a (omega arith)
              ])
      ]
    ]

    -- over all payments
    groups_worth : (rs : List PaymentRow) → worth_of (groups rs) ≡ total value (select (is_of a) rs)
    unfolding groups
    groups_worth [] = refl
    groups_worth (r ∷ rs) =
        ground (arith, add_to_groups_worth r (groups rs) (groups-Ascending rs), groups_worth rs)

abbrev one : PaymentRow → ℕ
one r = 1

abbrev pub amount_of : PaymentRow → ℕ
amount_of r = amount_or_0 r.amount

total-length : (rs : List PaymentRow) → total one rs ≡ length rs
total-length [] = refl
total-length (r ∷ rs) = omega (arith, total-length rs)

abbrev pub IsInhabited : Group → Type 0
IsInhabited g = 1 ≤ g.count

add_to_groups-IsInhabited :
    (r : PaymentRow) (gs : List Group) → All IsInhabited gs → All IsInhabited (add_to_groups r gs)
unfolding add_to_groups
add_to_groups-IsInhabited r [] h = (omega arith, tt)
add_to_groups-IsInhabited r (g ∷ gs) h = ground (arith, add_to_groups-IsInhabited r gs)

groups-IsInhabited : (rs : List PaymentRow) → All IsInhabited (groups rs)
unfolding groups
groups-IsInhabited [] = tt
groups-IsInhabited (r ∷ rs) = add_to_groups-IsInhabited r (groups rs) (groups-IsInhabited rs)

-- the groups are those of the payments: one for each asset that occurs, by asset, with the number
-- of its payments and the sum of their amounts
pub record Tallies (ps : List PaymentRow) (gs : List Group) : Type 0 where
  pub ascending : Ascending gs
  pub inhabited : All IsInhabited gs
  pub counts : (a : Text) → worth_of (λ g. g.count) a gs ≡ length (select (is_of a) ps)
  pub sums : (a : Text) → worth_of (λ g. g.sum) a gs ≡ total amount_of (select (is_of a) ps)

groups-Tallies : (ps : List PaymentRow) → Tallies ps (groups ps)
groups-Tallies ps = record {
  ascending = groups-Ascending ps;
  inhabited = groups-IsInhabited ps;
  counts = λ a.
      groups_worth (λ g. g.count) a one (λ r. refl) (λ g r. refl) ps
      ∙ total-length (select (is_of a) ps);
  sums = λ a. groups_worth (λ g. g.sum) a amount_of (λ r. refl) (λ g r. refl) ps;
}

-- Statistics that returned have one row for each asset of the payments of the time range, in the order
-- of the assets, made from the number of its payments and the sum of their amounts, and the
-- database is as it was.
pub stats_payments-Tallies :
    (lib : Fibertypes) (pgx : Pgx) (from to : Option Time) (rows : List StatRow) (w w' : World)
    → stats_payments lib pgx from to w ≡ (ok rows, w')
    → ((gs : List Group) × (rows ≡ map (stat_of lib pgx) gs)
        × Tallies (select (clause (ts_range payment_ts from to [])) w.db.payments) gs)
      × (w'.db ≡ w.db)
unfolding stats_payments query
stats_payments-Tallies lib pgx from to rows w w' h =
    let (same, _) = statement_returned _ rows w w' (wrap_returned _ _ rows w w' h) in
    let ps = select (clause (ts_range payment_ts from to [])) w.db.payments in
    (
      (
        groups ps,
        sym (ok_injective (ap (λ (p : Result (List StatRow) × Db). p.0) same)),
        groups-Tallies ps,
      ),
      sym (ap (λ (p : Result (List StatRow) × Db). p.1) same),
    )
