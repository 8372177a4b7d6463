-- ===== src/Query/Ordered.antt =====
-- Rows in the order of a list, newest first, and the rows behind a position.
pub mod Sort
use padma.Base.{
  ℕ, zero, suc, ◌+◌, ◌-◌, ◌≤◌, ◌<◌, ◌≡◌, ◌≢◌, refl, sym, ap, ◌∙◌, Bool, true, false, not, ◌&&◌,
  ◌||◌, ◌⊎◌, inl, inr, Option, none, some, List, [], ◌∷◌, ◌++◌, Text, ◌==◌, ==_iff, ==_self, All,
  All-imp, All-append, lt_text, lt_text_irreflexive, lt_text_trans, lt_text_antisym, select, take,
  drop, length, ltb, leb, eqb, Bool-cases, arith, if◌then◌else◌,
}
use padma.Database.Rows.{Time}
use padma.Query.Cursor.{Cursor}
use padma.Query.Repo.{below, is_after, comes_first, insert_desc, order_desc, deref, Conds, clause}

pub below_irreflexive : (t : Time) (i : Text) → below t i t i ≡ false
unfolding below
below_irreflexive t i = ground (arith, lt_text_irreflexive i)

pub below_trans :
    (t : Time) (i : Text) (t' : Time) (i' : Text) (t'' : Time) (i'' : Text)
    → below t i t' i' ≡ true
    → below t' i' t'' i'' ≡ true
    → below t i t'' i'' ≡ true
unfolding below
below_trans t i t' i' t'' i'' h k = ground (arith, lt_text_trans i i' i'')

pub below_total :
    (t : Time) (i : Text) (t' : Time) (i' : Text)
    → i ≢ i'
    → below t i t' i' ≡ false
    → below t' i' t i ≡ true
unfolding below
below_total t i t' i' d h = ground (arith, lt_text_antisym i i')

module _ {R : Type 0} (ts_col : R → Option Time) (id_col : R → Text) where
  -- the position of a row
  abbrev pub position : R → Cursor
  position r = record { time = deref (ts_col r); id = id_col r }

  -- a row whose time is not NULL
  abbrev pub IsTimed : R → Type 0
  IsTimed r = (t : Time) × (ts_col r ≡ some t)

  -- each row stands in front of the rows that come after it
  abbrev pub IsDescending : List R → Type 0
  IsDescending [] = Unit {0}
  IsDescending (x ∷ xs) =
      All (λ y. is_after ts_col id_col (position x) y ≡ true) xs × IsDescending xs

  pub after_irreflexive : (r : R) → IsTimed r → is_after ts_col id_col (position r) r ≡ false
  unfolding is_after
  after_irreflexive r (t, e) = rw e (below_irreflexive t (id_col r))

  pub after_trans :
      (x y z : R)
      → IsTimed y
      → IsTimed z
      → is_after ts_col id_col (position x) y ≡ true
      → is_after ts_col id_col (position y) z ≡ true
      → is_after ts_col id_col (position x) z ≡ true
  unfolding is_after
  after_trans x y z (t, e) (u, f) =
      rw (e, f) (λ h k. below_trans u (id_col z) t (id_col y) (deref (ts_col x)) (id_col x) k h)

  pub after_asym :
      (x y : R)
      → IsTimed x
      → IsTimed y
      → is_after ts_col id_col (position x) y ≡ true
      → is_after ts_col id_col (position y) x ≡ false
  after_asym x y hx hy h = elim (Bool-cases (is_after ts_col id_col (position y) x)) [
    | inl e ↦ absurd (cc (after_trans x y x hy hx h e, after_irreflexive x hx))
    | inr e ↦ e
  ]

  -- for rows with times, to come first is to have the other behind
  pub comes_first-is_after :
      (x y : R)
      → IsTimed x
      → IsTimed y
      → comes_first ts_col id_col x y ≡ is_after ts_col id_col (position x) y
  unfolding comes_first is_after
  comes_first-is_after x y (t, e) (u, f) = rw (e, f) refl

  pub after_total :
      (x y : R)
      → IsTimed x
      → IsTimed y
      → id_col x ≢ id_col y
      → is_after ts_col id_col (position x) y ≡ false
      → is_after ts_col id_col (position y) x ≡ true
  unfolding is_after
  after_total x y (t, e) (u, f) d =
      rw (e, f) (below_total u (id_col y) t (id_col x) (λ g. d (sym g)))
