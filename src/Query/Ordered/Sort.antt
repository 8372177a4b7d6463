-- ===== src/Query/Ordered/Sort.antt =====
-- ORDER BY sorts, and a condition may be tested before it or after it.
use padma.Base.{
  ◌≡◌, ◌≢◌, refl, sym, ap, ◌∙◌, Bool, true, inl, inr, Option, List, [], ◌∷◌, ◌++◌, Text, All,
  select, Bool-cases, arith, if◌then◌else◌,
}
use padma.Database.Rows.{Time}
use padma.Query.Repo.{is_after, comes_first, insert_desc, order_desc}
use padma.Query.Ordered.{
  position, IsTimed, IsDescending, after_irreflexive, after_trans, after_asym, after_total,
  comes_first-is_after,
}

module _ {R : Type 0} where
  pub All-kept {κ} : (P : R → Type κ) (p : R → Bool) (xs : List R) → All P xs → All P (select p xs)
  All-kept P p [] h = tt
  All-kept P p (x ∷ xs) h = elim (Bool-cases (p x)) [
    | inl e ↦ rw e (h.0, All-kept P p xs h.1)
    | inr e ↦ rw e (All-kept P p xs h.1)
  ]

  pub select-All : (p : R → Bool) (xs : List R) → All (λ x. p x ≡ true) xs → select p xs ≡ xs
  select-All p [] h = refl
  select-All p (x ∷ xs) (hx, h) = rw (hx, select-All p xs h) refl

  pub All_middle {κ} :
      (P : R → Type κ) (front : List R) (z : R) (back : List R) → All P (front ++ z ∷ back) → P z
  All_middle P [] z back h = h.0
  All_middle P (x ∷ front) z back h = All_middle P front z back h.1

  All-zip {κ μ ν} :
      (P : R → Type κ) (Q : R → Type μ) (S : R → Type ν)
      → ((x : R) → P x → Q x → S x)
      → (xs : List R) → All P xs
      → All Q xs
      → All S xs
  All-zip P Q S f [] hp hq = tt
  All-zip P Q S f (x ∷ xs) hp hq = (f x hp.0 hq.0, All-zip P Q S f xs hp.1 hq.1)

module _ {R : Type 0} (ts_col : R → Option Time) (id_col : R → Text) where
  module _ {κ} (P : R → Type κ) where
    All-insert_desc :
        (r : R) (xs : List R) → P r → All P xs → All P (insert_desc ts_col id_col r xs)
    unfolding insert_desc
    All-insert_desc r [] hr h = (hr, tt)
    All-insert_desc r (x ∷ xs) hr h = elim (Bool-cases (comes_first ts_col id_col x r)) [
      | inl e ↦ rw e (h.0, All-insert_desc r xs hr h.1)
      | inr e ↦ rw e (hr, h)
    ]

    pub All-order_desc : (xs : List R) → All P xs → All P (order_desc ts_col id_col xs)
    unfolding order_desc
    All-order_desc [] h = tt
    All-order_desc (x ∷ xs) h = All-insert_desc x _ h.0 (All-order_desc xs h.1)

  -- no two rows share their id
  abbrev pub IsDistinct : List R → Type 0
  IsDistinct [] = Unit {0}
  IsDistinct (x ∷ xs) = All (λ y. id_col x ≢ id_col y) xs × IsDistinct xs

  pub IsDistinct-select : (p : R → Bool) (xs : List R) → IsDistinct xs → IsDistinct (select p xs)
  IsDistinct-select p [] h = tt
  IsDistinct-select p (x ∷ xs) h = elim (Bool-cases (p x)) [
    | inl e ↦ rw e (All-kept (λ y. id_col x ≢ id_col y) p xs h.0, IsDistinct-select p xs h.1)
    | inr e ↦ rw e (IsDistinct-select p xs h.1)
  ]

  insert_desc-IsDescending :
      (r : R) (xs : List R)
      → IsTimed ts_col id_col r
      → All (IsTimed ts_col id_col) xs
      → All (λ y. id_col r ≢ id_col y) xs
      → IsDescending ts_col id_col xs
      → IsDescending ts_col id_col (insert_desc ts_col id_col r xs)
  unfolding insert_desc
  insert_desc-IsDescending r [] hr ht hd h = (tt, tt)
  insert_desc-IsDescending r (x ∷ xs) hr (hx, ht) (dx, hd) (h, hs) =
      elim (Bool-cases (comes_first ts_col id_col x r)) [
        | inl e ↦ rw e (
          All-insert_desc (λ y. is_after ts_col id_col (position ts_col id_col x) y ≡ true) r xs
              (sym (comes_first-is_after ts_col id_col x r hx hr) ∙ e) h,
          insert_desc-IsDescending r xs hr ht hd hs,
        )
        | inr e ↦
            let after_r =
              after_total ts_col id_col x r hx hr (λ g. dx (sym g))
                (sym (comes_first-is_after ts_col id_col x r hx hr) ∙ e) in
            rw e (
              (
                after_r,
                All-zip (IsTimed ts_col id_col)
                    (λ y. is_after ts_col id_col (position ts_col id_col x) y ≡ true)
                    (λ y. is_after ts_col id_col (position ts_col id_col r) y ≡ true)
                    (λ y hy k. after_trans ts_col id_col r x y hx hy after_r k) xs ht h,
              ),
              (h, hs),
            )
      ]

  -- The rows come out in descending order, where they have times and their ids differ.
  pub order_desc-IsDescending :
      (xs : List R)
      → All (IsTimed ts_col id_col) xs
      → IsDistinct xs
      → IsDescending ts_col id_col (order_desc ts_col id_col xs)
  unfolding order_desc
  order_desc-IsDescending [] ht hd = tt
  order_desc-IsDescending (x ∷ xs) ht hd =
      insert_desc-IsDescending x _ ht.0 (All-order_desc (IsTimed ts_col id_col) xs ht.1)
        (All-order_desc (λ y. id_col x ≢ id_col y) xs hd.0) (order_desc-IsDescending xs ht.1 hd.1)

  -- a row in front of all others is inserted in front
  insert_front :
      (r : R) (xs : List R)
      → IsTimed ts_col id_col r
      → All (IsTimed ts_col id_col) xs
      → All (λ y. is_after ts_col id_col (position ts_col id_col r) y ≡ true) xs
      → insert_desc ts_col id_col r xs ≡ r ∷ xs
  unfolding insert_desc
  insert_front r [] hr ht h = refl
  insert_front r (x ∷ xs) hr ht h =
      rw (comes_first-is_after ts_col id_col x r ht.0 hr, after_asym ts_col id_col r x hr ht.0 h.0)
        refl

  select-insert_desc :
      (p : R → Bool) (r : R) (xs : List R)
      → IsTimed ts_col id_col r
      → All (IsTimed ts_col id_col) xs
      → All (λ y. id_col r ≢ id_col y) xs
      → IsDescending ts_col id_col xs
      → select p (insert_desc ts_col id_col r xs)
        ≡ (if p r then insert_desc ts_col id_col r (select p xs) else select p xs)
  unfolding insert_desc
  select-insert_desc p r [] hr ht hd h = ground arith
  select-insert_desc p r (x ∷ xs) hr (hx, ht) (dx, hd) (h, hs) =
      elim (Bool-cases (comes_first ts_col id_col x r)) [
        | inl e ↦ ground (arith, select-insert_desc p r xs hr ht hd hs)
        | inr e ↦
            let after_r =
              after_total ts_col id_col x r hx hr (λ g. dx (sym g))
                (sym (comes_first-is_after ts_col id_col x r hx hr) ∙ e) in
            let rest =
              All-zip (IsTimed ts_col id_col)
                (λ y. is_after ts_col id_col (position ts_col id_col x) y ≡ true)
                (λ y. is_after ts_col id_col (position ts_col id_col r) y ≡ true)
                (λ y hy k. after_trans ts_col id_col r x y hx hy after_r k) xs ht h in
            ground (
              arith,
              insert_front r (select p xs) hr (All-kept (IsTimed ts_col id_col) p xs ht) (
                  All-kept (λ y. is_after ts_col id_col (position ts_col id_col r) y ≡ true) p xs
                    rest),
            )
      ]

  -- A condition selects the same rows, in the same order, after the sort.
  pub order_desc-select :
      (p : R → Bool) (xs : List R)
      → All (IsTimed ts_col id_col) xs
      → IsDistinct xs
      → order_desc ts_col id_col (select p xs) ≡ select p (order_desc ts_col id_col xs)
  unfolding order_desc
  order_desc-select p [] ht hd = refl
  order_desc-select p (x ∷ xs) ht hd =
      let step =
        select-insert_desc p x (order_desc ts_col id_col xs) ht.0
          (All-order_desc (IsTimed ts_col id_col) xs ht.1)
          (All-order_desc (λ y. id_col x ≢ id_col y) xs hd.0)
          (order_desc-IsDescending xs ht.1 hd.1) in
      let same = order_desc-select p xs ht.1 hd.1 in
      elim (Bool-cases (p x)) [
        | inl e ↦ rw e (ap (insert_desc ts_col id_col x) same ∙ sym (step ∙ rw e refl))
        | inr e ↦ rw e (same ∙ sym (step ∙ rw e refl))
      ]

  -- Behind a row of the list stand the rows that follow it.
  pub select_after :
      (front : List R) (z : R) (back : List R)
      → All (IsTimed ts_col id_col) (front ++ z ∷ back)
      → IsDescending ts_col id_col (front ++ z ∷ back)
      → select (is_after ts_col id_col (position ts_col id_col z)) (front ++ z ∷ back) ≡ back
  select_after [] z back ht h = rw (after_irreflexive ts_col id_col z ht.0) (select-All _ back h.0)
  select_after (x ∷ front) z back ht h =
      rw
        (after_asym ts_col id_col x z ht.0 (All_middle (IsTimed ts_col id_col) front z back ht.1) (
          All_middle (λ y. is_after ts_col id_col (position ts_col id_col x) y ≡ true) front z back
            h.0))
        (select_after front z back ht.1 h.1)
