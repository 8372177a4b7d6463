-- ===== src/Query/Follow/Pages.antt =====
-- The pages of a list are all its rows.
use padma.Base.{
  length-map, ℕ, zero, suc, ◌+◌, ◌≤◌, ◌<◌, ◌≡◌, refl, sym, ap, ◌∙◌, false, inl, inr, Option, List,
  [], ◌∷◌, ◌++◌, map, append_assoc, Text, is_empty, All, All-imp, subst, select, take, length,
  length-append, take_all, ltb, ltb→lt, Bool-cases, arith,
}
use padma.Errors.{Result, ok}
use padma.Database.Rows.{Time}
use padma.Platform.Base64.{IsByte}
use padma.Query.Cursor.{Cursor, TimeFormat, is_zero, encode, decode_cursor}
use padma.Query.Cursor.Trip.{decode_cursor-encode, encoded_not_empty}
use padma.Query.Repo.{Page, Conds, is_after, keyset, clause, order_desc, paginate}
use padma.Query.Lists.{page_rows}
use padma.Query.Ordered.{position, IsTimed, IsDescending}
use padma.Query.Ordered.Sort.{
  IsDistinct, IsDistinct-select, All-order_desc, All-kept, All_middle, order_desc-select,
  order_desc-IsDescending, select_after,
}
use padma.Query.Follow.{
  follow, follow_last, follow_more, map_append, paginate_more, paginate_last, split_at, take_page,
  select-append,
}

-- The pages of a list: what its rows, its order and its cursors are.
module _ {R T : Type 0} (clock : TimeFormat) (ts_col : R → Option Time) (id_col : R → Text)
    (view : R → T) (cursor_of : T → Cursor) (conds : Conds R) (table : List R) (k : ℕ) where
  abbrev pub page_at : Cursor → Page T
  page_at cur =
      paginate clock
        (map view (page_rows ts_col id_col (keyset ts_col id_col cur conds) (suc k) table)) (suc k)
        cursor_of

  -- the rows that meet the conditions, in order
  abbrev pub listed_rows : List R
  listed_rows = order_desc ts_col id_col (select (clause conds) table)

  -- what the code needs of the rows: a time, a name of bytes that is not empty, and a cursor of its own
  abbrev pub IsListable : R → Type 0
  IsListable r =
      IsTimed ts_col id_col r
      × (is_empty (id_col r) ≡ false)
      × All IsByte (id_col r)
      × (cursor_of (view r) ≡ position ts_col id_col r)

  module _ (listable : All IsListable table) (distinct : IsDistinct ts_col id_col table) where
    met : List R
    met = select (clause conds) table

    met-IsTimed : All (IsTimed ts_col id_col) met
    unfolding met
    met-IsTimed =
        All-kept (IsTimed ts_col id_col) (clause conds) table
          (All-imp IsListable (IsTimed ts_col id_col) (λ r h. h.0) table listable)

    met-IsDistinct : IsDistinct ts_col id_col met
    unfolding met
    met-IsDistinct = IsDistinct-select ts_col id_col (clause conds) table distinct

    listed-IsListable : All IsListable listed_rows
    listed-IsListable =
        All-order_desc ts_col id_col IsListable _
          (All-kept IsListable (clause conds) table listable)

    keyset_on :
        (z : R)
        → is_empty (id_col z) ≡ false
        → keyset ts_col id_col (position ts_col id_col z) conds
          ≡ conds ++ is_after ts_col id_col (position ts_col id_col z) ∷ []
    unfolding keyset is_zero
    keyset_on z named = ground arith

    -- the rows behind a cursor are those that follow its row
    rows_behind :
        (front : List R) (z : R) (back : List R)
        → is_empty (id_col z) ≡ false
        → listed_rows ≡ front ++ z ∷ back
        → order_desc ts_col id_col
            (select (clause (keyset ts_col id_col (position ts_col id_col z) conds)) table)
          ≡ back
    unfolding met
    rows_behind front z back named split =
        let after = is_after ts_col id_col (position ts_col id_col z) in
        rw (keyset_on z named, select-append conds after table)
          (order_desc-select ts_col id_col after met met-IsTimed met-IsDistinct
            ∙ ap (select after) split
            ∙ select_after ts_col id_col front z back
                (subst (All (IsTimed ts_col id_col)) split
                  (All-order_desc ts_col id_col (IsTimed ts_col id_col) met met-IsTimed))
                (subst (IsDescending ts_col id_col) split
                  (order_desc-IsDescending ts_col id_col met met-IsTimed met-IsDistinct)))

    rows_at : Cursor → List R
    rows_at cur = order_desc ts_col id_col (select (clause (keyset ts_col id_col cur conds)) table)

    page_more :
        (cur : Cursor) (kept : List R) (z y : R) (back : List R)
        → rows_at cur ≡ kept ++ z ∷ y ∷ back
        → length kept ≡ k
        → page_at cur ≡ record {
          items = map view kept ++ view z ∷ [];
          next_cursor = encode clock (cursor_of (view z));
        }
    unfolding rows_at
    page_more cur kept z y back rows full =
        ap (λ (rs : List R). paginate clock (map view (take (suc k + 1) rs)) (suc k) cursor_of) rows
        ∙ ap (λ (rs : List R). paginate clock (map view rs) (suc k) cursor_of)
            (take_page kept z y back (suc k + 1) (omega arith))
        ∙ ap (λ (ts : List T). paginate clock ts (suc k) cursor_of)
            (map_append view kept (z ∷ y ∷ []))
        ∙ ap (λ (m : ℕ). paginate clock (map view kept ++ view z ∷ view y ∷ []) (suc m) cursor_of)
            (sym (length-map view kept ∙ full))
        ∙ paginate_more clock cursor_of (map view kept) (view z) (view y)

    page_last :
        (cur : Cursor) (zs : List R)
        → rows_at cur ≡ zs
        → length zs ≤ suc k
        → page_at cur ≡ record { items = map view zs; next_cursor = [] }
    unfolding rows_at
    page_last cur zs rows short =
        ap (λ (rs : List R). paginate clock (map view (take (suc k + 1) rs)) (suc k) cursor_of) rows
        ∙ ap (λ (rs : List R). paginate clock (map view rs) (suc k) cursor_of)
            (take_all (suc k + 1) zs (omega arith))
        ∙ paginate_last clock cursor_of (map view zs) (suc k) (omega (arith, length-map view zs))

    fetching : Cursor → Result (Page T)
    fetching cur = ok (page_at cur)

    pages_more :
        (n : ℕ) (s : Text) (cur : Cursor) (kept : List R) (z y : R) (back : List R)
        → decode_cursor clock s ≡ ok cur
        → rows_at cur ≡ kept ++ z ∷ y ∷ back
        → length kept ≡ k
        → cursor_of (view z) ≡ position ts_col id_col z
        → follow clock fetching n (encode clock (position ts_col id_col z))
          ≡ ok (map view (y ∷ back))
        → follow clock fetching (suc n) s ≡ ok (map view (kept ++ z ∷ y ∷ back))
    unfolding fetching encode
    pages_more n s cur kept z y back decoded rows full own rest =
        let page : Page T = record {
          items = map view kept ++ view z ∷ [];
          next_cursor = encode clock (position ts_col id_col z);
        } in
        follow_more clock fetching n s cur page (map view (y ∷ back)) decoded
          (ap ok (page_more cur kept z y back rows full ∙ rw own refl))
          (encoded_not_empty (clock.format (position ts_col id_col z).time) (id_col z) b'|') rest
        ∙ ap ok (
            append_assoc (map view kept) (view z ∷ []) (map view (y ∷ back))
            ∙ sym (map_append view kept (z ∷ y ∷ back)))

    -- a page that fills up: what follows it is fetched by its cursor
    abbrev Rest : ℕ → Type 0
    Rest n =
        (front back : List R) (s : Text) (cur : Cursor)
        → decode_cursor clock s ≡ ok cur
        → listed_rows ≡ front ++ back
        → rows_at cur ≡ back
        → length back ≤ n
        → follow clock fetching (suc n) s ≡ ok (map view back)

    next_page :
        (n : ℕ) (front kept : List R) (z : R) (back : List R) (s : Text) (cur : Cursor)
        → Rest n
        → decode_cursor clock s ≡ ok cur
        → listed_rows ≡ front ++ (kept ++ z ∷ back)
        → rows_at cur ≡ kept ++ z ∷ back
        → length kept ≡ k
        → suc k < length (kept ++ z ∷ back)
        → length (kept ++ z ∷ back) ≤ suc n
        → follow clock fetching (suc (suc n)) s ≡ ok (map view (kept ++ z ∷ back))
    unfolding rows_at
    next_page n front kept z [] s cur rest decoded split rows full long fits =
        absurd (omega (arith, length-append kept (z ∷ [])))
    next_page n front kept z (y ∷ back) s cur rest decoded split rows full long fits =
        let at_z : listed_rows ≡ (front ++ kept) ++ z ∷ y ∷ back =
          split ∙ sym (append_assoc front kept (z ∷ y ∷ back)) in
        let (timed, named, bytes, own) =
          All_middle IsListable (front ++ kept) z (y ∷ back)
            (subst (All IsListable) at_z listed-IsListable) in
        pages_more (suc n) s cur kept z y back decoded rows full own (
          rest ((front ++ kept) ++ z ∷ []) (y ∷ back) (encode clock (position ts_col id_col z))
            (position ts_col id_col z) (decode_cursor-encode clock (position ts_col id_col z) bytes)
            (at_z ∙ sym (append_assoc (front ++ kept) (z ∷ []) (y ∷ back)))
            (rows_behind (front ++ kept) z (y ∷ back) named at_z)
            (omega (arith, length-append kept (z ∷ y ∷ back))))

    pages_from : (n : ℕ) → Rest n
    unfolding fetching
    pages_from zero front [] s cur decoded split rows fits =
        follow_last clock fetching zero s cur _ decoded
          (ap ok (page_last cur [] rows (omega arith))) refl
    pages_from zero front (x ∷ back) s cur decoded split rows fits = absurd (omega arith)
    pages_from (suc n) front back s cur decoded split rows fits =
        elim (Bool-cases (ltb (suc k) (length back))) [
          | inl e ↦
              let (kept, z, behind, same, full) = split_at k back (ground arith) in
              let counted = ap (λ (zs : List R). length zs) same in
              subst (λ (zs : List R). follow clock fetching (suc (suc n)) s ≡ ok (map view zs))
                (sym same)
                (next_page n front kept z behind s cur (pages_from n) decoded
                  (split ∙ ap (λ (zs : List R). front ++ zs) same) (rows ∙ same) full
                  (omega (arith, counted, ltb→lt (suc k) (length back) e)) (omega (arith, counted)))
          | inr e ↦
              follow_last clock fetching (suc n) s cur _ decoded
                (ap ok (page_last cur back rows (ground arith))) refl
        ]

    -- Following the cursors from the first page on gives all rows that meet the conditions, in order
    -- and each once, whatever the size of a page, if that many pages are read.
    pub follow_complete :
        (n : ℕ)
        → length listed_rows ≤ n
        → follow clock (λ cur. ok (page_at cur)) (suc n) [] ≡ ok (map view listed_rows)
    unfolding pages_from fetching rows_at decode_cursor keyset is_zero
    follow_complete n fits =
        pages_from n [] listed_rows [] (record { time = 0; id = [] }) refl refl refl fits
