-- ===== src/Query/Follow.antt =====
-- A client that follows the cursors of a list from page to page.
pub mod Pages
use padma.Base.{
  ℕ, zero, suc, ◌+◌, ◌-◌, ◌≤◌, ◌<◌, ◌≡◌, refl, sym, ap, ap₂, ◌∙◌, Bool, true, false, ◌&&◌, inl, inr,
  Option, none, some, List, [], ◌∷◌, ◌++◌, map, append-nil, append_assoc, Text, codes, is_empty,
  All, All-imp, subst, select, take, length, length-append, take_all, ltb, ltb→lt, eqb, Bool-cases,
  arith, if◌then◌else◌,
}
use padma.Errors.{Error, Result, ok, err, reported, ◌>>=◌}
use padma.Database.Rows.{Time}
use padma.Platform.Base64.{IsByte}
use padma.Query.Cursor.{Cursor, TimeFormat, is_zero, encode, decode_cursor}
use padma.Query.Cursor.Trip.{decode_cursor-encode, encoded_not_empty}
use padma.Query.Repo.{Page, Conds, is_after, keyset, clause, order_desc, paginate, item_at}
use padma.Query.Lists.{page_rows}
use padma.Query.Ordered.{position, IsTimed, IsDescending}
use padma.Query.Ordered.Sort.{
  IsDistinct, IsDistinct-select, All-order_desc, All-kept, All_middle, order_desc-select,
  order_desc-IsDescending, select_after,
}

module _ {T : Type 0} (clock : TimeFormat) (fetch : Cursor → Result (Page T)) where
  -- all items from the page of the cursor `s` on, with at most so many pages
  unfoldable pub follow : ℕ → Text → Result (List T)
  follow zero s = err (reported (codes "more pages"))
  follow (suc n) s = decode_cursor clock s >>= λ cur. fetch cur >>= λ page.
      let rest = follow n page.next_cursor in
      if is_empty page.next_cursor
      then ok page.items
      else rest >>= λ items. ok (page.items ++ items)

  pub follow_last :
      (n : ℕ) (s : Text) (cur : Cursor) (page : Page T)
      → decode_cursor clock s ≡ ok cur
      → fetch cur ≡ ok page
      → is_empty page.next_cursor ≡ true
      → follow (suc n) s ≡ ok page.items
  unfolding follow
  follow_last n s cur page decoded fetched last = rw (decoded, fetched, last) refl

  pub follow_more :
      (n : ℕ) (s : Text) (cur : Cursor) (page : Page T) (items : List T)
      → decode_cursor clock s ≡ ok cur
      → fetch cur ≡ ok page
      → is_empty page.next_cursor ≡ false
      → follow n page.next_cursor ≡ ok items
      → follow (suc n) s ≡ ok (page.items ++ items)
  unfolding follow
  follow_more n s cur page items decoded fetched more rest = rw (decoded, fetched, more, rest) refl

module _ {A B : Type 0} (f : A → B) where
  pub map_append : (xs ys : List A) → map f (xs ++ ys) ≡ map f xs ++ map f ys
  map_append [] ys = refl
  map_append (x ∷ xs) ys = ap (λ zs. f x ∷ zs) (map_append xs ys)

module _ {T : Type 0} (clock : TimeFormat) (cursor_of : T → Cursor) where
  take_kept :
      (kept : List T) (x : T) (more : List T)
      → take (suc (length kept)) (kept ++ x ∷ more) ≡ kept ++ x ∷ []
  take_kept [] x more = refl
  take_kept (z ∷ kept) x more = ap (λ zs. z ∷ zs) (take_kept kept x more)

  item_at_kept :
      (kept : List T) (x : T) (more : List T) (n : ℕ)
      → n ≡ length kept
      → item_at clock (kept ++ x ∷ more) n ≡ some x
  item_at_kept [] x more n h = rw h refl
  item_at_kept (z ∷ kept) x more n h = ground (arith, item_at_kept kept x more (n - 1))

  -- a page that is not the last: `kept` and `x` fill it, and at least `y` follows
  pub paginate_more :
      (kept : List T) (x y : T)
      → paginate clock (kept ++ x ∷ y ∷ []) (suc (length kept)) cursor_of
        ≡ record { items = kept ++ x ∷ []; next_cursor = encode clock (cursor_of x) }
  unfolding paginate
  paginate_more kept x y =
      let longer : ltb (suc (length kept)) (length (kept ++ x ∷ y ∷ [])) ≡ true =
        rw (length-append kept (x ∷ y ∷ [])) (ground arith) in
      rw
        (
          longer,
          take_kept kept x (y ∷ []),
          item_at_kept kept x (y ∷ []) (suc (length kept) - 1) (omega arith),
        )
        refl

  pub paginate_last :
      (items : List T) (limit : ℕ)
      → length items ≤ limit
      → paginate clock items limit cursor_of ≡ record { items = items; next_cursor = [] }
  unfolding paginate
  paginate_last items limit h = ground arith

-- a list longer than `k` is `k` items, one more, and the rest
pub split_at :
    {A : Type 0} (k : ℕ) (xs : List A)
    → k < length xs
    → (kept : List A) × (x : A) × (back : List A) × (xs ≡ kept ++ x ∷ back) × (length kept ≡ k)
split_at k [] h = absurd (omega arith)
split_at zero (x ∷ xs) h = ([], x, xs, refl, refl)
split_at (suc k) (x ∷ xs) h =
    let (kept, y, back, e, l) = split_at k xs (omega arith) in
    (x ∷ kept, y, back, ap (λ zs. x ∷ zs) e, ap suc l)

pub take_page :
    {A : Type 0} (kept : List A) (x y : A) (back : List A) (n : ℕ)
    → n ≡ length kept + 2
    → take n (kept ++ x ∷ y ∷ back) ≡ kept ++ x ∷ y ∷ []
take_page [] x y back n h = rw h refl
take_page (z ∷ kept) x y back zero h = absurd (omega arith)
take_page (z ∷ kept) x y back (suc n) h =
    ap (λ zs. z ∷ zs) (take_page kept x y back n (omega arith))

clause-append :
    {R : Type 0} (c : Conds R) (t : R → Bool) (r : R) → clause (c ++ t ∷ []) r ≡ (clause c r && t r)
unfolding clause
clause-append [] t r = ground arith
clause-append (x ∷ c) t r = ground (arith, clause-append c t r)

pub select-append :
    {R : Type 0} (c : Conds R) (t : R → Bool) (xs : List R)
    → select (clause (c ++ t ∷ [])) xs ≡ select t (select (clause c) xs)
select-append c t [] = refl
select-append c t (x ∷ xs) = ground (arith, clause-append c t x, select-append c t xs)
