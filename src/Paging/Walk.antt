-- ===== src/Paging/Walk.antt =====
-- A client that follows the cursors of a listing from page to page.
use gg_proxy.Base.{
  ℕ, zero, suc, ◌+◌, ◌≤◌, ◌<◌, ◌≡◌, refl, Bool, true, false, ◌&&◌, Option, none, some, List, [],
  ◌∷◌, ◌++◌, Option-cases, arith, ap, ltb, sym, ◌∙◌, take, inl, inr, min, length-take, lt→ltb, ◌⊎◌,
  length, subst,
}
use mathlib.Core.Option
use native.Mathlib.Decide.{dec_lt}
use gg_proxy.Paging.{
  Key, later, beyond, where_rows, insert_row, newest_first, last_row, select_page,
}
use gg_proxy.Paging.Cursor.{CursorError}
use gg_proxy.Paging.Order.{
  Apart, newest_first-IsListed, where_rows-Apart, where_rows_ext, where_rows-where_rows,
}
use gg_proxy.Paging.Cut.{
  drop, take-drop, length-drop, take_all, take-take, cut, where_rows-newest_first,
}

-- What a listing answers: a page with the cursor of the next one, or the error that it raises.
pub data Reply (C A : Type 0) : Type 0 where
  listed : List A → Option C → Reply C A
  cursor_refused : CursorError → Reply C A
  not_implemented : Reply C A

module _ {C A : Type 0} where
  -- `next_cursor` is made from the last row of a page that is not the last.
  abbrev pub answer : (A → C) → List A × Option A → Reply C A
  answer cursor (rows, final) = listed rows (Option.map cursor final)

  -- What one page adds, given what the pages behind its cursor hold.
  abbrev pub follow : Reply C A → (C → Option (List A)) → Option (List A)
  follow (listed rows none) more = some rows
  follow (listed rows (some cursor)) more = Option.map (λ rest. rows ++ rest) (more cursor)
  follow _ more = none

  -- All rows that the pages from `after` on hold. None when a page raises, or when `fuel` pages were
  -- not enough.
  unfoldable pub walk : (Option C → Reply C A) → ℕ → Option C → Option (List A)
  walk fetch zero after = none
  walk fetch (suc fuel) after = follow (fetch after) (λ cursor. walk fetch fuel (some cursor))

plus_zero : (n : ℕ) → n ≡ 0 + n
plus_zero n = omega arith

plus_suc : (m n : ℕ) → suc (m + n) ≡ suc m + n
plus_suc m n = omega arith

ltb_ge : (a b : ℕ) → b ≤ a → ltb a b ≡ false
ltb_ge a b h = ground arith

lt_or_ge : (a b : ℕ) → (a < b) ⊎ (b ≤ a)
lt_or_ge a b = elim (dec_lt a b) [ yes h ↦ inl h | no h ↦ inr (omega arith) ]

module _ {A : Type 0} where
  drop_nil : (n : ℕ) → drop {A = A} n [] ≡ []
  drop_nil zero = refl
  drop_nil (suc n) = refl

  drop-drop : (m n : ℕ) (l : List A) → drop n (drop m l) ≡ drop (m + n) l
  drop-drop zero n l = ap (λ k. drop k l) (plus_zero n)
  drop-drop (suc m) n [] = drop_nil n ∙ sym (drop_nil (suc m + n))
  drop-drop (suc m) n (row ∷ rows) =
      drop-drop m n rows ∙ ap (λ k. drop k (row ∷ rows)) (plus_suc m n)

  last_row-cons-some :
      (row : A) (rows : List A) (final : A)
      → last_row rows ≡ some final
      → last_row (row ∷ rows) ≡ some final
  last_row-cons-some row rows final e = rw e refl

  last_row-take-drop :
      (m n : ℕ) (l : List A) (final : A)
      → last_row (take n (drop m l)) ≡ some final
      → last_row (take (m + n) l) ≡ some final
  last_row-take-drop zero n l final e =
      subst (λ k. last_row (take k l) ≡ some final) (plus_zero n) e
  last_row-take-drop (suc m) zero [] final e = absurd (ground arith)
  last_row-take-drop (suc m) (suc n) [] final e = absurd (ground arith)
  last_row-take-drop (suc m) n (row ∷ rows) final e =
      subst (λ k. last_row (take k (row ∷ rows)) ≡ some final) (plus_suc m n)
        (last_row-cons-some row (take (m + n) rows) final (last_row-take-drop m n rows final e))

module _ {C A : Type 0} (key : A → Key) (encode : Key → C) (test : A → Bool) (limit : ℕ)
    (table : List A) where
  -- The whole listing, as one statement without a limit gives it.
  abbrev pub listing : List A
  listing = newest_first key (where_rows test table)

  abbrev rest : Option Key → List A
  rest after = newest_first key (where_rows (λ row. test row && beyond after (key row)) table)

  rest_beyond :
      Apart key table
      → (anchor : Key) → rest (some anchor) ≡ where_rows (λ row. later (key row) anchor) listing
  rest_beyond apart anchor =
      ap (newest_first key) (sym (where_rows-where_rows (λ row. later (key row) anchor) test table))
      ∙ sym (
          where_rows-newest_first key (λ row. later (key row) anchor) (where_rows test table)
            (where_rows-Apart key test table apart))

  advance :
      Apart key table
      → (m : ℕ) (final : A) → last_row (take limit (drop m listing)) ≡ some final
      → rest (some (key final)) ≡ drop (m + limit) listing
  advance apart m final e =
      rest_beyond apart (key final)
      ∙ cut key (m + limit) listing final
          (newest_first-IsListed key (where_rows test table)
            (where_rows-Apart key test table apart))
          (last_row-take-drop m limit listing final e)

  final_row :
      1 ≤ limit
      → (l : List A) → limit < length l
      → (final : A) × (last_row (take limit l) ≡ some final)
  final_row positive l more = go limit l positive more
    where
      of_cons : (row : A) (rows : List A) → (final : A) × (last_row (row ∷ rows) ≡ some final)
      of_cons row rows = elim (Option-cases (last_row rows)) [
        | inl h ↦ (row, (rw h refl))
        | inr (f, h) ↦ (f, (rw h refl))
      ]

      go :
          (n : ℕ) (l : List A)
          → 1 ≤ n
          → n < length l
          → (final : A) × (last_row (take n l) ≡ some final)
      go zero l p h = absurd (omega arith)
      go (suc n) [] p h = absurd (omega arith)
      go (suc n) (row ∷ rows) p h = of_cons row (take n rows)

  page_final :
      (after : Option Key)
      → length (rest after) ≤ limit
      → select_page key (λ row. test row && beyond after (key row)) limit table ≡ (rest after, none)
  unfolding select_page
  page_final after short =
      rw
        (
          take-take limit (rest after),
          take_all limit (rest after) short,
          take_all (suc limit) (rest after) (omega arith),
          ltb_ge limit (length (rest after)) short,
        )
        refl

  page_full :
      (after : Option Key) (final : A)
      → limit < length (rest after)
      → last_row (take limit (rest after)) ≡ some final
      → select_page key (λ row. test row && beyond after (key row)) limit table
        ≡ (take limit (rest after), some final)
  unfolding select_page
  page_full after final long e =
      rw
        (
          take-take limit (rest after),
          length-take (suc limit) (rest after),
          lt→ltb limit (min (suc limit) (length (rest after))) (omega arith),
          e,
        )
        refl

  -- The listing answers the page that starts at a place, with the cursor of the next page.
  abbrev pub Serves : (Option C → Reply C A) → Type 0
  Serves fetch =
      (after : Option Key)
      → fetch (Option.map encode after)
        ≡ answer (λ row. encode (key row))
            (select_page key (λ row. test row && beyond after (key row)) limit table)

  rejoin :
      (m : ℕ) (rows : List A)
      → rows ≡ drop m listing
      → take limit rows ++ drop (m + limit) listing ≡ drop m listing
  rejoin m rows e =
      ap (λ l. take limit l ++ drop (m + limit) listing) e
      ∙ (ap (λ l. take limit (drop m listing) ++ l) (sym (drop-drop m limit listing))
          ∙ take-drop limit (drop m listing))

  shorter :
      (fuel m : ℕ)
      → 1 ≤ limit
      → limit < length (drop m listing)
      → length (drop m listing) < suc fuel
      → length (drop (m + limit) listing) < fuel
  shorter fuel m positive long enough =
      omega (arith, length-drop m listing, length-drop (m + limit) listing)

  walk_from :
      (fetch : Option C → Reply C A)
      → Serves fetch
      → Apart key table
      → 1 ≤ limit
      → (fuel m : ℕ) (after : Option Key) → rest after ≡ drop m listing
      → length (drop m listing) < fuel
      → walk fetch fuel (Option.map encode after) ≡ some (drop m listing)
  unfolding walk
  walk_from fetch serves apart positive zero m after e enough = absurd (omega arith)
  walk_from fetch serves apart positive (suc fuel) m after e enough =
      elim (lt_or_ge limit (length (rest after))) [
        | inl long ↦
            let (final, l) = final_row positive (rest after) long in
            let there =
              advance apart m final (subst (λ r. last_row (take limit r) ≡ some final) e l) in
            let more =
              walk_from fetch serves apart positive fuel (m + limit) (some (key final)) there
                (shorter fuel m positive (subst (λ r. limit < length r) e long) enough) in
            rw (serves after, page_full after final long l, more)
              (ap some (rejoin m (rest after) e))
        | inr short ↦ rw (serves after, page_final after short) (ap some e)
      ]

  length-where_rows-le : (rows : List A) → length (where_rows test rows) ≤ length rows
  length-where_rows-le [] = omega arith
  length-where_rows-le (row ∷ rows) = ground (arith, length-where_rows-le rows)

  length-insert_row :
      (row : A) (rows : List A) → length (insert_row key row rows) ≡ suc (length rows)
  length-insert_row row [] = refl
  length-insert_row row (first ∷ more) = ground (arith, length-insert_row row more)

  length-newest_first : (rows : List A) → length (newest_first key rows) ≡ length rows
  length-newest_first [] = refl
  length-newest_first (row ∷ rows) =
      omega (arith, length-insert_row row (newest_first key rows), length-newest_first rows)

  -- A walk from the start holds the whole listing, and one page more than the table has rows is enough.
  pub walk_all :
      (fetch : Option C → Reply C A)
      → Serves fetch
      → Apart key table
      → 1 ≤ limit
      → (fuel : ℕ) → length table < fuel
      → walk fetch fuel none ≡ some listing
  walk_all fetch serves apart positive fuel enough =
      walk_from fetch serves apart positive fuel 0 none
        (ap (newest_first key)
          (where_rows_ext (λ row. test row && true) test (λ row. ground arith) table))
        (omega (arith, length-newest_first (where_rows test table), length-where_rows-le table))
