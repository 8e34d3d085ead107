-- ===== src/Paging.antt =====
-- src/gg_relay/store/repository.py, the statement that its listings share: the rows that pass a filter,
-- newest first, one row more than a page holds, and the place of the next page.
pub mod Order
pub mod Cut
pub mod Walk
pub mod Base64
pub mod Cursor
use gg_proxy.Base.{
  ℕ, suc, Bool, true, ◌&&◌, ◌||◌, Option, none, some, List, [], ◌∷◌, ltb, ◌==◌, if◌then◌else◌,
  length, take,
}

-- A place in a listing: a time, and the id that orders the rows of one time.
abbrev pub Key : Type 0
Key = ℕ × ℕ

-- `a` stands after `b` in a listing, newest first.
abbrev pub later : Key → Key → Bool
later a b = ltb a.0 b.0 || (a.0 == b.0 && ltb a.1 b.1)

-- The condition that `after` adds to a statement.
abbrev pub beyond : Option Key → Key → Bool
beyond none k = true
beyond (some anchor) k = later k anchor

module _ {A : Type 0} where
  -- `WHERE`
  abbrev pub where_rows : (A → Bool) → List A → List A
  where_rows test [] = []
  where_rows test (row ∷ rows) =
      if test row then row ∷ where_rows test rows else where_rows test rows

  -- `rows[-1]`
  abbrev pub last_row : List A → Option A
  last_row [] = none
  last_row (row ∷ rows) = elim (last_row rows) [ none ↦ some row | some final ↦ some final ]

  module _ (key : A → Key) where
    abbrev pub insert_row : A → List A → List A
    insert_row row [] = row ∷ []
    insert_row row (first ∷ rest) =
        if later (key first) (key row) then row ∷ first ∷ rest else first ∷ insert_row row rest

    -- `ORDER BY time DESC, id DESC`
    abbrev pub newest_first : List A → List A
    newest_first [] = []
    newest_first (row ∷ rows) = insert_row row (newest_first rows)

    -- The rows of one page, and its last row if the table holds more: the statement asks for one row
    -- more than the page holds.
    unfoldable pub select_page : (A → Bool) → ℕ → List A → List A × Option A
    select_page test limit table = (rows, if ltb limit (length found) then last_row rows else none)
      where
        found : List A
        found = take (suc limit) (newest_first (where_rows test table))

        rows : List A
        rows = take limit found
