-- ===== src/Paging/Order.antt =====
-- The order of a listing: the statement's result is sorted, a filter commutes with the sort, and a
-- place cuts the listing in two.
use gg_proxy.Base.{
  ℕ, ◌≡◌, refl, Bool, true, false, ◌&&◌, List, [], ◌∷◌, if_both, Bool-cases, arith, ◌==◌, inl, inr,
}
use gg_proxy.Paging.{Key, later, where_rows, insert_row, newest_first}

module _ {A : Type 0} where
  pub where_rows_ext :
      (p q : A → Bool)
      → ((row : A) → p row ≡ q row)
      → (rows : List A) → where_rows p rows ≡ where_rows q rows
  where_rows_ext p q same [] = refl
  where_rows_ext p q same (row ∷ rows) = ground (arith, same row, where_rows_ext p q same rows)

  pub where_rows-where_rows :
      (p q : A → Bool) (rows : List A)
      → where_rows p (where_rows q rows) ≡ where_rows (λ row. q row && p row) rows
  where_rows-where_rows p q [] = refl
  where_rows-where_rows p q (row ∷ rows) = ground (arith, where_rows-where_rows p q rows)

  module _ (key : A → Key) where
    -- Every row of the list comes after the place.
    abbrev pub AllLater : Key → List A → Type 0
    AllLater k [] = Unit {0}
    AllLater k (row ∷ rows) = (later (key row) k ≡ true) × AllLater k rows

    -- The rows come one after the other, and no two at one place.
    abbrev pub IsListed : List A → Type 0
    IsListed [] = Unit {0}
    IsListed (row ∷ rows) = AllLater (key row) rows × IsListed rows

    -- No row has the id.
    abbrev pub Free : ℕ → List A → Type 0
    Free id [] = Unit {0}
    Free id (row ∷ rows) = (((key row).1 == id) ≡ false) × Free id rows

    -- No two rows of a table have one id.
    abbrev pub Apart : List A → Type 0
    Apart [] = Unit {0}
    Apart (row ∷ rows) = Free (key row).1 rows × Apart rows

    AllLater-trans : (j k : Key) (l : List A) → later j k ≡ true → AllLater j l → AllLater k l
    AllLater-trans j k [] h all = tt
    AllLater-trans j k (row ∷ rows) h all = (ground arith, AllLater-trans j k rows h all.1)

    AllLater-insert_row :
        (k : Key) (row : A) (l : List A)
        → later (key row) k ≡ true
        → AllLater k l
        → AllLater k (insert_row key row l)
    AllLater-insert_row k row [] h all = (h, tt)
    AllLater-insert_row k row (first ∷ rest) h all =
        if_both (AllLater k) (later (key first) (key row)) (h, all)
          (all.0, AllLater-insert_row k row rest h all.1)

    Free-insert_row :
        (id : ℕ) (row : A) (l : List A)
        → ((key row).1 == id) ≡ false
        → Free id l
        → Free id (insert_row key row l)
    Free-insert_row id row [] h free = (h, tt)
    Free-insert_row id row (first ∷ rest) h free =
        if_both (Free id) (later (key first) (key row)) (h, free)
          (free.0, Free-insert_row id row rest h free.1)

    Free-newest_first : (id : ℕ) (l : List A) → Free id l → Free id (newest_first key l)
    Free-newest_first id [] free = tt
    Free-newest_first id (row ∷ rows) free =
        Free-insert_row id row (newest_first key rows) free.0 (Free-newest_first id rows free.1)

    pub Free-where_rows :
        (id : ℕ) (p : A → Bool) (l : List A) → Free id l → Free id (where_rows p l)
    Free-where_rows id p [] free = tt
    Free-where_rows id p (row ∷ rows) free =
        if_both (Free id) (p row) (free.0, Free-where_rows id p rows free.1)
          (Free-where_rows id p rows free.1)

    pub where_rows-Apart : (p : A → Bool) (l : List A) → Apart l → Apart (where_rows p l)
    where_rows-Apart p [] apart = tt
    where_rows-Apart p (row ∷ rows) apart =
        if_both Apart (p row)
          (Free-where_rows (key row).1 p rows apart.0, where_rows-Apart p rows apart.1)
          (where_rows-Apart p rows apart.1)

    -- Of two rows with different ids one comes after the other.
    total : (a b : Key) → (a.1 == b.1) ≡ false → later a b ≡ false → later b a ≡ true
    total a b ne h = ground arith

    insert_row-IsListed :
        (row : A) (l : List A) → Free (key row).1 l → IsListed l → IsListed (insert_row key row l)
    insert_row-IsListed row [] free listed = (tt, tt)
    insert_row-IsListed row (first ∷ rest) free listed =
        elim (Bool-cases (later (key first) (key row))) [
          | inl e ↦ rw e ((e, AllLater-trans (key first) (key row) rest e listed.0), listed)
          | inr e ↦ rw e (
            AllLater-insert_row (key first) row rest (total (key first) (key row) free.0 e)
                listed.0,
            insert_row-IsListed row rest free.1 listed.1,
          )
        ]

    pub newest_first-IsListed : (l : List A) → Apart l → IsListed (newest_first key l)
    newest_first-IsListed [] apart = tt
    newest_first-IsListed (row ∷ rows) apart =
        insert_row-IsListed row (newest_first key rows) (Free-newest_first (key row).1 rows apart.0)
          (newest_first-IsListed rows apart.1)
