-- ===== src/Retention/Batches.antt =====
-- src/gg_relay/maintenance/retention.py, `_delete_in_batches`: what the loop of deletes leaves.
use gg_proxy.Base.{
  ℕ, zero, suc, ◌+◌, ◌*◌, ◌≤◌, ◌<◌, ◌≡◌, refl, Bool, true, false, not, ◌&&◌, List, [], ◌∷◌, map,
  ◌==◌, ltb, length, min, arith, Bool-cases, inl, inr, ap, sym, ◌∙◌,
}
use gg_proxy.Base.Set.{member}
use gg_proxy.Paging.{where_rows}
use gg_proxy.Retention.{
  Swept, swept, after_select, delete_rows, affected, ids_to_delete, delete_in_batches,
}

module _ {A : Type 0} where
  length-where_rows : (p : A → Bool) (rows : List A) → length (where_rows p rows) ≤ length rows
  length-where_rows p [] = omega arith
  length-where_rows p (row ∷ rows) = ground (arith, length-where_rows p rows)

  -- Rows taken out by a narrower test are missing from the count, and no row that the test leaves is.
  pub where_rows-split :
      (test p : A → Bool) (rows : List A)
      → length (where_rows test (where_rows (λ row. not (test row && p row)) rows))
          + length (where_rows (λ row. test row && p row) rows)
        ≡ length (where_rows test rows)
  where_rows-split test p [] = refl
  where_rows-split test p (row ∷ rows) = ground (arith, where_rows-split test p rows)

  pub where_rows-not :
      (test p : A → Bool) (rows : List A)
      → where_rows (λ row. not (test row)) (where_rows (λ row. not (test row && p row)) rows)
        ≡ where_rows (λ row. not (test row)) rows
  where_rows-not test p [] = refl
  where_rows-not test p (row ∷ rows) = ground (arith, where_rows-not test p rows)

  pub length-map : (f : A → ℕ) (rows : List A) → length (map f rows) ≡ length rows
  length-map f [] = refl
  length-map f (row ∷ rows) = ground (arith, length-map f rows)

  pub where_rows_none :
      (test : A → Bool) (rows : List A)
      → length (where_rows test rows) ≡ 0
      → where_rows (λ row. not (test row)) rows ≡ rows
  where_rows_none test [] h = refl
  where_rows_none test (row ∷ rows) h = ground (arith, where_rows_none test rows)

  module _ (pk : A → ℕ) where
    abbrev pub IsFresh : ℕ → List A → Type 0
    IsFresh k [] = Unit {0}
    IsFresh k (row ∷ rows) = ((k == pk row) ≡ false) × IsFresh k rows

    -- A primary key.
    abbrev pub IsKeyed : List A → Type 0
    IsKeyed [] = Unit {0}
    IsKeyed (row ∷ rows) = IsFresh (pk row) rows × IsKeyed rows

    IsFresh-where_rows :
        (k : ℕ) (p : A → Bool) (rows : List A) → IsFresh k rows → IsFresh k (where_rows p rows)
    IsFresh-where_rows k p [] h = tt
    IsFresh-where_rows k p (row ∷ rows) h = elim (Bool-cases (p row)) [
      | inl e ↦ rw e (h.0, IsFresh-where_rows k p rows h.1)
      | inr e ↦ rw e (IsFresh-where_rows k p rows h.1)
    ]

    pub IsKeyed-where_rows :
        (p : A → Bool) (rows : List A) → IsKeyed rows → IsKeyed (where_rows p rows)
    IsKeyed-where_rows p [] h = tt
    IsKeyed-where_rows p (row ∷ rows) h = elim (Bool-cases (p row)) [
      | inl e ↦ rw e (IsFresh-where_rows (pk row) p rows h.0, IsKeyed-where_rows p rows h.1)
      | inr e ↦ rw e (IsKeyed-where_rows p rows h.1)
    ]

    member-fresh : (k : ℕ) (rows : List A) → IsFresh k rows → member k (map pk rows) ≡ false
    member-fresh k [] h = refl
    member-fresh k (row ∷ rows) h = ground (arith, member-fresh k rows h.1)

    fresh_id :
        (k : ℕ) (ids : List ℕ) (rows : List A)
        → IsFresh k rows
        → where_rows (λ row. not (member (pk row) (k ∷ ids))) rows
          ≡ where_rows (λ row. not (member (pk row) ids)) rows
    fresh_id k ids [] h = refl
    fresh_id k ids (row ∷ rows) h = ground (arith, fresh_id k ids rows h.1)

    -- By their keys, exactly the rows that were selected are deleted.
    pub delete_rows_lem :
        (p : A → Bool) (rows : List A)
        → IsKeyed rows
        → delete_rows pk (map pk (where_rows p rows)) rows ≡ where_rows (λ row. not (p row)) rows
    delete_rows_lem p [] h = refl
    delete_rows_lem p (row ∷ rows) h = elim (Bool-cases (p row)) [
      | inl e ↦ ground (
        arith,
        e,
        fresh_id (pk row) (map pk (where_rows p rows)) rows h.0,
        delete_rows_lem p rows h.1,
      )
      | inr e ↦ ground (
        arith,
        e,
        member-fresh (pk row) (where_rows p rows) (IsFresh-where_rows (pk row) p rows h.0),
        delete_rows_lem p rows h.1,
      )
    ]

  pub count_both :
      (p : A → Bool) (rows : List A)
      → length (where_rows p rows) + length (where_rows (λ row. not (p row)) rows) ≡ length rows
  count_both p [] = refl
  count_both p (row ∷ rows) = ground (arith, count_both p rows)

  pub affected_lem :
      (pk : A → ℕ) (p : A → Bool) (knows : Bool) (rows : List A)
      → IsKeyed pk rows
      → affected pk knows (map pk (where_rows p rows)) rows ≡ length (where_rows p rows)
  affected_lem pk p true rows h = omega (
    arith,
    count_both p rows,
    count_both (λ row. member (pk row) (map pk (where_rows p rows))) rows,
    ap (λ l. length l) (delete_rows_lem pk p rows h),
  )
  affected_lem pk p false rows h = length-map pk (where_rows p rows)

  swept_eq :
      {t t' : List A} {d d' b b' : ℕ} → t ≡ t' → d ≡ d' → b ≡ b' → swept t d b ≡ swept t' d' b'
  swept_eq e f g = rw e (rw f (rw g refl))

  -- `LIMIT`: as many of the matching rows as there are, up to the limit.
  abbrev pub IsLimit : (A → ℕ) → (A → Bool) → (ℕ → List A → A → Bool) → Type 0
  IsLimit pk test chosen =
      (n : ℕ) (table : List A)
      → IsKeyed pk table
      → length (where_rows (λ row. test row && chosen n table row) table)
        ≡ min n (length (where_rows test table))

  module _ (pk : A → ℕ) (test : A → Bool) (chosen : ℕ → List A → A → Bool)
      (limit : IsLimit pk test chosen) (knows : Bool) (n : ℕ) where
    length-ids_to_delete :
        (table : List A)
        → IsKeyed pk table
        → length (ids_to_delete pk test chosen n table) ≡ min n (length (where_rows test table))
    unfolding ids_to_delete
    length-ids_to_delete table keyed =
        length-map pk (where_rows (λ row. test row && chosen n table row) table)
        ∙ limit n table keyed

    -- What one batch leaves, and what it counts.
    pub after_batch :
        (table : List A)
        → IsKeyed pk table
        → IsKeyed pk (delete_rows pk (ids_to_delete pk test chosen n table) table)
          × ((where_rows
                  (λ row. not (test row))
                  (delete_rows pk (ids_to_delete pk test chosen n table) table)
                ≡ where_rows (λ row. not (test row)) table)
              × ((length (
                        where_rows test
                          (delete_rows pk (ids_to_delete pk test chosen n table) table))
                      + length (ids_to_delete pk test chosen n table)
                    ≡ length (where_rows test table))
                  × (affected pk knows (ids_to_delete pk test chosen n table) table
                      ≡ length (ids_to_delete pk test chosen n table))))
    unfolding ids_to_delete
    after_batch table keyed =
        rw (delete_rows_lem pk (λ row. test row && chosen n table row) table keyed) (
          IsKeyed-where_rows pk (λ row. not (test row && chosen n table row)) table keyed,
          (
            where_rows-not test (λ row. chosen n table row) table,
            (
              omega (
                arith,
                where_rows-split test (λ row. chosen n table row) table,
                length-map pk (where_rows (λ row. test row && chosen n table row) table),
              ),
              affected_lem pk (λ row. test row && chosen n table row) knows table keyed
                  ∙ sym (length-map pk (where_rows (λ row. test row && chosen n table row) table)),
            ),
          ),
        )

    -- What the loop leaves of a table.
    abbrev pub IsSwept : Swept A → List A → ℕ → ℕ → Type 0
    IsSwept run table deleted batches =
        (m : ℕ) × ((run
            ≡ swept (where_rows (λ row. not (test row)) table)
                (deleted + length (where_rows test table)) (batches + m))
          × ((length (where_rows test table) ≤ m * n)
              × (m * n < length (where_rows test table) + n)))

    -- One round, given its ids, what the batch does, and the rounds after it.
    round :
        (ids : List ℕ) (deleted batches : ℕ) (table : List A) (rest : Swept A)
        → length ids ≡ min n (length (where_rows test table))
        → where_rows (λ row. not (test row)) (delete_rows pk ids table)
          ≡ where_rows (λ row. not (test row)) table
        → length (where_rows test (delete_rows pk ids table)) + length ids
          ≡ length (where_rows test table)
        → affected pk knows ids table ≡ length ids
        → 1 ≤ n
        → (length (where_rows test (delete_rows pk ids table)) < length (where_rows test table)
            → IsSwept rest
                (delete_rows pk ids table)
                (deleted + affected pk knows ids table)
                (suc batches))
        → IsSwept
            (after_select pk knows n false ids deleted batches table rest)
            table
            deleted
            batches
    round [] deleted batches table rest size kept split count pos later = (
      0,
      (
        swept_eq (sym (where_rows_none test table (omega arith))) (omega arith) (omega arith),
        (omega arith, omega arith),
      ),
    )
    round (id ∷ ids) deleted batches table rest size kept split count pos later =
        elim (Bool-cases (ltb (length (id ∷ ids)) n)) [
          | inl lt ↦ rw lt (last (ground arith))
          | inr ge ↦ rw ge (more (ground arith) (later (omega arith)))
        ]
      where
        left : List A
        left = delete_rows pk (id ∷ ids) table

        last :
            length (where_rows test left) ≡ 0
            → IsSwept
                (swept left (deleted + affected pk knows (id ∷ ids) table) (suc batches))
                table
                deleted
                batches
        last gone = (
          1,
          (
            swept_eq (sym (where_rows_none test left gone) ∙ kept) (omega arith) (omega arith),
            (omega arith, omega arith),
          ),
        )

        more :
            length (id ∷ ids) ≡ n
            → IsSwept rest left (deleted + affected pk knows (id ∷ ids) table) (suc batches)
            → IsSwept rest table deleted batches
        more full (m, (run, (low, high))) =
            (suc m, (run ∙ swept_eq kept (omega arith) (omega arith), (omega arith, omega arith)))

    -- With more fuel than rows, the loop deletes exactly the rows that match, in as few batches as there
    -- can be of that size.
    pub delete_in_batches_lem :
        (fuel deleted batches : ℕ) (table : List A)
        → IsKeyed pk table
        → length (where_rows test table) < fuel
        → 1 ≤ n
        → IsSwept
            (delete_in_batches pk test chosen knows n fuel false deleted batches table)
            table
            deleted
            batches
    unfolding delete_in_batches
    delete_in_batches_lem zero deleted batches table keyed h pos = absurd (omega arith)
    delete_in_batches_lem (suc fuel) deleted batches table keyed h pos =
        let ids : List ℕ = ids_to_delete pk test chosen n table in
        let batch = after_batch table keyed in
        round ids deleted batches table _ (length-ids_to_delete table keyed) batch.1.0 batch.1.1.0
          batch.1.1.1 pos
          (λ less.
            delete_in_batches_lem fuel (deleted + affected pk knows ids table) (suc batches)
              (delete_rows pk ids table) batch.0 (omega arith) pos)
