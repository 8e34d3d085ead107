-- ===== src/Paging/Cut.antt =====
-- A place cuts a listing in two: the filter that a cursor adds keeps exactly what comes after the page
-- that ends there.
use gg_proxy.Base.{
  ℕ, zero, suc, ◌-◌, ◌≤◌, ◌≡◌, refl, Bool, true, none, some, List, [], ◌∷◌, ◌++◌, if◌then◌else◌,
  Bool-cases, arith, ap, sym, ◌∙◌, take, inl, inr, length, if_both, ◌⊎◌, Option-cases, subst,
}
use mathlib.Core.Option.{some-injective}
use gg_proxy.Paging.{Key, later, where_rows, insert_row, newest_first, last_row}
use gg_proxy.Paging.Order.{AllLater, IsListed, Apart, newest_first-IsListed}

module _ {A : Type 0} where
  -- `rows[n:]`
  abbrev pub drop : ℕ → List A → List A
  drop zero rows = rows
  drop (suc n) [] = []
  drop (suc n) (row ∷ rows) = drop n rows

  pub take-drop : (n : ℕ) (rows : List A) → take n rows ++ drop n rows ≡ rows
  take-drop zero rows = refl
  take-drop (suc n) [] = refl
  take-drop (suc n) (row ∷ rows) = ap (λ l. row ∷ l) (take-drop n rows)

  pub length-drop : (n : ℕ) (rows : List A) → length (drop n rows) ≡ length rows - n
  length-drop zero rows = omega arith
  length-drop (suc n) [] = omega arith
  length-drop (suc n) (row ∷ rows) = omega (arith, length-drop n rows)

  pub take_all : (n : ℕ) (rows : List A) → length rows ≤ n → take n rows ≡ rows
  take_all zero [] h = refl
  take_all zero (row ∷ rows) h = absurd (omega arith)
  take_all (suc n) [] h = refl
  take_all (suc n) (row ∷ rows) h = ap (λ l. row ∷ l) (take_all n rows (omega arith))

  pub take-take : (n : ℕ) (rows : List A) → take n (take (suc n) rows) ≡ take n rows
  take-take zero rows = refl
  take-take (suc n) [] = refl
  take-take (suc n) (row ∷ rows) = ap (λ l. row ∷ l) (take-take n rows)

  last_row-cases :
      (row final : A) (rows : List A)
      → last_row (row ∷ rows) ≡ some final
      → ((last_row rows ≡ none) × (row ≡ final)) ⊎ (last_row rows ≡ some final)
  last_row-cases row final rows e = elim (Option-cases (last_row rows)) [
    | inl h ↦ inl (h, some-injective row final (sym (by_none h) ∙ e))
    | inr (f, h) ↦ inr (h ∙ (sym (by_some f h) ∙ e))
  ]
    where
      by_none : last_row rows ≡ none → last_row (row ∷ rows) ≡ some row
      by_none h = rw h refl

      by_some : (f : A) → last_row rows ≡ some f → last_row (row ∷ rows) ≡ some f
      by_some f h = rw h refl

  last_row-take-none : (n : ℕ) (l : List A) → last_row (take n l) ≡ none → drop n l ≡ l
  last_row-take-none zero l e = refl
  last_row-take-none (suc n) [] e = refl
  last_row-take-none (suc n) (row ∷ rows) e = absurd (ground arith)

  module _ (key : A → Key) where
    insert_row_head :
        (row : A) (l : List A) → AllLater key (key row) l → insert_row key row l ≡ row ∷ l
    insert_row_head row [] all = refl
    insert_row_head row (first ∷ rest) all = rw (all.0) refl

    AllLater-where_rows :
        (k : Key) (p : A → Bool) (l : List A) → AllLater key k l → AllLater key k (where_rows p l)
    AllLater-where_rows k p [] all = tt
    AllLater-where_rows k p (row ∷ rows) all =
        if_both (AllLater key k) (p row) (all.0, AllLater-where_rows k p rows all.1)
          (AllLater-where_rows k p rows all.1)

    weaken : (j k : Key) (l : List A) → later j k ≡ true → AllLater key j l → AllLater key k l
    weaken j k [] h all = tt
    weaken j k (row ∷ rows) h all = (ground arith, weaken j k rows h all.1)

    where_rows-insert_row :
        (p : A → Bool) (row : A) (l : List A)
        → IsListed key l
        → where_rows p (insert_row key row l)
          ≡ (if p row then insert_row key row (where_rows p l) else where_rows p l)
    where_rows-insert_row p row [] listed = refl
    where_rows-insert_row p row (first ∷ rest) listed =
        elim (Bool-cases (later (key first) (key row))) [
          | inl e ↦
              rw
                (
                  e,
                  insert_row_head row (where_rows p (first ∷ rest)) (
                      AllLater-where_rows (key row) p (first ∷ rest)
                        (e, weaken (key first) (key row) rest e listed.0)),
                )
                refl
          | inr e ↦ ground (arith, where_rows-insert_row p row rest listed.1)
        ]

    pub where_rows-newest_first :
        (p : A → Bool) (l : List A)
        → Apart key l
        → where_rows p (newest_first key l) ≡ newest_first key (where_rows p l)
    where_rows-newest_first p [] apart = refl
    where_rows-newest_first p (row ∷ rows) apart =
        where_rows-insert_row p row (newest_first key rows) (newest_first-IsListed key rows apart.1)
        ∙ ground (arith, where_rows-newest_first p rows apart.1)

    -- Every row of the list after the place: the filter keeps all.
    beyond_all :
        (k : Key) (l : List A) → AllLater key k l → where_rows (λ row. later (key row) k) l ≡ l
    beyond_all k [] all = refl
    beyond_all k (row ∷ rows) all = rw (all.0, beyond_all k rows all.1) refl

    last_row-take-later :
        (k : Key) (n : ℕ) (l : List A) (final : A)
        → AllLater key k l
        → last_row (take n l) ≡ some final
        → later (key final) k ≡ true
    last_row-take-later k zero l final all e = absurd (ground arith)
    last_row-take-later k (suc n) [] final all e = absurd (ground arith)
    last_row-take-later k (suc n) (row ∷ rows) final all e =
        elim (last_row-cases row final (take n rows) e) [
          | inl (h, same) ↦ subst (λ r. later (key r) k ≡ true) same all.0
          | inr h ↦ last_row-take-later k n rows final all.1 h
        ]

    -- The filter at the last row of the first `n` keeps the rest.
    pub cut :
        (n : ℕ) (l : List A) (final : A)
        → IsListed key l
        → last_row (take n l) ≡ some final
        → where_rows (λ row. later (key row) (key final)) l ≡ drop n l
    cut zero l final listed e = absurd (ground arith)
    cut (suc n) [] final listed e = absurd (ground arith)
    cut (suc n) (row ∷ rows) final listed e = elim (last_row-cases row final (take n rows) e) [
      | inl (h, same) ↦
          subst (λ r. where_rows (λ x. later (key x) (key r)) (row ∷ rows) ≡ drop n rows) same
            (ground (arith, beyond_all (key row) rows listed.0) ∙ sym (last_row-take-none n rows h))
      | inr h ↦ ground (
        arith,
        last_row-take-later (key row) n rows final listed.0 h,
        cut n rows final listed.1 h,
      )
    ]
