-- ===== src/Templates/Visible.antt =====
-- The listing of templates and the endpoint on one of them show the same.
use gg_proxy.Base.{
  ℕ, suc, ◌≤◌, ◌≡◌, refl, Bool, true, false, ◌&&◌, ◌||◌, String, Option, none, some, List, [], ◌∷◌,
  ◌==◌, is_some, if◌then◌else◌, arith, Bool-cases, inl, inr, sym, ◌∙◌, ap, le→leb, length,
}
use gg_proxy.Base.Dict.{Dict, Distinct, lookup}
use gg_proxy.Paging.Cut.{take_all}
use gg_proxy.Templates.{
  Template, place, in_view, viewed, list_rows, Caller, label_of, is_admin, Shelf, Response, ok,
  view_found, get_template, list_templates,
}

-- The id stands in the list.
abbrev pub listed : ℕ → List (ℕ × Template) → Bool
listed id [] = false
listed id (entry ∷ rows) = entry.0 == id || listed id rows

-- The endpoint answers with the row.
abbrev pub granted : Response → Bool
granted (ok id row) = true
granted _ = false

listed-place :
    (id : ℕ) (entry : ℕ × Template) (rows : List (ℕ × Template))
    → listed id (place entry rows) ≡ (entry.0 == id || listed id rows)
listed-place id entry [] = refl
listed-place id entry (first ∷ rest) = ground (arith, listed-place id entry rest)

listed-if :
    (id : ℕ) (entry : ℕ × Template) (rows : List (ℕ × Template)) (shown : Bool)
    → listed id (if shown then place entry rows else rows)
      ≡ ((shown && entry.0 == id) || listed id rows)
listed-if id entry rows true = listed-place id entry rows
listed-if id entry rows false = refl

and_true : (t : Bool) → ((t && true) || false) ≡ t
and_true true = refl
and_true false = refl

and_false : (t u : Bool) → ((t && false) || u) ≡ u
and_false true u = refl
and_false false u = refl

absent_below :
    (id : ℕ) (entry : ℕ × Template) (rows : Dict Template)
    → (entry.0 == id) ≡ true
    → is_some (lookup entry.0 rows) ≡ false
    → lookup id rows ≡ none
absent_below id entry rows here d = ground arith

lookup_here :
    (id : ℕ) (entry : ℕ × Template) (rows : Dict Template)
    → (entry.0 == id) ≡ true
    → lookup id (entry ∷ rows) ≡ some entry.1
lookup_here id entry rows here = ground arith

lookup_there :
    (id : ℕ) (entry : ℕ × Template) (rows : Dict Template)
    → (entry.0 == id) ≡ false
    → lookup id (entry ∷ rows) ≡ lookup id rows
lookup_there id entry rows there = ground arith

module _ (actor : String) (admin include_others : Bool) where
  abbrev seen : Option Template → Bool
  seen none = false
  seen (some row) = in_view actor admin include_others row

  listed-viewed :
      (id : ℕ) (rows : Dict Template)
      → Distinct rows
      → listed id (viewed actor admin include_others rows) ≡ seen (lookup id rows)
  listed-viewed id [] d = refl
  listed-viewed id (entry ∷ rows) d =
      listed-if id entry (viewed actor admin include_others rows)
        (in_view actor admin include_others entry.1)
      ∙ elim (Bool-cases (entry.0 == id)) [
        | inl here ↦
            let below = listed-viewed id rows d.1 ∙ ap seen (absent_below id entry rows here d.0) in
            of_here here below
        | inr there ↦ let below = listed-viewed id rows d.1 in of_there there below
      ]
    where
      of_here :
          (entry.0 == id) ≡ true
          → listed id (viewed actor admin include_others rows) ≡ false
          → ((in_view actor admin include_others entry.1 && entry.0 == id)
              || listed id (viewed actor admin include_others rows))
            ≡ seen (lookup id (entry ∷ rows))
      of_here here below = rw (below, here, lookup_here id entry rows here) (and_true _)

      of_there :
          (entry.0 == id) ≡ false
          → listed id (viewed actor admin include_others rows) ≡ seen (lookup id rows)
          → ((in_view actor admin include_others entry.1 && entry.0 == id)
              || listed id (viewed actor admin include_others rows))
            ≡ seen (lookup id (entry ∷ rows))
      of_there there below = rw (there, lookup_there id entry rows there) (and_false _ _ ∙ below)

length-place :
    (entry : ℕ × Template) (rows : List (ℕ × Template))
    → length (place entry rows) ≡ suc (length rows)
length-place entry [] = refl
length-place entry (first ∷ rest) = ground (arith, length-place entry rest)

length-viewed-le :
    (actor : String) (admin include_others : Bool) (rows : Dict Template)
    → length (viewed actor admin include_others rows) ≤ length rows
length-viewed-le actor admin include_others [] = omega arith
length-viewed-le actor admin include_others (entry ∷ rows) =
    let shown = length-place entry (viewed actor admin include_others rows) in
    ground (arith, length-viewed-le actor admin include_others rows, shown)

view_granted :
    (who : Caller) (id : ℕ) (o : Option Template)
    → granted (view_found who id o) ≡ seen (label_of who) (is_admin who) (is_admin who) o
view_granted who id none = refl
view_granted who id (some row) = ground arith

-- A list that may be refused shows the id.
abbrev pub shows : ℕ → Option (List (ℕ × Template)) → Bool
shows id none = false
shows id (some rows) = listed id rows

-- For a caller who asks for the templates of others exactly if they are an admin, with a limit from 1 to
-- 500 that the table fits in, on a table with distinct ids: a template stands in the listing exactly if
-- the endpoint on it answers with the row.
pub shows-granted :
    (who : Caller) (limit id : ℕ) (shelf : Shelf)
    → Distinct shelf.table.rows
    → 1 ≤ limit
    → limit ≤ 500
    → length shelf.table.rows ≤ limit
    → shows id (list_templates who (is_admin who) limit shelf) ≡ granted (get_template who id shelf)
unfolding list_templates list_rows get_template
shows-granted who limit id shelf d low high room =
    rw
      (
        le→leb 1 limit low,
        le→leb limit 500 high,
        take_all limit (viewed (label_of who) (is_admin who) (is_admin who) shelf.table.rows) (
            omega (
              arith,
              length-viewed-le (label_of who) (is_admin who) (is_admin who) shelf.table.rows,
            )),
      )
      (listed-viewed (label_of who) (is_admin who) (is_admin who) id shelf.table.rows d
        ∙ sym (view_granted who id (lookup id shelf.table.rows)))
