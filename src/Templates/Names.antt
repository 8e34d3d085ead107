-- ===== src/Templates/Names.antt =====
-- No creator has two templates of one name.
use gg_proxy.Base.{
  ℕ, ◌≡◌, refl, Bool, true, false, ◌&&◌, ◌||◌, not, String, Option, none, some, List, [], ◌∷◌, ◌++◌,
  leb, ◌==◌, str_eq, arith, Bool-cases, inl, inr, ◌∙◌, if_both, str_eq_sym,
}
use gg_proxy.Base.Dict.{Dict, lookup, contains, erase}
use gg_proxy.Roles.{rank_of}
use gg_proxy.Templates.{
  Template, TemplateTable, NewTemplate, name_taken, create_row, TemplatePatch, patched, change_row,
  update_row, delete_row, Caller, label_of, TemplateEvent, Shelf, noted, new_fits, patch_fits,
  Response, finish_create, create_template, may_edit, finish_update, update_found, update_template,
  finish_delete, delete_found, delete_template,
}

-- No creator has two rows of one name.
abbrev pub IsUnique : Dict Template → Type 0
IsUnique [] = Unit {0}
IsUnique ((id, row) ∷ rows) = (name_taken row.creator row.name rows ≡ false) × IsUnique rows

name_taken-append :
    (creator name : String) (rows : Dict Template) (entry : ℕ × Template)
    → name_taken creator name (rows ++ (entry ∷ [])) ≡ (
        name_taken creator name rows
        || (str_eq entry.1.creator creator && str_eq entry.1.name name))
name_taken-append creator name [] entry = ground arith
name_taken-append creator name (first ∷ rows) entry =
    ground (arith, name_taken-append creator name rows entry)

name_taken-change_row :
    (creator name : String) (id : ℕ) (patch : TemplatePatch) (now : ℕ) (rows : Dict Template)
    → name_taken creator name (change_row id (patched patch now) rows)
      ≡ name_taken creator name rows
name_taken-change_row creator name id patch now [] = refl
name_taken-change_row creator name id patch now (first ∷ rows) =
    ground (arith, name_taken-change_row creator name id patch now rows)

change_row-IsUnique :
    (id : ℕ) (patch : TemplatePatch) (now : ℕ) (rows : Dict Template)
    → IsUnique rows
    → IsUnique (change_row id (patched patch now) rows)
change_row-IsUnique id patch now [] u = tt
change_row-IsUnique id patch now (first ∷ rows) u = if_both IsUnique (first.0 == id) u (
  name_taken-change_row first.1.creator first.1.name id patch now rows ∙ u.0,
  change_row-IsUnique id patch now rows u.1,
)

name_taken-erase :
    (creator name : String) (id : ℕ) (rows : Dict Template)
    → name_taken creator name rows ≡ false
    → name_taken creator name (erase id rows) ≡ false
name_taken-erase creator name id [] h = refl
name_taken-erase creator name id (first ∷ rows) h =
    ground (arith, name_taken-erase creator name id rows)

erase-IsUnique : (id : ℕ) (rows : Dict Template) → IsUnique rows → IsUnique (erase id rows)
erase-IsUnique id [] u = tt
erase-IsUnique id (first ∷ rows) u =
    if_both IsUnique (id == first.0) u.1
      (name_taken-erase first.1.creator first.1.name id rows u.0, erase-IsUnique id rows u.1)

fresh_for :
    (first entry : ℕ × Template) (rows : Dict Template)
    → name_taken entry.1.creator entry.1.name (first ∷ rows) ≡ false
    → name_taken first.1.creator first.1.name rows ≡ false
    → name_taken first.1.creator first.1.name (rows ++ (entry ∷ [])) ≡ false
fresh_for first entry rows free old =
    name_taken-append first.1.creator first.1.name rows entry
    ∙ (rw (old, str_eq_sym entry.1.creator first.1.creator, str_eq_sym entry.1.name first.1.name)
        (ground arith))

append-IsUnique :
    (rows : Dict Template) (entry : ℕ × Template)
    → name_taken entry.1.creator entry.1.name rows ≡ false
    → IsUnique rows
    → IsUnique (rows ++ (entry ∷ []))
append-IsUnique [] entry free u = (refl, tt)
append-IsUnique (first ∷ rows) entry free u =
    (fresh_for first entry rows free u.0, append-IsUnique rows entry (ground arith) u.1)

abbrev UniqueIf : Option (TemplateTable × ℕ) → Type 0
UniqueIf none = Unit {0}
UniqueIf (some (table, id)) = IsUnique table.rows

create_row-UniqueIf :
    (creator : String) (new : NewTemplate) (now : ℕ) (table : TemplateTable)
    → IsUnique table.rows
    → UniqueIf (create_row creator new now table)
unfolding create_row
create_row-UniqueIf creator new now table u =
    elim (Bool-cases (name_taken creator new.name table.rows)) [
      | inl e ↦ rw e tt
      | inr e ↦ rw e (append-IsUnique table.rows _ e u)
    ]

noted-IsUnique :
    (actor : String) (id : ℕ) (event : TemplateEvent) (shelf : Shelf)
    → IsUnique shelf.table.rows
    → IsUnique (noted actor id event shelf).table.rows
noted-IsUnique actor id event shelf u =
    if_both (λ (s : Shelf). IsUnique s.table.rows) shelf.log_up u u

-- The requests that write.
pub data Request : Type 0 where
  creates : NewTemplate → ℕ → Request
  updates : ℕ → TemplatePatch → ℕ → Request
  deletes : ℕ → Request

unfoldable pub serve : Caller → Request → Shelf → Shelf
serve who (creates new now) shelf = (create_template who new now shelf).0
serve who (updates id patch now) shelf = (update_template who id patch now shelf).0
serve who (deletes id) shelf = (delete_template who id shelf).0

-- Requests, one after the other, each with its caller.
abbrev pub serve_all : List (Caller × Request) → Shelf → Shelf
serve_all [] shelf = shelf
serve_all ((who, request) ∷ requests) shelf = serve_all requests (serve who request shelf)

serve-IsUnique :
    (who : Caller) (request : Request) (shelf : Shelf)
    → IsUnique shelf.table.rows
    → IsUnique (serve who request shelf).table.rows
unfolding serve create_template update_template delete_template update_row delete_row
serve-IsUnique who (creates new now) shelf u =
    if_both (λ (r : Shelf × Response). IsUnique r.0.table.rows) (not (leb 1 (rank_of who.role))) u
      (if_both (λ (r : Shelf × Response). IsUnique r.0.table.rows) (new_fits new)
        (go (create_row (label_of who) new now shelf.table)
          (create_row-UniqueIf (label_of who) new now shelf.table u))
        u)
  where
    go :
        (o : Option (TemplateTable × ℕ))
        → UniqueIf o
        → IsUnique (finish_create who new o shelf).0.table.rows
    go none h = u
    go (some (table, id)) h = noted-IsUnique (label_of who) id _ (record shelf { table = table }) h
serve-IsUnique who (updates id patch now) shelf u =
    if_both (λ (r : Shelf × Response). IsUnique r.0.table.rows) (patch_fits patch)
      (go (lookup id shelf.table.rows)) u
  where
    finish :
        (existing : Template) (b : Bool)
        → IsUnique
            (finish_update who id existing
              (record shelf.table { rows = change_row id (patched patch now) shelf.table.rows }, b)
              shelf).0.table.rows
    finish existing false = change_row-IsUnique id patch now shelf.table.rows u
    finish existing true =
        noted-IsUnique (label_of who) id _ _ (change_row-IsUnique id patch now shelf.table.rows u)

    go : (o : Option Template) → IsUnique (update_found who id patch now o shelf).0.table.rows
    go none = u
    go (some existing) =
        if_both (λ (r : Shelf × Response). IsUnique r.0.table.rows) (may_edit who existing)
          (finish existing (contains id shelf.table.rows)) u
serve-IsUnique who (deletes id) shelf u = go (lookup id shelf.table.rows)
  where
    finish :
        (existing : Template) (b : Bool)
        → IsUnique
            (finish_delete who id existing
              (record shelf.table { rows = erase id shelf.table.rows }, b)
              shelf).0.table.rows
    finish existing false = erase-IsUnique id shelf.table.rows u
    finish existing true =
        noted-IsUnique (label_of who) id _ _ (erase-IsUnique id shelf.table.rows u)

    go : (o : Option Template) → IsUnique (delete_found who id o shelf).0.table.rows
    go none = u
    go (some existing) =
        if_both (λ (r : Shelf × Response). IsUnique r.0.table.rows) (may_edit who existing)
          (finish existing (contains id shelf.table.rows)) u

-- Whatever is created, edited and deleted, and by whom: if no creator has two templates of one name,
-- none ever has.
pub serve_all-IsUnique :
    (requests : List (Caller × Request)) (shelf : Shelf)
    → IsUnique shelf.table.rows
    → IsUnique (serve_all requests shelf).table.rows
serve_all-IsUnique [] shelf u = u
serve_all-IsUnique ((who, request) ∷ requests) shelf u =
    serve_all-IsUnique requests (serve who request shelf) (serve-IsUnique who request shelf u)
