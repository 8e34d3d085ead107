-- ===== src/Templates.antt =====
-- Prompt templates: src/gg_relay/store/repository.py, the `prompt_templates` table, and
-- src/gg_relay/api/routers/templates.py. The audit log is best effort here: what it raises is swallowed.
pub mod Visible
pub mod Names
use Prim.Native.String.{count, compare}
use text.Mathlib.Text.{is_lt}
use gg_proxy.Base.{
  ℕ, suc, ◌+◌, Bool, true, false, ◌&&◌, ◌||◌, not, String, Option, none, some, List, [], ◌∷◌, ◌++◌,
  leb, ◌==◌, is_some, if◌then◌else◌, take, str_eq, option_or, truthy,
}
use gg_proxy.Base.Dict.{Dict, lookup, contains, insert, erase}
use gg_proxy.Roles.{rank_of}

pub record Template : Type 0 where
  pub name : String
  pub creator : String
  pub prompt : String
  pub description : Option String
  pub shared : Bool
  pub tags : Option String
  pub created_at : ℕ
  pub updated_at : ℕ

-- The rows under their ids, and the id that the table gives next.
pub record TemplateTable : Type 0 where
  pub rows : Dict Template
  pub next_id : ℕ

pub record NewTemplate : Type 0 where
  pub name : String
  pub prompt : String
  pub description : Option String
  pub shared : Bool
  pub tags : Option String

-- The unique constraint on the creator and the name.
abbrev pub name_taken : String → String → Dict Template → Bool
name_taken creator name [] = false
name_taken creator name ((id, row) ∷ rows) =
    (str_eq row.creator creator && str_eq row.name name) || name_taken creator name rows

-- `create_template`, with the id of the new row; `none` is `TemplateConflictError`.
unfoldable pub create_row : String → NewTemplate → ℕ → TemplateTable → Option (TemplateTable × ℕ)
create_row creator new now table =
    if name_taken creator new.name table.rows
    then none
    else some (
      record { rows = table.rows ++ ((table.next_id, row) ∷ []); next_id = suc table.next_id },
      table.next_id,
    )
  where
    row : Template
    row = record {
      name = new.name;
      creator = creator;
      prompt = new.prompt;
      description = new.description;
      shared = new.shared;
      tags = new.tags;
      created_at = now;
      updated_at = now;
    }

abbrev pub get_row : ℕ → TemplateTable → Option Template
get_row id table = lookup id table.rows

-- `ORDER BY shared DESC, name ASC`
abbrev before : Template → Template → Bool
before a b =
    (a.shared && not b.shared)
    || ((not a.shared || b.shared) && (not b.shared || a.shared) && is_lt (compare a.name b.name))

abbrev pub place : ℕ × Template → List (ℕ × Template) → List (ℕ × Template)
place entry [] = entry ∷ []
place entry (first ∷ rest) =
    if before first.1 entry.1 then first ∷ place entry rest else entry ∷ first ∷ rest

abbrev pub in_view : String → Bool → Bool → Template → Bool
in_view actor is_admin include_others row =
    (is_admin && include_others) || (str_eq row.creator actor || row.shared)

abbrev pub viewed : String → Bool → Bool → List (ℕ × Template) → List (ℕ × Template)
viewed actor is_admin include_others [] = []
viewed actor is_admin include_others (entry ∷ rows) =
    let rest = viewed actor is_admin include_others rows in
    if in_view actor is_admin include_others entry.1 then place entry rest else rest

-- `list_templates`
unfoldable pub list_rows : String → Bool → Bool → ℕ → TemplateTable → List (ℕ × Template)
list_rows actor is_admin include_others limit table =
    take limit (viewed actor is_admin include_others table.rows)

pub record TemplatePatch : Type 0 where
  pub prompt : Option String
  pub description : Option String
  pub shared : Option Bool
  pub tags : Option String

abbrev kept_or {ℓ} : {A : Type ℓ} → Option A → A → A
kept_or none old = old
kept_or (some new) old = new

abbrev replaced : Option String → Option String → Option String
replaced none old = old
replaced (some new) old = some new

abbrev pub patched : TemplatePatch → ℕ → Template → Template
patched patch now row = record row {
  prompt = kept_or patch.prompt row.prompt;
  description = replaced patch.description row.description;
  shared = kept_or patch.shared row.shared;
  tags = replaced patch.tags row.tags;
  updated_at = now;
}

abbrev pub change_row : ℕ → (Template → Template) → Dict Template → Dict Template
change_row id change [] = []
change_row id change ((other, row) ∷ rows) =
    let rest = change_row id change rows in
    if other == id then (other, change row) ∷ rows else (other, row) ∷ rest

-- `update_template`
unfoldable pub update_row : ℕ → TemplatePatch → ℕ → TemplateTable → TemplateTable × Bool
update_row id patch now table =
    (record table { rows = change_row id (patched patch now) table.rows }, contains id table.rows)

-- `delete_template`
unfoldable pub delete_row : ℕ → TemplateTable → TemplateTable × Bool
delete_row id table = (record table { rows = erase id table.rows }, contains id table.rows)

-- Who calls: the label of the key, and the role that the request resolves to.
pub record Caller : Type 0 where
  pub label : Option String
  pub role : String

abbrev pub label_of : Caller → String
label_of who = if truthy who.label then option_or who.label "" else "anon"

-- `_is_admin`
abbrev pub is_admin : Caller → Bool
is_admin who = leb 2 (rank_of who.role)

pub data TemplateEvent : Type 0 where
  template_create : String → Bool → TemplateEvent
  template_update template_delete : String → TemplateEvent

pub record TemplateNote : Type 0 where
  pub actor : String
  pub target_id : ℕ
  pub event : TemplateEvent

pub record Shelf : Type 0 where
  pub table : TemplateTable
  pub log_up : Bool
  pub log : List TemplateNote

pub data Response : Type 0 where
  ok : ℕ → Template → Response
  no_content : Response
  unprocessable : Response
  forbidden : Response
  name_conflict : Response
  not_found : Response

abbrev pub noted : String → ℕ → TemplateEvent → Shelf → Shelf
noted actor target_id event shelf =
    if shelf.log_up
    then record shelf {
      log = shelf.log ++ (record { actor = actor; target_id = target_id; event = event } ∷ []);
    }
    else shelf

abbrev fits : ℕ → ℕ → String → Bool
fits low high s = leb low (count s) && leb (count s) high

abbrev fits_if : ℕ → ℕ → Option String → Bool
fits_if low high none = true
fits_if low high (some s) = fits low high s

-- The bounds of the bodies.
abbrev pub new_fits : NewTemplate → Bool
new_fits new =
    fits 1 128 new.name
    && (fits 1 20000 new.prompt && (fits_if 0 500 new.description && fits_if 0 500 new.tags))

abbrev pub patch_fits : TemplatePatch → Bool
patch_fits patch =
    fits_if 1 20000 patch.prompt && (fits_if 0 500 patch.description && fits_if 0 500 patch.tags)

abbrev row_or_missing : ℕ → Option Template → Response
row_or_missing id none = not_found
row_or_missing id (some row) = ok id row

abbrev pub finish_create :
    Caller → NewTemplate → Option (TemplateTable × ℕ) → Shelf → Shelf × Response
finish_create who new none shelf = (shelf, name_conflict)
finish_create who new (some (table, id)) shelf = (
  noted (label_of who) id (template_create new.name new.shared) (record shelf { table = table }),
  row_or_missing id (get_row id table),
)

-- `create_template`
unfoldable pub create_template : Caller → NewTemplate → ℕ → Shelf → Shelf × Response
create_template who new now shelf =
    if not (leb 1 (rank_of who.role))
    then (shelf, forbidden)
    else if new_fits new
    then finish_create who new (create_row (label_of who) new now shelf.table) shelf
    else (shelf, unprocessable)

abbrev pub may_view : Caller → Template → Bool
may_view who row = row.shared || (str_eq row.creator (label_of who) || is_admin who)

abbrev pub view_found : Caller → ℕ → Option Template → Response
view_found who id none = not_found
view_found who id (some row) = if may_view who row then ok id row else forbidden

-- `get_template`
unfoldable pub get_template : Caller → ℕ → Shelf → Response
get_template who id shelf = view_found who id (get_row id shelf.table)

-- `list_templates`: a limit outside 1 to 500 is refused.
unfoldable pub list_templates : Caller → Bool → ℕ → Shelf → Option (List (ℕ × Template))
list_templates who include_others limit shelf =
    if leb 1 limit && leb limit 500
    then some (list_rows (label_of who) (is_admin who) include_others limit shelf.table)
    else none

abbrev pub may_edit : Caller → Template → Bool
may_edit who row = str_eq row.creator (label_of who) || is_admin who

abbrev pub finish_update : Caller → ℕ → Template → TemplateTable × Bool → Shelf → Shelf × Response
finish_update who id existing (table, false) shelf = (record shelf { table = table }, not_found)
finish_update who id existing (table, true) shelf = (
  noted (label_of who) id (template_update existing.name) (record shelf { table = table }),
  row_or_missing id (get_row id table),
)

abbrev pub update_found :
    Caller → ℕ → TemplatePatch → ℕ → Option Template → Shelf → Shelf × Response
update_found who id patch now none shelf = (shelf, not_found)
update_found who id patch now (some existing) shelf =
    if may_edit who existing
    then finish_update who id existing (update_row id patch now shelf.table) shelf
    else (shelf, forbidden)

-- `update_template`
unfoldable pub update_template : Caller → ℕ → TemplatePatch → ℕ → Shelf → Shelf × Response
update_template who id patch now shelf =
    if patch_fits patch
    then update_found who id patch now (get_row id shelf.table) shelf
    else (shelf, unprocessable)

abbrev pub finish_delete : Caller → ℕ → Template → TemplateTable × Bool → Shelf → Shelf × Response
finish_delete who id existing (table, false) shelf = (record shelf { table = table }, not_found)
finish_delete who id existing (table, true) shelf = (
  noted (label_of who) id (template_delete existing.name) (record shelf { table = table }),
  no_content,
)

abbrev pub delete_found : Caller → ℕ → Option Template → Shelf → Shelf × Response
delete_found who id none shelf = (shelf, not_found)
delete_found who id (some existing) shelf =
    if may_edit who existing
    then finish_delete who id existing (delete_row id shelf.table) shelf
    else (shelf, forbidden)

-- `delete_template`
unfoldable pub delete_template : Caller → ℕ → Shelf → Shelf × Response
delete_template who id shelf = delete_found who id (get_row id shelf.table) shelf
