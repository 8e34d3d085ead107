-- ===== src/Comments.antt =====
-- The discussion of a session: src/gg_relay/store/repository.py, the `session_comments` table, and
-- src/gg_relay/api/routers/comments.py. The sanitizer is a parameter.
pub mod Moderation
use Prim.Native.String.{count}
use gg_proxy.Base.{
  ℕ, suc, ◌+◌, Bool, true, false, ◌&&◌, ◌||◌, not, String, Option, none, some, List, [], ◌∷◌, ◌++◌,
  leb, ◌==◌, is_some, if◌then◌else◌, take, str_eq, option_or, truthy,
}
use gg_proxy.Base.Dict.{Dict, lookup, contains, insert}
use gg_proxy.Roles.{rank_of}
use gg_proxy.Store.{Sessions}

pub record Comment : Type 0 where
  pub session_id : ℕ
  pub author : String
  pub body_markdown : String
  pub body_html : String
  pub created_at : ℕ
  pub updated_at : ℕ
  pub deleted_at : Option ℕ

-- The rows under their ids, and the id that the table gives next.
pub record CommentTable : Type 0 where
  pub rows : Dict Comment
  pub next_id : ℕ

-- `create_comment`, with the id of the new row
unfoldable pub create_row : ℕ → String → String → String → ℕ → CommentTable → CommentTable × ℕ
create_row sid author markdown html now table = (
  record { rows = insert table.next_id row table.rows; next_id = suc table.next_id },
  table.next_id,
)
  where
    row : Comment
    row = record {
      session_id = sid;
      author = author;
      body_markdown = markdown;
      body_html = html;
      created_at = now;
      updated_at = now;
      deleted_at = none;
    }

abbrev oldest : ℕ × Comment → List (ℕ × Comment) → List (ℕ × Comment)
oldest entry [] = entry ∷ []
oldest entry (first ∷ rest) =
    if leb entry.1.created_at first.1.created_at
    then entry ∷ first ∷ rest
    else first ∷ oldest entry rest

abbrev live : Comment → Bool
live comment = not (is_some comment.deleted_at)

abbrev thread : ℕ → Bool → List (ℕ × Comment) → List (ℕ × Comment)
thread sid include_deleted [] = []
thread sid include_deleted (entry ∷ rows) =
    let rest = thread sid include_deleted rows in
    if entry.1.session_id == sid && (include_deleted || live entry.1)
    then oldest entry rest
    else rest

-- `list_comments`
unfoldable pub list_rows : ℕ → Bool → ℕ → CommentTable → List (ℕ × Comment)
list_rows sid include_deleted limit table = take limit (thread sid include_deleted table.rows)

-- `get_comment`, a deleted one too
unfoldable pub get_row : ℕ → CommentTable → Option Comment
get_row id table = lookup id table.rows

abbrev pub change_live :
    ℕ → (Comment → Comment) → Option Comment → CommentTable → CommentTable × Bool
change_live id change none table = (table, false)
change_live id change (some comment) table =
    if live comment
    then (record table { rows = insert id (change comment) table.rows }, true)
    else (table, false)

abbrev pub edited : String → String → ℕ → Comment → Comment
edited markdown html now comment = record comment {
  body_markdown = markdown;
  body_html = html;
  updated_at = now;
}

-- `update_comment`: a row that is deleted is not touched.
unfoldable pub update_row : ℕ → String → String → ℕ → CommentTable → CommentTable × Bool
update_row id markdown html now table =
    change_live id (edited markdown html now) (lookup id table.rows) table

abbrev pub tombstoned : ℕ → Comment → Comment
tombstoned now comment = record comment { deleted_at = some now }

-- `soft_delete_comment`
unfoldable pub soft_delete_row : ℕ → ℕ → CommentTable → CommentTable × Bool
soft_delete_row id now table = change_live id (tombstoned now) (lookup id table.rows) table

-- Who calls: the label of the key, and the role that the request resolves to.
pub record Caller : Type 0 where
  pub label : Option String
  pub role : String

-- `getattr(request.state, "api_key_label", None) or "anon"`
abbrev pub label_of : Caller → String
label_of who = if truthy who.label then option_or who.label "" else "anon"

pub data Noted : Type 0 where
  comment_create comment_update : ℕ → ℕ → Noted
  comment_delete : ℕ → Noted

pub record NotedRow : Type 0 where
  pub actor : String
  pub target_id : ℕ
  pub noted : Noted

pub record Forum : Type 0 where
  pub table : CommentTable
  pub log_up : Bool
  pub log : List NotedRow

pub data Response : Type 0 where
  ok : ℕ → Comment → Response
  no_content : Response
  unprocessable : Response
  forbidden : Response
  session_not_found : Response
  comment_not_found : Response
  update_failed : Response
  audit_raised : Response

-- The business write has been committed when the audit log raises.
abbrev pub audited : NotedRow → Response → Forum → Forum × Response
audited row response forum =
    if forum.log_up
    then (record forum { log = forum.log ++ (row ∷ []) }, response)
    else (forum, audit_raised)

-- The bounds of the body.
abbrev pub fits : String → Bool
fits body = leb 1 (count body) && leb (count body) 8000

abbrev is_live : Option Comment → Bool
is_live none = false
is_live (some comment) = live comment

module _ (render_safe : String → String) where
  -- `create_comment`
  unfoldable pub create_comment : Caller → ℕ → String → ℕ → Sessions → Forum → Forum × Response
  create_comment who sid body now db forum =
      if not (leb 1 (rank_of who.role))
      then (forum, forbidden)
      else if not (fits body)
      then (forum, unprocessable)
      else if contains sid db
      then made
      else (forum, session_not_found)
    where
      written : CommentTable × ℕ
      written = create_row sid (label_of who) body (render_safe body) now forum.table

      comment : Comment
      comment = record {
        session_id = sid;
        author = label_of who;
        body_markdown = body;
        body_html = render_safe body;
        created_at = now;
        updated_at = now;
        deleted_at = none;
      }

      made : Forum × Response
      made =
          audited
            (record {
              actor = label_of who;
              target_id = written.1;
              noted = comment_create sid (count body);
            })
            (ok written.1 comment) (record forum { table = written.0 })

  -- What the author's edit ends with; the row may have been deleted since it was read.
  abbrev pub finish_update :
      Caller → ℕ → ℕ → String → CommentTable × Bool → Forum → Forum × Response
  finish_update who id sid body (table, false) forum =
      (record forum { table = table }, update_failed)
  finish_update who id sid body (table, true) forum =
      audited
        (record { actor = label_of who; target_id = id; noted = comment_update sid (count body) })
        (elim (lookup id table.rows) [ none ↦ update_failed | some comment ↦ ok id comment ])
        (record forum { table = table })

  abbrev pub update_found : Caller → ℕ → String → ℕ → Option Comment → Forum → Forum × Response
  update_found who id body now none forum = (forum, comment_not_found)
  update_found who id body now (some existing) forum =
      if live existing
      then if str_eq existing.author (label_of who)
        then finish_update who id existing.session_id body
            (update_row id body (render_safe body) now forum.table) forum
        else (forum, forbidden)
      else (forum, comment_not_found)

  -- `update_comment`: only the author edits.
  unfoldable pub update_comment : Caller → ℕ → String → ℕ → Forum → Forum × Response
  update_comment who id body now forum =
      if fits body
      then update_found who id body now (get_row id forum.table) forum
      else (forum, unprocessable)

abbrev pub finish_delete : Caller → ℕ → ℕ → CommentTable × Bool → Forum → Forum × Response
finish_delete who id sid (table, false) forum = (record forum { table = table }, comment_not_found)
finish_delete who id sid (table, true) forum =
    audited (record { actor = label_of who; target_id = id; noted = comment_delete sid }) no_content
      (record forum { table = table })

abbrev pub may_delete : Caller → Comment → Bool
may_delete who comment = str_eq comment.author (label_of who) || leb 2 (rank_of who.role)

abbrev pub delete_found : Caller → ℕ → ℕ → Option Comment → Forum → Forum × Response
delete_found who id now none forum = (forum, comment_not_found)
delete_found who id now (some existing) forum =
    if live existing
    then if may_delete who existing
      then finish_delete who id existing.session_id (soft_delete_row id now forum.table) forum
      else (forum, forbidden)
    else (forum, comment_not_found)

-- `delete_comment`: the author deletes, and an admin.
unfoldable pub delete_comment : Caller → ℕ → ℕ → Forum → Forum × Response
delete_comment who id now forum = delete_found who id now (get_row id forum.table) forum
