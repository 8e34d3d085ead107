-- ===== src/Comments/Moderation/Story.antt =====
-- A comment through any sequence of requests.
use gg_proxy.Base.{
  ℕ, suc, ◌≤◌, ◌≡◌, refl, Bool, false, String, Option, none, some, List, [], ◌∷◌, ◌==◌, str_eq,
  arith, Bool-cases, inl, inr, sym, ◌∙◌, subst, if_both, ==_iff,
}
use mathlib.Core.Option.{none-ne-some}
use gg_proxy.Base.Dict.{lookup, insert, lookup-insert}
use gg_proxy.Comments.{
  Comment, CommentTable, create_row, get_row, live, change_live, update_row, soft_delete_row,
  Caller, label_of, Forum, Response, fits, update_found, update_comment, delete_found, may_delete,
  delete_comment,
}
use gg_proxy.Comments.Moderation.{
  IsTable, Allowed, kept, by_author, removed, Request, posts, edits, deletes, serve, serve-Became,
  finish_update-table, finish_delete-table, create_comment-table,
}

change_live-IsTable :
    (target : ℕ) (change : Comment → Comment) (o : Option Comment) (table : CommentTable)
    → lookup target table.rows ≡ o
    → IsTable table
    → IsTable (change_live target change o table).0
change_live-IsTable target change none table e free = free
change_live-IsTable target change (some d) table e free =
    if_both (λ (r : CommentTable × Bool). IsTable r.0) (live d) changed free
  where
    changed : IsTable (record table { rows = insert target (change d) table.rows })
    changed id h = elim (Bool-cases (id == target)) [
      | inr other ↦ rw (lookup-insert id target (change d) table.rows, other) (free id h)
      | inl here ↦ absurd (
          none-ne-some d
            (sym (free target (subst (λ k. table.next_id ≤ k) ((==_iff id target).0 here) h)) ∙ e))
    ]

ne_above : (a b : ℕ) → suc b ≤ a → (a == b) ≡ false
ne_above a b h = ground arith

create_row-IsTable :
    (sid : ℕ) (author markdown html : String) (now : ℕ) (table : CommentTable)
    → IsTable table
    → IsTable (create_row sid author markdown html now table).0
unfolding create_row
create_row-IsTable sid author markdown html now table free id h =
    rw (lookup-insert id table.next_id _ table.rows, ne_above id table.next_id h)
      (free id (omega arith))

module _ (render_safe : String → String) where
  update_found-IsTable :
      (who : Caller) (target : ℕ) (body : String) (now : ℕ) (o : Option Comment) (forum : Forum)
      → IsTable forum.table
      → IsTable (update_found render_safe who target body now o forum).0.table
  unfolding update_row
  update_found-IsTable who target body now none forum free = free
  update_found-IsTable who target body now (some d) forum free =
      if_both (λ (r : Forum × Response). IsTable r.0.table) (live d)
        (if_both (λ (r : Forum × Response). IsTable r.0.table) (str_eq d.author (label_of who))
          (subst IsTable
            (sym (finish_update-table render_safe who target d.session_id body _ forum))
            (change_live-IsTable target _ _ forum.table refl free))
          free)
        free

  delete_found-IsTable :
      (who : Caller) (target now : ℕ) (o : Option Comment) (forum : Forum)
      → IsTable forum.table
      → IsTable (delete_found who target now o forum).0.table
  unfolding soft_delete_row
  delete_found-IsTable who target now none forum free = free
  delete_found-IsTable who target now (some d) forum free =
      if_both (λ (r : Forum × Response). IsTable r.0.table) (live d)
        (if_both (λ (r : Forum × Response). IsTable r.0.table) (may_delete who d)
          (subst IsTable (sym (finish_delete-table render_safe who target d.session_id _ forum))
            (change_live-IsTable target _ _ forum.table refl free))
          free)
        free

  serve-IsTable :
      (who : Caller) (request : Request) (forum : Forum)
      → IsTable forum.table
      → IsTable (serve render_safe who request forum).table
  unfolding serve update_comment delete_comment
  serve-IsTable who (posts sid body now db) forum free =
      create_comment-table render_safe IsTable who sid body now db forum free
        (create_row-IsTable sid (label_of who) body (render_safe body) now forum.table free)
  serve-IsTable who (edits target body now) forum free =
      if_both (λ (r : Forum × Response). IsTable r.0.table) (fits body)
        (update_found-IsTable who target body now (get_row target forum.table) forum free) free
  serve-IsTable who (deletes target now) forum free =
      delete_found-IsTable who target now (get_row target forum.table) forum free

  -- Requests, one after the other, each with its caller.
  abbrev pub serve_all : List (Caller × Request) → Forum → Forum
  serve_all [] forum = forum
  serve_all ((who, request) ∷ requests) forum =
      serve_all requests (serve render_safe who request forum)

-- What a sequence of callers may make of a comment.
pub data Story (render_safe : String → String)
    : List (Caller × Request) → Comment → Comment → Type 0 where
  told : (c : Comment) → Story render_safe [] c c
  next :
      (who : Caller) (request : Request) (requests : List (Caller × Request)) (c d e : Comment)
      → Allowed render_safe who c d
      → Story render_safe requests d e
      → Story render_safe ((who, request) ∷ requests) c e

module _ (render_safe : String → String) where
  -- Whatever is requested, a comment stays there under its id, and all that happens to it is allowed to
  -- the caller who asks for it: its author edits the body while it is not deleted, its author or an admin
  -- deletes it once. The table begins with its next ids free.
  pub serve_all-Story :
      (requests : List (Caller × Request)) (forum : Forum) (id : ℕ) (c : Comment)
      → IsTable forum.table
      → lookup id forum.table.rows ≡ some c
      → (c' : Comment) × (lookup id (serve_all render_safe requests forum).table.rows ≡ some c')
        × Story render_safe requests c c'
  serve_all-Story [] forum id c free found = (c, found, told c)
  serve_all-Story ((who, request) ∷ requests) forum id c free found =
      let (d, there, allowed) = serve-Became render_safe who id c request forum free found in
      let (e, last, story) =
        serve_all-Story requests (serve render_safe who request forum) id d
          (serve-IsTable render_safe who request forum free) there in
      (e, last, next who request requests c d e allowed story)

  -- A deleted comment is left as it is.
  pub Story-deleted :
      (requests : List (Caller × Request)) (c e : Comment)
      → live c ≡ false
      → Story render_safe requests c e
      → e ≡ c
  Story-deleted requests c e dead (told _) = refl
  Story-deleted requests c e dead (next who request rest _ d _ kept story) =
      Story-deleted rest c e dead story
  Story-deleted requests c e dead
        (next who request rest _ d _ (by_author body now lives author) story) =
      absurd (ground arith)
  Story-deleted requests c e dead (next who request rest _ d _ (removed now lives may) story) =
      absurd (ground arith)
