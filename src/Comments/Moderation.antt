-- ===== src/Comments/Moderation.antt =====
-- What one request can make of a comment, by whom.
pub mod Story
use gg_proxy.Base.{
  ℕ, suc, ◌+◌, ◌≤◌, ◌≡◌, ◌≢◌, refl, Bool, true, false, ◌&&◌, ◌||◌, not, String, Option, none, some,
  List, [], ◌∷◌, leb, ◌==◌, is_some, if◌then◌else◌, str_eq, arith, Bool-cases, Option-cases, inl,
  inr, sym, ◌∙◌, subst, ap, if_both, ◌⊎◌, ==_iff,
}
use mathlib.Core.Option.{some-injective, none-ne-some}
use gg_proxy.Base.Dict.{Dict, lookup, contains, insert, lookup-insert}
use gg_proxy.Roles.{rank_of}
use gg_proxy.Store.{Sessions}
use gg_proxy.Comments.{
  Comment, CommentTable, create_row, get_row, live, change_live, edited, update_row, tombstoned,
  soft_delete_row, Caller, label_of, NotedRow, Forum, Response, audited, fits, create_comment,
  finish_update, update_found, update_comment, finish_delete, may_delete, delete_found,
  delete_comment,
}

-- The ids from the next one on are free.
abbrev pub IsTable : CommentTable → Type 0
IsTable table = (id : ℕ) → table.next_id ≤ id → lookup id table.rows ≡ none

-- What one request of a caller may make of a comment.
pub data Allowed (render_safe : String → String) (who : Caller) (c : Comment)
    : Comment → Type 0 where
  kept : Allowed render_safe who c c
  by_author :
      (body : String) (now : ℕ)
      → live c ≡ true
      → str_eq c.author (label_of who) ≡ true
      → Allowed render_safe who c (edited body (render_safe body) now c)
  removed :
      (now : ℕ)
      → live c ≡ true
      → may_delete who c ≡ true
      → Allowed render_safe who c (tombstoned now c)

-- The requests.
pub data Request : Type 0 where
  posts : ℕ → String → ℕ → Sessions → Request
  edits : ℕ → String → ℕ → Request
  deletes : ℕ → ℕ → Request

le_of_eq : (a b : ℕ) → (a == b) ≡ true → b ≤ a
le_of_eq a b h = ground arith

module _ (render_safe : String → String) where
  unfoldable pub serve : Caller → Request → Forum → Forum
  serve who (posts sid body now db) forum = (create_comment render_safe who sid body now db forum).0
  serve who (edits id body now) forum = (update_comment render_safe who id body now forum).0
  serve who (deletes id now) forum = (delete_comment who id now forum).0

  -- The comment of an id is there, and became what the caller may make of it.
  abbrev pub Became : Caller → ℕ → Comment → CommentTable → Type 0
  Became who id c table =
      (c' : Comment) × (lookup id table.rows ≡ some c') × Allowed render_safe who c c'

  pub audited-table :
      (row : NotedRow) (response : Response) (forum : Forum)
      → (audited row response forum).0.table ≡ forum.table
  audited-table row response forum =
      if_both (λ (r : Forum × Response). r.0.table ≡ forum.table) forum.log_up refl refl

  pub finish_update-table :
      (who : Caller) (id sid : ℕ) (body : String) (r : CommentTable × Bool) (forum : Forum)
      → (finish_update render_safe who id sid body r forum).0.table ≡ r.0
  finish_update-table who id sid body (table, false) forum = refl
  finish_update-table who id sid body (table, true) forum = audited-table _ _ _

  pub finish_delete-table :
      (who : Caller) (id sid : ℕ) (r : CommentTable × Bool) (forum : Forum)
      → (finish_delete who id sid r forum).0.table ≡ r.0
  finish_delete-table who id sid (table, false) forum = refl
  finish_delete-table who id sid (table, true) forum = audited-table _ _ _

  -- The table after a post: as it was, or with the new row.
  pub create_comment-table :
      (P : CommentTable → Type 0) (who : Caller) (sid : ℕ) (body : String) (now : ℕ) (db : Sessions)
      (forum : Forum)
      → P forum.table
      → P (create_row sid (label_of who) body (render_safe body) now forum.table).0
      → P (create_comment render_safe who sid body now db forum).0.table
  unfolding create_comment
  create_comment-table P who sid body now db forum before made =
      if_both (λ (r : Forum × Response). P r.0.table) (not (leb 1 (rank_of who.role))) before
        (if_both (λ (r : Forum × Response). P r.0.table) (not (fits body)) before
          (if_both (λ (r : Forum × Response). P r.0.table) (contains sid db)
            (subst P (sym (audited-table _ _ _)) made) before))

  module _ (who : Caller) (id : ℕ) (c : Comment) where
    -- A statement on a live row, which is allowed if the row is the one looked at.
    change_live-Became :
        (target : ℕ) (change : Comment → Comment) (o : Option Comment) (table : CommentTable)
        → lookup target table.rows ≡ o
        → lookup id table.rows ≡ some c
        → (id ≡ target → live c ≡ true → Allowed render_safe who c (change c))
        → Became who id c (change_live target change o table).0
    change_live-Became target change none table e found allowed = (c, found, kept)
    change_live-Became target change (some d) table e found allowed = elim (Bool-cases (live d)) [
      | inr dead ↦ rw dead (c, found, kept)
      | inl alive ↦ rw alive (of_live (Bool-cases (id == target)) alive)
    ]
      where
        of_live :
            ((id == target) ≡ true) ⊎ ((id == target) ≡ false)
            → live d ≡ true
            → Became who id c (record table { rows = insert target (change d) table.rows })
        of_live (inr other) alive =
            (c, rw (lookup-insert id target (change d) table.rows, other) found, kept)
        of_live (inl here) alive =
            let same = (==_iff id target).0 here in
            let own =
              some-injective d c (sym e ∙ (ap (λ k. lookup k table.rows) (sym same) ∙ found)) in
            (
              change c,
              rw (lookup-insert id target (change d) table.rows, here)
                  (ap (λ x. some (change x)) own),
              allowed same (subst (λ x. live x ≡ true) own alive),
            )

    own_row :
        (target : ℕ) (d : Comment) (table : CommentTable)
        → lookup target table.rows ≡ some d
        → lookup id table.rows ≡ some c
        → id ≡ target
        → d ≡ c
    own_row target d table e found same =
        some-injective d c (sym e ∙ (ap (λ k. lookup k table.rows) (sym same) ∙ found))

    update_found-Became :
        (target : ℕ) (body : String) (now : ℕ) (o : Option Comment) (forum : Forum)
        → lookup target forum.table.rows ≡ o
        → lookup id forum.table.rows ≡ some c
        → Became who id c (update_found render_safe who target body now o forum).0.table
    unfolding update_row
    update_found-Became target body now none forum e found = (c, found, kept)
    update_found-Became target body now (some d) forum e found = elim (Bool-cases (live d)) [
      | inr dead ↦ rw dead (c, found, kept)
      | inl alive ↦ elim (Bool-cases (str_eq d.author (label_of who))) [
        | inr stranger ↦ rw (alive, stranger) (c, found, kept)
        | inl author ↦
            rw (alive, author, finish_update-table who target d.session_id body)
              (change_live-Became target _ _ forum.table refl found (λ same lives.
                by_author body now lives (
                  subst (λ x. str_eq x.author (label_of who) ≡ true)
                    (own_row target d forum.table e found same) author)))
      ]
    ]

    delete_found-Became :
        (target now : ℕ) (o : Option Comment) (forum : Forum)
        → lookup target forum.table.rows ≡ o
        → lookup id forum.table.rows ≡ some c
        → Became who id c (delete_found who target now o forum).0.table
    unfolding soft_delete_row
    delete_found-Became target now none forum e found = (c, found, kept)
    delete_found-Became target now (some d) forum e found = elim (Bool-cases (live d)) [
      | inr dead ↦ rw dead (c, found, kept)
      | inl alive ↦ elim (Bool-cases (may_delete who d)) [
        | inr stranger ↦ rw (alive, stranger) (c, found, kept)
        | inl may ↦
            rw (alive, may, finish_delete-table who target d.session_id)
              (change_live-Became target _ _ forum.table refl found (λ same lives.
                removed now lives (
                  subst (λ x. may_delete who x ≡ true) (own_row target d forum.table e found same)
                    may)))
      ]
    ]

    -- A new comment goes under an id that was free.
    create_row-Became :
        (sid : ℕ) (author markdown html : String) (now : ℕ) (table : CommentTable)
        → IsTable table
        → lookup id table.rows ≡ some c
        → Became who id c (create_row sid author markdown html now table).0
    unfolding create_row
    create_row-Became sid author markdown html now table free found =
        elim (Bool-cases (id == table.next_id)) [
          | inr other ↦ (c, rw (lookup-insert id table.next_id _ table.rows, other) found, kept)
          | inl here ↦
              absurd (none-ne-some c (sym (free id (le_of_eq id table.next_id here)) ∙ found))
        ]

    -- One request of a caller makes of a comment what the caller may make of it.
    pub serve-Became :
        (request : Request) (forum : Forum)
        → IsTable forum.table
        → lookup id forum.table.rows ≡ some c
        → Became who id c (serve who request forum).table
    unfolding serve update_comment delete_comment get_row
    serve-Became (posts sid body now db) forum free found =
        create_comment-table (Became who id c) who sid body now db forum (c, found, kept)
          (create_row-Became sid (label_of who) body (render_safe body) now forum.table free found)
    serve-Became (edits target body now) forum free found =
        if_both (λ (r : Forum × Response). Became who id c r.0.table) (fits body)
          (update_found-Became target body now (lookup target forum.table.rows) forum refl found)
          (c, found, kept)
    serve-Became (deletes target now) forum free found =
        delete_found-Became target now (lookup target forum.table.rows) forum refl found
