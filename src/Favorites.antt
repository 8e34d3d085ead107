-- ===== src/Favorites.antt =====
-- The stars that users give to sessions: src/gg_relay/store/repository.py, the `session_favorites` table,
-- and the endpoints of src/gg_relay/api/routers/sessions.py on it. Labels of users are numbers, as they
-- are only compared; an audit log that is down is suppressed.
pub mod Trail
use gg_proxy.Base.{
  ℕ, suc, ◌+◌, String, Bool, true, false, ◌&&◌, ◌||◌, Option, none, some, List, [], ◌∷◌, ◌++◌, leb,
  ◌==◌, is_some, if◌then◌else◌, take,
}
use gg_proxy.Base.Dict.{lookup, contains}
use gg_proxy.Roles.{rank_of}
use gg_proxy.Store.{Row, Sessions}

pub record Favorite : Type 0 where
  pub id : ℕ
  pub session_id : ℕ
  pub user_label : ℕ
  pub created_at : ℕ

pub record FavoriteTable : Type 0 where
  pub rows : List Favorite
  pub next_id : ℕ

abbrev pub stars : ℕ → ℕ → Favorite → Bool
stars sid user row = row.session_id == sid && row.user_label == user

abbrev pub starred : ℕ → ℕ → List Favorite → Bool
starred sid user [] = false
starred sid user (row ∷ rows) = stars sid user row || starred sid user rows

-- `add_favorite`: the unique constraint on the pair turns a second star into false.
unfoldable pub add_favorite : ℕ → ℕ → ℕ → FavoriteTable → FavoriteTable × Bool
add_favorite sid user now table =
    if starred sid user table.rows
    then (table, false)
    else (record { rows = table.rows ++ (row ∷ []); next_id = suc table.next_id }, true)
  where
    row : Favorite
    row = record { id = table.next_id; session_id = sid; user_label = user; created_at = now }

abbrev pub unstarred : ℕ → ℕ → List Favorite → List Favorite
unstarred sid user [] = []
unstarred sid user (row ∷ rows) =
    let rest = unstarred sid user rows in if stars sid user row then rest else row ∷ rest

-- `remove_favorite`
unfoldable pub remove_favorite : ℕ → ℕ → FavoriteTable → FavoriteTable × Bool
remove_favorite sid user table =
    (record table { rows = unstarred sid user table.rows }, starred sid user table.rows)

unfoldable pub is_favorited : ℕ → ℕ → FavoriteTable → Bool
is_favorited sid user table = starred sid user table.rows

-- `ORDER BY created_at DESC` of one user's rows
abbrev place : Favorite → List Favorite → List Favorite
place row [] = row ∷ []
place row (first ∷ rest) =
    if leb first.created_at row.created_at then row ∷ first ∷ rest else first ∷ place row rest

abbrev of_user : ℕ → List Favorite → List Favorite
of_user user [] = []
of_user user (row ∷ rows) =
    let rest = of_user user rows in if row.user_label == user then place row rest else rest

pub record Starred : Type 0 where
  pub favorite_id : ℕ
  pub session_id : ℕ
  pub starred_at : ℕ
  pub session : Row

-- A session that is gone is dropped.
abbrev with_sessions : Sessions → List Favorite → List Starred
with_sessions db [] = []
with_sessions db (row ∷ rows) =
    let rest = with_sessions db rows in
    elim (lookup row.session_id db) [
      | none ↦ rest
      | some session ↦
          record {
            favorite_id = row.id;
            session_id = row.session_id;
            starred_at = row.created_at;
            session = session;
          }
          ∷ rest
    ]

unfoldable pub list_favorites : ℕ → ℕ → Sessions → FavoriteTable → List Starred
list_favorites user limit db table = with_sessions db (take limit (of_user user table.rows))

-- The audit rows of the two endpoints.
pub data Mark : Type 0 where
  session_star session_unstar : ℕ → ℕ → Mark

pub record Board : Type 0 where
  pub table : FavoriteTable
  pub log_up : Bool
  pub marks : List Mark

-- The audit row of a change, written in a transaction of its own, after the one that changed the table.
abbrev pub note : Mark → Bool → Board → Board
note mark changed board = record board {
  marks = if changed && board.log_up then mark ∷ board.marks else board.marks;
}

abbrev pub noted : Mark → FavoriteTable × Bool → Board → Board
noted mark (table, changed) board = note mark changed (record board { table = table })

pub data StarResponse : Type 0 where
  no_content session_not_found insufficient_role : StarResponse

-- `star_session`, for a caller of the role and the label
unfoldable pub star_session : String → ℕ → ℕ → ℕ → Sessions → Board → Board × StarResponse
star_session role user sid now db board =
    if leb 1 (rank_of role)
    then (if contains sid db
        then (
          noted (session_star user sid) (add_favorite sid user now board.table) board,
          no_content,
        )
        else (board, session_not_found))
    else (board, insufficient_role)

-- `unstar_session`
unfoldable pub unstar_session : String → ℕ → ℕ → Board → Board × StarResponse
unstar_session role user sid board =
    if leb 1 (rank_of role)
    then (noted (session_unstar user sid) (remove_favorite sid user board.table) board, no_content)
    else (board, insufficient_role)
