-- ===== src/Favorites/Trail.antt =====
-- The audit trail of the stars tells who has starred what.
use gg_proxy.Base.{
  ℕ, String, leb, ◌≡◌, refl, Bool, true, false, ◌&&◌, ◌||◌, List, [], ◌∷◌, ◌++◌, ◌==◌,
  if◌then◌else◌, arith, Bool-cases, inl, inr, if_both, ◌∙◌,
}
use gg_proxy.Base.Dict.{contains}
use gg_proxy.Roles.{rank_of}
use gg_proxy.Store.{Sessions}
use gg_proxy.Favorites.{
  Favorite, stars, starred, add_favorite, unstarred, remove_favorite, is_favorited, Mark,
  session_star, session_unstar, Board, StarResponse, star_session, unstar_session,
}

-- A request of a user of a role: its time, and the table of sessions that it meets.
pub data StarRequest : Type 0 where
  star : String → ℕ → ℕ → ℕ → Sessions → StarRequest
  unstar : String → ℕ → ℕ → StarRequest

abbrev pub serve : StarRequest → Board → Board
unfolding star_session unstar_session
serve (star role user sid now db) board = (star_session role user sid now db board).0
serve (unstar role user sid) board = (unstar_session role user sid board).0

abbrev pub serve_all : List StarRequest → Board → Board
serve_all [] board = board
serve_all (request ∷ requests) board = serve_all requests (serve request board)

-- What the trail, newest first, says of a user and a session: its last word on them.
abbrev pub last_word : ℕ → ℕ → List Mark → Bool
last_word user sid [] = false
last_word user sid (session_star u s ∷ marks) =
    if u == user && s == sid then true else last_word user sid marks
last_word user sid (session_unstar u s ∷ marks) =
    if u == user && s == sid then false else last_word user sid marks

starred-append :
    (sid user : ℕ) (rows : List Favorite) (row : Favorite)
    → starred sid user (rows ++ (row ∷ [])) ≡ (starred sid user rows || stars sid user row)
starred-append sid user [] row = ground arith
starred-append sid user (first ∷ rows) row = ground (arith, starred-append sid user rows row)

starred-unstarred :
    (sid user s u : ℕ) (rows : List Favorite)
    → starred sid user (unstarred s u rows)
      ≡ (if u == user && s == sid then false else starred sid user rows)
starred-unstarred sid user s u [] = ground arith
starred-unstarred sid user s u (row ∷ rows) = ground (arith, starred-unstarred sid user s u rows)

abbrev pub blank : Board
blank = record { table = record { rows = []; next_id = 1 }; log_up = true; marks = [] }

none_starred : (sid user : ℕ) → is_favorited sid user blank.table ≡ false
unfolding is_favorited
none_starred sid user = refl

abbrev pub Tells : Board → Type 0
Tells board =
    (board.log_up ≡ true)
    × ((user sid : ℕ) → is_favorited sid user board.table ≡ last_word user sid board.marks)

star-Tells :
    (role : String) (user sid now : ℕ) (db : Sessions) (board : Board)
    → Tells board
    → Tells (serve (star role user sid now db) board)
unfolding serve star_session add_favorite is_favorited
star-Tells role user sid now db board (up, tells) =
    if_both (λ (r : Board × StarResponse). Tells r.0) (leb 1 (rank_of role))
      (if_both (λ (r : Board × StarResponse). Tells r.0) (contains sid db)
        (elim (Bool-cases (starred sid user board.table.rows)) [
          | inl old ↦ rw old (up, tells)
          | inr new ↦ rw (new, up) (refl, λ u s. added u s)
        ])
        (up, tells))
      (up, tells)
  where
    added :
        (u s : ℕ)
        → starred s u (
            board.table.rows
            ++ (record {
              id = board.table.next_id;
              session_id = sid;
              user_label = user;
              created_at = now;
            }
                ∷ []))
          ≡ last_word u s (session_star user sid ∷ board.marks)
    added u s = starred-append s u board.table.rows _ ∙ ground (arith, tells u s)

unstar-Tells :
    (role : String) (user sid : ℕ) (board : Board)
    → Tells board
    → Tells (serve (unstar role user sid) board)
unfolding serve unstar_session remove_favorite is_favorited
unstar-Tells role user sid board (up, tells) =
    if_both (λ (r : Board × StarResponse). Tells r.0) (leb 1 (rank_of role))
      (elim (Bool-cases (starred sid user board.table.rows)) [
        | inl old ↦
            rw (old, up)
              (
                refl,
                λ u s. starred-unstarred s u sid user board.table.rows ∙ ground (arith, tells u s),
              )
        | inr new ↦
            rw new (up, λ u s. starred-unstarred s u sid user board.table.rows ∙ same new u s)
      ])
      (up, tells)
  where
    same :
        starred sid user board.table.rows ≡ false
        → (u s : ℕ)
        → (if user == u && sid == s then false else starred s u board.table.rows)
          ≡ last_word u s board.marks
    same new u s = ground (arith, new, tells u s)

-- Requests that are served one after the other, each to its end, from an empty table and an empty trail,
-- and while the audit log is up: whatever stars are given and taken away through the endpoints, a user
-- has starred a session exactly if the last row of the audit trail about the two is a star.
pub is_favorited-last_word :
    (requests : List StarRequest) (user sid : ℕ)
    → is_favorited sid user (serve_all requests blank).table
      ≡ last_word user sid (serve_all requests blank).marks
is_favorited-last_word requests user sid = (go requests blank (refl, λ u s. nothing u s)).1 user sid
  where
    nothing : (u s : ℕ) → is_favorited s u blank.table ≡ false
    nothing u s = none_starred s u

    go :
        (requests : List StarRequest) (board : Board)
        → Tells board
        → Tells (serve_all requests board)
    go [] board t = t
    go (star r u s now db ∷ requests) board t = go requests _ (star-Tells r u s now db board t)
    go (unstar r u s ∷ requests) board t = go requests _ (unstar-Tells r u s board t)
