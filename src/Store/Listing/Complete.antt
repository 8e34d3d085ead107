-- ===== src/Store/Listing/Complete.antt =====
-- A client that follows the cursors of a listing of sessions sees what one statement without a limit
-- would give it.
use gg_proxy.Base.{
  ℕ, suc, ◌≤◌, ◌≡◌, refl, Bool, false, ◌&&◌, String, Option, none, some, [], ◌∷◌, length, arith, ap,
  ◌∙◌,
}
use text.Mathlib.TextPositions.{eq_refl}
use mathlib.Core.Option
use gg_proxy.Base.Dict.{Distinct, lookup}
use gg_proxy.Store.{Row, Sessions}
use gg_proxy.Paging.{Key, beyond, where_rows, newest_first, select_page}
use gg_proxy.Paging.Order.{Apart, Free, where_rows_ext}
use gg_proxy.Paging.Cursor.{
  Codes, CodesLaws, decoded, filter_hash, encode_cursor, decode_cursor, filter_hash_search,
  encode_search_cursor, decode_search_cursor,
}
use gg_proxy.Paging.Cursor.Anchor.{
  decode_cursor-encode_cursor, decode_search_cursor-encode_search_cursor,
}
use gg_proxy.Paging.Walk.{answer, walk, walk_all, Serves}
use gg_proxy.Store.Listing.{
  Dialect, state_name, session_key, text_is, tag_is, after_anchor, tag_clause_fails, list_sessions,
  Matching, Query, query_matches, query_hash, search_sessions,
}

Free-lookup : (sid : ℕ) (db : Sessions) → lookup sid db ≡ none → Free session_key sid db
Free-lookup sid [] h = tt
Free-lookup sid (entry ∷ db) h = (ground arith, Free-lookup sid db (ground arith))

pub Apart-sessions : (db : Sessions) → Distinct db → Apart session_key db
Apart-sessions [] d = tt
Apart-sessions (entry ∷ db) d = (Free-lookup entry.0 db (ground arith), Apart-sessions db d.1)

-- Two filters that agree give one page.
select_page_ext :
    (p q : ℕ × Row → Bool) (limit : ℕ) (db : Sessions)
    → ((entry : ℕ × Row) → p entry ≡ q entry)
    → select_page session_key p limit db ≡ select_page session_key q limit db
unfolding select_page
select_page_ext p q limit db same = rw (where_rows_ext p q same db) refl

module _ (codes : Codes) (laws : CodesLaws codes) where
  -- The anchor of a place, as a cursor carries it.
  abbrev anchor_of : Key → ℕ × String
  anchor_of k = (k.0, codes.id_text k.1)

  -- The condition that a cursor adds is that of its place.
  after_anchor-anchor_of :
      (after : Option Key) (entry : ℕ × Row)
      → after_anchor codes (Option.map anchor_of after) entry ≡ beyond after (session_key entry)
  after_anchor-anchor_of none entry = refl
  after_anchor-anchor_of (some k) entry = rw (laws.id_order entry.0 k.1) refl

  own_cursor :
      (k : Key) (filter : String)
      → decode_cursor codes
          (encode_cursor codes k.0 (codes.id_text k.1) (codes.sha1_prefix filter))
          (codes.sha1_prefix filter)
        ≡ decoded (anchor_of k)
  own_cursor k filter =
      decode_cursor-encode_cursor codes laws k.0 k.1 filter (codes.sha1_prefix filter)
      ∙ (rw (eq_refl (codes.sha1_prefix filter)) refl)

  own_search_cursor :
      (k : Key) (filter : String)
      → decode_search_cursor codes
          (encode_search_cursor codes k.0 (codes.id_text k.1) (codes.sha1_prefix filter))
          (codes.sha1_prefix filter)
        ≡ decoded (anchor_of k)
  own_search_cursor k filter =
      decode_search_cursor-encode_search_cursor codes laws k.0 k.1 filter (codes.sha1_prefix filter)
      ∙ (rw (eq_refl (codes.sha1_prefix filter)) refl)

  -- The statement with a cursor's condition is that with the condition of its place.
  page-anchor :
      (wanted : ℕ × Row → Bool) (limit : ℕ) (db : Sessions) (after : Option Key)
      → select_page session_key
          (λ entry. wanted entry && after_anchor codes (Option.map anchor_of after) entry)
          limit
          db
        ≡ select_page session_key
            (λ entry. wanted entry && beyond after (session_key entry))
            limit
            db
  page-anchor wanted limit db after =
      select_page_ext
        (λ entry. wanted entry && after_anchor codes (Option.map anchor_of after) entry)
        (λ entry. wanted entry && beyond after (session_key entry)) limit db
        (λ entry. rw (after_anchor-anchor_of after entry) refl)

  module _ (dialect : Dialect) (status tag : Option String) (limit : ℕ) (db : Sessions) where
    abbrev wanted : ℕ × Row → Bool
    wanted entry = text_is status (some (state_name entry.1.status)) && tag_is tag entry.1

    list_sessions-Serves :
        tag_clause_fails dialect tag ≡ false
        → Serves session_key
            (λ k. encode_cursor codes k.0 (codes.id_text k.1) (filter_hash codes status tag))
            wanted
            limit
            db
            (λ after. list_sessions codes dialect status tag limit after db)
    unfolding list_sessions filter_hash
    list_sessions-Serves ok none = rw (ok) (ap (answer _) (page-anchor wanted limit db none))
    list_sessions-Serves ok (some k) =
        rw (ok, own_cursor k _) (ap (answer _) (page-anchor wanted limit db (some k)))

  module _ (matching : Matching) (query : Query) (limit : ℕ) (db : Sessions) where
    abbrev found : ℕ × Row → Bool
    found entry = query_matches matching query entry.1

    search_sessions-Serves :
        Serves session_key
          (λ k.
            encode_search_cursor codes k.0 (codes.id_text k.1) (query_hash codes matching query))
          found
          limit
          db
          (λ after. search_sessions codes matching query limit after db)
    unfolding search_sessions filter_hash_search
    search_sessions-Serves none = ap (answer _) (page-anchor found limit db none)
    search_sessions-Serves (some k) =
        rw (own_search_cursor k _) (ap (answer _) (page-anchor found limit db (some k)))

-- Following the cursors of `list_sessions` from the first page gives every session with the status and
-- the tag asked for, once each, newest first, as one statement without a limit would: for a page size of
-- at least 1, on a database that knows the tag clause, and in no more pages than one more than the
-- sessions that are stored.
pub list_sessions-walk :
    (codes : Codes)
    → CodesLaws codes
    → (dialect : Dialect) (status tag : Option String) (limit : ℕ) (db : Sessions)
    → tag_clause_fails dialect tag ≡ false
    → 1 ≤ limit
    → Distinct db
    → walk (λ after. list_sessions codes dialect status tag limit after db) (suc (length db)) none
      ≡ some (
          newest_first session_key (
            where_rows
              (λ entry. text_is status (some (state_name entry.1.status)) && tag_is tag entry.1)
              db))
list_sessions-walk codes laws dialect status tag limit db ok positive distinct =
    walk_all session_key _ (wanted codes laws dialect status tag limit db) limit db _
      (list_sessions-Serves codes laws dialect status tag limit db ok) (Apart-sessions db distinct)
      positive (suc (length db)) (omega arith)

-- Following the cursors of `search_sessions` from the first page gives every session that the query
-- matches, once each, newest first, as one statement without a limit would: for a page size of at least
-- 1, and in no more pages than one more than the sessions that are stored.
pub search_sessions-walk :
    (codes : Codes)
    → CodesLaws codes
    → (matching : Matching) (query : Query) (limit : ℕ) (db : Sessions) → 1 ≤ limit
    → Distinct db
    → walk (λ after. search_sessions codes matching query limit after db) (suc (length db)) none
      ≡ some
          (newest_first session_key (where_rows (λ entry. query_matches matching query entry.1) db))
search_sessions-walk codes laws matching query limit db positive distinct =
    walk_all session_key _ (found codes laws matching query limit db) limit db _
      (search_sessions-Serves codes laws matching query limit db) (Apart-sessions db distinct)
      positive (suc (length db)) (omega arith)
