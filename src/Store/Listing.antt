-- ===== src/Store/Listing.antt =====
-- src/gg_relay/store/repository.py, `list_sessions` and `search_sessions`: filters, a page, a cursor.
pub mod Complete
use gg_proxy.Base.{
  ℕ, Bool, true, false, ◌&&◌, ◌||◌, String, Option, none, some, List, [], ◌∷◌, ltb, leb, ◌==◌,
  if◌then◌else◌, str_eq,
}
use gg_proxy.Domain.{
  SessionState, queued, running, paused, completed, failed, cancelled, interrupted,
}
use gg_proxy.Store.{Row, Sessions}
use gg_proxy.Paging.{Key, select_page}
use gg_proxy.Paging.Base64.{Bytes}
use gg_proxy.Paging.Cursor.{
  Codes, Decoded, decoded, refused, filter_hash, encode_cursor, decode_cursor, filter_hash_search,
  encode_search_cursor, decode_search_cursor,
}
use gg_proxy.Paging.Walk.{Reply, answer, cursor_refused, not_implemented}

-- The texts of the states, as the column holds them.
abbrev pub state_name : SessionState → String
state_name queued = "queued"
state_name running = "running"
state_name paused = "paused"
state_name completed = "completed"
state_name failed = "failed"
state_name cancelled = "cancelled"
state_name interrupted = "interrupted"

pub data Dialect : Type 0 where
  sqlite postgresql : Dialect
  another : String → Dialect

abbrev pub session_key : ℕ × Row → Key
session_key (sid, row) = (row.submitted_at, sid)

-- `parameter is None or column == parameter`, as a filter that is left out.
abbrev pub text_is : Option String → Option String → Bool
text_is none column = true
text_is (some s) none = false
text_is (some s) (some column) = str_eq column s

abbrev pub member_text : String → List String → Bool
member_text s [] = false
member_text s (t ∷ ts) = str_eq s t || member_text s ts

-- Whether the JSON array holds the tag, in the two databases alike.
abbrev pub tag_is : Option String → Row → Bool
tag_is none row = true
tag_is (some tag) row = member_text tag row.tags

-- The condition that a decoded cursor adds.
abbrev pub after_anchor : Codes → Option (ℕ × String) → ℕ × Row → Bool
after_anchor codes none entry = true
after_anchor codes (some (ts, anchor)) (sid, row) =
    ltb row.submitted_at ts
    || (row.submitted_at == ts && codes.text_before (codes.id_text sid) anchor)

abbrev pub session_cursor : (ℕ → String → String → Bytes) → Codes → String → ℕ × Row → Bytes
session_cursor encode codes fh (sid, row) = encode row.submitted_at (codes.id_text sid) fh

-- `_tag_filter_clause` raises on a third database.
abbrev pub tag_clause_fails : Dialect → Option String → Bool
tag_clause_fails (another name) (some tag) = true
tag_clause_fails dialect tag = false

abbrev from_anchor :
    (Option (ℕ × String) → Reply Bytes (ℕ × Row)) → Decoded (ℕ × String) → Reply Bytes (ℕ × Row)
from_anchor fetch (refused e) = cursor_refused e
from_anchor fetch (decoded anchor) = fetch (some anchor)

-- The page that starts at a cursor, if there is one: a cursor that is refused raises.
abbrev pub at_cursor :
    (Bytes → Decoded (ℕ × String))
    → (Option (ℕ × String) → Reply Bytes (ℕ × Row))
    → Option Bytes
    → Reply Bytes (ℕ × Row)
at_cursor decode fetch none = fetch none
at_cursor decode fetch (some cursor) = from_anchor fetch (decode cursor)

module _ (codes : Codes) where
  -- The page of one anchor: the statement and the cursor of its last row.
  abbrev pub list_page :
      Option String → Option String → ℕ → Option (ℕ × String) → Sessions → Reply Bytes (ℕ × Row)
  list_page status tag limit anchor db =
      answer (session_cursor (encode_cursor codes) codes (filter_hash codes status tag)) (
        select_page session_key
          (λ (sid, row).
            (text_is status (some (state_name row.status)) && tag_is tag row)
            && after_anchor codes anchor (sid, row))
          limit db)

  unfoldable pub list_sessions :
      Dialect → Option String → Option String → ℕ → Option Bytes → Sessions → Reply Bytes (ℕ × Row)
  list_sessions dialect status tag limit after db =
      if tag_clause_fails dialect tag
      then not_implemented
      else at_cursor (λ cursor. decode_cursor codes cursor (filter_hash codes status tag))
          (λ anchor. list_page status tag limit anchor db) after

-- What a search asks the database: LIKE on the lowered text of the spec, and on the text of the tags.
pub record Matching : Type 0 where
  pub spec_has : String → String → Bool
  pub tags_have : String → List String → Bool

pub record Query : Type 0 where
  pub q : Option String
  pub owner : Option String
  pub tags : List String
  pub status : List String
  pub after_ts : Option ℕ
  pub before_ts : Option ℕ

abbrev any_tag : Matching → List String → List String → Bool
any_tag matching [] column = false
any_tag matching (t ∷ ts) column = matching.tags_have t column || any_tag matching ts column

abbrev in_status : List String → String → Bool
in_status [] name = true
in_status (s ∷ ss) name = member_text name (s ∷ ss)

abbrev has_tags : Matching → List String → List String → Bool
has_tags matching [] column = true
has_tags matching (t ∷ ts) column = any_tag matching (t ∷ ts) column

abbrev spec_matches : Matching → Option String → String → Bool
spec_matches matching none spec = true
spec_matches matching (some q) spec = if str_eq q "" then true else matching.spec_has q spec

abbrev from_time : Option ℕ → ℕ → Bool
from_time none at = true
from_time (some after_ts) at = leb after_ts at

abbrev to_time : Option ℕ → ℕ → Bool
to_time none at = true
to_time (some before_ts) at = leb at before_ts

abbrev pub query_matches : Matching → Query → Row → Bool
query_matches matching query row =
    spec_matches matching query.q row.spec_json
    && (text_is query.owner row.owner
        && (in_status query.status (state_name row.status)
            && (from_time query.after_ts row.submitted_at
                && (to_time query.before_ts row.submitted_at
                    && has_tags matching query.tags row.tags))))

module _ (codes : Codes) (matching : Matching) where
  abbrev pub query_hash : Query → String
  query_hash query =
      filter_hash_search codes query.q query.owner query.tags query.status query.after_ts
        query.before_ts

  abbrev pub search_page : Query → ℕ → Option (ℕ × String) → Sessions → Reply Bytes (ℕ × Row)
  search_page query limit anchor db =
      answer (session_cursor (encode_search_cursor codes) codes (query_hash query)) (
        select_page session_key
          (λ (sid, row). query_matches matching query row && after_anchor codes anchor (sid, row))
          limit db)

  unfoldable pub search_sessions : Query → ℕ → Option Bytes → Sessions → Reply Bytes (ℕ × Row)
  search_sessions query limit after db =
      at_cursor (λ cursor. decode_search_cursor codes cursor (query_hash query))
        (λ anchor. search_page query limit anchor db) after
