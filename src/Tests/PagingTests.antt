-- ===== src/Tests/PagingTests.antt =====
-- Tests of the cursors and of the listings that use them.
use gg_proxy.Base.{ℕ, ◌≡◌, refl, true, false, none, some, [], ◌∷◌, arith, ◌++◌}
use gg_proxy.Domain.{running, completed}
use gg_proxy.Store.{Row, Sessions}
use gg_proxy.Paging.Base64.{strip_padding, urlsafe_b64encode, urlsafe_b64decode, padding}
use gg_proxy.Paging.Base64.Groups.{wire}
use gg_proxy.Paging.Base64.RoundTrip.{urlsafe_b64decode-wire}
use gg_proxy.Paging.Cursor.{refused, filter_mismatch, encode_cursor, decode_cursor}
use gg_proxy.Paging.Cursor.Anchor.{decode_cursor-encode_cursor}
use gg_proxy.Paging.Walk.{walk}
use gg_proxy.Store.Listing.{sqlite, list_sessions, search_sessions, Matching, Query}
use gg_proxy.Store.Listing.Complete.{list_sessions-walk, search_sessions-walk}
use gg_proxy.Store.AuditLog.{LogRow, Entry, AuditQuery, list_audit, record_audit}
use gg_proxy.Store.AuditLog.Complete.{recorded, empty_log, list_audit-walk}
use gg_proxy.Tests.Sample.{row_of}
use gg_proxy.Tests.Codes.{codes, codes_laws}

abbrev first : Row
first = row_of running none 1

abbrev second : Row
second = record (row_of completed none 3) { submitted_at = 7; tags = "nightly" ∷ [] }

abbrev db : Sessions
db = (1, first) ∷ (2, second) ∷ (3, record first { submitted_at = 7 }) ∷ []

-- "Man" and "M" in the wire form.
man : wire (77 ∷ 97 ∷ 110 ∷ []) ≡ (84 ∷ 87 ∷ 70 ∷ 117 ∷ [])
unfolding strip_padding urlsafe_b64encode
man = refl

urlsafe_b64decode-wire_example :
    urlsafe_b64decode (wire (77 ∷ []) ++ padding (wire (77 ∷ []))) ≡ some (77 ∷ [])
urlsafe_b64decode-wire_example = urlsafe_b64decode-wire (77 ∷ []) (omega arith, tt)

-- A cursor of one filter is refused under another.
decode_cursor-encode_cursor_example :
    decode_cursor codes (encode_cursor codes 7 "aa" "a") "b" ≡ refused filter_mismatch
decode_cursor-encode_cursor_example =
    decode_cursor-encode_cursor codes codes_laws 7 2 "running|*" "b"

list_sessions-walk_example :
    walk (λ after. list_sessions codes sqlite none none 1 after db) 4 none
    ≡ some ((3, record first { submitted_at = 7 }) ∷ (2, second) ∷ (1, first) ∷ [])
list_sessions-walk_example =
    list_sessions-walk codes codes_laws sqlite none none 1 db refl (omega arith)
      (refl, (refl, (refl, tt)))

abbrev matching : Matching
matching = record { spec_has = λ q spec. false; tags_have = λ tag column. true }

abbrev query : Query
query = record {
  q = none;
  owner = some "ada";
  tags = [];
  status = "running" ∷ [];
  after_ts = some 6;
  before_ts = none;
}

search_sessions-walk_example :
    walk (λ after. search_sessions codes matching query 1 after db) 4 none
    ≡ some ((3, record first { submitted_at = 7 }) ∷ [])
search_sessions-walk_example =
    search_sessions-walk codes codes_laws matching query 1 db (omega arith)
      (refl, (refl, (refl, tt)))

abbrev entry : Entry
entry = record {
  actor = "ada";
  action = "session_cancel";
  target_type = some "session";
  target_id = some "s1";
  metadata = [];
  request_id = none;
}

abbrev audit_query : AuditQuery
audit_query = record {
  session_id = some "s1";
  actor = none;
  action = none;
  target_type = none;
  target_id = none;
}

abbrev logged : ℕ → ℕ → LogRow
logged id ts = record {
  id = id;
  ts = ts;
  actor = "ada";
  action = "session_cancel";
  target_type = some "session";
  target_id = some "s1";
  metadata_json = none;
  request_id = none;
}

list_audit-walk_example :
    walk
      (λ after.
        list_audit codes audit_query 1 after (recorded ((entry, 5) ∷ (entry, 5) ∷ []) empty_log))
      3
      none
    ≡ some (logged 2 5 ∷ logged 1 5 ∷ [])
unfolding walk record_audit
list_audit-walk_example =
    list_audit-walk codes codes_laws audit_query 1 ((entry, 5) ∷ (entry, 5) ∷ []) (omega arith)
