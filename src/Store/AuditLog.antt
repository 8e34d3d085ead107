-- ===== src/Store/AuditLog.antt =====
-- src/gg_relay/store/repository.py, the `audit_log` table: `record_audit` and `list_audit`.
pub mod Complete
use gg_proxy.Base.{
  ℕ, suc, ◌+◌, Bool, true, false, ◌&&◌, ◌||◌, String, Option, none, some, List, [], ◌∷◌, ◌++◌, ltb,
  ◌==◌, if◌then◌else◌, str_eq, max,
}
use gg_proxy.Audit.{Value}
use gg_proxy.Paging.{Key, select_page}
use gg_proxy.Paging.Base64.{Bytes}
use gg_proxy.Paging.Cursor.{
  Codes, Decoded, decoded, refused, audit_filter_hash, encode_audit_cursor, decode_audit_cursor,
}
use gg_proxy.Paging.Walk.{Reply, answer, cursor_refused}

pub record LogRow : Type 0 where
  pub id : ℕ
  pub ts : ℕ
  pub actor : String
  pub action : String
  pub target_type : Option String
  pub target_id : Option String
  pub metadata_json : Option (List (String × Value))
  pub request_id : Option String

-- The rows, and the id that the table gives next.
pub record AuditLog : Type 0 where
  pub rows : List LogRow
  pub next_id : ℕ

pub record Entry : Type 0 where
  pub actor : String
  pub action : String
  pub target_type : Option String
  pub target_id : Option String
  pub metadata : List (String × Value)
  pub request_id : Option String

abbrev stored_metadata : List (String × Value) → Option (List (String × Value))
stored_metadata [] = none
stored_metadata (m ∷ ms) = some (m ∷ ms)

-- The id that is returned is that of the new row. `ts` is the caller's or the clock's.
unfoldable pub record_audit : Entry → Option ℕ → ℕ → AuditLog → AuditLog × ℕ
record_audit entry given now log =
    (record log { rows = log.rows ++ (row ∷ []); next_id = suc log.next_id }, log.next_id)
  where
    row : LogRow
    row = record {
      id = log.next_id;
      ts = elim given [ none ↦ now | some ts ↦ ts ];
      actor = entry.actor;
      action = entry.action;
      target_type = entry.target_type;
      target_id = entry.target_id;
      metadata_json = stored_metadata entry.metadata;
      request_id = entry.request_id;
    }

abbrev pub log_key : LogRow → Key
log_key row = (row.ts, row.id)

pub record AuditQuery : Type 0 where
  pub session_id : Option String
  pub actor : Option String
  pub action : Option String
  pub target_type : Option String
  pub target_id : Option String

abbrev otherwise : Option String → Option String → Option String
otherwise none other = other
otherwise (some s) other = some s

-- `session_id` stands for a target where the caller gives none of its own.
abbrev pub resolve : AuditQuery → AuditQuery
resolve query = elim query.session_id [
  | none ↦ query
  | some sid ↦ record query {
    target_type = otherwise query.target_type (some "session");
    target_id = otherwise query.target_id (some sid);
  }
]

abbrev column_is : Option String → Option String → Bool
column_is none column = true
column_is (some s) none = false
column_is (some s) (some column) = str_eq column s

abbrev pub asked : AuditQuery → LogRow → Bool
asked query row =
    column_is query.actor (some row.actor)
    && (column_is query.action (some row.action)
        && (column_is query.target_type row.target_type && column_is query.target_id row.target_id))

abbrev pub after_row : Option Key → LogRow → Bool
after_row none row = true
after_row (some (ts, id)) row = ltb row.ts ts || (row.ts == ts && ltb row.id id)

module _ (codes : Codes) where
  abbrev pub audit_hash : AuditQuery → String
  audit_hash query =
      audit_filter_hash codes query.actor query.action query.target_type query.target_id

  abbrev pub audit_page : AuditQuery → ℕ → Option Key → AuditLog → Reply Bytes LogRow
  audit_page query limit anchor log =
      answer (λ row. encode_audit_cursor codes row.ts row.id (audit_hash query))
        (select_page log_key (λ row. asked query row && after_row anchor row) limit log.rows)

  abbrev from_anchor : AuditQuery → ℕ → Decoded Key → AuditLog → Reply Bytes LogRow
  from_anchor query limit (refused e) log = cursor_refused e
  from_anchor query limit (decoded anchor) log = audit_page query limit (some anchor) log

  abbrev at_cursor : AuditQuery → ℕ → Option Bytes → AuditLog → Reply Bytes LogRow
  at_cursor query limit none log = audit_page query limit none log
  at_cursor query limit (some cursor) log =
      from_anchor query limit (decode_audit_cursor codes cursor (audit_hash query)) log

  unfoldable pub list_audit : AuditQuery → ℕ → Option Bytes → AuditLog → Reply Bytes LogRow
  list_audit query limit after log = at_cursor (resolve query) limit after log
