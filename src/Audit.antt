-- ===== src/Audit.antt =====
-- src/gg_relay/api/audit_service.py as its callers use it: rows that are appended to a log. A log that
-- is down raises, and every caller here swallows that.
use gg_proxy.Base.{ℕ, Bool, true, false, String, Option, none, some, List, [], ◌∷◌, ◌++◌}

-- The JSON values that occur in an entry's metadata; an id of a session is a number.
pub data Value : Type 0 where
  absent : Value
  text : String → Value
  number : ℕ → Value
  flag : Bool → Value
  texts : List String → Value

pub record AuditRow : Type 0 where
  pub actor : String
  pub action : String
  pub target_type : String
  pub target_id : ℕ
  pub metadata : List (String × Value)

pub record AuditSink : Type 0 where
  pub up : Bool
  pub rows : List AuditRow

-- With no sink, and with one that raises, nothing is recorded.
unfoldable pub record_audit : AuditRow → Option AuditSink → Option AuditSink
record_audit row none = none
record_audit row (some sink) = elim sink.up [
  | true ↦ some (record sink { rows = sink.rows ++ row ∷ [] })
  | false ↦ some sink
]
