-- ===== src/Hitl/Route.antt =====
-- src/gg_relay/api/routers/hitl.py: the answer to one request and to a batch of them.
pub mod Race
pub mod Batch
use Prim.Native.String.{◌++◌}
use gg_proxy.Base.{
  ℕ, suc, ◌+◌, Bool, true, false, String, Option, none, some, List, [], ◌∷◌, if◌then◌else◌, truthy,
  option_or, length,
}
use gg_proxy.Base.Dict.{Dict, lookup}
use gg_proxy.Audit.{AuditSink, AuditRow, Value, absent, text, number, record_audit}
use gg_proxy.Hitl.Table.{
  Decision, accept, deny, HitlStatus, decided, HitlTable, HitlRow, HitlValues, Upsert, stored,
  stale, upsert_hitl, get_hitl, get_hitl_version,
}
use gg_proxy.Hitl.{
  Coordinator, Result, ok, err, Error, already_pending, not_pending, already_resolved, resolve,
  Snapshot, pending_snapshot,
}

-- The `first_decision` fragment of a body.
pub record FirstDecision : Type 0 where
  pub status : HitlStatus
  pub resolver : Option String
  pub reason : Option String
  pub resolved_at : Option ℕ

unfoldable pub decision_from_row : Option HitlRow → Option FirstDecision
decision_from_row none = none
decision_from_row (some r) = some (record {
  status = r.status;
  resolver = r.resolver;
  reason = r.reason;
  resolved_at = r.resolved_at;
})

pub data Response : Type 0 where
  -- 200
  recorded : Decision → ℕ → Response
  -- 409, code hitl_already_resolved
  conflicts : ℕ → Option FirstDecision → Response

pub record ResolveRequest : Type 0 where
  pub decision : Decision
  pub reason : Option String
  pub resolver : Option String

unfoldable pub full_reason : ResolveRequest → Option String
full_reason body = elim body.resolver [
  | none ↦ body.reason
  | some by ↦
      if truthy (some by)
      then (if truthy body.reason
          then some (option_or body.reason "" ++ "|by:" ++ by)
          else some ("by:" ++ by))
      else body.reason
]

unfoldable pub conflict_response : ℕ → HitlTable → Response
unfolding decision_from_row
conflict_response req_id table = conflicts req_id (decision_from_row (get_hitl req_id table))

-- What the handler reads before it answers.
pub record Read : Type 0 where
  pub expected : Option ℕ
  pub row : Option HitlRow

unfoldable pub read : ℕ → HitlTable → Read
read req_id table = record { expected = get_hitl_version req_id table; row = get_hitl req_id table }

abbrev pub resolved_values :
    ℕ → Option HitlRow → Decision → Option String → Option String → ℕ → HitlValues
resolved_values session_id row decision reason resolver now = record {
  session_id = session_id;
  tool = elim row [ none ↦ "" | some r ↦ r.tool ];
  args_json = elim row [ none ↦ "{}" | some r ↦ r.args_json ];
  status = decided decision;
  created_at = elim row [ none ↦ none | some r ↦ some r.created_at ];
  resolved_at = some now;
  reason = reason;
  resolver = resolver;
}

-- The rest of the handler, on the table as it stands by then.
unfoldable pub answer :
    ℕ → ℕ → ResolveRequest → Read → ℕ → Coordinator × HitlTable → Response × Coordinator × HitlTable
unfolding conflict_response full_reason
answer session_id req_id body seen now (c, table) =
    elim (resolve req_id body.decision (full_reason body) table c) [
      | err e ↦ (conflict_response req_id table, c, table)
      | ok c' ↦
          let (up, table') =
            upsert_hitl req_id
              (resolved_values session_id seen.row body.decision body.reason body.resolver now) now
              seen.expected table in
          elim up [
            | stored v ↦ (recorded body.decision req_id, c', table')
            | stale v ↦ (conflict_response req_id table', c', table')
          ]
    ]

unfoldable pub resolve_route :
    ℕ → ℕ → ResolveRequest → ℕ → Coordinator × HitlTable → Response × Coordinator × HitlTable
unfolding answer read
resolve_route session_id req_id body now (c, table) =
    answer session_id req_id body (read req_id table) now (c, table)

-- `payload.action` of a batch.
pub data Action : Type 0 where
  approve reject : Action

abbrev pub to_decision : Action → Decision
to_decision approve = accept
to_decision reject = deny

abbrev pub audit_action : Action → String
audit_action approve = "hitl_batch_approve"
audit_action reject = "hitl_batch_reject"

pub data ItemStatus : Type 0 where
  item_ok hitl_already_resolved hitl_not_pending internal_error : ItemStatus

pub record BatchRequest : Type 0 where
  pub ids : List ℕ
  pub action : Action
  pub reason : Option String
  pub label : Option String

-- What the handler works on: the coordinator, the table of requests and the audit log.
pub record Desk : Type 0 where
  pub coordinator : Coordinator
  pub table : HitlTable
  pub audit : Option AuditSink

abbrev pub label_of : BatchRequest → String
label_of b = if truthy b.label then option_or b.label "" else "anon"

abbrev pub batch_row : BatchRequest → ℕ → ℕ → AuditRow
batch_row b size hid = record {
  actor = label_of b;
  action = audit_action b.action;
  target_type = "hitl";
  target_id = hid;
  metadata =
      ("reason", elim b.reason [ none ↦ absent | some r ↦ text r ])
      ∷ ("batch_size", number size)
      ∷ ("decision", text (elim b.action [ approve ↦ "accept" | reject ↦ "deny" ]))
      ∷ [];
}

abbrev pub error_status : Error → ItemStatus
error_status already_pending = internal_error
error_status not_pending = hitl_not_pending
error_status (already_resolved row) = hitl_already_resolved

-- One turn of the loop.
unfoldable pub batch_item : BatchRequest → ℕ → ℕ → ℕ → Desk → ItemStatus × Desk
unfolding read
batch_item b size now hid s =
    let seen = read hid s.table in
    elim (resolve hid (to_decision b.action) b.reason s.table s.coordinator) [
      | err e ↦ (error_status e, s)
      | ok c ↦
          let (up, table) =
            upsert_hitl hid
              (resolved_values (elim seen.row [ none ↦ 0 | some r ↦ r.session_id ]) seen.row
                (to_decision b.action) b.reason (some (label_of b)) now)
              now seen.expected s.table in
          elim up [
            | stored v ↦ (
              item_ok,
              record {
                coordinator = c;
                table = table;
                audit = record_audit (batch_row b size hid) s.audit;
              },
            )
            | stale v ↦ (hitl_already_resolved, record s { coordinator = c; table = table })
          ]
    ]

unfoldable pub batch_items : BatchRequest → ℕ → ℕ → List ℕ → Desk → List (ℕ × ItemStatus) × Desk
batch_items b size now [] s = ([], s)
batch_items b size now (hid ∷ ids) s =
    let (status, s') = batch_item b size now hid s in
    let (items, s'') = batch_items b size now ids s' in ((hid, status) ∷ items, s'')

abbrev pub is_ok : ItemStatus → Bool
is_ok item_ok = true
is_ok _ = false

unfoldable pub count_ok : List (ℕ × ItemStatus) → ℕ
count_ok [] = 0
count_ok ((hid, status) ∷ items) = let n = count_ok items in if is_ok status then suc n else n

unfoldable pub count_errors : List (ℕ × ItemStatus) → ℕ
count_errors [] = 0
count_errors ((hid, status) ∷ items) =
    let n = count_errors items in if is_ok status then n else suc n

pub record BatchResponse : Type 0 where
  pub items : List (ℕ × ItemStatus)
  pub ok_count : ℕ
  pub error_count : ℕ

unfoldable pub batch_hitl : BatchRequest → ℕ → Desk → BatchResponse × Desk
batch_hitl b now s =
    let (items, s') = batch_items b (length b.ids) now b.ids s in
    (record { items = items; ok_count = count_ok items; error_count = count_errors items }, s')
