-- ===== src/Auth/Endpoints.antt =====
-- src/gg_relay/api/routers/admin_keys.py: keys are made and revoked by admins. A revoke is cut at its
-- first write, since other requests run while it reads.
use gg_proxy.Base.{
  ℕ, ◌+◌, ◌*◌, Bool, ◌&&◌, String, Option, none, some, List, [], ◌∷◌, ◌++◌, leb, ◌==◌,
  if◌then◌else◌, str_eq,
}
use gg_proxy.Auth.{
  caller as by_caller, KeyRow, Keys, NewKey, create_key, get_by_label, revoke, active,
  count_active_admins,
}
use gg_proxy.Auth.Resolver.{Resolver, invalidate_cache}

-- The audit rows of the two endpoints, with their metadata. A log that is down raises.
pub data KeyEvent : Type 0 where
  key_create : String → Option ℕ → KeyEvent
  key_revoke : String → KeyEvent

pub record KeyAudit : Type 0 where
  pub actor : ℕ
  pub event : KeyEvent
  pub target_id : ℕ

pub record KeyLog : Type 0 where
  pub up : Bool
  pub rows : List KeyAudit

-- What the endpoints share: the table, the resolver of the process, and the audit log.
pub record Desk : Type 0 where
  pub keys : Keys
  pub resolver : Resolver
  pub sink : KeyLog

pub data Response : Type 0 where
  created : ℕ → Response
  no_content : Response
  label_conflict : Response
  not_found : Response
  self_revoke_forbidden : Response
  last_admin_revoke_forbidden : Response
  audit_raised : Response

-- `audit.record`, which no caller here guards: `none` is the exception.
abbrev pub audited : ℕ → KeyEvent → ℕ → KeyLog → Option KeyLog
audited actor event target_id log =
    if log.up
    then some (record log {
      rows = log.rows ++ (record { actor = actor; event = event; target_id = target_id } ∷ []);
    })
    else none

pub record ApiKeyCreate : Type 0 where
  pub label : ℕ
  pub role : String
  pub notes : Option String
  pub expires_in_days : Option ℕ

-- Microseconds of a day.
abbrev pub day : ℕ
day = 86400000000

abbrev expiry : Option ℕ → ℕ → Option ℕ
expiry none now = none
expiry (some days) now = some (now + days * day)

-- What follows the audit row of a mutation: the cache is invalidated, unless the log raised.
abbrev pub after_audit :
    Option KeyLog → Keys → (Resolver → Resolver) → Response → Desk → Desk × Response
after_audit none keys invalidate response desk = (record desk { keys = keys }, audit_raised)
after_audit (some sink) keys invalidate response desk =
    (record { keys = keys; resolver = invalidate desk.resolver; sink = sink }, response)

abbrev pub after_create : ℕ → ApiKeyCreate → ℕ → ℕ → Option Keys → Desk → Desk × Response
after_create caller payload key_hash now none desk = (desk, label_conflict)
after_create caller payload key_hash now (some keys) desk =
    after_audit
      (audited caller (key_create payload.role (expiry payload.expires_in_days now)) payload.label
        desk.sink)
      keys (invalidate_cache none (some payload.label) keys) (created key_hash) desk

-- `create_api_key`, with the hash of the new key. The key itself goes into the response only.
unfoldable pub create_api_key : ℕ → ApiKeyCreate → ℕ → ℕ → Desk → Desk × Response
create_api_key caller payload key_hash now desk =
    after_create caller payload key_hash now (create_key payload.label key_hash new now desk.keys)
      desk
  where
    new : NewKey
    new = record {
      role = payload.role;
      created_by_label = some (by_caller caller);
      expires_at = expiry payload.expires_in_days now;
      notes = payload.notes;
    }

-- What the checks of a revoke end with: a refusal, or the row that is to be revoked.
pub data Checked : Type 0 where
  refuse : Response → Checked
  go_on : KeyRow → Checked

abbrev pub check_admins : KeyRow → Keys → Checked
check_admins target keys =
    if str_eq target.role "admin" && leb (count_active_admins keys) 1
    then refuse last_admin_revoke_forbidden
    else go_on target

abbrev check_target : ℕ → ℕ → Option KeyRow → Keys → Checked
check_target caller label none keys = refuse not_found
check_target caller label (some target) keys =
    if active target
    then if label == caller then refuse self_revoke_forbidden else check_admins target keys
    else refuse not_found

-- `revoke_api_key`, its reads.
unfoldable pub revoke_checks : ℕ → ℕ → Keys → Checked
revoke_checks caller label keys = check_target caller label (get_by_label label keys) keys

-- Its writes: the row, the audit row, and the cache.
unfoldable pub revoke_writes : ℕ → ℕ → KeyRow → ℕ → Desk → Desk × Response
revoke_writes caller label target now desk =
    let keys = (revoke label now desk.keys).0 in
    after_audit (audited caller (key_revoke target.role) label desk.sink) keys
      (invalidate_cache (some target.key_hash) (some label) keys) no_content desk

abbrev pub after_checks : ℕ → ℕ → Checked → ℕ → Desk → Desk × Response
after_checks caller label (refuse response) now desk = (desk, response)
after_checks caller label (go_on target) now desk = revoke_writes caller label target now desk

-- `revoke_api_key`, when nothing runs between its reads and its writes.
unfoldable pub revoke_api_key : ℕ → ℕ → ℕ → Desk → Desk × Response
revoke_api_key caller label now desk =
    after_checks caller label (revoke_checks caller label desk.keys) now desk
