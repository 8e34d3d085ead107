-- ===== src/Hitl/Table.antt =====
-- src/gg_relay/store/repository.py, the `hitl_requests` table.
use gg_proxy.Base.{
  ℕ, ◌+◌, Bool, true, false, ◌&&◌, String, Option, none, some, List, [], ◌∷◌, leb, ◌==◌,
  if◌then◌else◌, option_or,
}
use gg_proxy.Base.Dict.{Dict, lookup, insert}

pub data Decision : Type 0 where
  accept deny : Decision

-- The texts of the column `status`.
pub data HitlStatus : Type 0 where
  pending : HitlStatus
  decided : Decision → HitlStatus

abbrev pub status_eq : HitlStatus → HitlStatus → Bool
status_eq pending pending = true
status_eq (decided accept) (decided accept) = true
status_eq (decided deny) (decided deny) = true
status_eq _ _ = false

pub record HitlRow : Type 0 where
  pub session_id : ℕ
  pub tool : String
  pub args_json : String
  pub status : HitlStatus
  pub created_at : ℕ
  pub resolved_at : Option ℕ
  pub reason : Option String
  pub resolver : Option String
  pub version : ℕ

abbrev pub HitlTable : Type 0
HitlTable = Dict HitlRow

-- The arguments of `upsert_hitl` beside the id and the version.
pub record HitlValues : Type 0 where
  pub session_id : ℕ
  pub tool : String
  pub args_json : String
  pub status : HitlStatus
  pub created_at : Option ℕ
  pub resolved_at : Option ℕ
  pub reason : Option String
  pub resolver : Option String

-- The UPDATE keeps the id, the session and the time of creation.
unfoldable pub updated : HitlValues → ℕ → HitlRow → HitlRow
updated v new_version r = record r {
  tool = v.tool;
  args_json = v.args_json;
  status = v.status;
  resolved_at = v.resolved_at;
  reason = v.reason;
  resolver = v.resolver;
  version = new_version;
}

inserted : HitlValues → ℕ → HitlRow
inserted v now = record {
  session_id = v.session_id;
  tool = v.tool;
  args_json = v.args_json;
  status = v.status;
  created_at = option_or v.created_at now;
  resolved_at = v.resolved_at;
  reason = v.reason;
  resolver = v.resolver;
  version = 0;
}

-- The new version is returned by a version-checked update only; `stale` is `ConcurrencyError`.
pub data Upsert : Type 0 where
  stored : Option ℕ → Upsert
  stale : Option ℕ → Upsert

unfoldable pub upsert_hitl : ℕ → HitlValues → ℕ → Option ℕ → HitlTable → Upsert × HitlTable
unfolding inserted
upsert_hitl id v now (some expected) table = elim (lookup id table) [
  | none ↦ (stale none, table)
  | some r ↦
      if r.version == expected
      then (stored (some (expected + 1)), insert id (updated v (expected + 1) r) table)
      else (stale (some r.version), table)
]
upsert_hitl id v now none table = elim (lookup id table) [
  | none ↦ (stored none, insert id (inserted v now) table)
  | some r ↦ (stored none, insert id (updated v (r.version + 1) r) table)
]

unfoldable pub get_hitl : ℕ → HitlTable → Option HitlRow
get_hitl id table = lookup id table

unfoldable pub get_hitl_version : ℕ → HitlTable → Option ℕ
get_hitl_version id table = elim (lookup id table) [ none ↦ none | some r ↦ some r.version ]

abbrev pub insert_older : ℕ × HitlRow → List (ℕ × HitlRow) → List (ℕ × HitlRow)
insert_older e [] = e ∷ []
insert_older e (f ∷ l) =
    if leb e.1.created_at f.1.created_at then e ∷ f ∷ l else f ∷ insert_older e l

abbrev pub of_session : Option ℕ → HitlRow → Bool
of_session none r = true
of_session (some sid) r = r.session_id == sid

-- Pending rows, oldest first.
unfoldable pub list_pending_hitl : Option ℕ → HitlTable → List (ℕ × HitlRow)
list_pending_hitl scope [] = []
list_pending_hitl scope ((id, r) ∷ table) =
    let rest = list_pending_hitl scope table in
    if status_eq r.status pending && of_session scope r then insert_older (id, r) rest else rest
