-- ===== src/Store.antt =====
-- src/gg_relay/store/repository.py, the `sessions` table: one row to a session id. A statement of
-- the database runs as a whole; times are numbers of microseconds, ids are numbers that are only
-- compared (the source draws them as 128-bit uuids).
pub mod Locking
pub mod Crash
pub mod Listing
pub mod AuditLog
use gg_proxy.Base.{
  ℕ, suc, ◌+◌, Bool, true, false, ◌&&◌, String, Option, none, some, List, [], ◌∷◌, ltb, leb, ◌==◌,
  if◌then◌else◌, is_some, option_or,
}
use gg_proxy.Base.Dict.{Dict, lookup, contains, insert, erase}
use gg_proxy.Domain.{SessionState, queued, running, paused, interrupted, state_eq}

-- Cost is counted in a fixed small unit of money.
pub record Aggregates : Type 0 where
  pub input_tokens : ℕ
  pub output_tokens : ℕ
  pub cost_usd : ℕ
  pub turn_count : ℕ

abbrev pub no_aggregates : Aggregates
no_aggregates = record { input_tokens = 0; output_tokens = 0; cost_usd = 0; turn_count = 0 }

pub record Row : Type 0 where
  pub status : SessionState
  pub spec_json : String
  pub tags : List String
  pub submitted_at : ℕ
  pub trace_id : Option String
  pub backend : String
  pub owner : Option String
  pub description : Option String
  pub parent_session_id : Option ℕ
  pub version : ℕ
  pub started_at : Option ℕ
  pub ended_at : Option ℕ
  pub end_reason : Option String
  pub runtime_id : Option String
  pub paused_at : Option ℕ
  pub aggregates : Aggregates

abbrev pub Sessions : Type 0
Sessions = Dict Row

-- What `create_session` is given beside the id.
pub record NewSession : Type 0 where
  pub spec_json : String
  pub trace_id : Option String
  pub backend : String
  pub tags : List String
  pub owner : Option String
  pub description : Option String
  pub parent_session_id : Option ℕ

-- A new row is queued, at version 0 by the schema. An id that exists is an integrity error, `none`.
unfoldable pub create_session : ℕ → NewSession → ℕ → Sessions → Option Sessions
create_session sid new now db = if contains sid db then none else some (insert sid row db)
  where
    row : Row
    row = record {
      status = queued;
      spec_json = new.spec_json;
      tags = new.tags;
      submitted_at = now;
      trace_id = new.trace_id;
      backend = new.backend;
      owner = new.owner;
      description = new.description;
      parent_session_id = new.parent_session_id;
      version = 0;
      started_at = none;
      ended_at = none;
      end_reason = none;
      runtime_id = none;
      paused_at = none;
      aggregates = no_aggregates;
    }

unfoldable pub get_session : ℕ → Sessions → Option Row
get_session sid db = lookup sid db

unfoldable pub get_session_version : ℕ → Sessions → Option ℕ
get_session_version sid db = elim (lookup sid db) [ none ↦ none | some r ↦ some r.version ]

unfoldable pub delete_session : ℕ → Sessions → Sessions
delete_session sid db = erase sid db

-- The column arguments of `update_session_status`; `none` leaves a column as it is.
pub record Patch : Type 0 where
  pub status : Option SessionState
  pub started_at : Option ℕ
  pub ended_at : Option ℕ
  pub end_reason : Option String
  pub runtime_id : Option String
  pub paused_at : Option ℕ

abbrev pub no_patch : Patch
no_patch = record {
  status = none;
  started_at = none;
  ended_at = none;
  end_reason = none;
  runtime_id = none;
  paused_at = none;
}

abbrev pub is_empty : Patch → Bool
is_empty p = elim p.status [
  | some _ ↦ false
  | none ↦ elim p.started_at [
    | some _ ↦ false
    | none ↦ elim p.ended_at [
      | some _ ↦ false
      | none ↦ elim p.end_reason [
        | some _ ↦ false
        | none ↦ elim p.runtime_id [
          | some _ ↦ false
          | none ↦ elim p.paused_at [ some _ ↦ false | none ↦ true ]
        ]
      ]
    ]
  ]
]

abbrev pub keep_or {ℓ} : {A : Type ℓ} → Option A → Option A → Option A
keep_or none old = old
keep_or (some a) old = some a

-- The row that the UPDATE statement writes.
unfoldable pub patched : Patch → ℕ → Row → Row
patched p new_version r = record r {
  status = option_or p.status r.status;
  version = new_version;
  started_at = keep_or p.started_at r.started_at;
  ended_at = keep_or p.ended_at r.ended_at;
  end_reason = keep_or p.end_reason r.end_reason;
  runtime_id = keep_or p.runtime_id r.runtime_id;
  paused_at = keep_or p.paused_at r.paused_at;
}

pub data Write : Type 0 where
  written : ℕ → Write
  -- `ConcurrencyError`, with the actual version
  conflict : Option ℕ → Write

-- With no expected version: read the version and bump it blindly; a missing row is a silent no-op.
unfoldable pub update_blind : ℕ → Patch → Sessions → Write × Sessions
update_blind sid p db = elim (lookup sid db) [
  | none ↦ (written 0, db)
  | some r ↦
      if is_empty p
      then (written r.version, db)
      else (written (r.version + 1), insert sid (patched p (r.version + 1) r) db)
]

-- With one: the WHERE clause adds `version = expected`, and no row found is a conflict.
unfoldable pub update_checked : ℕ → Patch → ℕ → Sessions → Write × Sessions
update_checked sid p expected db =
    if is_empty p then (written expected, db) else elim (lookup sid db) [
      | none ↦ (conflict none, db)
      | some r ↦
          if r.version == expected
          then (written (expected + 1), insert sid (patched p (expected + 1) r) db)
          else (conflict (some r.version), db)
    ]

unfoldable pub update_session_status : ℕ → Patch → Option ℕ → Sessions → Write × Sessions
unfolding update_blind update_checked
update_session_status sid p none db = if is_empty p then (written 0, db) else update_blind sid p db
update_session_status sid p (some expected) db = update_checked sid p expected db

unfoldable pub update_session_aggregates : ℕ → Aggregates → Sessions → Sessions
update_session_aggregates sid a db = elim (lookup sid db) [
  | none ↦ db
  | some r ↦ insert sid (record r { aggregates = a }) db
]

abbrev pub state_rows : (Row → Bool) → Sessions → List ℕ
state_rows test [] = []
state_rows test ((sid, r) ∷ db) = if test r then sid ∷ state_rows test db else state_rows test db

abbrev pub interrupt : ℕ → String → Row → Row
interrupt now reason r = record r {
  status = interrupted;
  ended_at = some now;
  end_reason = some reason;
}

abbrev pub update_where : (Row → Bool) → (Row → Row) → Sessions → Sessions
update_where test f [] = []
update_where test f ((sid, r) ∷ db) = (sid, (if test r then f r else r)) ∷ update_where test f db

abbrev pub is_running : Row → Bool
is_running r = state_eq r.status running

unfoldable pub mark_in_flight_as_interrupted : ℕ → Sessions → List ℕ × Sessions
mark_in_flight_as_interrupted now db =
    (state_rows is_running db, update_where is_running (interrupt now "interrupted_on_startup") db)

abbrev pub is_stale : ℕ → Row → Bool
is_stale cutoff r = state_eq r.status queued && ltb r.submitted_at cutoff

unfoldable pub mark_queued_as_interrupted : ℕ → ℕ → Sessions → List ℕ × Sessions
mark_queued_as_interrupted cutoff now db = (
  state_rows (is_stale cutoff) db,
  update_where (is_stale cutoff) (interrupt now "queued_interrupted_on_startup") db,
)

-- `ORDER BY paused_at DESC`, by insertion.
abbrev pub insert_recent : ℕ × ℕ → List (ℕ × ℕ) → List (ℕ × ℕ)
insert_recent e [] = e ∷ []
insert_recent e (f ∷ l) = if leb f.1 e.1 then e ∷ f ∷ l else f ∷ insert_recent e l

-- The ids of the paused rows with their pause times, the most recent first.
unfoldable pub list_paused : Sessions → List (ℕ × ℕ)
list_paused [] = []
list_paused ((sid, r) ∷ db) =
    let rest = list_paused db in
    elim r.paused_at [
      | none ↦ rest
      | some t ↦ if state_eq r.status paused then insert_recent (sid, t) rest else rest
    ]
