-- ===== src/Manager/State.antt =====
-- The state of `SessionManager`, and its helpers that await nothing but the audit log and the bus.
-- Session ids and API key ids are texts that are only compared; a number stands for each.
use Prim.Native.String.{◌++◌ as ◌+++◌}
use gg_proxy.Base.{
  ℕ, ◌+◌, ◌-◌, Bool, true, false, String, Option, none, some, List, [], ◌∷◌, ◌++◌, leb,
  if◌then◌else◌, truthy, length, option_or,
}
use gg_proxy.Base.Dict.{Dict, lookup, insert, erase}
use gg_proxy.Base.Set.{member, discard}
use gg_proxy.Domain.{SessionState}
use gg_proxy.Store.{Sessions, Aggregates}
use gg_proxy.Audit.{AuditSink, AuditRow, Value, record_audit}
use gg_proxy.Hitl.{Coordinator, cancel_all}

pub record Config : Type 0 where
  pub max_concurrent : ℕ
  pub default_timeout_s : ℕ
  pub paused_timeout_s : ℕ
  pub max_paused : ℕ
  pub max_paused_per_api_key : ℕ
  pub require_per_user_credentials : Bool

-- The background task of a session: whether it got past `sem.acquire()`, and whether `cancel()` was
-- called on it. A task leaves the table when it is done.
pub record Task : Type 0 where
  pub acquired : Bool
  pub cancelling : Bool

pub data Event : Type 0 where
  session_created : ℕ → String → List String → Event
  state_changed : ℕ → SessionState → SessionState → Option String → Event
  install_error : ℕ → String → String → Event

pub record Manager : Type 0 where
  pub config : Config
  pub accepting_new : Bool
  -- the value of the semaphore
  pub semaphore : ℕ
  pub running_tasks : Dict Task
  pub bridges : List ℕ
  pub api_key_by_session : Dict (Option ℕ)
  pub owner_by_session : Dict (Option String)
  pub paused_set : List ℕ
  pub paused_at : Dict ℕ
  -- a timer with the time that it sleeps
  pub paused_timers : Dict ℕ
  pub paused_holds_slot : List ℕ
  pub paused_by_key : Dict ℕ
  pub session_states : Dict SessionState
  pub metrics : Dict Aggregates
  pub store : Sessions
  pub audit : Option AuditSink
  -- what was published, the oldest first
  pub events : List Event
  pub coordinator : Coordinator
  -- whether the bus can persist durable events, which all of `Event` are
  pub persists : Bool

-- The manager as it is constructed: every slot free, nothing tracked.
unfoldable pub init : Config → Sessions → Option AuditSink → Coordinator → Manager
init config store audit coordinator = record {
  config = config;
  accepting_new = true;
  semaphore = config.max_concurrent;
  running_tasks = [];
  bridges = [];
  api_key_by_session = [];
  owner_by_session = [];
  paused_set = [];
  paused_at = [];
  paused_timers = [];
  paused_holds_slot = [];
  paused_by_key = [];
  session_states = [];
  metrics = [];
  store = store;
  audit = audit;
  events = [];
  coordinator = coordinator;
  persists = true;
}

pub data Error : Type 0 where
  -- `DurableEventDropError`
  event_dropped : Error
  shutting_down session_not_found session_not_running session_not_paused : Error
  max_paused_exceeded resume_queue_timeout bridge_ack_timeout bridge_refused : Error
  missing_credentials credentials_lookup_unavailable id_exists retry_config : Error
  concurrency : ℕ → Option ℕ → Error

pub data Result (A : Type 0) : Type 0 where
  ok : A → Result A
  err : Error → Result A

-- `owner_by_session.get(sid)`, with a key that maps to `None` and a missing key alike.
abbrev pub flat_lookup : {A : Type 0} → ℕ → Dict (Option A) → Option A
flat_lookup k d = option_or (lookup k d) none

unfoldable pub owner_of : ℕ → Manager → String
owner_of sid m =
    let owner = flat_lookup sid m.owner_by_session in
    if truthy owner then option_or owner "anon" else "anon"

unfoldable pub audited : AuditRow → Manager → Manager
audited row m = record m { audit = record_audit row m.audit }

-- A durable event is persisted before anyone gets it; otherwise `publish` raises, and its callers look at
-- `persists` for that.
unfoldable pub publish : Event → Manager → Manager
publish e m = record m { events = if m.persists then m.events ++ e ∷ [] else m.events }

unfoldable pub cancel_paused_timer : ℕ → Manager → Manager
cancel_paused_timer sid m = record m { paused_timers = erase sid m.paused_timers }

-- Any timer of the session is dropped first; the wait is what is given, or the whole window.
unfoldable pub arm_paused_timer : ℕ → Option ℕ → Manager → Manager
arm_paused_timer sid remaining m = record m {
  paused_timers =
      insert sid (option_or remaining m.config.paused_timeout_s) (erase sid m.paused_timers);
}

-- `paused_by_key` after one session of the key has left the pause.
abbrev pub one_less : Option ℕ → Dict ℕ → Dict ℕ
one_less none counts = counts
one_less (some key) counts =
    let remaining = option_or (lookup key counts) 0 in
    if leb remaining 1 then erase key counts else insert key (remaining - 1) counts

abbrev pub one_more : Option ℕ → Dict ℕ → Dict ℕ
one_more none counts = counts
one_more (some key) counts = insert key (option_or (lookup key counts) 0 + 1) counts

unfoldable pub release_pause_bookkeeping : ℕ → Bool → Manager → Manager
release_pause_bookkeeping sid keep_holds m = record m {
  paused_set = discard sid m.paused_set;
  paused_at = erase sid m.paused_at;
  paused_holds_slot = if keep_holds then m.paused_holds_slot else discard sid m.paused_holds_slot;
  paused_by_key =
      if member sid m.paused_set
      then one_less (flat_lookup sid m.api_key_by_session) m.paused_by_key
      else m.paused_by_key;
}

-- `None` when the session may be paused, the error otherwise.
unfoldable pub check_paused_caps : ℕ → Manager → Option Error
check_paused_caps sid m =
    if leb m.config.max_paused (length m.paused_set)
    then some max_paused_exceeded
    else elim (flat_lookup sid m.api_key_by_session) [
      | none ↦ none
      | some key ↦
          if leb m.config.max_paused_per_api_key (option_or (lookup key m.paused_by_key) 0)
          then some max_paused_exceeded
          else none
    ]

abbrev pub session_row : Manager → ℕ → String → List (String × Value) → AuditRow
session_row m sid action metadata = record {
  actor = owner_of sid m;
  action = action;
  target_type = "session";
  target_id = sid;
  metadata = metadata;
}

abbrev pub optional : Option String → Value
optional none = Value.absent
optional (some s) = Value.text s

-- `task.cancel()`: the task ends at its next step.
abbrev pub cancel_task : ℕ → Dict Task → Dict Task
cancel_task sid tasks = elim (lookup sid tasks) [
  | none ↦ tasks
  | some t ↦ insert sid (record t { cancelling = true }) tasks
]

-- `cancel_all(reason=…, session_id=sid)`
unfoldable pub deny_pending : String → Option ℕ → Manager → Manager
deny_pending reason scope m = record m { coordinator = (cancel_all reason scope m.coordinator).1 }

unfoldable pub release_if_paused : ℕ → Manager → Manager
unfolding release_pause_bookkeeping
release_if_paused sid m =
    if member sid m.paused_set then release_pause_bookkeeping sid false m else m

unfoldable pub cancel : ℕ → String → Manager → Manager
unfolding audited cancel_paused_timer release_if_paused deny_pending owner_of
cancel sid reason m =
    let m₁ = audited (session_row m sid "session_cancel" (("reason", Value.text reason) ∷ [])) m in
    let m₂ = release_if_paused sid (cancel_paused_timer sid m₁) in
    let m₃ = record m₂ { running_tasks = cancel_task sid m₂.running_tasks } in
    deny_pending ("cancel:" +++ reason) (some sid) m₃
