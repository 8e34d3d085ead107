-- ===== src/Manager/Run.antt =====
-- `_run`, the life of a session's task, in the steps between its waits, and the timer of a pause.
pub mod Settle
use Prim.Native.String.{String, ◌++◌}
use gg_proxy.Base.{
  ℕ, ◌+◌, ◌-◌, Bool, true, false, not, ◌&&◌, Option, none, some, if◌then◌else◌, option_or,
  take_chars,
}
use gg_proxy.Base.Dict.{lookup, insert, erase}
use gg_proxy.Base.Set.{member, add, discard}
use gg_proxy.Domain.{SessionState, queued, running, completed, failed, cancelled}
use gg_proxy.Store.{Patch, no_patch, update_session_aggregates}
use gg_proxy.Manager.State.{
  Manager, Task, state_changed, install_error, publish, cancel_paused_timer,
  release_pause_bookkeeping, deny_pending, cancel,
}
use gg_proxy.Manager.Locked.{locked, lost, no_row, update_status_locked}
use gg_proxy.Manager.Pause.{Others}

-- A write whose lost race is logged and no more; whether the row was found.
unfoldable pub write_quietly : ℕ → Patch → Others → Manager → Bool × Manager
write_quietly sid p others m =
    let (l, db) = update_status_locked sid none p others m.store in
    (elim l [ locked v ↦ true | lost e a ↦ true | no_row ↦ false ], record m { store = db })

abbrev pub started_patch : ℕ → Patch
started_patch now = record no_patch { status = some running; started_at = some now }

abbrev pub acquire_slot : ℕ → Task → Manager → Manager
acquire_slot sid t m = record m {
  semaphore = m.semaphore - 1;
  running_tasks = insert sid (record t { acquired = true }) m.running_tasks;
}

-- What the task's start comes to: it goes on, or an error is raised into the task's own ladder of
-- handlers, as the row is gone or the event cannot be persisted.
pub data Start : Type 0 where
  went_on row_missing event_lost : Start

unfoldable pub announce_start : ℕ → Manager → Start × Manager
unfolding publish
announce_start sid m =
    let m' = publish (state_changed sid queued running none) m in
    if m.persists
    then (went_on, record m' { session_states = insert sid running m'.session_states })
    else (event_lost, m')

-- The semaphore lets the task in.
unfoldable pub run_start : ℕ → ℕ → Others → Task → Manager → Start × Manager
run_start sid now others t m =
    let (found, m') = write_quietly sid (started_patch now) others (acquire_slot sid t m) in
    if found then announce_start sid m' else (row_missing, m')

-- The executor is up: its bridge is known, and the runtime's id is written.
unfoldable pub run_bridged : ℕ → String → Others → Manager → Manager
unfolding write_quietly
run_bridged sid runtime_id others m =
    (write_quietly sid (record no_patch { runtime_id = some runtime_id }) others
      (record m { bridges = add sid m.bridges })).1

-- How the body of the task ended.
pub data Ending : Type 0 where
  completes : Ending
  times_out : Ending
  is_cancelled : Ending
  -- the exception's class, and its text
  install_fails : String → String → Ending
  -- category, HTTP status and text of the classified error
  fails : String → String → String → Ending

abbrev pub end_status : Ending → SessionState
end_status completes = completed
end_status times_out = cancelled
end_status is_cancelled = cancelled
end_status (install_fails code message) = failed
end_status (fails category http_status message) = failed

abbrev pub end_reason : Ending → Option String
end_reason completes = none
end_reason times_out = some "timeout"
end_reason is_cancelled = some "cancelled"
end_reason (install_fails code message) = some ("install:" ++ code)
end_reason (fails category http_status message) = some (category ++ ":" ++ http_status)

-- The handlers of `_run`.
unfoldable pub handle_ending : ℕ → Ending → Manager → Manager
unfolding publish deny_pending
handle_ending sid completes m = m
handle_ending sid times_out m = deny_pending "timeout" (some sid) m
handle_ending sid is_cancelled m = m
handle_ending sid (install_fails code message) m =
    publish (install_error sid "install_failed" (take_chars 128 message)) m
handle_ending sid (fails category http_status message) m =
    publish (install_error sid category (take_chars 512 message)) m

-- The task gives its slot back, unless a pause has returned it already.
unfoldable pub return_slot : ℕ → Bool → Manager → Manager
return_slot sid acquired m =
    if acquired && not (member sid m.paused_holds_slot)
    then record m { semaphore = m.semaphore + 1 }
    else m

unfoldable pub forget : ℕ → Manager → Manager
unfolding cancel_paused_timer release_pause_bookkeeping
forget sid m =
    let m' = release_pause_bookkeeping sid false (cancel_paused_timer sid m) in
    record m' {
      bridges = discard sid m'.bridges;
      api_key_by_session = erase sid m'.api_key_by_session;
      owner_by_session = erase sid m'.owner_by_session;
    }

abbrev pub ended_patch : ℕ → Ending → Patch
ended_patch now e = record no_patch {
  status = some (end_status e);
  ended_at = some now;
  end_reason = end_reason e;
}

unfoldable pub flush_aggregates : ℕ → Manager → Manager
flush_aggregates sid m = elim (lookup sid m.metrics) [
  | none ↦ m
  | some a ↦ record m { store = update_session_aggregates sid a m.store }
]

unfoldable pub announce_end : ℕ → SessionState → Ending → Manager → Manager
unfolding publish
announce_end sid from_state e m =
    publish (state_changed sid from_state (end_status e) (end_reason e)) m

-- The second half of `finally`, and the callback that takes the task off the table.
unfoldable pub settle : ℕ → Ending → ℕ → Others → Manager → Manager
settle sid e now others m =
    let from_state = option_or (lookup sid m.session_states) running in
    let m₁ = record m { session_states = erase sid m.session_states } in
    let m₂ = flush_aggregates sid (write_quietly sid (ended_patch now e) others m₁).1 in
    let m₃ = announce_end sid from_state e m₂ in
    record m₃ { running_tasks = erase sid m₃.running_tasks }

-- Handlers and `finally`.
unfoldable pub run_finish : ℕ → Ending → ℕ → Others → Task → Manager → Manager
run_finish sid e now others t m =
    settle sid e now others (forget sid (return_slot sid t.acquired (handle_ending sid e m)))

-- The watchdog of a pause wakes up.
unfoldable pub timer_fires : ℕ → Manager → Manager
unfolding cancel
timer_fires sid m = elim (lookup sid m.paused_timers) [
  | none ↦ m
  | some wait ↦ if member sid m.paused_set then cancel sid "paused_timeout" m else m
]
