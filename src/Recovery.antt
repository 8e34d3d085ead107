-- ===== src/Recovery.antt =====
-- src/gg_relay/session/recovery.py: what a restarted process does with the rows of the one before. Times
-- and windows are in one unit.
pub mod Watchdogs
use Prim.Native.String.{String}
use gg_proxy.Base.{
  ℕ, suc, ◌+◌, ◌-◌, Bool, true, false, Option, none, some, List, [], ◌∷◌, leb, if◌then◌else◌,
  length,
}
use gg_proxy.Domain.{SessionState, queued, running, interrupted}
use gg_proxy.Store.{
  Sessions, mark_in_flight_as_interrupted, mark_queued_as_interrupted, list_paused,
}
use gg_proxy.Manager.State.{Manager, Event, state_changed, publish, cancel, arm_paused_timer}

pub record RecoveryReport : Type 0 where
  pub interrupted_count : ℕ
  pub interrupted_ids : List ℕ

abbrev pub report_of : List ℕ → RecoveryReport
report_of ids = record { interrupted_count = length ids; interrupted_ids = ids }

unfoldable pub recover_on_startup : ℕ → Sessions → RecoveryReport × Sessions
recover_on_startup now db =
    let (ids, db') = mark_in_flight_as_interrupted now db in (report_of ids, db')

-- One event for each id; an event that the bus refuses is logged and passed over.
unfoldable pub publish_interrupted : SessionState → String → List ℕ → Manager → Manager
publish_interrupted from_state reason [] m = m
publish_interrupted from_state reason (sid ∷ ids) m =
    publish_interrupted from_state reason ids
      (publish (state_changed sid from_state interrupted (some reason)) m)

unfoldable pub recover_on_startup_with_events : ℕ → Manager → RecoveryReport × Manager
unfolding recover_on_startup
recover_on_startup_with_events now m =
    let (report, db) = recover_on_startup now m.store in
    (
      report,
      publish_interrupted running "interrupted_on_startup" report.interrupted_ids
          (record m { store = db }),
    )

unfoldable pub recover_queued_rows : ℕ → ℕ → Manager → RecoveryReport × Manager
recover_queued_rows cutoff now m =
    let (ids, db) = mark_queued_as_interrupted cutoff now m.store in
    (
      report_of ids,
      publish_interrupted queued "queued_interrupted_on_startup" ids (record m { store = db }),
    )

-- The pause has lasted its whole window: `remaining <= 0`.
abbrev pub expired : ℕ → ℕ → ℕ → Bool
expired timeout now paused_at = leb (timeout + paused_at) now

unfoldable pub recover_row : ℕ → ℕ → ℕ × ℕ → Manager → Manager
recover_row timeout now (sid, paused_at) m =
    if expired timeout now paused_at
    then cancel sid "paused_timeout_recovered" m
    else arm_paused_timer sid (some (timeout + paused_at - now)) m

unfoldable pub recover_rows : ℕ → ℕ → List (ℕ × ℕ) → Manager → Manager
recover_rows timeout now [] m = m
recover_rows timeout now (row ∷ rows) m =
    recover_rows timeout now rows (recover_row timeout now row m)

-- How many of the rows are armed again, and how many cancelled.
unfoldable pub count_rows : ℕ → ℕ → List (ℕ × ℕ) → ℕ × ℕ
count_rows timeout now [] = (0, 0)
count_rows timeout now ((sid, paused_at) ∷ rows) =
    let (rearmed, cancelled) = count_rows timeout now rows in
    if expired timeout now paused_at then (rearmed, suc cancelled) else (suc rearmed, cancelled)

unfoldable pub recover_paused_timers : ℕ → ℕ → Manager → (ℕ × ℕ) × Manager
recover_paused_timers timeout now m =
    let rows = list_paused m.store in (count_rows timeout now rows, recover_rows timeout now rows m)
