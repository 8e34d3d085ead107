-- ===== src/Manager/Shutdown.antt =====
-- `shutdown`. What happens while it waits for the grace period, and then for the cancelled tasks, are
-- two histories of the machine.
pub mod Closed
use Prim.Native.String.{String}
use gg_proxy.Base.{
  ℕ, Bool, true, false, not, ◌&&◌, Option, none, some, List, [], ◌∷◌, if◌then◌else◌,
}
use gg_proxy.Base.Dict.{Dict}
use gg_proxy.Manager.State.{Manager, Task, cancel, deny_pending}
use gg_proxy.Manager.Machine.{Call, run}

pub data PausedAction : Type 0 where
  cancel_paused wait_paused : PausedAction

abbrev pub has_tasks : Dict Task → Bool
has_tasks [] = false
has_tasks (e ∷ d) = true

abbrev pub cancel_each : List ℕ → Manager → Manager
cancel_each [] m = m
cancel_each (sid ∷ sids) m = cancel_each sids (cancel sid "shutdown_during_pause" m)

unfoldable pub shutdown_begin : PausedAction → Manager → Manager
shutdown_begin cancel_paused m = cancel_each m.paused_set (record m { accepting_new = false })
shutdown_begin wait_paused m = record m { accepting_new = false }

abbrev pub cancel_all_tasks : Dict Task → Dict Task
cancel_all_tasks [] = []
cancel_all_tasks ((sid, t) ∷ d) = (sid, record t { cancelling = true }) ∷ cancel_all_tasks d

unfoldable pub cancel_remaining : Manager → Manager
cancel_remaining m = record m { running_tasks = cancel_all_tasks m.running_tasks }

-- Requests that still wait are denied, and the timers that are left are dropped.
unfoldable pub shutdown_end : Manager → Manager
unfolding deny_pending
shutdown_end m = record (deny_pending "shutdown" none m) { paused_timers = [] }

unfoldable pub shutdown : PausedAction → List Call → List Call → Manager → Manager
shutdown action grace ended m =
    if not m.accepting_new && not (has_tasks m.running_tasks)
    then m
    else shutdown_end (run (cancel_remaining (run (shutdown_begin action m) grace)) ended)
