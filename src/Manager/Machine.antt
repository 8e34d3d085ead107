-- ===== src/Manager/Machine.antt =====
-- The manager as a machine: its handlers, its tasks' steps and its timers, in any order.
use Prim.Native.String.{String}
use gg_proxy.Base.{ℕ, Bool, true, ◌||◌, Option, none, some, List, [], ◌∷◌, ◌==◌, if◌then◌else◌}
use gg_proxy.Base.Dict.{lookup, contains}
use gg_proxy.Core.Errors.{classify_sdk_error, other, label, http_status}
use gg_proxy.Manager.State.{Manager, Task, cancel}
use gg_proxy.Manager.Submit.{Submission, UserStore, submit}
use gg_proxy.Manager.Pause.{Ack, Others, pause, resume}
use gg_proxy.Manager.Run.{
  Ending, fails, is_cancelled, Start, went_on, row_missing, event_lost, run_start, run_bridged,
  run_finish, timer_fires,
}

pub data Call : Type 0 where
  submits : ℕ → Submission → UserStore → ℕ → Call
  cancels : ℕ → String → Call
  pauses : ℕ → Option String → Ack → ℕ → Others → Others → Call
  resumes : ℕ → Option String → Ack → Others → Others → Call
  -- the semaphore admits a task; the texts are the id's, and that of an event that is dropped
  starts : ℕ → String → String → ℕ → Others → Call
  -- its executor reports the bridge and the runtime's id
  bridges : ℕ → String → Others → Call
  ends : ℕ → Ending → ℕ → Others → Call
  fires : ℕ → Call
  -- the durable store goes down or comes up
  store_turns : Bool → Call

-- A session whose row is gone ends with a `SessionNotFound` of its id, and one whose event cannot be
-- persisted with a `DurableEventDropError` of the store's text: both are classified like any error.
unfoldable pub fails_with : String → String → Ending
fails_with class_name text =
    let c = classify_sdk_error (other class_name text) in fails (label c) (http_status c) text

unfoldable pub start_result : ℕ → String → String → ℕ → Others → Task → Start × Manager → Manager
start_result sid id_text drop_text now others t (went_on, m) = m
start_result sid id_text drop_text now others t (row_missing, m) =
    run_finish sid (fails_with "sessionnotfound" id_text) now others t m
start_result sid id_text drop_text now others t (event_lost, m) =
    run_finish sid (fails_with "durableeventdroperror" drop_text) now others t m

-- A task that waits for the semaphore, and that nobody has cancelled, may go on when a slot is free.
unfoldable pub starts_task : ℕ → String → String → ℕ → Others → Task → Manager → Manager
starts_task sid id_text drop_text now others t m =
    if t.acquired || (t.cancelling || m.semaphore == 0)
    then m
    else start_result sid id_text drop_text now others (record t { acquired = true })
        (run_start sid now others t m)

-- A task that runs can get its executor.
unfoldable pub bridges_task : ℕ → String → Others → Task → Manager → Manager
bridges_task sid runtime_id others t m =
    if t.acquired then run_bridged sid runtime_id others m else m

abbrev pub can_end : Ending → Task → Bool
can_end is_cancelled t = t.cancelling
can_end _ t = t.acquired

-- A task that waits can only be cancelled.
unfoldable pub ends_task : ℕ → Ending → ℕ → Others → Task → Manager → Manager
ends_task sid e now others t m = if can_end e t then run_finish sid e now others t m else m

abbrev pub with_task : ℕ → (Task → Manager → Manager) → Manager → Manager
with_task sid f m = elim (lookup sid m.running_tasks) [ none ↦ m | some t ↦ f t m ]

-- A submission draws an id that no tracked session has.
abbrev pub submits_fresh : ℕ → Submission → UserStore → ℕ → Manager → Manager
submits_fresh sid s users now m =
    if contains sid m.running_tasks then m else (submit sid s users now m).1

unfoldable pub step : Manager → Call → Manager
step m (submits sid s users now) = submits_fresh sid s users now m
step m (cancels sid reason) = cancel sid reason m
step m (pauses sid reason ack now during others) = (pause sid reason ack now during others m).1
step m (resumes sid hint ack during others) = (resume sid hint ack during others m).1
step m (starts sid id_text drop_text now others) =
    with_task sid (starts_task sid id_text drop_text now others) m
step m (bridges sid runtime_id others) = with_task sid (bridges_task sid runtime_id others) m
step m (ends sid e now others) = with_task sid (ends_task sid e now others) m
step m (fires sid) = timer_fires sid m
step m (store_turns on) = record m { persists = on }

unfoldable pub run : Manager → List Call → Manager
run m [] = m
run m (c ∷ cs) = run (step m c) cs
