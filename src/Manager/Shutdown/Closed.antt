-- ===== src/Manager/Shutdown/Closed.antt =====
-- A manager that has been shut down takes no more sessions and leaves nobody waiting.
use Prim.Native.String.{String}
use gg_proxy.Base.{
  ℕ, ◌≡◌, subst, refl, sym, ◌∙◌, inl, inr, Bool, true, false, not, ◌&&◌, Option, none, List, [],
  ◌∷◌, arith, length, if◌then◌else◌, Option-cases,
}
use gg_proxy.Base.Dict.{lookup}
use gg_proxy.Hitl.{pending_snapshot}
use gg_proxy.Hitl.Decisions.{cancel_all_snapshot}
use gg_proxy.Manager.State.{
  Manager, Task, err, shutting_down, cancel, deny_pending, check_paused_caps, arm_paused_timer,
  cancel_paused_timer,
}
use gg_proxy.Manager.Submit.{Submission, UserStore, submit, behind_gate, enqueue}
use gg_proxy.Manager.Pause.{
  Ack, Others, pause_acked, pause_bridged, pause, resume_acked, resume_with_slot, resume,
}
use gg_proxy.Manager.Run.{
  write_quietly, announce_start, Start, went_on, row_missing, event_lost, run_start, run_bridged,
  Ending, handle_ending, return_slot, forget, flush_aggregates, announce_end, settle, run_finish,
  timer_fires,
}
use gg_proxy.Manager.Machine.{
  Call, fails_with, start_result, store_turns, starts_task, bridges_task, ends_task, with_task,
  step, run, submits, cancels, pauses, resumes, starts, bridges, ends, fires,
}
use gg_proxy.Manager.Shutdown.{
  has_tasks, PausedAction, cancel_each, shutdown_begin, cancel_remaining, shutdown_end, shutdown,
  cancel_paused, wait_paused,
}

Keeps : Manager → Manager → Type 0
Keeps m m' = m'.accepting_new ≡ m.accepting_new

cancel-Keeps : (sid : ℕ) (reason : String) (m : Manager) → Keeps m (cancel sid reason m)
unfolding Keeps cancel
cancel-Keeps sid reason m = ground arith

pause-Keeps :
    (sid : ℕ) (reason : Option String) (ack : Ack) (now : ℕ) (during others : Others) (m : Manager)
    → Keeps m (pause sid reason ack now during others m).1
unfolding Keeps pause pause_bridged pause_acked arm_paused_timer check_paused_caps
pause-Keeps sid reason ack now during others m = ground arith

resume-Keeps :
    (sid : ℕ) (hint : Option String) (ack : Ack) (during others : Others) (m : Manager)
    → Keeps m (resume sid hint ack during others m).1
unfolding Keeps resume resume_with_slot resume_acked cancel_paused_timer arm_paused_timer
resume-Keeps sid hint ack during others m = ground arith

submit-Keeps :
    (sid : ℕ) (s : Submission) (users : UserStore) (now : ℕ) (m : Manager)
    → Keeps m (submit sid s users now m).1
unfolding Keeps submit behind_gate enqueue
submit-Keeps sid s users now m = ground arith

run_start-Keeps :
    (sid now : ℕ) (others : Others) (t : Task) (m : Manager)
    → Keeps m (run_start sid now others t m).1
unfolding Keeps run_start announce_start write_quietly
run_start-Keeps sid now others t m = ground arith

run_finish-Keeps :
    (sid : ℕ) (e : Ending) (now : ℕ) (others : Others) (t : Task) (m : Manager)
    → Keeps m (run_finish sid e now others t m)
unfolding Keeps run_finish settle forget return_slot handle_ending write_quietly flush_aggregates
    announce_end
run_finish-Keeps sid e now others t m = ground arith

start_result-Keeps :
    (sid : ℕ) (id_text drop_text : String) (now : ℕ) (others : Others) (t : Task) (m : Manager)
    (r : Start × Manager)
    → Keeps m r.1
    → Keeps m (start_result sid id_text drop_text now others t r)
unfolding Keeps start_result
start_result-Keeps sid id_text drop_text now others t m (went_on, m') h = h
start_result-Keeps sid id_text drop_text now others t m (row_missing, m') h =
    run_finish-Keeps sid (fails_with "sessionnotfound" id_text) now others t m' ∙ h
start_result-Keeps sid id_text drop_text now others t m (event_lost, m') h =
    run_finish-Keeps sid (fails_with "durableeventdroperror" drop_text) now others t m' ∙ h

starts_task-Keeps :
    (sid : ℕ) (id_text drop_text : String) (now : ℕ) (others : Others) (t : Task) (m : Manager)
    → Keeps m (starts_task sid id_text drop_text now others t m)
unfolding Keeps starts_task
starts_task-Keeps sid id_text drop_text now others t m = ground (
  arith,
  start_result-Keeps sid id_text drop_text now others (record t { acquired = true }) m
      (run_start sid now others t m) (run_start-Keeps sid now others t m),
)

bridges_task-Keeps :
    (sid : ℕ) (runtime_id : String) (others : Others) (t : Task) (m : Manager)
    → Keeps m (bridges_task sid runtime_id others t m)
unfolding Keeps bridges_task run_bridged
bridges_task-Keeps sid runtime_id others t m = ground arith

ends_task-Keeps :
    (sid : ℕ) (e : Ending) (now : ℕ) (others : Others) (t : Task) (m : Manager)
    → Keeps m (ends_task sid e now others t m)
unfolding Keeps ends_task
ends_task-Keeps sid e now others t m = ground (arith, run_finish-Keeps sid e now others t m)

with_task-Keeps :
    (sid : ℕ) (f : Task → Manager → Manager) (m : Manager)
    → ((t : Task) → Keeps m (f t m))
    → Keeps m (with_task sid f m)
unfolding Keeps
with_task-Keeps sid f m each = elim (Option-cases (lookup sid m.running_tasks)) [
  | inl missing ↦ rw (missing, with_task) refl
  | inr (t, h) ↦ rw (h, with_task) (each t)
]

step-Keeps : (m : Manager) (c : Call) → Keeps m (step m c)
unfolding Keeps step timer_fires
step-Keeps m (submits sid s users now) = ground (arith, submit-Keeps sid s users now m)
step-Keeps m (cancels sid reason) = cancel-Keeps sid reason m
step-Keeps m (pauses sid reason ack now during others) =
    pause-Keeps sid reason ack now during others m
step-Keeps m (resumes sid hint ack during others) = resume-Keeps sid hint ack during others m
step-Keeps m (starts sid id_text drop_text now others) =
    with_task-Keeps sid (starts_task sid id_text drop_text now others) m
      (λ t. starts_task-Keeps sid id_text drop_text now others t m)
step-Keeps m (bridges sid runtime_id others) =
    with_task-Keeps sid (bridges_task sid runtime_id others) m
      (λ t. bridges_task-Keeps sid runtime_id others t m)
step-Keeps m (ends sid e now others) =
    with_task-Keeps sid (ends_task sid e now others) m (λ t. ends_task-Keeps sid e now others t m)
step-Keeps m (fires sid) = ground (arith, cancel-Keeps sid "paused_timeout" m)
step-Keeps m (store_turns on) = refl

run-Keeps : (m : Manager) (cs : List Call) → Keeps m (run m cs)
unfolding Keeps run
run-Keeps m [] = refl
run-Keeps m (c ∷ cs) = run-Keeps (step m c) cs ∙ step-Keeps m c

cancel_each-Keeps : (sids : List ℕ) (m : Manager) → Keeps m (cancel_each sids m)
unfolding Keeps
cancel_each-Keeps [] m = refl
cancel_each-Keeps (sid ∷ sids) m =
    cancel_each-Keeps sids (cancel sid "shutdown_during_pause" m)
    ∙ cancel-Keeps sid "shutdown_during_pause" m

shutdown_begin_refuses :
    (action : PausedAction) (m : Manager) → (shutdown_begin action m).accepting_new ≡ false
unfolding shutdown_begin Keeps
shutdown_begin_refuses cancel_paused m =
    cancel_each-Keeps m.paused_set (record m { accepting_new = false })
shutdown_begin_refuses wait_paused m = refl

-- The manager takes no session, has no timer and lets no request wait.
abbrev pub IsClosed : Manager → Type 0
IsClosed m =
    (m.accepting_new ≡ false)
    × (m.paused_timers ≡ [])
    × (length (pending_snapshot none m.coordinator) ≡ 0)

IsClosed-end : (m : Manager) → m.accepting_new ≡ false → IsClosed (shutdown_end m)
unfolding shutdown_end deny_pending
IsClosed-end m h = (h, refl, (cancel_all_snapshot "shutdown" "" none m.coordinator).1)

goes_on :
    (accepts busy : Bool) (m m' : Manager)
    → accepts ≡ true
    → (if not accepts && not busy then m else m') ≡ m'
goes_on true busy m m' h = refl
goes_on false busy m m' h = absurd (ground arith)

closed_refuses :
    (sid : ℕ) (s : Submission) (users : UserStore) (now : ℕ) (m : Manager)
    → m.accepting_new ≡ false
    → submit sid s users now m ≡ (err shutting_down, m)
unfolding submit
closed_refuses sid s users now m h = ground arith

-- A manager that still took sessions and is shut down is closed afterwards, whatever calls, task steps and
-- timers ran while it waited: it refuses every submission and is not changed by it, no timer is left, and
-- no request waits for an answer.
pub shutdown-IsClosed :
    (action : PausedAction) (grace ended : List Call) (sid : ℕ) (s : Submission) (users : UserStore)
    (now : ℕ) (m : Manager)
    → m.accepting_new ≡ true
    → let m' = shutdown action grace ended m in
      IsClosed m' × (submit sid s users now m' ≡ (err shutting_down, m'))
unfolding shutdown Keeps cancel_remaining
shutdown-IsClosed action grace ended sid s users now m open_before =
    subst (λ (m' : Manager). IsClosed m' × (submit sid s users now m' ≡ (err shutting_down, m')))
      (sym (goes_on m.accepting_new (has_tasks m.running_tasks) m _ open_before))
      (closed, closed_refuses sid s users now (shutdown_end last) closed.0)
  where
    waited : Manager
    waited = run (shutdown_begin action m) grace

    last : Manager
    last = run (cancel_remaining waited) ended

    closed : IsClosed (shutdown_end last)
    closed = IsClosed-end last (
        run-Keeps (cancel_remaining waited) ended
        ∙ run-Keeps (shutdown_begin action m) grace
        ∙ shutdown_begin_refuses action m)
