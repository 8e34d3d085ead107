-- ===== src/Manager/Slots/Moves.antt =====
-- Each handler's effect on the slots is one of the moves of `Manager.Slots`.
use gg_proxy.Base.{
  ℕ, ◌+◌, ◌-◌, ◌≡◌, ◌≢◌, ◌<◌, length, refl, ap, ◌∙◌, ◌⊎◌, inl, inr, Bool, true, false, not, ◌&&◌,
  String, Option, none, arith, if◌then◌else◌, Option-cases,
}
use gg_proxy.Base.Dict.{erase}
use gg_proxy.Base.Set.{member}
use gg_proxy.Store.{get_session}
use gg_proxy.Manager.State.{
  Manager, Task, cancel, arm_paused_timer, cancel_paused_timer, check_paused_caps,
}
use gg_proxy.Manager.Submit.{Submission, UserStore, submit}
use gg_proxy.Manager.Pause.{
  Ack, acked, refused, timed_out, Others, pause, pause_acked, pause_bridged, resume, resume_acked,
  resume_with_slot,
}
use gg_proxy.Manager.Run.{
  Ending, completes, times_out, is_cancelled, install_fails, fails, run_start, run_bridged,
  run_finish, handle_ending, flush_aggregates, write_quietly, return_slot, forget, announce_end,
  announce_start, settle,
}
use gg_proxy.Manager.Slots.{View, view, enroll, admit, connect, lend, regain, finish, drop}

arm_view : (sid : ℕ) (wait : Option ℕ) (m : Manager) → view (arm_paused_timer sid wait m) ≡ view m
unfolding arm_paused_timer
arm_view sid wait m = refl

pub view-cancel :
    (sid : ℕ) (reason : String) (m : Manager) → view (cancel sid reason m) ≡ drop sid (view m)
unfolding cancel
view-cancel sid reason m = ground arith

-- What a pause does to the slots: nothing, or the session's slot is lent, which happens to a session with
-- a bridge that is not paused, while fewer sessions are paused than may be.
abbrev pub PauseMove : ℕ → View → View → Type 0
PauseMove sid v w =
    (w ≡ v)
    ⊎ ((w ≡ lend sid v)
        × (member sid v.bridged ≡ true)
        × (member sid v.paused ≡ false)
        × (length v.paused < v.cap))

view-pause_acked :
    (sid : ℕ) (reason : Option String) (expected now : ℕ) (others : Others) (m : Manager)
    → view (pause_acked sid reason expected now others m).1 ≡ lend sid (view m)
unfolding pause_acked
view-pause_acked sid reason expected now others m = ground arith

view-pause_bridged :
    (sid : ℕ) (reason : Option String) (ack : Ack) (now : ℕ) (during others : Others) (m : Manager)
    → (view (pause_bridged sid reason ack now during others m).1 ≡ view m)
      ⊎ (view (pause_bridged sid reason ack now during others m).1 ≡ lend sid (view m))
unfolding pause_bridged
view-pause_bridged sid reason ack now during others m =
    elim (Option-cases (get_session sid m.store)) [
      | inl missing ↦ inl (rw (missing, pause_bridged) refl)
      | inr (row, found) ↦ ground (
        arith,
        view-pause_acked sid reason row.version now others (record m { store = during m.store }),
      )
    ]

pub pause-PauseMove :
    (sid : ℕ) (reason : Option String) (ack : Ack) (now : ℕ) (during others : Others) (m : Manager)
    → PauseMove sid (view m) (view (pause sid reason ack now during others m).1)
unfolding pause check_paused_caps
pause-PauseMove sid reason ack now during others m =
    ground (arith, view-pause_bridged sid reason ack now during others m, arm_view sid none m)

timer_view : (sid : ℕ) (m : Manager) → view (cancel_paused_timer sid m) ≡ view m
unfolding cancel_paused_timer
timer_view sid m = refl

-- What a resume does to the slots: nothing, or a free slot is taken back for a paused session.
abbrev pub ResumeMove : ℕ → View → View → Type 0
ResumeMove sid v w = (w ≡ v) ⊎ ((w ≡ regain sid v) × (member sid v.paused ≡ true) × (v.free ≢ 0))

view-resume_acked :
    (sid : ℕ) (hint : Option String) (expected : ℕ) (others : Others) (m : Manager)
    → view (resume_acked sid hint expected others m).1
      ≡ record (regain sid (view m)) { free = m.semaphore }
unfolding resume_acked
view-resume_acked sid hint expected others m = ground arith

view-resume_with_slot :
    (sid : ℕ) (hint : Option String) (expected : ℕ) (ack : Ack) (during others : Others)
    (m : Manager)
    → m.semaphore ≢ 0
    → (view (resume_with_slot sid hint expected ack during others m).1 ≡ view m)
      ⊎ (view (resume_with_slot sid hint expected ack during others m).1 ≡ regain sid (view m))
unfolding resume_with_slot arm_paused_timer
view-resume_with_slot sid hint expected acked during others m h = inr (
    view-resume_acked sid hint expected others
      (record m { semaphore = m.semaphore - 1; store = during m.store }))
view-resume_with_slot sid hint expected refused during others m h = inl (ground arith)
view-resume_with_slot sid hint expected timed_out during others m h = inl (ground arith)

pub resume-ResumeMove :
    (sid : ℕ) (hint : Option String) (ack : Ack) (during others : Others) (m : Manager)
    → ResumeMove sid (view m) (view (resume sid hint ack during others m).1)
unfolding resume cancel_paused_timer
resume-ResumeMove sid hint ack during others m = elim (Option-cases (get_session sid m.store)) [
  | inl missing ↦ ground (arith, arm_view sid none (cancel_paused_timer sid m))
  | inr (row, found) ↦ ground (
    arith,
    arm_view sid none (cancel_paused_timer sid m),
    view-resume_with_slot sid hint row.version ack during others (cancel_paused_timer sid m),
  )
]

pub view-run_start :
    (sid now : ℕ) (others : Others) (t : Task) (m : Manager)
    → view (run_start sid now others t m).1 ≡ admit sid t (view m)
unfolding run_start write_quietly announce_start
view-run_start sid now others t m = ground arith

pub view-run_bridged :
    (sid : ℕ) (runtime_id : String) (others : Others) (m : Manager)
    → view (run_bridged sid runtime_id others m) ≡ connect sid (view m)
unfolding run_bridged
view-run_bridged sid runtime_id others m = refl

view-handle_ending : (sid : ℕ) (e : Ending) (m : Manager) → view (handle_ending sid e m) ≡ view m
unfolding handle_ending
view-handle_ending sid completes m = refl
view-handle_ending sid times_out m = refl
view-handle_ending sid is_cancelled m = refl
view-handle_ending sid (install_fails code message) m = refl
view-handle_ending sid (fails category http_status message) m = refl

view-flush_aggregates : (sid : ℕ) (m : Manager) → view (flush_aggregates sid m) ≡ view m
unfolding flush_aggregates
view-flush_aggregates sid m = ground arith

abbrev tidied : ℕ → View → View
tidied sid v = record (finish sid (record { acquired = false; cancelling = false }) v) {
  tasks = v.tasks;
}

view-forget : (sid : ℕ) (m : Manager) → view (forget sid m) ≡ tidied sid (view m)
unfolding forget
view-forget sid m = refl

view-return_slot :
    (sid : ℕ) (acquired : Bool) (m : Manager)
    → view (return_slot sid acquired m) ≡ record (view m) {
      free =
          if acquired && not (member sid m.paused_holds_slot) then m.semaphore + 1 else m.semaphore;
    }
unfolding return_slot
view-return_slot sid acquired m = ground arith

view-settle :
    (sid : ℕ) (e : Ending) (now : ℕ) (others : Others) (m : Manager)
    → view (settle sid e now others m) ≡ record (view m) { tasks = erase sid m.running_tasks }
unfolding settle write_quietly announce_end
view-settle sid e now others m =
    ap (λ (v : View). record v { tasks = erase sid v.tasks }) (view-flush_aggregates sid _)

pub view-run_finish :
    (sid : ℕ) (e : Ending) (now : ℕ) (others : Others) (t : Task) (m : Manager)
    → view (run_finish sid e now others t m) ≡ finish sid t (view m)
unfolding run_finish
view-run_finish sid e now others t m =
    view-settle sid e now others (forget sid returned)
    ∙ ap (λ (v : View). record v { tasks = erase sid v.tasks }) (view-forget sid returned)
    ∙ ap (λ (v : View). record (tidied sid v) { tasks = erase sid v.tasks })
        (view-return_slot sid t.acquired (handle_ending sid e m)
          ∙ ap
              (λ (v : View). record v {
                free = if t.acquired && not (member sid v.lent) then v.free + 1 else v.free;
              })
              (view-handle_ending sid e m))
  where
    returned : Manager
    returned = return_slot sid t.acquired (handle_ending sid e m)

pub view-submit :
    (sid : ℕ) (s : Submission) (users : UserStore) (now : ℕ) (m : Manager)
    → (view (submit sid s users now m).1 ≡ view m)
      ⊎ (view (submit sid s users now m).1 ≡ enroll sid (view m))
unfolding submit
view-submit sid s users now m = ground arith
