-- ===== src/Manager/Slots/Steps.antt =====
-- What each call of the machine does to the books.
use Prim.Native.String.{String}
use gg_proxy.Base.{
  ℕ, ◌+◌, ◌≡◌, refl, ap, subst, sym, ◌∙◌, ◌⊎◌, inl, inr, true, false, ◌||◌, Option, some, arith,
  ◌==◌, if◌then◌else◌, Option-cases, Bool-cases,
}
use gg_proxy.Base.Dict.{lookup, contains, lookup-insert_self}
use gg_proxy.Base.Set.{member}
use gg_proxy.Manager.State.{Manager, Task, cancel}
use gg_proxy.Manager.Submit.{Submission, UserStore, submit}
use gg_proxy.Manager.Pause.{Ack, Others, pause, resume}
use gg_proxy.Manager.Run.{
  Ending, Start, went_on, row_missing, event_lost, run_start, run_finish, timer_fires,
}
use gg_proxy.Manager.Machine.{
  Call, submits, cancels, pauses, resumes, starts, bridges, ends, fires, store_turns, step,
  fails_with, start_result, starts_task, bridges_task, ends_task, with_task, can_end,
}
use gg_proxy.Manager.Slots.{View, view, enroll, admit}
use gg_proxy.Manager.Slots.Balance.{
  Books, leak, enroll-Books, admit-Books, connect-Books, lend-Books, regain-Books, finish-Books,
  drop-Books,
}
use gg_proxy.Manager.Slots.Moves.{
  view-cancel, PauseMove, pause-PauseMove, ResumeMove, resume-ResumeMove, view-run_start,
  view-run_bridged, view-run_finish, view-submit,
}

-- Slots that a call adds to the semaphore: one when a paused session is cancelled, by the operator or by
-- the watchdog of its pause.
abbrev pub leaked : Manager → Call → ℕ
leaked m (cancels sid reason) = leak sid (view m)
leaked m (fires sid) = if contains sid m.paused_timers then leak sid (view m) else 0
leaked m _ = 0

module _ (limit most excess : ℕ) (m : Manager) (b : Books limit most excess (view m)) where
  submits-Books :
      (sid : ℕ) (s : Submission) (users : UserStore) (now : ℕ)
      → Books limit most excess (view (step m (submits sid s users now)))
  unfolding step
  submits-Books sid s users now = elim (Bool-cases (contains sid m.running_tasks)) [
    | inl old ↦ rw old b
    | inr new ↦ rw new (go (view-submit sid s users now m) new)
  ]
    where
      go :
          (view (submit sid s users now m).1 ≡ view m)
            ⊎ (view (submit sid s users now m).1 ≡ enroll sid (view m))
          → contains sid m.running_tasks ≡ false
          → Books limit most excess (view (submit sid s users now m).1)
      go (inl e) new = subst (Books limit most excess) (sym e) b
      go (inr e) new =
          subst (Books limit most excess) (sym e)
            (enroll-Books limit most excess sid (view m) new b)

  pauses-Books :
      (sid : ℕ) (reason : Option String) (ack : Ack) (now : ℕ) (during others : Others)
      → Books limit most excess (view (pause sid reason ack now during others m).1)
  pauses-Books sid reason ack now during others =
      go _ (pause-PauseMove sid reason ack now during others m)
    where
      go : (w : View) → PauseMove sid (view m) w → Books limit most excess w
      go w (inl e) = subst (Books limit most excess) (sym e) b
      go w (inr (e, h, n, f)) =
          subst (Books limit most excess) (sym e)
            (lend-Books limit most excess sid (view m) h (n, f) b)

  resumes-Books :
      (sid : ℕ) (hint : Option String) (ack : Ack) (during others : Others)
      → Books limit most excess (view (resume sid hint ack during others m).1)
  resumes-Books sid hint ack during others = go _ (resume-ResumeMove sid hint ack during others m)
    where
      go : (w : View) → ResumeMove sid (view m) w → Books limit most excess w
      go w (inl e) = subst (Books limit most excess) (sym e) b
      go w (inr (e, h, f)) =
          subst (Books limit most excess) (sym e)
            (regain-Books limit most excess sid (view m) h f b)

  starts_task-Books :
      (sid : ℕ) (id_text drop_text : String) (now : ℕ) (others : Others) (t : Task)
      → lookup sid m.running_tasks ≡ some t
      → Books limit most excess (view (starts_task sid id_text drop_text now others t m))
  unfolding starts_task start_result
  starts_task-Books sid id_text drop_text now others t h =
      elim (Bool-cases (t.acquired || (t.cancelling || m.semaphore == 0))) [
        | inl waits ↦ rw waits b
        | inr goes ↦ rw goes (
            go (run_start sid now others t m) (view-run_start sid now others t m) (
              subst (Books limit most excess) (sym (view-run_start sid now others t m))
                (admit-Books limit most excess sid t (view m) h (ground arith) (ground arith) b)))
      ]
    where
      admitted : Task
      admitted = record t { acquired = true }

      ended :
          (e : Ending) (m' : Manager)
          → view m' ≡ admit sid t (view m)
          → Books limit most excess (view m')
          → Books limit most excess (view (run_finish sid e now others admitted m'))
      ended e m' same books =
          subst (Books limit most excess) (sym (view-run_finish sid e now others admitted m')) (
            finish-Books limit most excess sid admitted (view m')
              (ap (λ (v : View). lookup sid v.tasks) same
                ∙ lookup-insert_self sid admitted m.running_tasks)
              books)

      go :
          (r : Start × Manager)
          → view r.1 ≡ admit sid t (view m)
          → Books limit most excess (view r.1)
          → Books limit most excess
              (view (start_result sid id_text drop_text now others admitted r))
      go (went_on, m') same books = books
      go (row_missing, m') same books = (ended (fails_with "sessionnotfound" id_text) m' same books)
      go (event_lost, m') same books =
          (ended (fails_with "durableeventdroperror" drop_text) m' same books)

  bridges_task-Books :
      (sid : ℕ) (runtime_id : String) (others : Others) (t : Task)
      → lookup sid m.running_tasks ≡ some t
      → Books limit most excess (view (bridges_task sid runtime_id others t m))
  unfolding bridges_task
  bridges_task-Books sid runtime_id others t h = elim (Bool-cases t.acquired) [
    | inl up ↦ rw up (
        subst (Books limit most excess) (sym (view-run_bridged sid runtime_id others m))
          (connect-Books limit most excess sid (view m) (ground arith) b))
    | inr waits ↦ rw waits b
  ]

  ends_task-Books :
      (sid : ℕ) (e : Ending) (now : ℕ) (others : Others) (t : Task)
      → lookup sid m.running_tasks ≡ some t
      → Books limit most excess (view (ends_task sid e now others t m))
  unfolding ends_task
  ends_task-Books sid e now others t h = elim (Bool-cases (can_end e t)) [
    | inl may ↦ rw may (
        subst (Books limit most excess) (sym (view-run_finish sid e now others t m))
          (finish-Books limit most excess sid t (view m) h b))
    | inr not_yet ↦ rw not_yet b
  ]

  with_task-Books :
      (sid : ℕ) (f : Task → Manager → Manager)
      → ((t : Task) → lookup sid m.running_tasks ≡ some t → Books limit most excess (view (f t m)))
      → Books limit most excess (view (with_task sid f m))
  with_task-Books sid f each = elim (Option-cases (lookup sid m.running_tasks)) [
    | inl missing ↦ rw (missing, with_task) b
    | inr (t, h) ↦ rw (h, with_task) (each t h)
  ]

  cancels-Books :
      (sid : ℕ) (reason : String)
      → Books limit most (leak sid (view m) + excess) (view (cancel sid reason m))
  cancels-Books sid reason =
      subst (Books limit most (leak sid (view m) + excess)) (sym (view-cancel sid reason m))
        (drop-Books limit most excess sid (view m) b)

  pub ends-Books :
      (sid : ℕ) (e : Ending) (now : ℕ) (others : Others)
      → Books limit most excess (view (step m (ends sid e now others)))
  unfolding step
  ends-Books sid e now others =
      with_task-Books sid (ends_task sid e now others) (ends_task-Books sid e now others)

  -- Nothing is added.
  pub none_added :
      (n : ℕ) (v : View) → n ≡ 0 → Books limit most excess v → Books limit most (n + excess) v
  none_added n v e = subst (λ (k : ℕ). Books limit most k v) (omega arith)

  fires-Books :
      (sid : ℕ) → Books limit most (leaked m (fires sid) + excess) (view (timer_fires sid m))
  unfolding timer_fires
  fires-Books sid = elim (Option-cases (lookup sid m.paused_timers)) [
    | inl missing ↦ rw (missing, timer_fires) (none_added 0 (view m) refl b)
    | inr (wait, h) ↦
        rw (h, timer_fires)
          (elim (Bool-cases (member sid m.paused_set)) [
            | inl paused ↦ rw paused (rw paused at (cancels-Books sid "paused_timeout"))
            | inr not_paused ↦ rw not_paused (none_added 0 (view m) refl b)
          ])
  ]

  pub step-Books : (c : Call) → Books limit most (leaked m c + excess) (view (step m c))
  unfolding step
  step-Books (submits sid s users now) = none_added 0 _ refl (submits-Books sid s users now)
  step-Books (cancels sid reason) = cancels-Books sid reason
  step-Books (pauses sid reason ack now during others) =
      none_added 0 _ refl (pauses-Books sid reason ack now during others)
  step-Books (resumes sid hint ack during others) =
      none_added 0 _ refl (resumes-Books sid hint ack during others)
  step-Books (starts sid id_text drop_text now others) = none_added 0 _ refl (
      with_task-Books sid (starts_task sid id_text drop_text now others)
        (starts_task-Books sid id_text drop_text now others))
  step-Books (bridges sid runtime_id others) = none_added 0 _ refl (
      with_task-Books sid (bridges_task sid runtime_id others)
        (bridges_task-Books sid runtime_id others))
  step-Books (ends sid e now others) = none_added 0 _ refl (ends-Books sid e now others)
  step-Books (fires sid) = fires-Books sid
  step-Books (store_turns on) = none_added 0 _ refl b
