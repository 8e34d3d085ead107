-- ===== src/Manager/Slots/History.antt =====
-- The books of the semaphore over every history of the manager's calls.
use Prim.Native.String.{String}
use native.Mathlib.Nat.{add_assoc}
use gg_proxy.Base.{ℕ, ◌+◌, ◌≤◌, length, ◌≡◌, refl, subst, sym, true, Option, List, [], ◌∷◌, arith}
use gg_proxy.Base.Set.{member}
use gg_proxy.Store.{Sessions}
use gg_proxy.Audit.{AuditSink}
use gg_proxy.Hitl.{Coordinator}
use gg_proxy.Manager.State.{Manager, Config, init}
use gg_proxy.Manager.Pause.{Others}
use gg_proxy.Manager.Run.{is_cancelled}
use gg_proxy.Manager.Machine.{Call, cancels, ends, step, run}
use gg_proxy.Manager.Slots.{view}
use gg_proxy.Manager.Slots.Count.{holding}
use gg_proxy.Manager.Slots.Balance.{Books}
use gg_proxy.Manager.Slots.Steps.{leaked, step-Books, ends-Books, none_added}

abbrev pub leaked_by : Manager → List Call → ℕ
leaked_by m [] = 0
leaked_by m (c ∷ cs) = leaked_by (step m c) cs + leaked m c

-- The books over a history. From a manager whose free and held slots make up the configured limit and
-- `excess`, every sequence of submissions, cancels, pauses, resumes, task steps, endings and timers
-- leads to one whose free and held slots make up the limit, the excess and one slot for each cancel, by
-- an operator or by a watchdog, that met a session which was paused.
pub run-Books :
    (limit most excess : ℕ) (m : Manager) (cs : List Call)
    → Books limit most excess (view m)
    → Books limit most (leaked_by m cs + excess) (view (run m cs))
unfolding run
run-Books limit most excess m [] b = none_added limit most excess m b 0 (view m) refl b
run-Books limit most excess m (c ∷ cs) b =
    subst (λ (k : ℕ). Books limit most k (view (run (step m c) cs)))
      (sym (add_assoc (leaked_by (step m c) cs) (leaked m c) excess))
      (run-Books limit most (leaked m c + excess) (step m c) cs
        (step-Books limit most excess m b c))

-- A cancel of a paused session hands out a slot that does not exist: from balanced books, the free and the
-- held slots exceed the limit by one after the call, and still do when the task has ended.
pub cancel_paused_overbooks :
    (limit most sid : ℕ) (reason : String) (now : ℕ) (others : Others) (m : Manager)
    → Books limit most 0 (view m)
    → member sid m.paused_set ≡ true
    → let v = view (step m (cancels sid reason)) in
      let w = view (step (step m (cancels sid reason)) (ends sid is_cancelled now others)) in
      (v.free + holding v.lent v.tasks ≡ limit + 1) × (w.free + holding w.lent w.tasks ≡ limit + 1)
cancel_paused_overbooks limit most sid reason now others m b h =
    (omega (arith, after.balance, after.limit_kept), omega (arith, ended.balance, ended.limit_kept))
  where
    after : Books limit most 1 (view (step m (cancels sid reason)))
    after = rw h at (step-Books limit most 0 m b (cancels sid reason))

    ended :
        Books limit most 1
          (view (step (step m (cancels sid reason)) (ends sid is_cancelled now others)))
    ended = ends-Books limit most 1 _ after sid is_cancelled now others

pub init-Books :
    (config : Config) (store : Sessions) (audit : Option AuditSink) (c : Coordinator)
    → Books config.max_concurrent config.max_paused 0 (view (init config store audit c))
unfolding init holding
init-Books config store audit c = record {
  distinct = tt;
  balance = omega arith;
  bridged_run = λ sid h. cc;
  lent_run = λ sid h. cc;
  paused_lent = λ sid h. cc;
  capped = omega arith;
  limit_kept = refl;
  cap_kept = refl;
}

-- Of calls that run to their ends one after the other, a pause or a resume with its waits for the runner and
-- for a slot, and a task piece by piece between its waits: from the constructed manager, after any
-- history of submissions, cancels, pauses, resumes, task steps, endings, timers, and failures and
-- recoveries of the store of events, the slots that are free and those that tasks hold make up
-- `max_concurrent` and one for each cancel that met a paused session; so without such a cancel never
-- more than `max_concurrent` tasks hold a slot. Every paused session's slot is back with the semaphore,
-- and no more than `max_paused` sessions are paused.
pub slots_balance :
    (config : Config) (store : Sessions) (audit : Option AuditSink) (c : Coordinator)
    (cs : List Call)
    → let m = init config store audit c in
      let v = view (run m cs) in
      (v.free + holding v.lent v.tasks ≡ config.max_concurrent + leaked_by m cs)
      × (holding v.lent v.tasks ≤ config.max_concurrent + leaked_by m cs)
      × ((sid : ℕ) → member sid v.paused ≡ true → member sid v.lent ≡ true)
      × (length v.paused ≤ config.max_paused)
slots_balance config store audit c cs =
    let b =
      run-Books config.max_concurrent config.max_paused 0 (init config store audit c) cs
        (init-Books config store audit c) in
    (
      omega (arith, b.balance, b.limit_kept),
      omega (arith, b.balance, b.limit_kept),
      b.paused_lent,
      omega (arith, b.capped, b.cap_kept),
    )
