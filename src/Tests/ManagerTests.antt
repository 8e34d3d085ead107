-- ===== src/Tests/ManagerTests.antt =====
-- Tests of the manager and of the recovery at startup.
use gg_proxy.Base.{ℕ, ◌+◌, ◌≤◌, ◌≡◌, refl, ◌⊎◌, true, none, some, List, [], ◌∷◌, length}
use gg_proxy.Base.Set.{member}
use gg_proxy.Manager.State.{Manager, init, Error, session_not_paused, event_dropped, ok, err}
use gg_proxy.Manager.Submit.{submit, Submission, Credentials, credential_bundle_is_complete}
use gg_proxy.Manager.Submit.Gate.{Queued, Stranded, submit_refused_or_Queued}
use gg_proxy.Manager.Pause.{acked, resume}
use gg_proxy.Manager.Run.{is_cancelled, timer_fires}
use gg_proxy.Manager.Machine.{bridges, Call, step, run, submits, cancels, pauses, starts, ends}
use gg_proxy.Manager.Slots.{view}
use gg_proxy.Manager.Slots.Count.{holding}
use gg_proxy.Manager.Slots.Balance.{Books}
use gg_proxy.Manager.Slots.History.{
  init-Books, leaked_by, run-Books, cancel_paused_overbooks, slots_balance,
}
use gg_proxy.Recovery.{recover_paused_timers}
use gg_proxy.Recovery.Watchdogs.{restarted, restart_strands_paused}
use gg_proxy.Tests.Sample.{config, paused_row, sessions, idle_coordinator, submission}

abbrev start : Manager
start = init config [] none idle_coordinator

-- A session is submitted, started, bridged and paused.
abbrev to_pause : List Call
to_pause =
    submits 7 submission none 5
    ∷ starts 7 "7" "" 6 (λ t. t)
    ∷ bridges 7 "runtime" (λ t. t)
    ∷ pauses 7 (some "lunch") acked 9 (λ t. t) (λ t. t)
    ∷ []

abbrev paused_manager : Manager
paused_manager = run start to_pause

slots_balance_example :
    let m = init config [] none idle_coordinator in
    let v = view (run m to_pause) in
    (v.free + holding v.lent v.tasks ≡ 1 + leaked_by m to_pause)
    × (holding v.lent v.tasks ≤ 1 + leaked_by m to_pause)
    × ((sid : ℕ) → member sid v.paused ≡ true → member sid v.lent ≡ true)
    × (length v.paused ≤ 2)
slots_balance_example = slots_balance config [] none idle_coordinator to_pause

paused_manager-Books : Books 1 2 0 (view paused_manager)
unfolding run
paused_manager-Books = run-Books 1 2 0 start to_pause (init-Books config [] none idle_coordinator)

cancel_paused_overbooks_example :
    let v = view (step paused_manager (cancels 7 "operator")) in
    let w =
      view (step (step paused_manager (cancels 7 "operator")) (ends 7 is_cancelled 10 (λ t. t))) in
    (v.free + holding v.lent v.tasks ≡ 2) × (w.free + holding w.lent w.tasks ≡ 2)
unfolding run step gg_proxy.Manager.Pause.pause init submit gg_proxy.Manager.Submit.credential_gate
    credential_bundle_is_complete gg_proxy.Manager.Submit.not_blank gg_proxy.Store.create_session
    gg_proxy.Manager.Machine.starts_task gg_proxy.Manager.Run.run_start
    gg_proxy.Manager.Run.write_quietly gg_proxy.Manager.Locked.update_status_locked
    gg_proxy.Store.update_session_status gg_proxy.Manager.Run.announce_start
    gg_proxy.Manager.Machine.bridges_task gg_proxy.Manager.Run.run_bridged
    gg_proxy.Audit.record_audit gg_proxy.Base.take_chars gg_proxy.Manager.Locked.first_attempt
    gg_proxy.Manager.Locked.retry gg_proxy.Manager.Locked.second_attempt
    gg_proxy.Manager.Pause.announce_pause gg_proxy.Manager.Pause.park
    gg_proxy.Manager.Pause.pause_acked gg_proxy.Manager.Pause.pause_bridged
    gg_proxy.Manager.Pause.release_slot gg_proxy.Manager.Pause.write_row
    gg_proxy.Manager.State.arm_paused_timer gg_proxy.Manager.State.audited
    gg_proxy.Manager.State.check_paused_caps gg_proxy.Manager.State.owner_of
    gg_proxy.Manager.State.publish gg_proxy.Manager.Submit.behind_gate
    gg_proxy.Manager.Submit.enqueue gg_proxy.Manager.Submit.merged_credentials
    gg_proxy.Manager.Submit.track gg_proxy.Store.get_session gg_proxy.Store.patched
    gg_proxy.Store.update_blind gg_proxy.Store.update_checked gg_proxy.Manager.Machine.start_result
cancel_paused_overbooks_example =
    cancel_paused_overbooks 1 2 7 "operator" 10 (λ t. t) paused_manager paused_manager-Books refl

abbrev bare : Submission
bare = record submission { credentials = [] }

submit_refused_or_Queued_example :
    ((e : Error) × (submit 7 submission none 5 start ≡ (err e, start)))
    ⊎ ((((submit 7 submission none 5 start).0 ≡ err event_dropped)
          × Stranded 7 start (submit 7 submission none 5 start).1)
        ⊎ ((creds : Credentials) × ((submit 7 submission none 5 start).0 ≡ ok creds)
            × Queued 7 start (submit 7 submission none 5 start).1))
submit_refused_or_Queued_example = submit_refused_or_Queued 7 submission none 5 start

abbrev reborn : Manager
reborn = restarted 100 50 config sessions none idle_coordinator

restart_strands_paused_example :
    (reborn.store ≡ sessions)
    × ((recover_paused_timers 100 50 reborn).0
        ≡ (recover_paused_timers 100 50 (init config sessions none idle_coordinator)).0)
    × (timer_fires 8 reborn ≡ reborn)
    × (resume 8 none acked (λ t. t) (λ t. t) reborn ≡ (err session_not_paused, reborn))
restart_strands_paused_example =
    restart_strands_paused 100 50 config sessions none idle_coordinator 8 paused_row none acked
      (λ t. t) (λ t. t) refl
