-- ===== src/Manager/Pause/Failure.antt =====
-- What a pause or a resume that fails leaves behind.
use Prim.Native.String.{String}
use gg_proxy.Base.{
  ℕ, List, ◌+◌, ◌-◌, ◌≤◌, ◌≡◌, refl, sym, subst, ◌⊎◌, inl, inr, true, false, Option, none, some,
  arith, if◌then◌else◌, Option-cases,
}
use gg_proxy.Base.Dict.{erase, insert}
use gg_proxy.Domain.{SessionState, running, paused}
use gg_proxy.Base.Set.{member, add, member-add, member-discard_self}
use gg_proxy.Store.{Row, get_session}
use gg_proxy.Manager.State.{
  Manager, Error, Result, err, session_not_found, release_pause_bookkeeping, cancel_paused_timer,
  arm_paused_timer,
}
use gg_proxy.Manager.Pause.{
  Ack, acked, refused, timed_out, Others, release_slot, park, write_row, announce_pause,
  announce_resume, pause_acked, pause_bridged, pause, unpark, resume_acked, resume_with_slot,
  resume,
}

-- The write of the row failed, or the event could not be persisted after it.
abbrev pub Unsaid : ℕ → SessionState → Manager → Manager → Type 0
Unsaid sid state m m' =
    (m'.session_states ≡ m.session_states)
    ⊎ ((m.persists ≡ false) × (m'.session_states ≡ insert sid state m.session_states))

-- The session counts as paused and its slot, if it was not there yet, is back with the semaphore; no
-- watchdog is armed for it and nothing is published.
abbrev pub Parked : ℕ → Manager → Manager → Type 0
Parked sid m m' =
    (member sid m'.paused_set ≡ true)
    × (member sid m'.paused_holds_slot ≡ true)
    × (m'.semaphore ≡ (if member sid m.paused_holds_slot then m.semaphore else m.semaphore + 1))
    × (m'.paused_timers ≡ m.paused_timers)
    × (m'.events ≡ m.events)
    × Unsaid sid paused m m'

-- The slots, the pauses and the timers are as they were.
abbrev pub Unmoved : Manager → Manager → Type 0
Unmoved m m' =
    (m'.paused_set ≡ m.paused_set)
    × (m'.paused_holds_slot ≡ m.paused_holds_slot)
    × (m'.paused_timers ≡ m.paused_timers)
    × (m'.semaphore ≡ m.semaphore)
    × (m'.events ≡ m.events)

pause_acked-Parked :
    (sid : ℕ) (reason : Option String) (expected now : ℕ) (others : Others) (m : Manager)
    (e : Error)
    → (pause_acked sid reason expected now others m).0 ≡ err e
    → Parked sid m (pause_acked sid reason expected now others m).1
unfolding pause_acked write_row park release_slot announce_pause
pause_acked-Parked sid reason expected now others m e h =
    ground (arith, here m.paused_set, here m.paused_holds_slot)
  where
    here : (sids : List ℕ) → member sid (add sid sids) ≡ true
    here sids = ground (arith, member-add sid sid sids)

abbrev pub PauseFailure : ℕ → Ack → Manager → Manager → Type 0
PauseFailure sid ack m m' = Unmoved m m' ⊎ ((ack ≡ acked) × Parked sid m m')

pause_bridged-Failure :
    (sid : ℕ) (reason : Option String) (ack : Ack) (now : ℕ) (during others : Others) (m : Manager)
    (e : Error)
    → (pause_bridged sid reason ack now during others m).0 ≡ err e
    → PauseFailure sid ack m (pause_bridged sid reason ack now during others m).1
unfolding pause_bridged
pause_bridged-Failure sid reason acked now during others m e h =
    elim (Option-cases (get_session sid m.store)) [
      | inl missing ↦ inl (ground (arith, missing))
      | inr (row, found) ↦ inr (
        refl,
        subst (λ (o : Option Row). (pause_body o).0 ≡ err e → Parked sid m (pause_body o).1)
            (sym found)
            (pause_acked-Parked sid reason row.version now others
              (record m { store = during m.store }) e)
            h,
      )
    ]
  where
    pause_body : Option Row → Result (Unit {0}) × Manager
    pause_body none = (err session_not_found, m)
    pause_body (some row) =
        pause_acked sid reason row.version now others (record m { store = during m.store })
pause_bridged-Failure sid reason refused now during others m e h = inl (ground arith)
pause_bridged-Failure sid reason timed_out now during others m e h = inl (ground arith)

-- A pause that fails, and that runs to its end before the manager's next call, either has left slots,
-- pauses, timers and events as they were; or the runner had acknowledged it, and then the session
-- counts as paused and its slot, if no earlier pause had returned it, is back with the semaphore,
-- though no watchdog is armed for it and nothing is published. Its tracked state is as it was, or
-- says paused where it was only the event that could not be persisted.
pub pause-PauseFailure :
    (sid : ℕ) (reason : Option String) (ack : Ack) (now : ℕ) (during others : Others) (m : Manager)
    (e : Error)
    → (pause sid reason ack now during others m).0 ≡ err e
    → PauseFailure sid ack m (pause sid reason ack now during others m).1
unfolding pause
pause-PauseFailure sid reason ack now during others m e h =
    ground (arith, pause_bridged-Failure sid reason ack now during others m e)

-- Slots and pauses are as they were.
abbrev pub Undone : Manager → Manager → Type 0
Undone m m' =
    (m'.paused_set ≡ m.paused_set)
    × (m'.paused_holds_slot ≡ m.paused_holds_slot)
    × (m'.semaphore ≡ m.semaphore)
    × (m'.events ≡ m.events)

-- The session counts as running and holds the slot, and nothing is published.
abbrev pub Unparked : ℕ → Manager → Manager → Type 0
Unparked sid m m' =
    (member sid m'.paused_set ≡ false)
    × (member sid m'.paused_holds_slot ≡ false)
    × (m'.semaphore + 1 ≡ m.semaphore)
    × (m'.paused_timers ≡ erase sid m.paused_timers)
    × (m'.events ≡ m.events)
    × Unsaid sid running m m'

abbrev pub ResumeFailure : ℕ → Ack → Manager → Manager → Type 0
ResumeFailure sid ack m m' = Undone m m' ⊎ ((ack ≡ acked) × Unparked sid m m')

resume_acked-facts :
    (sid : ℕ) (hint : Option String) (expected : ℕ) (others : Others) (m : Manager) (e : Error)
    → (resume_acked sid hint expected others m).0 ≡ err e
    → let m' = (resume_acked sid hint expected others m).1 in
      (member sid m'.paused_set ≡ false)
      × (member sid m'.paused_holds_slot ≡ false)
      × (m'.semaphore ≡ m.semaphore)
      × (m'.paused_timers ≡ m.paused_timers)
      × (m'.events ≡ m.events)
      × Unsaid sid running m m'
unfolding resume_acked write_row unpark release_pause_bookkeeping announce_resume
resume_acked-facts sid hint expected others m e h =
    ground
      (arith, member-discard_self sid m.paused_set, member-discard_self sid m.paused_holds_slot)

resume_with_slot-Failure :
    (sid : ℕ) (hint : Option String) (expected : ℕ) (ack : Ack) (during others : Others)
    (m : Manager) (e : Error)
    → 1 ≤ m.semaphore
    → (resume_with_slot sid hint expected ack during others (cancel_paused_timer sid m)).0 ≡ err e
    → ResumeFailure sid ack m
        (resume_with_slot sid hint expected ack during others (cancel_paused_timer sid m)).1
unfolding resume_with_slot cancel_paused_timer arm_paused_timer
resume_with_slot-Failure sid hint expected acked during others m e s h =
    let facts =
      resume_acked-facts sid hint expected others
        (record m {
          paused_timers = erase sid m.paused_timers;
          semaphore = m.semaphore - 1;
          store = during m.store;
        })
        e h in
    inr (refl, (facts.0, facts.1, omega (arith, facts.2, s), facts.3, facts.4, facts.5))
resume_with_slot-Failure sid hint expected refused during others m e s h =
    inl (refl, refl, omega (arith, s), refl)
resume_with_slot-Failure sid hint expected timed_out during others m e s h =
    inl (refl, refl, omega (arith, s), refl)

-- A resume that fails, and that runs to its end before the manager's next call, either has left slots,
-- pauses and events as they were; or the runner had acknowledged it, and then the session no longer
-- counts as paused, it holds a slot again and its watchdog is gone, though nothing is published. Its
-- tracked state is as it was, or says running where it was only the event that could not be persisted.
pub resume-ResumeFailure :
    (sid : ℕ) (hint : Option String) (ack : Ack) (during others : Others) (m : Manager) (e : Error)
    → (resume sid hint ack during others m).0 ≡ err e
    → ResumeFailure sid ack m (resume sid hint ack during others m).1
unfolding resume cancel_paused_timer arm_paused_timer get_session
resume-ResumeFailure sid hint ack during others m e h =
    elim (Option-cases (get_session sid m.store)) [
      | inl missing ↦ inl (ground (arith, missing))
      | inr (row, found) ↦
          ground (arith, found, resume_with_slot-Failure sid hint row.version ack during others m e)
    ]
