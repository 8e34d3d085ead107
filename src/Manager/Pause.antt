-- ===== src/Manager/Pause.antt =====
-- `pause` and `resume`. The runner's answer to the control frame is the argument `ack`; what other
-- writers do to the table of sessions while the manager waits is `during` (the ack) and `others`
-- (the retry of the write). The manager's other handlers run before or after a call, not within it.
pub mod Failure
pub mod Race
use Prim.Native.String.{String}
use gg_proxy.Base.{ℕ, ◌+◌, ◌-◌, true, ◌&&◌, Option, none, some, [], ◌∷◌, ◌==◌, if◌then◌else◌}
use gg_proxy.Base.Dict.{insert}
use gg_proxy.Base.Set.{member, add, discard}
use gg_proxy.Domain.{running, paused}
use gg_proxy.Store.{Sessions, Patch, no_patch, get_session}
use gg_proxy.Manager.State.{
  Manager, Error, Result, ok, err, state_changed, session_not_found, session_not_running,
  session_not_paused, resume_queue_timeout, bridge_ack_timeout, bridge_refused, concurrency,
  event_dropped, flat_lookup, audited, publish, session_row, optional, owner_of,
  cancel_paused_timer, arm_paused_timer, one_more, release_pause_bookkeeping, check_paused_caps,
}
use gg_proxy.Manager.Locked.{locked, lost, no_row, update_status_locked}

pub data Ack : Type 0 where
  -- `ack.ok`
  acked : Ack
  -- `not ack.ok`, raised as a `RuntimeError`
  refused : Ack
  -- the bridge raised
  timed_out : Ack

abbrev pub Others : Type 0
Others = Sessions → Sessions

abbrev pub Outcome : Type 0
Outcome = Result (Unit {0}) × Manager

-- The slot goes back to the semaphore unless an earlier call has returned it.
unfoldable pub release_slot : ℕ → Manager → Manager
release_slot sid m =
    if member sid m.paused_holds_slot
    then m
    else record m { paused_holds_slot = add sid m.paused_holds_slot; semaphore = m.semaphore + 1 }

-- The bookkeeping of a pause that the runner has acknowledged.
unfoldable pub park : ℕ → ℕ → Manager → Manager
unfolding release_slot
park sid now m = release_slot sid (record m {
  paused_set = add sid m.paused_set;
  paused_at = insert sid now m.paused_at;
  paused_by_key = one_more (flat_lookup sid m.api_key_by_session) m.paused_by_key;
})

-- The version-checked write of a handler; its errors are raised to the caller.
unfoldable pub write_row : ℕ → ℕ → Patch → Others → Manager → Option Error × Manager
write_row sid expected p others m =
    let (l, db) = update_status_locked sid (some expected) p others m.store in
    (
      elim l [
        | locked v ↦ none
        | lost e a ↦ some (concurrency e a)
        | no_row ↦ some session_not_found
      ],
      record m { store = db },
    )

abbrev pub paused_patch : ℕ → Patch
paused_patch now = record no_patch { status = some paused; paused_at = some now }

abbrev pub running_patch : Patch
running_patch = record no_patch { status = some running }

-- After the row is written: state, audit, event and watchdog. An event that cannot be persisted is raised.
unfoldable pub announce_pause : ℕ → Option String → Manager → Outcome
unfolding audited publish arm_paused_timer owner_of
announce_pause sid reason m =
    let m₁ = record m { session_states = insert sid paused m.session_states } in
    let m₂ = audited (session_row m₁ sid "session_pause" (("reason", optional reason) ∷ [])) m₁ in
    if m.persists
    then (ok tt, arm_paused_timer sid none (publish (state_changed sid running paused reason) m₂))
    else (err event_dropped, m₂)

unfoldable pub pause_acked : ℕ → Option String → ℕ → ℕ → Others → Manager → Outcome
unfolding park write_row announce_pause
pause_acked sid reason expected now others m =
    let (failure, m') = write_row sid expected (paused_patch now) others (park sid now m) in
    elim failure [ some e ↦ (err e, m') | none ↦ announce_pause sid reason m' ]

unfoldable pub pause_bridged : ℕ → Option String → Ack → ℕ → Others → Others → Manager → Outcome
pause_bridged sid reason ack now during others m = elim (get_session sid m.store) [
  | none ↦ (err session_not_found, m)
  | some row ↦
      let m' = record m { store = during m.store } in
      elim ack [
        | timed_out ↦ (err bridge_ack_timeout, m')
        | refused ↦ (err bridge_refused, m')
        | acked ↦ pause_acked sid reason row.version now others m'
      ]
]

-- The error for a session that is not in the state that a call requires.
abbrev pub wrong_state : ℕ → Error → Manager → Outcome
wrong_state sid e m = elim (get_session sid m.store) [
  | none ↦ (err session_not_found, m)
  | some row ↦ (err e, m)
]

unfoldable pub pause : ℕ → Option String → Ack → ℕ → Others → Others → Manager → Outcome
pause sid reason ack now during others m =
    if member sid m.bridges
    then (if member sid m.paused_set
        then (ok tt, arm_paused_timer sid none m)
        else elim (check_paused_caps sid m) [
          | some e ↦ (err e, m)
          | none ↦ pause_bridged sid reason ack now during others m
        ])
    else wrong_state sid session_not_running m

-- The slot that was acquired is kept: the task's end releases it again.
unfoldable pub unpark : ℕ → Manager → Manager
unfolding release_pause_bookkeeping
unpark sid m =
    release_pause_bookkeeping sid true
      (record m { paused_holds_slot = discard sid m.paused_holds_slot })

unfoldable pub announce_resume : ℕ → Option String → Manager → Outcome
unfolding audited publish owner_of
announce_resume sid hint m =
    let m₁ = record m { session_states = insert sid running m.session_states } in
    let m₂ = audited (session_row m₁ sid "session_resume" (("hint", optional hint) ∷ [])) m₁ in
    if m.persists
    then (ok tt, publish (state_changed sid paused running hint) m₂)
    else (err event_dropped, m₂)

unfoldable pub resume_acked : ℕ → Option String → ℕ → Others → Manager → Outcome
unfolding unpark write_row announce_resume
resume_acked sid hint expected others m =
    let (failure, m') = write_row sid expected running_patch others (unpark sid m) in
    elim failure [ some e ↦ (err e, m') | none ↦ announce_resume sid hint m' ]

-- With the slot in hand. A bridge that raises or refuses gives the slot back, and the watchdog is
-- armed again.
unfoldable pub resume_with_slot : ℕ → Option String → ℕ → Ack → Others → Others → Manager → Outcome
resume_with_slot sid hint expected ack during others m =
    let m₁ = record m { semaphore = m.semaphore - 1; store = during m.store } in
    let undone = arm_paused_timer sid none (record m₁ { semaphore = m₁.semaphore + 1 }) in
    elim ack [
      | timed_out ↦ (err bridge_ack_timeout, undone)
      | refused ↦ (err bridge_refused, undone)
      | acked ↦ resume_acked sid hint expected others m₁
    ]

-- With no slot free the wait for one ends by its timeout.
unfoldable pub resume : ℕ → Option String → Ack → Others → Others → Manager → Outcome
resume sid hint ack during others m =
    if member sid m.paused_set && member sid m.bridges
    then (let m₁ = cancel_paused_timer sid m in
        elim (get_session sid m₁.store) [
          | none ↦ (err session_not_found, m₁)
          | some row ↦
              if m₁.semaphore == 0
              then (err resume_queue_timeout, arm_paused_timer sid none m₁)
              else resume_with_slot sid hint row.version ack during others m₁
        ])
    else wrong_state sid session_not_paused m
