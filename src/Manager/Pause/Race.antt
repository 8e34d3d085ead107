-- ===== src/Manager/Pause/Race.antt =====
-- Pauses, and resumes of one session, that wait for their runners at once: each has passed its checks when
-- the other goes on.
use Prim.Native.String.{String}
use gg_proxy.Base.{ℕ, suc, ◌≡◌, true, false, Option, none, some, List, arith, length, ◌≢◌}
use gg_proxy.Base.Set.{member, add, member-discard}
use gg_proxy.Store.{Row, get_session}
use gg_proxy.Manager.State.{Manager, check_paused_caps, cancel_paused_timer}
use gg_proxy.Manager.Run.{return_slot}
use gg_proxy.Manager.Pause.{
  acked, Others, park, write_row, announce_pause, pause_acked, pause_bridged, pause,
}
use gg_proxy.Base.{◌+◌, ◌-◌, ◌≤◌}
use gg_proxy.Manager.Pause.{unpark, announce_resume, resume_acked, resume_with_slot, resume}

-- The session may be paused: the call reads this row, and waits for its runner.
abbrev pub Waits : ℕ → Row → Manager → Type 0
Waits sid row m =
    (member sid m.bridges ≡ true)
    × (member sid m.paused_set ≡ false)
    × (check_paused_caps sid m ≡ none)
    × (get_session sid m.store ≡ some row)

-- Its runner acknowledges: the rest of the call, on the manager as it is by then.
pause-Waits :
    (sid : ℕ) (reason : Option String) (now : ℕ) (others : Others) (row : Row) (m : Manager)
    → Waits sid row m
    → pause sid reason acked now (λ db. db) others m
      ≡ pause_acked sid reason row.version now others m
unfolding pause pause_bridged
pause-Waits sid reason now others row m (bridged, fresh, fits, found) =
    ground (arith, bridged, fresh, fits, found)

pause_acked-paused_set :
    (sid : ℕ) (reason : Option String) (expected now : ℕ) (others : Others) (m : Manager)
    → (pause_acked sid reason expected now others m).1.paused_set ≡ add sid m.paused_set
unfolding pause_acked park write_row announce_pause
pause_acked-paused_set sid reason expected now others m = ground arith

length-add_two :
    (a b : ℕ) (sids : List ℕ)
    → a ≢ b
    → member a sids ≡ false
    → member b sids ≡ false
    → length (add b (add a sids)) ≡ suc (suc (length sids))
length-add_two a b sids ne fresh other = ground arith

-- Two sessions of which each may still be paused, though there is room for one: if both calls have passed
-- their checks before either runner acknowledges, the second of them goes on where it was, and one
-- session more than `max_paused` is paused.
pub pause_race :
    (a b : ℕ) (reason : Option String) (now : ℕ) (others : Others) (row_a row_b : Row) (m : Manager)
    → a ≢ b
    → Waits a row_a m
    → Waits b row_b m
    → suc (length m.paused_set) ≡ m.config.max_paused
    → let first = pause a reason acked now (λ db. db) others m in
      let second = pause_acked b reason row_b.version now others first.1 in
      length second.1.paused_set ≡ suc m.config.max_paused
pause_race a b reason now others row_a row_b m ne wait_a wait_b room =
    rw (pause-Waits a reason now others row_a m wait_a) (
      rw
        (
          pause_acked-paused_set b reason row_b.version now others
              (pause_acked a reason row_a.version now others m).1,
          pause_acked-paused_set a reason row_a.version now others m,
        )
        (omega (arith, length-add_two a b m.paused_set ne wait_a.1 wait_b.1, room)))

-- A resume that has taken its slot, and waits for the runner.
abbrev pub with_slot : ℕ → Manager → Manager
unfolding cancel_paused_timer
with_slot sid m = record (cancel_paused_timer sid m) {
  semaphore = (cancel_paused_timer sid m).semaphore - 1;
}

-- The session may be resumed: it is paused, it has this row, and a slot is free.
abbrev pub MayResume : ℕ → Row → Manager → Type 0
MayResume sid row m =
    (member sid m.paused_set ≡ true)
    × (member sid m.bridges ≡ true)
    × (get_session sid m.store ≡ some row)
    × (1 ≤ m.semaphore)

resume-MayResume :
    (sid : ℕ) (hint : Option String) (others : Others) (row : Row) (m : Manager)
    → MayResume sid row m
    → resume sid hint acked (λ db. db) others m
      ≡ resume_acked sid hint row.version others (with_slot sid m)
unfolding resume resume_with_slot cancel_paused_timer
resume-MayResume sid hint others row m (paused, bridged, found, free) =
    ground (arith, paused, bridged, found, free)

resume_acked-semaphore :
    (sid : ℕ) (hint : Option String) (expected : ℕ) (others : Others) (m : Manager)
    → ((resume_acked sid hint expected others m).1.semaphore ≡ m.semaphore)
      × (member sid (resume_acked sid hint expected others m).1.paused_holds_slot ≡ false)
unfolding resume_acked unpark write_row announce_resume
resume_acked-semaphore sid hint expected others m =
    (ground arith, ground (arith, member-discard sid sid m.paused_holds_slot))

-- A resume of a session that waits for its runner, while another one of the same session runs to its end:
-- both take a slot, and the end of the session's task returns one of them.
resume_race :
    (sid : ℕ) (hint : Option String) (others : Others) (row : Row) (m : Manager)
    → MayResume sid row m
    → 2 ≤ m.semaphore
    → let second = resume sid hint acked (λ db. db) others (with_slot sid m) in
      let first = resume_acked sid hint row.version others second.1 in
      (first.1.semaphore + 2 ≡ m.semaphore)
      × ((return_slot sid true first.1).semaphore + 1 ≡ m.semaphore)
unfolding return_slot cancel_paused_timer
resume_race sid hint others row m (paused, bridged, found, free) two =
    let again =
      resume-MayResume sid hint others row (with_slot sid m)
        (paused, bridged, found, omega (arith, two)) in
    let (kept, _) =
      resume_acked-semaphore sid hint row.version others (with_slot sid (with_slot sid m)) in
    let (kept', out) =
      resume_acked-semaphore sid hint row.version others
        (resume_acked sid hint row.version others (with_slot sid (with_slot sid m))).1 in
    rw again (omega (arith, kept, kept', two), ground (arith, kept, kept', two, out))
