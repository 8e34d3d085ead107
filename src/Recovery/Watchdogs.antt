-- ===== src/Recovery/Watchdogs.antt =====
-- What becomes of a paused session when the process restarts.
use Prim.Native.String.{String}
use gg_proxy.Base.{ℕ, ◌≡◌, refl, ap, ◌∙◌, Option, some, List, [], ◌∷◌, arith}
use gg_proxy.Base.Dict.{lookup}
use gg_proxy.Store.{Row, Sessions, list_paused, get_session}
use gg_proxy.Audit.{AuditSink}
use gg_proxy.Hitl.{Coordinator}
use gg_proxy.Manager.State.{
  Manager, Config, err, session_not_paused, init, cancel, arm_paused_timer,
}
use gg_proxy.Manager.Pause.{Ack, Others, resume}
use gg_proxy.Manager.Run.{timer_fires}
use gg_proxy.Recovery.{recover_row, recover_rows, count_rows, recover_paused_timers}

-- The fields that the recovery of the timers leaves alone.
abbrev Untouched : Manager → Manager → Type 0
Untouched m m' = (m'.store ≡ m.store) × (m'.bridges ≡ m.bridges) × (m'.paused_set ≡ m.paused_set)

recover_row-Untouched :
    (timeout now : ℕ) (row : ℕ × ℕ) (m : Manager)
    → m.paused_set ≡ []
    → Untouched m (recover_row timeout now row m)
unfolding recover_row cancel arm_paused_timer
recover_row-Untouched timeout now (sid, t) m e = ground arith

recover_rows-Untouched :
    (timeout now : ℕ) (rows : List (ℕ × ℕ)) (m : Manager)
    → m.paused_set ≡ []
    → Untouched m (recover_rows timeout now rows m)
unfolding recover_rows
recover_rows-Untouched timeout now [] m e = (refl, refl, refl)
recover_rows-Untouched timeout now (row ∷ rows) m e =
    let first = recover_row-Untouched timeout now row m e in
    let rest =
      recover_rows-Untouched timeout now rows (recover_row timeout now row m) (first.2 ∙ e) in
    (rest.0 ∙ first.0, rest.1 ∙ first.1, rest.2 ∙ first.2)

module _ (timeout now : ℕ) (config : Config) (db : Sessions) (audit : Option AuditSink)
    (c : Coordinator) where
  -- The restarted manager after the recovery of the timers.
  abbrev pub restarted : Manager
  restarted = (recover_paused_timers timeout now (init config db audit c)).1

  restarted-Untouched : Untouched (init config db audit c) restarted
  unfolding recover_paused_timers init
  restarted-Untouched =
      recover_rows-Untouched timeout now (list_paused db) (init config db audit c) refl

  -- After a restart a paused row is stuck, whether its window is over or not. The recovery of the timers
  -- changes no row, and a second pass of it reports the same counts; no watchdog that wakes up
  -- afterwards changes anything; and `resume` is refused as not paused for every row that exists.
  pub restart_strands_paused :
      (sid : ℕ) (r : Row) (hint : Option String) (ack : Ack) (during others : Others)
      → lookup sid db ≡ some r
      → (restarted.store ≡ db)
        × ((recover_paused_timers timeout now restarted).0
            ≡ (recover_paused_timers timeout now (init config db audit c)).0)
        × (timer_fires sid restarted ≡ restarted)
        × (resume sid hint ack during others restarted ≡ (err session_not_paused, restarted))
  unfolding recover_paused_timers init timer_fires resume get_session
  restart_strands_paused sid r hint ack during others h = (
    restarted-Untouched.0,
    ap (λ (d : Sessions). count_rows timeout now (list_paused d)) restarted-Untouched.0,
    ground (arith, restarted-Untouched),
    ground (arith, restarted-Untouched),
  )
