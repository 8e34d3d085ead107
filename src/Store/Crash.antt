-- ===== src/Store/Crash.antt =====
-- The statements that a restart of the service runs over the rows of the process that died.
use gg_proxy.Base.{
  ℕ, ◌≡◌, refl, ap, ◌∙◌, ◌≢◌, ◌⊎◌, inl, inr, Bool, true, false, none, some, [], ◌∷◌, arith, ◌==◌,
  if◌then◌else◌, Bool-cases,
}
use gg_proxy.Base.Dict.{lookup}
use gg_proxy.Domain.{running, is_legal_transition}
use gg_proxy.Store.{
  Row, Sessions, interrupt, update_where, state_rows, is_running, is_stale,
  mark_in_flight_as_interrupted, mark_queued_as_interrupted,
}

module _ (test : Row → Bool) (f : Row → Row) where
  lookup-update_where :
      (sid : ℕ) (db : Sessions) (r : Row)
      → lookup sid db ≡ some r
      → lookup sid (update_where test f db) ≡ some (if test r then f r else r)
  lookup-update_where sid [] r h = ground arith
  lookup-update_where sid ((j, s) ∷ db) r h = elim (Bool-cases (sid == j)) [
    | inl same ↦ rw same (
        ap (λ o. elim o [ none ↦ none | some x ↦ some (if test x then f x else x) ]) (rw same at h))
    | inr other ↦ rw other (lookup-update_where sid db r (rw other at h))
  ]

  update_where-again :
      ((r : Row) → test r ≡ true → test (f r) ≡ false)
      → (db : Sessions) → state_rows test (update_where test f db) ≡ []
  update_where-again drop [] = refl
  update_where-again drop ((j, r) ∷ db) = ground (arith, update_where-again drop db, drop r)

-- What a restart does to one row: a running row becomes interrupted with the time and the reason,
-- a queued row that was submitted before the cutoff likewise, and every other row stays as it is.
abbrev pub after_crash : ℕ → ℕ → Row → Row
after_crash cutoff now r =
    if is_running r
    then interrupt now "interrupted_on_startup" r
    else if is_stale cutoff r
    then interrupt now "queued_interrupted_on_startup" r
    else r

both_updates :
    (cutoff now : ℕ) (r : Row)
    → let s = if is_running r then interrupt now "interrupted_on_startup" r else r in
      (if is_stale cutoff s then interrupt now "queued_interrupted_on_startup" s else s)
      ≡ after_crash cutoff now r
both_updates cutoff now r = ground arith

after_crash_edge :
    (cutoff now : ℕ) (r : Row)
    → ((after_crash cutoff now r).status ≡ r.status)
      ⊎ (is_legal_transition r.status (after_crash cutoff now r).status ≡ true)
unfolding is_legal_transition
after_crash_edge cutoff now r = ground arith

after_crash_stopped : (cutoff now : ℕ) (r : Row) → (after_crash cutoff now r).status ≢ running
after_crash_stopped cutoff now r = ground arith

pub crash_recovery_row :
    (sid cutoff now : ℕ) (db : Sessions) (r : Row)
    → lookup sid db ≡ some r
    → lookup sid (mark_queued_as_interrupted cutoff now (mark_in_flight_as_interrupted now db).1).1
      ≡ some (after_crash cutoff now r)
unfolding mark_queued_as_interrupted mark_in_flight_as_interrupted
crash_recovery_row sid cutoff now db r h =
    lookup-update_where (is_stale cutoff) _ sid _ _
      (lookup-update_where is_running (interrupt now "interrupted_on_startup") sid db r h)
    ∙ ap some (both_updates cutoff now r)

-- A restart takes every row along an edge of the lifecycle table, to `interrupted`, or leaves its
-- status; and no row is left in `running`.
pub crash_recovery_legal :
    (sid cutoff now : ℕ) (db : Sessions) (r : Row)
    → lookup sid db ≡ some r
    → (r' : Row) × (lookup sid
          (mark_queued_as_interrupted cutoff now (mark_in_flight_as_interrupted now db).1).1
        ≡ some r')
      × ((r'.status ≡ r.status) ⊎ (is_legal_transition r.status r'.status ≡ true))
      × (r'.status ≢ running)
crash_recovery_legal sid cutoff now db r h = (
  after_crash cutoff now r,
  crash_recovery_row sid cutoff now db r h,
  after_crash_edge cutoff now r,
  after_crash_stopped cutoff now r,
)

-- Both statements are idempotent: run again, at any later time, they find no row.
pub crash_recovery_again :
    (cutoff now later : ℕ) (db : Sessions)
    → ((mark_in_flight_as_interrupted later (mark_in_flight_as_interrupted now db).1).0 ≡ [])
      × ((mark_queued_as_interrupted cutoff later (mark_queued_as_interrupted cutoff now db).1).0
          ≡ [])
unfolding mark_queued_as_interrupted mark_in_flight_as_interrupted
crash_recovery_again cutoff now later db = (
  update_where-again is_running _ (λ r h. refl) db,
  update_where-again (is_stale cutoff) _ (λ r h. refl) db,
)
