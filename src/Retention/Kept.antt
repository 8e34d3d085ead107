-- ===== src/Retention/Kept.antt =====
-- src/gg_relay/maintenance/retention.py: what a run of `run_retention` keeps.
use gg_proxy.Base.{
  ℕ, zero, suc, ◌+◌, ◌-◌, ◌*◌, ◌≤◌, ◌<◌, ◌≡◌, refl, Bool, true, false, not, ◌&&◌, some, List, [],
  ◌∷◌, map, length, take, min, arith, Bool-cases, inl, inr, sym, ◌∙◌, subst,
}
use gg_proxy.Base.Set.{member}
use gg_proxy.Hitl.Table.{HitlRow}
use gg_proxy.Paging.{where_rows}
use gg_proxy.Store.AuditLog.{LogRow}
use gg_proxy.Retention.{
  EventRow, swept, Engine, RetentionResult, finished, day, cutoff_of, old_event, old_entry,
  old_request, RetentionOptions, Choices, event_key, entry_key, request_key, summary_of, result_of,
  sweep, run_retention,
}
use gg_proxy.Retention.Batches.{IsFresh, IsKeyed, IsLimit, delete_in_batches_lem, count_both}

-- The rows that are to stay.
abbrev pub pruned : RetentionOptions → ℕ → Engine → Engine
pruned limits now engine = record {
  events = where_rows (λ row. not (old_event (now - limits.events_days * day) row)) engine.events;
  audit_log =
      where_rows (λ row. not (old_entry (now - limits.audit_log_days * day) row)) engine.audit_log;
  hitl_requests =
      where_rows (λ row. not (old_request (now - limits.hitl_resolved_days * day) row))
        engine.hitl_requests;
}

abbrev pub size : Engine → ℕ
size engine = length engine.events + length engine.audit_log + length engine.hitl_requests

cutoff_lem : (now days : ℕ) → days * day ≤ now → cutoff_of now days ≡ some (now - days * day)
cutoff_lem now days h = ground arith

module _ (choices : Choices) (knows : Bool) (fuel : ℕ) (limits : RetentionOptions) (now : ℕ) where
  sweep_lem :
      {A : Type 0} (pk : A → ℕ) (test : A → Bool) (chosen : (A → Bool) → ℕ → List A → A → Bool)
      (table : List A)
      → limits.dry_run ≡ false
      → 1 ≤ limits.batch_size
      → IsLimit pk test (chosen test)
      → IsKeyed pk table
      → length table < fuel
      → (deleted batches : ℕ) × ((sweep choices knows fuel limits now pk test chosen table
            ≡ swept (where_rows (λ row. not (test row)) table) deleted batches)
          × (length (where_rows (λ row. not (test row)) table) + deleted ≡ length table))
  unfolding sweep
  sweep_lem pk test chosen table live pos limit keyed enough =
      let n : ℕ = limits.batch_size in
      let out =
        delete_in_batches_lem pk test (chosen test) limit knows n fuel 0 0 table keyed
          (omega (arith, count_both test table)) pos in
      (
        0 + length (where_rows test table),
        0 + out.0,
        (rw live out.1.0, omega (arith, count_both test table)),
      )

  -- If no cutoff lies before the year 1, batches are not empty and the run is not a dry one, then for
  -- tables with distinct keys a run ends, within as many rounds for a table as it has rows and one more,
  -- and leaves exactly the rows that are not older than the cutoff of their table, approvals that wait
  -- among them. The total that it gives is the number of rows that are gone.
  pub run_retention-pruned :
      (engine : Engine)
      → limits.dry_run ≡ false
      → 1 ≤ limits.batch_size
      → limits.events_days * day ≤ now
      → limits.audit_log_days * day ≤ now
      → limits.hitl_resolved_days * day ≤ now
      → ((test : EventRow → Bool) → IsLimit event_key test (choices.events test))
      → ((test : LogRow → Bool) → IsLimit entry_key test (choices.audit_log test))
      → ((test : ℕ × HitlRow → Bool) → IsLimit request_key test (choices.hitl_requests test))
      → IsKeyed event_key engine.events
      → IsKeyed entry_key engine.audit_log
      → IsKeyed request_key engine.hitl_requests
      → length engine.events < fuel
      → length engine.audit_log < fuel
      → length engine.hitl_requests < fuel
      → (result : RetentionResult) × ((run_retention choices knows fuel limits now engine
            ≡ finished result (pruned limits now engine))
          × (size (pruned limits now engine) + result.total_deleted ≡ size engine))
  unfolding run_retention
  run_retention-pruned engine live pos p q r le la lh ke ka kh fe fa fh =
      let e : ℕ = now - limits.events_days * day in
      let a : ℕ = now - limits.audit_log_days * day in
      let h : ℕ = now - limits.hitl_resolved_days * day in
      let one =
        sweep_lem event_key (old_event e) choices.events engine.events live pos (le (old_event e))
          ke fe in
      let two =
        sweep_lem entry_key (old_entry a) choices.audit_log engine.audit_log live pos
          (la (old_entry a)) ka fa in
      let three =
        sweep_lem request_key (old_request h) choices.hitl_requests engine.hitl_requests live pos
          (lh (old_request h)) kh fh in
      (
        result_of limits.dry_run (summary_of "events" e limits.dry_run one.0 one.1)
            (summary_of "audit_log" a limits.dry_run two.0 two.1)
            (summary_of "hitl_requests" h limits.dry_run three.0 three.1),
        (
          rw (cutoff_lem now limits.events_days p) (
              rw (one.2.0) (
                rw (cutoff_lem now limits.audit_log_days q) (
                  rw (two.2.0)
                    (rw (cutoff_lem now limits.hitl_resolved_days r) (rw (three.2.0) refl))))),
          omega (arith, one.2.1, two.2.1, three.2.1),
        ),
      )

-- A database that leaves the first rows in.
module _ {A : Type 0} (pk : A → ℕ) (test : A → Bool) where
  abbrev pub first_rows : ℕ → List A → A → Bool
  first_rows n table row = member (pk row) (take n (map pk (where_rows test table)))

  none_chosen : (rows : List A) → length (where_rows (λ row. test row && false) rows) ≡ 0
  none_chosen [] = refl
  none_chosen (row ∷ rows) = ground (arith, none_chosen rows)

  fresh_choice :
      (k : ℕ) (ids : List ℕ) (rows : List A)
      → IsFresh pk k rows
      → where_rows (λ row. test row && member (pk row) (k ∷ ids)) rows
        ≡ where_rows (λ row. test row && member (pk row) ids) rows
  fresh_choice k ids [] h = refl
  fresh_choice k ids (row ∷ rows) h = ground (arith, fresh_choice k ids rows h.1)

  -- The ids pick as many of the matching rows as the limit allows.
  abbrev Counts : ℕ → List A → List ℕ → Type 0
  Counts n rows ids =
      length (where_rows (λ row. test row && member (pk row) ids) rows)
      ≡ min n (length (where_rows test rows))

  length-chosen :
      (n : ℕ) (rows : List A) (ids : List ℕ)
      → IsKeyed pk rows
      → take n (map pk (where_rows test rows)) ≡ ids
      → Counts n rows ids
  length-chosen n [] ids keyed e = omega arith
  length-chosen zero (row ∷ rows) ids keyed e =
      subst (Counts zero (row ∷ rows)) e (omega (arith, none_chosen (row ∷ rows)))
  length-chosen (suc n) (row ∷ rows) ids keyed e = elim (Bool-cases (test row)) [
    | inl h ↦ subst (Counts (suc n) (row ∷ rows)) (sym (picked h) ∙ e) (
        ground (
          arith,
          h,
          fresh_choice (pk row) (take n (map pk (where_rows test rows))) rows keyed.0,
          length-chosen n rows (take n (map pk (where_rows test rows))) keyed.1 refl,
        ))
    | inr h ↦ ground (arith, h, length-chosen (suc n) rows ids keyed.1 (sym (passed h) ∙ e))
  ]
    where
      picked :
          test row ≡ true
          → take (suc n) (map pk (where_rows test (row ∷ rows)))
            ≡ pk row ∷ take n (map pk (where_rows test rows))
      picked h = rw h refl

      passed :
          test row ≡ false
          → take (suc n) (map pk (where_rows test (row ∷ rows)))
            ≡ take (suc n) (map pk (where_rows test rows))
      passed h = rw h refl

  pub first_rows-IsLimit : IsLimit pk test first_rows
  first_rows-IsLimit n rows keyed =
      length-chosen n rows (take n (map pk (where_rows test rows))) keyed refl
