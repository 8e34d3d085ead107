-- ===== src/Retention.antt =====
-- src/gg_relay/maintenance/retention.py: old rows are deleted in batches from the events, the audit log
-- and the resolved approvals.
pub mod Batches
pub mod Kept
use gg_proxy.Base.{
  ℕ, zero, suc, ◌+◌, ◌-◌, ◌*◌, Bool, true, false, not, ◌&&◌, String, Option, none, some, List, [],
  ◌∷◌, map, ltb, if◌then◌else◌, length, is_some,
}
use gg_proxy.Base.Set.{member}
use gg_proxy.Hitl.Table.{HitlRow, HitlTable}
use gg_proxy.Paging.{where_rows}
use gg_proxy.Store.AuditLog.{LogRow}

pub record EventRow : Type 0 where
  pub event_id : ℕ
  pub ts : ℕ
  pub kind : String
  pub session_id : Option ℕ
  pub payload : String
  pub delivery_tier : String
  pub seq : ℕ

-- The count of deleted rows and of batches beside the table.
pub data Swept (A : Type 0) : Type 0 where
  no_fuel : Swept A
  swept : List A → ℕ → ℕ → Swept A

module _ {A : Type 0} (pk : A → ℕ) where
  -- `DELETE WHERE pk IN ids`
  abbrev pub delete_rows : List ℕ → List A → List A
  delete_rows ids = where_rows (λ row. not (member (pk row) ids))

  -- `rowcount`, or the length of the list if the driver does not know it.
  abbrev pub affected : Bool → List ℕ → List A → ℕ
  affected knows ids table =
      if knows then length (where_rows (λ row. member (pk row) ids) table) else length ids

  -- The rest of the loop's body, given the ids and what further rounds would do.
  abbrev pub after_select : Bool → ℕ → Bool → List ℕ → ℕ → ℕ → List A → Swept A → Swept A
  after_select knows batch_size dry_run [] deleted batches table rest = swept table deleted batches
  after_select knows batch_size dry_run (id ∷ ids) deleted batches table rest =
      if dry_run
      then swept table (deleted + length (id ∷ ids)) (suc batches)
      else if ltb (length (id ∷ ids)) batch_size
      then swept (delete_rows (id ∷ ids) table) (deleted + affected knows (id ∷ ids) table)
          (suc batches)
      else rest

  -- Which rows a `LIMIT` without an order leaves in is up to the database: `chosen`.
  module _ (test : A → Bool) (chosen : ℕ → List A → A → Bool) where
    unfoldable pub ids_to_delete : ℕ → List A → List ℕ
    ids_to_delete batch_size table =
        map pk (where_rows (λ row. test row && chosen batch_size table row) table)

    unfoldable pub delete_in_batches : Bool → ℕ → ℕ → Bool → ℕ → ℕ → List A → Swept A
    delete_in_batches knows batch_size zero dry_run deleted batches table = no_fuel
    delete_in_batches knows batch_size (suc fuel) dry_run deleted batches table =
        let ids : List ℕ = ids_to_delete batch_size table in
        let total : ℕ = deleted + affected knows ids table in
        after_select knows batch_size dry_run ids deleted batches table (
          delete_in_batches knows batch_size fuel dry_run total (suc batches)
            (delete_rows ids table))

pub record Engine : Type 0 where
  pub events : List EventRow
  pub audit_log : List LogRow
  pub hitl_requests : HitlTable

pub record RetentionSummary : Type 0 where
  pub table : String
  pub cutoff : ℕ
  pub rows_deleted : ℕ
  pub batches : ℕ
  pub dry_run : Bool

pub record RetentionResult : Type 0 where
  pub summaries : List RetentionSummary
  pub total_deleted : ℕ
  pub dry_run : Bool

-- `overflowed` is the `OverflowError` of a cutoff before the year 1.
pub data Run : Type 0 where
  finished : RetentionResult → Engine → Run
  overflowed : Engine → Run
  unfinished : Run

-- Times are counted in microseconds from the year 1.
abbrev pub day : ℕ
day = 86400000000

abbrev pub cutoff_of : ℕ → ℕ → Option ℕ
cutoff_of now days = if ltb now (days * day) then none else some (now - days * day)

abbrev pub old_event : ℕ → EventRow → Bool
old_event cutoff row = ltb row.ts cutoff

abbrev pub old_entry : ℕ → LogRow → Bool
old_entry cutoff row = ltb row.ts cutoff

-- A comparison with NULL does not hold.
abbrev pub resolved_before : Option ℕ → ℕ → Bool
resolved_before none cutoff = false
resolved_before (some t) cutoff = ltb t cutoff

abbrev pub old_request : ℕ → ℕ × HitlRow → Bool
old_request cutoff row = resolved_before row.1.resolved_at cutoff && is_some row.1.resolved_at

pub record RetentionOptions : Type 0 where
  pub events_days : ℕ
  pub audit_log_days : ℕ
  pub hitl_resolved_days : ℕ
  pub batch_size : ℕ
  pub dry_run : Bool

-- What the database leaves in, for each of the tables, under a condition.
pub record Choices : Type 0 where
  pub events : (EventRow → Bool) → ℕ → List EventRow → EventRow → Bool
  pub audit_log : (LogRow → Bool) → ℕ → List LogRow → LogRow → Bool
  pub hitl_requests : (ℕ × HitlRow → Bool) → ℕ → HitlTable → ℕ × HitlRow → Bool

abbrev pub event_key : EventRow → ℕ
event_key row = row.event_id

abbrev pub entry_key : LogRow → ℕ
entry_key row = row.id

abbrev pub request_key : ℕ × HitlRow → ℕ
request_key row = row.0

abbrev pub summary_of : String → ℕ → Bool → ℕ → ℕ → RetentionSummary
summary_of table cutoff dry_run deleted batches = record {
  table = table;
  cutoff = cutoff;
  rows_deleted = deleted;
  batches = batches;
  dry_run = dry_run;
}

abbrev pub result_of :
    Bool → RetentionSummary → RetentionSummary → RetentionSummary → RetentionResult
result_of dry_run a b c = record {
  summaries = a ∷ b ∷ c ∷ [];
  total_deleted = a.rows_deleted + b.rows_deleted + c.rows_deleted;
  dry_run = dry_run;
}

module _ (choices : Choices) (knows : Bool) (fuel : ℕ) (limits : RetentionOptions) (now : ℕ) where
  unfoldable pub sweep :
      {A : Type 0} (pk : A → ℕ) (test : A → Bool)
      → ((A → Bool) → ℕ → List A → A → Bool)
      → List A
      → Swept A
  sweep pk test chosen table =
      delete_in_batches pk test (chosen test) knows limits.batch_size fuel limits.dry_run 0 0 table

  abbrev pub after_requests :
      RetentionSummary → RetentionSummary → ℕ → Engine → Swept (ℕ × HitlRow) → Run
  after_requests events audit cutoff engine no_fuel = unfinished
  after_requests events audit cutoff engine (swept table deleted batches) =
      finished
        (result_of limits.dry_run events audit
          (summary_of "hitl_requests" cutoff limits.dry_run deleted batches))
        (record engine { hitl_requests = table })

  abbrev pub sweep_requests : RetentionSummary → RetentionSummary → Engine → Option ℕ → Run
  sweep_requests events audit engine none = overflowed engine
  sweep_requests events audit engine (some cutoff) =
      after_requests events audit cutoff engine
        (sweep request_key (old_request cutoff) choices.hitl_requests engine.hitl_requests)

  abbrev pub after_entries : RetentionSummary → ℕ → Engine → Swept LogRow → Run
  after_entries events cutoff engine no_fuel = unfinished
  after_entries events cutoff engine (swept table deleted batches) =
      sweep_requests events (summary_of "audit_log" cutoff limits.dry_run deleted batches)
        (record engine { audit_log = table }) (cutoff_of now limits.hitl_resolved_days)

  abbrev pub sweep_entries : RetentionSummary → Engine → Option ℕ → Run
  sweep_entries events engine none = overflowed engine
  sweep_entries events engine (some cutoff) =
      after_entries events cutoff engine
        (sweep entry_key (old_entry cutoff) choices.audit_log engine.audit_log)

  abbrev pub after_events : ℕ → Engine → Swept EventRow → Run
  after_events cutoff engine no_fuel = unfinished
  after_events cutoff engine (swept table deleted batches) =
      sweep_entries (summary_of "events" cutoff limits.dry_run deleted batches)
        (record engine { events = table }) (cutoff_of now limits.audit_log_days)

  abbrev pub sweep_events : Engine → Option ℕ → Run
  sweep_events engine none = overflowed engine
  sweep_events engine (some cutoff) =
      after_events cutoff engine (sweep event_key (old_event cutoff) choices.events engine.events)

  unfoldable pub run_retention : Engine → Run
  run_retention engine = sweep_events engine (cutoff_of now limits.events_days)
