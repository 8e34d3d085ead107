-- ===== src/Manager/Run/Settle.antt =====
-- What the end of a task leaves behind.
use Prim.Native.String.{String, ◌++◌ as ◌+++◌}
use gg_proxy.Base.{
  ℕ, ◌+◌, ◌≡◌, refl, sym, ap, subst, ◌∙◌, Bool, false, Option, none, some, arith, if◌then◌else◌,
  is_some,
}
use gg_proxy.Domain.{SessionState, completed, failed, cancelled}
use gg_proxy.Base.Dict.{
  Dict, lookup, insert, contains, Distinct, lookup-insert_self, lookup-erase_self,
}
use gg_proxy.Base.Set.{member, member-discard_self}
use gg_proxy.Store.{Row, Sessions, patched, Aggregates, update_session_aggregates}
use gg_proxy.Manager.State.{Manager, Task}
use gg_proxy.Manager.Locked.{locked, update_status_locked, update_status_locked_absorbs}
use gg_proxy.Manager.Frames.{EndFrame, harvest, record_session_end}
use gg_proxy.Manager.Run.{
  Ending, completes, times_out, is_cancelled, install_fails, fails, ended_patch, handle_ending,
  return_slot, forget, write_quietly, flush_aggregates, announce_end, settle, run_finish,
}

-- The handlers and the bookkeeping leave the table, the metrics and the tasks alone.
abbrev Same : Manager → Manager → Type 0
Same m m' = (m'.store ≡ m.store) × (m'.metrics ≡ m.metrics) × (m'.running_tasks ≡ m.running_tasks)

handle_ending-Same : (sid : ℕ) (e : Ending) (m : Manager) → Same m (handle_ending sid e m)
unfolding handle_ending
handle_ending-Same sid completes m = (refl, refl, refl)
handle_ending-Same sid times_out m = (refl, refl, refl)
handle_ending-Same sid is_cancelled m = (refl, refl, refl)
handle_ending-Same sid (install_fails code message) m = (refl, refl, refl)
handle_ending-Same sid (fails category http_status message) m = (refl, refl, refl)

return_slot-Same : (sid : ℕ) (acquired : Bool) (m : Manager) → Same m (return_slot sid acquired m)
unfolding return_slot
return_slot-Same sid acquired m = ground arith

forget-Same :
    (sid : ℕ) (m : Manager)
    → Same m (forget sid m)
      × (member sid (forget sid m).bridges ≡ false)
      × (member sid (forget sid m).paused_set ≡ false)
unfolding forget
forget-Same sid m =
    ((refl, refl, refl), member-discard_self sid m.bridges, member-discard_self sid m.paused_set)

-- What an ending is to be seen as: the status, and the reason, which a completed session has none of.
abbrev pub seen_as : Ending → SessionState × Option String
seen_as completes = (completed, none)
seen_as times_out = (cancelled, some "timeout")
seen_as is_cancelled = (cancelled, some "cancelled")
seen_as (install_fails code message) = (failed, some ("install:" +++ code))
seen_as (fails category http_status message) = (failed, some (category +++ ":" +++ http_status))

-- The row that is expected: a row of a session that completes keeps a reason that it had.
abbrev pub settled_row : Ending → ℕ → Aggregates → Row → Row
settled_row e now a r = record r {
  status = (seen_as e).0;
  ended_at = some now;
  end_reason = if is_some (seen_as e).1 then (seen_as e).1 else r.end_reason;
  version = r.version + 1;
  aggregates = a;
}

-- It is the row that the code writes.
settled_row_written :
    (e : Ending) (now : ℕ) (a : Aggregates) (r : Row)
    → record (patched (ended_patch now e) (r.version + 1) r) { aggregates = a }
      ≡ settled_row e now a r
unfolding patched
settled_row_written completes now a r = refl
settled_row_written times_out now a r = refl
settled_row_written is_cancelled now a r = refl
settled_row_written (install_fails code message) now a r = refl
settled_row_written (fails category http_status message) now a r = refl

settle-row :
    (sid : ℕ) (e : Ending) (now : ℕ) (m : Manager) (r : Row) (a : Aggregates)
    → lookup sid m.store ≡ some r
    → lookup sid m.metrics ≡ some a
    → Distinct m.running_tasks
    → let m' = settle sid e now (λ db. db) m in
      (lookup sid m'.store ≡ some (settled_row e now a r))
      × (contains sid m'.running_tasks ≡ false)
      × (m'.bridges ≡ m.bridges)
      × (m'.paused_set ≡ m.paused_set)
unfolding settle write_quietly flush_aggregates announce_end update_session_aggregates
settle-row sid e now m r a h k d = (
  ground (arith, k, write, first, second, settled_row_written e now a r),
  ground (arith, k, write, first, lookup-erase_self sid m.running_tasks d),
  ground (arith, k, write, first),
  ground (arith, k, write, first),
)
  where
    row : Row
    row = patched (ended_patch now e) (r.version + 1) r

    write :
        update_status_locked sid none (ended_patch now e) (λ db. db) m.store
        ≡ (locked (r.version + 1), insert sid row m.store)
    write = update_status_locked_absorbs sid (ended_patch now e) none m.store r refl h

    first : lookup sid (insert sid row m.store) ≡ some row
    first = lookup-insert_self sid row m.store

    second :
        lookup sid (insert sid (record row { aggregates = a }) (insert sid row m.store))
        ≡ some (record row { aggregates = a })
    second = lookup-insert_self sid (record row { aggregates = a }) (insert sid row m.store)

-- The end of a task whose session has a row and metrics, where the tasks' ids are distinct and no
-- other writer is at the table meanwhile: the row is one version on, with the time and the aggregates
-- that were collected. It says completed, with the reason that it had, where the body completed;
-- cancelled where it timed out or was cancelled, and which of the two; and failed where it raised, with
-- the code of the installation or the category and the HTTP status of the error. And the session is
-- no longer tracked: no task, no bridge, no pause.
pub run_finish-settled_row :
    (sid : ℕ) (e : Ending) (now : ℕ) (t : Task) (m : Manager) (r : Row) (a : Aggregates)
    → lookup sid m.store ≡ some r
    → lookup sid m.metrics ≡ some a
    → Distinct m.running_tasks
    → let m' = run_finish sid e now (λ db. db) t m in
      (lookup sid m'.store ≡ some (settled_row e now a r))
      × (contains sid m'.running_tasks ≡ false)
      × (member sid m'.bridges ≡ false)
      × (member sid m'.paused_set ≡ false)
unfolding run_finish
run_finish-settled_row sid e now t m r a h k d =
    let m₁ = handle_ending sid e m in
    let m₂ = return_slot sid t.acquired m₁ in
    let m₃ = forget sid m₂ in
    let one = handle_ending-Same sid e m in
    let two = return_slot-Same sid t.acquired m₁ in
    let three = forget-Same sid m₂ in
    let end =
      settle-row sid e now m₃ r a
        (ap (λ (db : Sessions). lookup sid db) (three.0.0 ∙ two.0 ∙ one.0) ∙ h)
        (ap (λ (d : Dict Aggregates). lookup sid d) (three.0.1 ∙ two.1 ∙ one.1) ∙ k)
        (subst Distinct (sym (three.0.2 ∙ two.2 ∙ one.2)) d) in
    (end.0, end.1, ap (member sid) end.2 ∙ three.1, ap (member sid) end.3 ∙ three.2)

-- The numbers of the agent's last frame, together with how its task then ends, reach the row of a
-- session that has a row and metrics, where the tasks' ids are distinct and no other writer is at the
-- table.
pub end_frame_reaches_row :
    (sid : ℕ) (f : EndFrame) (e : Ending) (now : ℕ) (t : Task) (m : Manager) (r : Row)
    (a : Aggregates)
    → lookup sid m.store ≡ some r
    → lookup sid m.metrics ≡ some a
    → Distinct m.running_tasks
    → lookup sid (run_finish sid e now (λ db. db) t (record_session_end sid f m)).store
      ≡ some (settled_row e now (harvest f a) r)
unfolding record_session_end
end_frame_reaches_row sid f e now t m r a h k d =
    rw (k, record_session_end)
      (run_finish-settled_row sid e now t
        (record m { metrics = insert sid (harvest f a) m.metrics }) r (harvest f a) h
        (lookup-insert_self sid (harvest f a) m.metrics) d).0
