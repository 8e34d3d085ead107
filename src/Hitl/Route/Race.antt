-- ===== src/Hitl/Route/Race.antt =====
-- Two API workers, each with a coordinator of its own, answer one request through the shared table.
use gg_proxy.Base.{ℕ, ◌+◌, ◌≡◌, refl, some, arith}
use gg_proxy.Base.Dict.{lookup, insert, lookup-insert}
use gg_proxy.Hitl.Table.{
  decided, HitlTable, HitlRow, HitlValues, stored, stale, updated, upsert_hitl, get_hitl,
  get_hitl_version,
}
use gg_proxy.Hitl.{Coordinator}
use gg_proxy.Hitl.Route.{
  Read, recorded, conflicts, ResolveRequest, decision_from_row, conflict_response, read, answer,
  resolved_values,
}

upsert-read :
    (id : ℕ) (v : HitlValues) (now : ℕ) (t : HitlTable) (r : HitlRow)
    → lookup id t ≡ some r
    → upsert_hitl id v now (some r.version) t
      ≡ (stored (some (r.version + 1)), insert id (updated v (r.version + 1) r) t)
unfolding upsert_hitl
upsert-read id v now t r h = ground arith

-- A writer whose version is behind the row's.
upsert-behind :
    (id : ℕ) (v : HitlValues) (now n : ℕ) (t : HitlTable) (r : HitlRow)
    → lookup id t ≡ some r
    → r.version ≡ n + 1
    → upsert_hitl id v now (some n) t ≡ (stale (some r.version), t)
unfolding upsert_hitl
upsert-behind id v now n t r h e = ground arith

-- The values that an answer writes.
abbrev written_values : ℕ → ResolveRequest → HitlRow → ℕ → HitlValues
written_values sid body r now =
    resolved_values sid (some r) body.decision body.reason body.resolver now

abbrev next_row : ℕ → ResolveRequest → HitlRow → ℕ → HitlRow
unfolding updated
next_row sid body r now = updated (written_values sid body r now) (r.version + 1) r

abbrev seen : HitlRow → Read
seen r = record { expected = some r.version; row = some r }

read-found : (id : ℕ) (t : HitlTable) (r : HitlRow) → lookup id t ≡ some r → read id t ≡ seen r
unfolding read get_hitl get_hitl_version
read-found id t r h = ground arith

recorded_table :
    (sid id : ℕ) (body : ResolveRequest) (now : ℕ) (c : Coordinator) (t : HitlTable) (r : HitlRow)
    → lookup id t ≡ some r
    → (answer sid id body (seen r) now (c, t)).0 ≡ recorded body.decision id
    → (answer sid id body (seen r) now (c, t)).2 ≡ insert id (next_row sid body r now) t
unfolding answer updated
recorded_table sid id body now c t r h =
    ground (arith, upsert-read id (written_values sid body r now) now t r h)

-- A worker that read the row before another worker's answer was written.
late_answer :
    (sid id : ℕ) (body : ResolveRequest) (now : ℕ) (c : Coordinator) (t : HitlTable)
    (r r' : HitlRow)
    → lookup id t ≡ some r'
    → r'.version ≡ r.version + 1
    → (answer sid id body (seen r) now (c, t)).0 ≡ conflicts id (decision_from_row (some r'))
unfolding answer conflict_response get_hitl
late_answer sid id body now c t r r' h v =
    ground (arith, upsert-behind id (written_values sid body r now) now r.version t r' h v)

-- Two workers read the same row of a request, and both go on to answer it. If the first is told that
-- its decision is recorded, then the second, whatever its coordinator holds, is told of a conflict,
-- and its body shows the first one's decision, resolver, reason and time.
pub answer_race :
    (sid id : ℕ) (first second : ResolveRequest) (now later : ℕ) (c d : Coordinator) (t : HitlTable)
    (r : HitlRow)
    → lookup id t ≡ some r
    → (answer sid id first (read id t) now (c, t)).0 ≡ recorded first.decision id
    → let t' = (answer sid id first (read id t) now (c, t)).2 in
      (answer sid id second (read id t) later (d, t')).0
      ≡ conflicts id (
          some (record {
            status = decided first.decision;
            resolver = first.resolver;
            reason = first.reason;
            resolved_at = some now;
          }))
unfolding decision_from_row updated
answer_race sid id first second now later c d t r h = rw (read-found id t r h) (λ e.
    late_answer sid id second later d _ r (next_row sid first r now)
      (rw (recorded_table sid id first now c t r h e)
        (ground (arith, lookup-insert id id (next_row sid first r now) t)))
      refl)
