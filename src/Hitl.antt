-- ===== src/Hitl.antt =====
-- src/gg_relay/session/hitl/coordinator.py: requests for a human decision that wait for an answer.
-- A request id and a session id are texts that are only compared; a number stands for each.
pub mod Table
pub mod Decisions
pub mod Route
pub mod Policy
use gg_proxy.Base.{
  ℕ, suc, ◌+◌, Bool, true, false, not, ◌&&◌, ◌||◌, String, Option, none, some, List, [], ◌∷◌, ◌==◌,
  if◌then◌else◌, is_some, length, ◌≡◌, refl, ◌⊎◌, inl, inr,
}
use gg_proxy.Base.Dict.{Dict, lookup, contains, insert, erase}
use Table.{Decision, deny, HitlStatus, pending, HitlTable, HitlRow, status_eq}

-- `future` is empty while the answer is awaited.
pub record PendingEntry : Type 0 where
  pub tool : String
  pub args : String
  pub future : Option (Decision × Option String)
  pub session_id : ℕ

-- `store` tells whether a table of requests is attached.
pub record Coordinator : Type 0 where
  pub waiting : Dict PendingEntry
  pub store : Bool

pub data Error : Type 0 where
  already_pending : Error
  not_pending : Error
  -- with the row that won
  already_resolved : HitlRow → Error

pub data Result (A : Type 0) : Type 0 where
  ok : A → Result A
  err : Error → Result A

pub Result-cases :
    {A : Type 0} (r : Result A) → ((e : Error) × (r ≡ err e)) ⊎ ((a : A) × (r ≡ ok a))
Result-cases (ok a) = inr (a, refl)
Result-cases (err e) = inl (e, refl)

abbrev pub done : PendingEntry → Bool
done e = is_some e.future

unfoldable pub attach_store : Coordinator → Coordinator
attach_store c = record c { store = true }

-- The first part of `request_with_reason`, up to its `await`.
unfoldable pub register : ℕ → String → String → ℕ → Coordinator → Result Coordinator
register req_id tool args session_id c =
    if contains req_id c.waiting
    then err already_pending
    else ok (record c { waiting = insert req_id entry c.waiting })
  where
    entry : PendingEntry
    entry = record { tool = tool; args = args; future = none; session_id = session_id }

-- Its second part: the answer once there is one, `none` while the caller goes on waiting. The entry
-- goes with the answer.
unfoldable pub awake : ℕ → Coordinator → Option (Decision × Option String) × Coordinator
awake req_id c = elim (lookup req_id c.waiting) [
  | none ↦ (none, c)
  | some e ↦ elim e.future [
    | none ↦ (none, c)
    | some answer ↦ (some answer, record c { waiting = erase req_id c.waiting })
  ]
]

-- The caller is cancelled while it waits: its `finally` drops the entry.
unfoldable pub abandon : ℕ → Coordinator → Coordinator
abandon req_id c = record c { waiting = erase req_id c.waiting }

set_future : ℕ → Decision → Option String → Coordinator → Result Coordinator
set_future req_id decision reason c = elim (lookup req_id c.waiting) [
  | none ↦ err not_pending
  | some e ↦
      if done e
      then err not_pending
      else ok (record c {
        waiting = insert req_id (record e { future = some (decision, reason) }) c.waiting;
      })
]

-- The row of an attached store is consulted before the future is set.
unfoldable pub resolve : ℕ → Decision → Option String → HitlTable → Coordinator → Result Coordinator
unfolding set_future
resolve req_id decision reason table c =
    let set = set_future req_id decision reason c in
    if c.store
    then elim (lookup req_id table) [
      | none ↦ set
      | some row ↦ if status_eq row.status pending then set else err (already_resolved row)
    ]
    else set

-- Whether `cancel_all` answers an entry: it waits, and is of the session if one is named.
abbrev pub in_scope : Option ℕ → PendingEntry → Bool
in_scope none e = not (done e)
in_scope (some sid) e = not (done e) && e.session_id == sid

abbrev pub deny_entry : String → Option ℕ → PendingEntry → PendingEntry
deny_entry reason scope e =
    if in_scope scope e then record e { future = some (deny, some reason) } else e

abbrev pub deny_all : String → Option ℕ → Dict PendingEntry → Dict PendingEntry
deny_all reason scope [] = []
deny_all reason scope ((k, e) ∷ d) = (k, deny_entry reason scope e) ∷ deny_all reason scope d

abbrev pub count_scope : Option ℕ → Dict PendingEntry → ℕ
count_scope scope [] = 0
count_scope scope ((k, e) ∷ d) =
    let n = count_scope scope d in if in_scope scope e then suc n else n

unfoldable pub cancel_all : String → Option ℕ → Coordinator → ℕ × Coordinator
cancel_all reason scope c =
    (count_scope scope c.waiting, record c { waiting = deny_all reason scope c.waiting })

pub record Snapshot : Type 0 where
  pub tool : String
  pub args : String
  pub session_id : ℕ

abbrev pub snapshot_of : Option ℕ → Dict PendingEntry → Dict Snapshot
snapshot_of scope [] = []
snapshot_of scope ((k, e) ∷ d) =
    let rest = snapshot_of scope d in
    if in_scope scope e
    then (k, record { tool = e.tool; args = e.args; session_id = e.session_id }) ∷ rest
    else rest

unfoldable pub pending_snapshot : Option ℕ → Coordinator → Dict Snapshot
pending_snapshot scope c = snapshot_of scope c.waiting
