-- ===== src/Hitl/Decisions.antt =====
-- Each request gets one answer, and `cancel_all` leaves none waiting in its scope.
use gg_proxy.Base.{
  ℕ, ◌≡◌, ◌≢◌, refl, sym, ap, ◌∙◌, inl, inr, false, String, Option, none, some, List, [], ◌∷◌,
  arith, ◌==◌, if◌then◌else◌, length, Option-cases, Bool-cases,
}
use gg_proxy.Base.Dict.{Dict, lookup, lookup-insert, lookup-erase_ne}
use gg_proxy.Hitl.Table.{Decision, deny, HitlTable}
use gg_proxy.Hitl.{
  Coordinator, PendingEntry, Result, ok, err, register, awake, abandon, resolve, in_scope,
  deny_entry, deny_all, count_scope, cancel_all, snapshot_of, pending_snapshot,
}

-- What may happen in the process between the answer to a request and its caller's waking up. A call
-- that raises leaves the coordinator as it was.
pub data Call : Type 0 where
  registers : ℕ → String → String → ℕ → Call
  resolves : ℕ → Decision → Option String → HitlTable → Call
  cancels : String → Option ℕ → Call
  wakes : ℕ → Call
  abandons : ℕ → Call

abbrev pub after : Coordinator → Result Coordinator → Coordinator
after c (ok c') = c'
after c (err e) = c

pub step : Coordinator → Call → Coordinator
step c (registers id tool args sid) = after c (register id tool args sid c)
step c (resolves id d reason table) = after c (resolve id d reason table c)
step c (cancels reason scope) = (cancel_all reason scope c).1
step c (wakes id) = (awake id c).1
step c (abandons id) = abandon id c

pub run : Coordinator → List Call → Coordinator
run c [] = c
run c (x ∷ xs) = run (step c x) xs

-- The caller of the request itself does not act in between.
abbrev pub Spares : ℕ → Call → Type 0
Spares id (wakes j) = j ≢ id
Spares id (abandons j) = j ≢ id
Spares id _ = Unit {0}

abbrev pub AllSpare : ℕ → List Call → Type 0
AllSpare id [] = Unit {0}
AllSpare id (x ∷ xs) = Spares id x × AllSpare id xs

lookup-deny_all :
    (reason : String) (scope : Option ℕ) (k : ℕ) (d : Dict PendingEntry) (e : PendingEntry)
    → lookup k d ≡ some e
    → lookup k (deny_all reason scope d) ≡ some (deny_entry reason scope e)
lookup-deny_all reason scope k [] e h = ground arith
lookup-deny_all reason scope k ((j, f) ∷ d) e h = elim (Bool-cases (k == j)) [
  | inl same ↦
      rw same (
        ap (λ o. elim o [ none ↦ none | some x ↦ some (deny_entry reason scope x) ]) (rw same at h))
  | inr other ↦ rw other (lookup-deny_all reason scope k d e (rw other at h))
]

-- The answer that an entry holds.
abbrev pub Holds : ℕ → Decision × Option String → Coordinator → Type 0
Holds id answer c = (e : PendingEntry) × (lookup id c.waiting ≡ some e) × (e.future ≡ some answer)

pub after-resolve-Holds :
    (id : ℕ) (answer : Decision × Option String) (j : ℕ) (d : Decision) (reason : Option String)
    (table : HitlTable) (c : Coordinator)
    → Holds id answer c
    → Holds id answer (after c (resolve j d reason table c))
unfolding resolve
after-resolve-Holds id answer j d reason table c (e, h, f) =
    elim (Option-cases (lookup j c.waiting)) [
      | inl missing ↦ (e, ground arith, f)
      | inr (g, found) ↦ (
        e,
        ground (arith, lookup-insert id j (record g { future = some (d, reason) }) c.waiting),
        f,
      )
    ]

step-Holds :
    (id : ℕ) (answer : Decision × Option String) (c : Coordinator) (x : Call)
    → Spares id x
    → Holds id answer c
    → Holds id answer (step c x)
unfolding step register awake abandon cancel_all
step-Holds id answer c (registers j tool args sid) s (e, h, f) =
    (e, ground (arith, lookup-insert id j new c.waiting), f)
  where
    new : PendingEntry
    new = record { tool = tool; args = args; future = none; session_id = sid }
step-Holds id answer c (resolves j d reason table) s h =
    after-resolve-Holds id answer j d reason table c h
step-Holds id answer c (cancels reason scope) s (e, h, f) =
    (e, lookup-deny_all reason scope id c.waiting e h ∙ ground arith, f)
step-Holds id answer c (wakes j) s (e, h, f) =
    (e, ground (arith, lookup-erase_ne id j c.waiting), f)
step-Holds id answer c (abandons j) s (e, h, f) =
    (e, ground (arith, lookup-erase_ne id j c.waiting), f)

run-Holds :
    (id : ℕ) (answer : Decision × Option String) (c : Coordinator) (xs : List Call)
    → AllSpare id xs
    → Holds id answer c
    → Holds id answer (run c xs)
unfolding run
run-Holds id answer c [] s h = h
run-Holds id answer c (x ∷ xs) s h =
    run-Holds id answer (step c x) xs s.1 (step-Holds id answer c x s.0 h)

pub resolve-Holds :
    (id : ℕ) (d : Decision) (reason : Option String) (table : HitlTable) (c c' : Coordinator)
    → resolve id d reason table c ≡ ok c'
    → Holds id (d, reason) c'
unfolding resolve
resolve-Holds id d reason table c c' h = elim (Option-cases (lookup id c.waiting)) [
  | inl missing ↦ absurd (ground arith)
  | inr (g, found) ↦ (
    record g { future = some (d, reason) },
    ground (arith, lookup-insert id id (record g { future = some (d, reason) }) c.waiting),
    refl,
  )
]

-- The first answer wins: once `resolve` has gone through for a request, whatever else happens before its
-- caller wakes up (further answers to it, `cancel_all`, other requests that come and go), the
-- caller is woken with that decision and that reason.
pub resolve_wins :
    (id : ℕ) (d : Decision) (reason : Option String) (table : HitlTable) (c c' : Coordinator)
    (xs : List Call)
    → resolve id d reason table c ≡ ok c'
    → AllSpare id xs
    → (awake id (run c' xs)).0 ≡ some (d, reason)
unfolding awake
resolve_wins id d reason table c c' xs h s =
    let (e, found, f) = run-Holds id (d, reason) c' xs s (resolve-Holds id d reason table c c' h) in
    ground arith

cancelled_out_of_scope :
    (reason : String) (scope : Option ℕ) (e : PendingEntry)
    → in_scope scope (deny_entry reason scope e) ≡ false
cancelled_out_of_scope reason none e = ground arith
cancelled_out_of_scope reason (some sid) e = ground arith

count_scope-deny_all :
    (reason : String) (scope : Option ℕ) (d : Dict PendingEntry)
    → count_scope scope (deny_all reason scope d) ≡ 0
count_scope-deny_all reason scope [] = refl
count_scope-deny_all reason scope ((k, e) ∷ d) =
    rw (cancelled_out_of_scope reason scope e) (count_scope-deny_all reason scope d)

length-snapshot_of :
    (scope : Option ℕ) (d : Dict PendingEntry) → length (snapshot_of scope d) ≡ count_scope scope d
length-snapshot_of scope [] = refl
length-snapshot_of scope ((k, e) ∷ d) = ground (arith, length-snapshot_of scope d)

-- `cancel_all` reports as many requests as the snapshot of its scope shows, it leaves that snapshot
-- empty, and a second call finds nothing to cancel.
pub cancel_all_snapshot :
    (reason again : String) (scope : Option ℕ) (c : Coordinator)
    → let (n, c') = cancel_all reason scope c in
      (n ≡ length (pending_snapshot scope c))
      × (length (pending_snapshot scope c') ≡ 0)
      × ((cancel_all again scope c').0 ≡ 0)
unfolding cancel_all pending_snapshot
cancel_all_snapshot reason again scope c = (
  sym (length-snapshot_of scope c.waiting),
  length-snapshot_of scope (deny_all reason scope c.waiting)
      ∙ count_scope-deny_all reason scope c.waiting,
  count_scope-deny_all reason scope c.waiting,
)

-- `cancel_all` answers exactly the requests that wait in its scope, with `deny` and its reason: one
-- that waits there is woken so, and every other one is woken as it would have been without the call.
pub awake-cancel_all :
    (reason : String) (scope : Option ℕ) (id : ℕ) (c : Coordinator) (e : PendingEntry)
    → lookup id c.waiting ≡ some e
    → (awake id (cancel_all reason scope c).1).0
      ≡ (if in_scope scope e then some (deny, some reason) else (awake id c).0)
unfolding cancel_all awake
awake-cancel_all reason scope id c e h = elim (Bool-cases (in_scope scope e)) [
  | inl within ↦ ground (arith, lookup-deny_all reason scope id c.waiting e h)
  | inr without ↦ ground (arith, lookup-deny_all reason scope id c.waiting e h)
]
