-- ===== src/Auth/Guard.antt =====
-- The guard of the last admin.
use gg_proxy.Base.{
  ℕ, ◌+◌, ◌≤◌, ◌≡◌, ◌⊎◌, refl, Bool, true, false, ◌&&◌, String, Option, none, some, List, [], ◌∷◌,
  leb, ◌==◌, arith, if_both, Bool-cases, Option-cases, inl, inr, is_some, str_eq, subst, sym, ◌∙◌,
}
use mathlib.Core.Option.{some-injective}
use gg_proxy.Base.Dict.{Dict, Distinct, insert-Distinct, lookup, insert, contains}
use gg_proxy.Auth.{
  KeyRow, Keys, NewKey, create_key, get_by_label, revoke, active, is_active_admin, touch_last_used,
  count_active_admins,
}
use gg_proxy.Auth.Resolver.{Settings, Resolver}
use gg_proxy.Auth.Endpoints.{
  Desk, Response, ApiKeyCreate, after_create, after_audit, refuse, go_on, Checked, no_content,
  create_api_key, revoke_api_key, KeyLog, check_admins, revoke_checks, revoke_writes, after_checks,
}
use gg_proxy.Auth.Bootstrap.{Summary, made, sync_one, sync_to_db}
use gg_proxy.Auth.Machine.{
  begins, lands, Action, resolves, touches, creates, revokes, imports, log_turns, act, history,
}

count-insert_fresh :
    (label : ℕ) (row : KeyRow) (keys : Keys)
    → contains label keys ≡ false
    → count_active_admins keys ≤ count_active_admins (insert label row keys)
unfolding count_active_admins
count-insert_fresh label row [] fresh = ground arith
count-insert_fresh label row (first ∷ keys) fresh =
    ground (arith, count-insert_fresh label row keys)

count-touch :
    (kh now : ℕ) (keys : Keys)
    → count_active_admins (touch_last_used kh now keys) ≡ count_active_admins keys
unfolding count_active_admins touch_last_used
count-touch kh now [] = refl
count-touch kh now (first ∷ keys) = ground (arith, count-touch kh now keys)

-- A revoke takes one admin away at most, and none if the row is not an admin's.
count-revoke :
    (label now : ℕ) (keys : Keys)
    → count_active_admins keys ≤ count_active_admins (revoke label now keys).0 + 1
unfolding count_active_admins revoke
count-revoke label now [] = omega arith
count-revoke label now (first ∷ keys) = ground (arith, count-revoke label now keys)

pub count-revoke_absent :
    (label now : ℕ) (keys : Keys)
    → lookup label keys ≡ none
    → count_active_admins (revoke label now keys).0 ≡ count_active_admins keys
unfolding count_active_admins revoke
count-revoke_absent label now [] absent = refl
count-revoke_absent label now (first ∷ keys) absent =
    ground (arith, count-revoke_absent label now keys)

no_admin_counts : (row : KeyRow) → str_eq row.role "admin" ≡ false → is_active_admin row ≡ false
no_admin_counts row h = rw h refl

pub head_found :
    (label : ℕ) (target : KeyRow) (first : ℕ × KeyRow) (keys : Keys)
    → (first.0 == label) ≡ true
    → lookup label (first ∷ keys) ≡ some target
    → first.1 ≡ target
head_found label target first keys here found = some-injective first.1 target (ground arith)

pub absent_below :
    (label : ℕ) (first : ℕ × KeyRow) (keys : Keys)
    → (first.0 == label) ≡ true
    → is_some (lookup first.0 keys) ≡ false
    → lookup label keys ≡ none
absent_below label first keys here d = ground arith

count-revoke_other :
    (label now : ℕ) (target : KeyRow) (keys : Keys)
    → Distinct keys
    → lookup label keys ≡ some target
    → str_eq target.role "admin" ≡ false
    → count_active_admins (revoke label now keys).0 ≡ count_active_admins keys
unfolding count_active_admins revoke
count-revoke_other label now target [] d found other = refl
count-revoke_other label now target (first ∷ keys) d found other =
    elim (Bool-cases (first.0 == label)) [
      | inl here ↦
          let same = head_found label target first keys here found in
          let plain =
            no_admin_counts first.1 (subst (λ r. str_eq r.role "admin" ≡ false) (sym same) other) in
          let below = count-revoke_absent label now keys (absent_below label first keys here d.0) in
          ground (arith, here, plain, below)
      | inr there ↦ ground (arith, there, count-revoke_other label now target keys d.1)
    ]

-- The statements keep the labels of the table.
lookup-revoke :
    (other label now : ℕ) (keys : Keys)
    → is_some (lookup other (revoke label now keys).0) ≡ is_some (lookup other keys)
unfolding revoke
lookup-revoke other label now [] = refl
lookup-revoke other label now (first ∷ keys) = ground (arith, lookup-revoke other label now keys)

pub revoke-Distinct :
    (label now : ℕ) (keys : Keys) → Distinct keys → Distinct (revoke label now keys).0
unfolding revoke
revoke-Distinct label now [] d = tt
revoke-Distinct label now (first ∷ keys) d =
    elim (Bool-cases (first.0 == label && active first.1)) [
      | inl e ↦ rw e d
      | inr e ↦
          rw e (lookup-revoke first.0 label now keys ∙ d.0, revoke-Distinct label now keys d.1)
    ]

lookup-touch :
    (other kh now : ℕ) (keys : Keys)
    → is_some (lookup other (touch_last_used kh now keys)) ≡ is_some (lookup other keys)
unfolding touch_last_used
lookup-touch other kh now [] = refl
lookup-touch other kh now (first ∷ keys) = ground (arith, lookup-touch other kh now keys)

touch-Distinct : (kh now : ℕ) (keys : Keys) → Distinct keys → Distinct (touch_last_used kh now keys)
unfolding touch_last_used
touch-Distinct kh now [] d = tt
touch-Distinct kh now (first ∷ keys) d =
    (lookup-touch first.0 kh now keys ∙ d.0, touch-Distinct kh now keys d.1)

-- At least one active admin, and labels that differ.
abbrev pub Guarded : Keys → Type 0
Guarded keys = (1 ≤ count_active_admins keys) × Distinct keys

abbrev GuardedIf : Option Keys → Type 0
GuardedIf none = Unit {0}
GuardedIf (some keys) = Guarded keys

Guarded-insert :
    (label : ℕ) (row : KeyRow) (keys : Keys)
    → contains label keys ≡ false
    → Guarded keys
    → Guarded (insert label row keys)
Guarded-insert label row keys fresh (one, d) =
    let more = count-insert_fresh label row keys fresh in
    (omega arith, insert-Distinct label row keys d)

create_key-Guarded :
    (label kh : ℕ) (new : NewKey) (now : ℕ) (keys : Keys)
    → Guarded keys
    → GuardedIf (create_key label kh new now keys)
unfolding create_key
create_key-Guarded label kh new now keys g = elim (Bool-cases (contains label keys)) [
  | inl e ↦ rw e tt
  | inr e ↦ rw e (Guarded-insert label _ keys e g)
]

made-Guarded :
    (o : Option Keys) (state : Keys × Summary)
    → GuardedIf o
    → Guarded state.0
    → Guarded (made o state).0
made-Guarded none state h g = g
made-Guarded (some keys) state h g = h

sync_one-Guarded :
    (mapping : Dict String) (default_role : String) (label kh now : ℕ) (state : Keys × Summary)
    → Guarded state.0
    → Guarded (sync_one mapping default_role label kh now state).0
unfolding sync_one
sync_one-Guarded mapping default_role label kh now state g =
    if_both (λ (s : Keys × Summary). Guarded s.0) (is_some (get_by_label label state.0)) g
      (made-Guarded _ state (create_key-Guarded label kh _ now state.0 g) g)

sync_to_db-Guarded :
    (mapping : Dict String) (default_role : String) (env : List (ℕ × ℕ)) (now : ℕ)
    (state : Keys × Summary)
    → Guarded state.0
    → Guarded (sync_to_db mapping default_role env now state).0
unfolding sync_to_db
sync_to_db-Guarded mapping default_role [] now state g = g
sync_to_db-Guarded mapping default_role ((label, kh) ∷ env) now state g =
    sync_to_db-Guarded mapping default_role env now
      (sync_one mapping default_role label kh now state)
      (sync_one-Guarded mapping default_role label kh now state g)

after_audit-Guarded :
    (o : Option KeyLog) (keys : Keys) (invalidate : Resolver → Resolver) (response : Response)
    (desk : Desk)
    → Guarded keys
    → Guarded (after_audit o keys invalidate response desk).0.keys
after_audit-Guarded none keys invalidate response desk g = g
after_audit-Guarded (some sink) keys invalidate response desk g = g

create_api_key-Guarded :
    (caller : ℕ) (payload : ApiKeyCreate) (kh now : ℕ) (desk : Desk)
    → Guarded desk.keys
    → Guarded (create_api_key caller payload kh now desk).0.keys
unfolding create_api_key
create_api_key-Guarded caller payload kh now desk g =
    go (create_key payload.label kh _ now desk.keys)
      (create_key-Guarded payload.label kh _ now desk.keys g)
  where
    go :
        (o : Option Keys) → GuardedIf o → Guarded (after_create caller payload kh now o desk).0.keys
    go none h = g
    go (some keys) h = after_audit-Guarded _ keys _ _ desk h

abbrev pub is_no_content : Response → Bool
is_no_content no_content = true
is_no_content _ = false

-- What the checks of a revoke have found. When it goes on: the label's row, which is not an admin's, or
-- another admin beside it.
abbrev pub Sound : ℕ → Keys → Checked → Type 0
Sound label keys (refuse response) = is_no_content response ≡ false
Sound label keys (go_on target) =
    (lookup label keys ≡ some target)
    × ((str_eq target.role "admin" ≡ false) ⊎ (2 ≤ count_active_admins keys))

two_or_one : (n : ℕ) → leb n 1 ≡ false → 2 ≤ n
two_or_one n h = ground arith

pub revoke_checks-Sound :
    (caller label : ℕ) (keys : Keys) → Sound label keys (revoke_checks caller label keys)
unfolding revoke_checks
revoke_checks-Sound caller label keys = elim (Option-cases (lookup label keys)) [
  | inl e ↦ rw e refl
  | inr (target, e) ↦ rw e (
      if_both (Sound label keys) (active target)
        (if_both (Sound label keys) (label == caller) refl (of_admins target e)) refl)
]
  where
    of_admins :
        (target : KeyRow)
        → lookup label keys ≡ some target
        → Sound label keys (check_admins target keys)
    of_admins target e = elim (Bool-cases (str_eq target.role "admin")) [
      | inr plain ↦ rw plain (e, inl plain)
      | inl admin ↦ elim (Bool-cases (leb (count_active_admins keys) 1)) [
        | inl last ↦ rw (admin, last) refl
        | inr more ↦ rw (admin, more) (e, inr (two_or_one (count_active_admins keys) more))
      ]
    ]

revoke-Guarded :
    (label now : ℕ) (target : KeyRow) (keys : Keys)
    → Sound label keys (go_on target)
    → Guarded keys
    → Guarded (revoke label now keys).0
revoke-Guarded label now target keys (found, inl plain) (one, d) = (
  omega (arith, count-revoke_other label now target keys d found plain),
  revoke-Distinct label now keys d,
)
revoke-Guarded label now target keys (found, inr more) (one, d) =
    (omega (arith, count-revoke label now keys), revoke-Distinct label now keys d)

after_checks-Guarded :
    (caller label now : ℕ) (c : Checked) (desk : Desk)
    → Sound label desk.keys c
    → Guarded desk.keys
    → Guarded (after_checks caller label c now desk).0.keys
unfolding revoke_writes
after_checks-Guarded caller label now (refuse response) desk s g = g
after_checks-Guarded caller label now (go_on target) desk s g =
    after_audit-Guarded _ (revoke label now desk.keys).0 _ _ desk
      (revoke-Guarded label now target desk.keys s g)

act-Guarded :
    (settings : Settings) (now : ℕ) (action : Action) (desk : Desk)
    → Guarded desk.keys
    → Guarded (act settings now action desk).keys
unfolding act revoke_api_key
act-Guarded settings now (resolves kh) desk g = g
act-Guarded settings now (begins kh) desk g = g
act-Guarded settings now (lands kh) desk g = g
act-Guarded settings now (touches kh) desk (one, d) =
    (omega (arith, count-touch kh now desk.keys), touch-Distinct kh now desk.keys d)
act-Guarded settings now (creates caller payload kh) desk g =
    create_api_key-Guarded caller payload kh now desk g
act-Guarded settings now (revokes caller label) desk g =
    after_checks-Guarded caller label now (revoke_checks caller label desk.keys) desk
      (revoke_checks-Sound caller label desk.keys) g
act-Guarded settings now (imports mapping default_role env) desk g =
    sync_to_db-Guarded mapping default_role env now _ g
act-Guarded settings now (log_turns up) desk g = g

-- Whatever requests come, one after the other, and whether or not the audit log is up: a table with an
-- admin that is not revoked, and with distinct labels, always has both. An admin that has expired counts.
pub history-Guarded :
    (settings : Settings) (actions : List (ℕ × Action)) (desk : Desk)
    → Guarded desk.keys
    → Guarded (history settings actions desk).keys
history-Guarded settings [] desk g = g
history-Guarded settings ((now, action) ∷ actions) desk g =
    history-Guarded settings actions (act settings now action desk)
      (act-Guarded settings now action desk g)
