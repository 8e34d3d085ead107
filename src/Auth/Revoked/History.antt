-- ===== src/Auth/Revoked/History.antt =====
-- After a revoke the key is refused in every later state.
use gg_proxy.Base.{
  ℕ, ◌≡◌, true, false, Option, none, some, List, [], ◌∷◌, ◌==◌, arith, Bool-cases, inl, inr, subst,
  sym, ◌∙◌, ap,
}
use mathlib.Core.Option.{some-injective}
use gg_proxy.Base.Dict.{Distinct, lookup}
use gg_proxy.Auth.{KeyRow, Keys, create_key, get_by_hash, revoke}
use gg_proxy.Auth.Resolver.{Settings, Drops, resolve_key, forget_hash, invalidate_cache}
use gg_proxy.Auth.Endpoints.{
  Desk, Response, no_content, Checked, refuse, go_on, KeyLog, ApiKeyCreate, after_audit,
  after_create, create_api_key, revoke_checks, revoke_writes, after_checks, revoke_api_key,
}
use gg_proxy.Auth.Machine.{
  Action, resolves, begins, lands, touches, creates, revokes, imports, log_turns, act, history,
}
use gg_proxy.Auth.Guard.{is_no_content, Sound, revoke_checks-Sound, head_found}
use gg_proxy.Auth.Revoked.{IsDead, IsQuiet}
use gg_proxy.Auth.Revoked.Table.{
  touch-IsDead, revoke-IsDead, IsDeadIf, create_key-IsDead, sync_to_db-IsDead,
}
use gg_proxy.Auth.Revoked.Cache.{
  forget_hash_self, invalidate_cache-IsQuiet, begin_lookup-IsQuiet, land_lookup-IsQuiet,
  resolve_key-IsQuiet, resolve_key_dead,
}

abbrev Closed : ℕ → Desk → Type 0
Closed kh desk = IsDead kh desk.keys × IsQuiet kh desk.resolver

after_audit-Closed :
    (kh : ℕ) (o : Option KeyLog) (keys : Keys) (key_hash label : Option ℕ) (response : Response)
    (desk : Desk)
    → IsDead kh keys
    → IsQuiet kh desk.resolver
    → Closed kh (after_audit o keys (invalidate_cache key_hash label keys) response desk).0
after_audit-Closed kh none keys key_hash label response desk dead q = (dead, q)
after_audit-Closed kh (some sink) keys key_hash label response desk dead q =
    (dead, invalidate_cache-IsQuiet kh key_hash label keys desk.resolver q)

create_api_key-Closed :
    (kh caller : ℕ) (payload : ApiKeyCreate) (key_hash now : ℕ) (desk : Desk)
    → Closed kh desk
    → Closed kh (create_api_key caller payload key_hash now desk).0
unfolding create_api_key
create_api_key-Closed kh caller payload key_hash now desk (dead, q) =
    go (create_key payload.label key_hash _ now desk.keys)
      (create_key-IsDead kh payload.label key_hash _ now desk.keys dead)
  where
    go :
        (o : Option Keys)
        → IsDeadIf kh o
        → Closed kh (after_create caller payload key_hash now o desk).0
    go none h = (dead, q)
    go (some keys) h = after_audit-Closed kh _ keys _ _ _ desk h q

revoke_api_key-Closed :
    (kh caller label now : ℕ) (desk : Desk)
    → Closed kh desk
    → Closed kh (revoke_api_key caller label now desk).0
unfolding revoke_api_key revoke_writes
revoke_api_key-Closed kh caller label now desk (dead, q) = go (revoke_checks caller label desk.keys)
  where
    go : (c : Checked) → Closed kh (after_checks caller label c now desk).0
    go (refuse response) = (dead, q)
    go (go_on target) =
        after_audit-Closed kh _ _ _ _ _ desk (revoke-IsDead kh label now desk.keys dead) q

module _ (settings : Settings) (drops : Drops settings) where
  act-Closed :
      (kh now : ℕ) (action : Action) (desk : Desk)
      → Closed kh desk
      → Closed kh (act settings now action desk)
  unfolding act
  act-Closed kh now (resolves other) desk (dead, q) =
      (dead, resolve_key-IsQuiet settings drops now kh other desk.keys desk.resolver dead q)
  act-Closed kh now (begins other) desk (dead, q) =
      (dead, begin_lookup-IsQuiet settings now kh other desk.keys desk.resolver dead q)
  act-Closed kh now (lands other) desk (dead, q) =
      (dead, land_lookup-IsQuiet settings drops now kh other desk.resolver q)
  act-Closed kh now (touches other) desk (dead, q) = (touch-IsDead kh other now desk.keys dead, q)
  act-Closed kh now (creates caller payload other) desk c =
      create_api_key-Closed kh caller payload other now desk c
  act-Closed kh now (revokes caller label) desk c = revoke_api_key-Closed kh caller label now desk c
  act-Closed kh now (imports mapping default_role env) desk (dead, q) =
      (sync_to_db-IsDead kh mapping default_role env now _ dead, q)
  act-Closed kh now (log_turns up) desk c = c

  history-Closed :
      (kh : ℕ) (actions : List (ℕ × Action)) (desk : Desk)
      → Closed kh desk
      → Closed kh (history settings actions desk)
  history-Closed kh [] desk c = c
  history-Closed kh ((now, action) ∷ actions) desk c =
      history-Closed kh actions (act settings now action desk) (act-Closed kh now action desk c)

eq_true : (a b : ℕ) → a ≡ b → (a == b) ≡ true
eq_true a b h = ground arith

not_label :
    (first : ℕ × KeyRow) (label : ℕ) (row : KeyRow) (keys : Keys)
    → (first.0 == label) ≡ false
    → (first.1.key_hash == row.key_hash) ≡ true
    → get_by_hash row.key_hash (first ∷ keys) ≡ some (label, row)
    → ⊥
unfolding get_by_hash
not_label first label row keys there hash by_hash =
    let found = some-injective first (label, row) (ground arith) in
    let same = ap (λ (entry : ℕ × KeyRow). entry.0) found in ground arith

revoke-IsDead_own :
    (label now : ℕ) (row : KeyRow) (keys : Keys)
    → lookup label keys ≡ some row
    → get_by_hash row.key_hash keys ≡ some (label, row)
    → IsDead row.key_hash (revoke label now keys).0
unfolding get_by_hash revoke
revoke-IsDead_own label now row [] found by_hash = absurd (ground arith)
revoke-IsDead_own label now row (first ∷ keys) found by_hash =
    elim (Bool-cases (first.0 == label)) [
      | inl here ↦
          let same = head_found label row first keys here found in
          let hash = eq_true first.1.key_hash row.key_hash (ap (λ (r : KeyRow). r.key_hash) same) in
          ground (arith, here, hash)
      | inr there ↦ elim (Bool-cases (first.1.key_hash == row.key_hash)) [
        | inl hash ↦ absurd (not_label first label row keys there hash by_hash)
        | inr hash ↦
            let below = revoke-IsDead_own label now row keys (ground arith) (ground arith) in
            ground (arith, there, hash, below)
      ]
    ]

revoke_closes :
    (caller label : ℕ) (row : KeyRow) (now : ℕ) (desk : Desk)
    → Distinct desk.resolver.cache
    → Distinct desk.resolver.inflight
    → lookup row.key_hash desk.resolver.inflight ≡ none
    → lookup label desk.keys ≡ some row
    → get_by_hash row.key_hash desk.keys ≡ some (label, row)
    → is_no_content (revoke_api_key caller label now desk).1 ≡ true
    → Closed row.key_hash (revoke_api_key caller label now desk).0
unfolding revoke_api_key revoke_writes invalidate_cache
revoke_closes caller label row now desk d f rest found by_hash e =
    go (revoke_checks caller label desk.keys) (revoke_checks-Sound caller label desk.keys) e
  where
    done :
        (kh : ℕ)
        → kh ≡ row.key_hash
        → (o : Option KeyLog) (keys : Keys) → IsDead row.key_hash keys
        → is_no_content
            (after_audit o keys (invalidate_cache (some kh) (some label) keys) no_content desk).1
          ≡ true
        → Closed row.key_hash
            (after_audit o keys (invalidate_cache (some kh) (some label) keys) no_content desk).0
    done kh same none keys dead h = absurd (ground arith)
    done kh same (some sink) keys dead h = (
      dead,
      subst (λ k. IsQuiet k (forget_hash kh desk.resolver)) same
          (forget_hash_self kh desk.resolver d
            (ap (λ k. lookup k desk.resolver.inflight) same ∙ rest) f),
    )

    go :
        (c : Checked)
        → Sound label desk.keys c
        → is_no_content (after_checks caller label c now desk).1 ≡ true
        → Closed row.key_hash (after_checks caller label c now desk).0
    go (refuse response) sound h = absurd (ground arith)
    go (go_on target) sound h =
        done target.key_hash
          (ap (λ (r : KeyRow). r.key_hash) (some-injective target row (sym sound.0 ∙ found))) _ _
          (revoke-IsDead_own label now row desk.keys found by_hash) h

-- Once a revoke has answered with 204, the key that it named is refused by the worker that revoked it: in
-- every later state, whatever requests came in between, at any time, lookups that are on their way while
-- others are served among them, and whatever the cache held before. No lookup of the key was on its way
-- at the revoke; the dicts keep their keys apart, the cache evicts no more than entries, and the key's
-- hash finds the row of the label.
pub revoked_key_refused :
    (settings : Settings)
    → Drops settings
    → (caller label : ℕ) (row : KeyRow) (now : ℕ) (desk : Desk) → Distinct desk.resolver.cache
    → Distinct desk.resolver.inflight
    → lookup row.key_hash desk.resolver.inflight ≡ none
    → lookup label desk.keys ≡ some row
    → get_by_hash row.key_hash desk.keys ≡ some (label, row)
    → (revoke_api_key caller label now desk).1 ≡ no_content
    → (actions : List (ℕ × Action)) (later : ℕ)
    → (resolve_key settings later row.key_hash
        (history settings actions (revoke_api_key caller label now desk).0).keys
        (history settings actions (revoke_api_key caller label now desk).0).resolver).1
      ≡ none
revoked_key_refused settings drops caller label row now desk d f rest found by_hash answer actions
      later =
    let start =
      revoke_closes caller label row now desk d f rest found by_hash (ap is_no_content answer) in
    let (dead, q) = history-Closed settings drops row.key_hash actions _ start in
    resolve_key_dead settings later row.key_hash _ _ dead q
