-- ===== src/Auth/Race.antt =====
-- Two revokes at once: the guard of the last admin reads before it writes.
use gg_proxy.Base.{
  ℕ, ◌+◌, ◌≡◌, ◌≢◌, refl, true, false, Option, none, some, [], ◌∷◌, ◌==◌, arith, Bool-cases, inl,
  inr, subst, sym, ◌∙◌,
}
use gg_proxy.Base.Dict.{Distinct, lookup}
use gg_proxy.Auth.{KeyRow, Keys, revoke, active, is_active_admin, count_active_admins}
use gg_proxy.Auth.Resolver.{Resolver}
use gg_proxy.Auth.Endpoints.{
  Desk, Response, go_on, KeyLog, revoke_checks, revoke_writes, after_checks, after_audit,
}
use gg_proxy.Auth.Guard.{revoke-Distinct, head_found}

-- A revoke of an active admin takes one away.
count-revoke_admin :
    (label now : ℕ) (target : KeyRow) (keys : Keys)
    → Distinct keys
    → lookup label keys ≡ some target
    → is_active_admin target ≡ true
    → count_active_admins keys ≡ count_active_admins (revoke label now keys).0 + 1
unfolding count_active_admins revoke
count-revoke_admin label now target [] d found counts = absurd (ground arith)
count-revoke_admin label now target (first ∷ keys) d found counts =
    elim (Bool-cases (first.0 == label)) [
      | inl here ↦
          let same = head_found label target first keys here found in
          let admin = subst (λ r. is_active_admin r ≡ true) (sym same) counts in
          ground (arith, here, admin)
      | inr there ↦ ground (arith, there, count-revoke_admin label now target keys d.1)
    ]

lookup-revoke_ne :
    (other label now : ℕ) (keys : Keys)
    → other ≢ label
    → lookup other (revoke label now keys).0 ≡ lookup other keys
unfolding revoke
lookup-revoke_ne other label now [] ne = refl
lookup-revoke_ne other label now (first ∷ keys) ne =
    ground (arith, lookup-revoke_ne other label now keys ne)

admin_is_active : (row : KeyRow) → is_active_admin row ≡ true → active row ≡ true
admin_is_active row h = ground arith

checks_pass :
    (caller label : ℕ) (target : KeyRow) (keys : Keys)
    → (label == caller) ≡ false
    → lookup label keys ≡ some target
    → is_active_admin target ≡ true
    → count_active_admins keys ≡ 2
    → revoke_checks caller label keys ≡ go_on target
unfolding revoke_checks
checks_pass caller label target keys ne found counts two =
    rw (found, admin_is_active target counts, ne, two) (ground arith)

after_audit-keys :
    (o : Option KeyLog) (keys : Keys) (invalidate : Resolver → Resolver) (response : Response)
    (desk : Desk)
    → (after_audit o keys invalidate response desk).0.keys ≡ keys
after_audit-keys none keys invalidate response desk = refl
after_audit-keys (some sink) keys invalidate response desk = refl

revoke_writes-keys :
    (caller label : ℕ) (target : KeyRow) (now : ℕ) (desk : Desk)
    → (revoke_writes caller label target now desk).0.keys ≡ (revoke label now desk.keys).0
unfolding revoke_writes
revoke_writes-keys caller label target now desk = after_audit-keys _ _ _ _ desk

-- Where two admins are left and each revokes the other at once, so that both requests have read the
-- table before either of them writes, both go through and no active admin is left.
pub revoke_race :
    (a b : ℕ) (row_a row_b : KeyRow) (now : ℕ) (desk : Desk)
    → a ≢ b
    → Distinct desk.keys
    → lookup a desk.keys ≡ some row_a
    → lookup b desk.keys ≡ some row_b
    → is_active_admin row_a ≡ true
    → is_active_admin row_b ≡ true
    → count_active_admins desk.keys ≡ 2
    → count_active_admins
        (after_checks b a
          (revoke_checks b a desk.keys)
          now
          (after_checks a b (revoke_checks a b desk.keys) now desk).0).0.keys
      ≡ 0
revoke_race a b row_a row_b now desk ne d found_a found_b admin_a admin_b two =
    rw
      (
        checks_pass a b row_b desk.keys (ground arith) found_b admin_b two,
        checks_pass b a row_a desk.keys (ground arith) found_a admin_a two,
        revoke_writes-keys b a row_a now (revoke_writes a b row_b now desk).0,
        revoke_writes-keys a b row_b now desk,
      )
      (omega (
        arith,
        count-revoke_admin b now row_b desk.keys d found_b admin_b,
        count-revoke_admin a now row_a (revoke b now desk.keys).0
            (revoke-Distinct b now desk.keys d) (lookup-revoke_ne a b now desk.keys ne ∙ found_a)
            admin_a,
      ))
