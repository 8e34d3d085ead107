-- ===== src/Roles/Gate.antt =====
-- Who is let through.
use Prim.Native.String.{String}
use gg_proxy.Base.{
  ℕ, ◌≤◌, ◌≡◌, refl, ap, ◌∙◌, ◌↔◌, ◌⊎◌, inl, inr, true, Option, none, some, arith, eq_iff,
  Bool-cases, Option-cases,
}
use gg_proxy.Base.Dict.{lookup}
use gg_proxy.Store.{Row, Sessions, get_session}
use gg_proxy.Roles.{
  Role, role_rank, rank_of, Store, readable, raising, Request, resolve_role, require_role,
  check_owner, check_own_session, is_granted, require_role_or_own_session, same_owner,
}

-- The caller's label is that of the row's owner.
abbrev pub Owns : ℕ → Request → Type 0
Owns sid r =
    (label : String) × (db : Sessions) × (row : Row) × (r.api_key_label ≡ some label)
    × (r.store ≡ some (readable db))
    × (lookup sid db ≡ some row)
    × (row.owner ≡ some label)

abbrev pub Ranks : Role → Request → Type 0
Ranks min_role r = role_rank min_role ≤ rank_of (resolve_role r)

same_owner_sound :
    (owner : Option String) (label : String) → same_owner owner label ≡ true → owner ≡ some label
same_owner_sound none label h = absurd (ground arith)
same_owner_sound (some owner) label h = ap some ((eq_iff owner label).0 h)

same_owner_refl : (label : String) → same_owner (some label) label ≡ true
same_owner_refl label = (eq_iff label label).1 refl

granted_owner :
    (min_role : Role) (sid : ℕ) (label : String) (store : Store)
    → is_granted (check_owner min_role sid label store) ≡ true
    → (db : Sessions) × (row : Row) × (store ≡ readable db)
      × (lookup sid db ≡ some row)
      × (row.owner ≡ some label)
unfolding check_owner get_session
granted_owner min_role sid label raising h = absurd (ground arith)
granted_owner min_role sid label (readable db) h = elim (Option-cases (lookup sid db)) [
  | inl missing ↦ absurd (ground (arith, h))
  | inr (row, found) ↦ (db, row, refl, found, same_owner_sound row.owner label (ground (arith, h)))
]

require_role-Ranks :
    (min_role : Role) (r : Request) → is_granted (require_role min_role r) ≡ true → Ranks min_role r
unfolding require_role
require_role-Ranks min_role r h = ground arith

Ranks-require_role :
    (min_role : Role) (r : Request) → Ranks min_role r → is_granted (require_role min_role r) ≡ true
unfolding require_role
Ranks-require_role min_role r h = ground arith

check_own_session-Owns :
    (min_role : Role) (sid : ℕ) (r : Request)
    → is_granted (check_own_session min_role sid r) ≡ true
    → Owns sid r
unfolding check_own_session
check_own_session-Owns min_role sid r h = elim (Option-cases r.store) [
  | inl no_store ↦ absurd (ground (arith, h))
  | inr (store, s) ↦ elim (Option-cases r.api_key_label) [
    | inl no_label ↦ absurd (ground (arith, h))
    | inr (label, l) ↦
        let (db, row, e, found, o) = granted_owner min_role sid label store (ground (arith, h)) in
        (label, db, row, l, s ∙ ap some e, found, o)
  ]
]

Owns-check_own_session :
    (min_role : Role) (sid : ℕ) (r : Request)
    → Owns sid r
    → is_granted (check_own_session min_role sid r) ≡ true
unfolding check_own_session check_owner get_session
Owns-check_own_session min_role sid r (label, db, row, l, s, found, o) =
    ground (arith, same_owner_refl label)

-- The endpoints on one session let exactly those through whose role ranks no lower than the one that is
-- asked for, and those whose label is the owner of the session's row.
pub granted_iff_ranked_or_owner :
    (min_role : Role) (sid : ℕ) (r : Request)
    → (is_granted (require_role_or_own_session min_role sid r) ≡ true)
      ↔ (Ranks min_role r ⊎ Owns sid r)
unfolding require_role_or_own_session
granted_iff_ranked_or_owner min_role sid r = (there, back)
  where
    there :
        is_granted (require_role_or_own_session min_role sid r) ≡ true
        → Ranks min_role r ⊎ Owns sid r
    there h = elim (Bool-cases (is_granted (require_role min_role r))) [
      | inl by_role ↦ inl (require_role-Ranks min_role r by_role)
      | inr too_low ↦ inr (check_own_session-Owns min_role sid r (ground (arith, h, too_low)))
    ]

    back :
        Ranks min_role r ⊎ Owns sid r
        → is_granted (require_role_or_own_session min_role sid r) ≡ true
    back (inl ranks) = ground (arith, Ranks-require_role min_role r ranks)
    back (inr owns) = ground (arith, Owns-check_own_session min_role sid r owns)
