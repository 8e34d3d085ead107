-- ===== src/Auth/Revoked/Table.antt =====
-- A revoked row stays what its hash finds, whatever is done to the table.
use gg_proxy.Base.{
  ℕ, ◌≡◌, false, String, Option, none, some, List, [], ◌∷◌, arith, Bool-cases, inl, inr, is_some,
  if_both,
}
use gg_proxy.Base.Dict.{Dict, insert, contains}
use gg_proxy.Auth.{
  KeyRow, Keys, NewKey, create_key, get_by_hash, get_by_label, revoke, touch_last_used,
}
use gg_proxy.Auth.Bootstrap.{Summary, made, sync_one, sync_to_db}
use gg_proxy.Auth.Revoked.{IsDead}

insert-IsDead :
    (kh label : ℕ) (row : KeyRow) (keys : Keys)
    → contains label keys ≡ false
    → IsDead kh keys
    → IsDead kh (insert label row keys)
unfolding get_by_hash
insert-IsDead kh label row [] fresh dead = absurd (ground arith)
insert-IsDead kh label row (first ∷ keys) fresh dead =
    ground (arith, insert-IsDead kh label row keys)

pub touch-IsDead :
    (kh other now : ℕ) (keys : Keys) → IsDead kh keys → IsDead kh (touch_last_used other now keys)
unfolding get_by_hash touch_last_used
touch-IsDead kh other now [] dead = dead
touch-IsDead kh other now (first ∷ keys) dead = ground (arith, touch-IsDead kh other now keys)

pub revoke-IsDead :
    (kh label now : ℕ) (keys : Keys) → IsDead kh keys → IsDead kh (revoke label now keys).0
unfolding get_by_hash revoke
revoke-IsDead kh label now [] dead = dead
revoke-IsDead kh label now (first ∷ keys) dead = ground (arith, revoke-IsDead kh label now keys)

abbrev pub IsDeadIf : ℕ → Option Keys → Type 0
IsDeadIf kh none = Unit {0}
IsDeadIf kh (some keys) = IsDead kh keys

pub create_key-IsDead :
    (kh label key_hash : ℕ) (new : NewKey) (now : ℕ) (keys : Keys)
    → IsDead kh keys
    → IsDeadIf kh (create_key label key_hash new now keys)
unfolding create_key
create_key-IsDead kh label key_hash new now keys dead = elim (Bool-cases (contains label keys)) [
  | inl e ↦ rw e tt
  | inr e ↦ rw e (insert-IsDead kh label _ keys e dead)
]

made-IsDead :
    (kh : ℕ) (o : Option Keys) (state : Keys × Summary)
    → IsDeadIf kh o
    → IsDead kh state.0
    → IsDead kh (made o state).0
made-IsDead kh none state h dead = dead
made-IsDead kh (some keys) state h dead = h

pub sync_to_db-IsDead :
    (kh : ℕ) (mapping : Dict String) (default_role : String) (env : List (ℕ × ℕ)) (now : ℕ)
    (state : Keys × Summary)
    → IsDead kh state.0
    → IsDead kh (sync_to_db mapping default_role env now state).0
unfolding sync_to_db sync_one
sync_to_db-IsDead kh mapping default_role [] now state dead = dead
sync_to_db-IsDead kh mapping default_role ((label, key_hash) ∷ env) now state dead =
    sync_to_db-IsDead kh mapping default_role env now
      (sync_one mapping default_role label key_hash now state)
      (if_both (λ (s : Keys × Summary). IsDead kh s.0) (is_some (get_by_label label state.0)) dead
        (made-IsDead kh _ state (create_key-IsDead kh label key_hash _ now state.0 dead) dead))
