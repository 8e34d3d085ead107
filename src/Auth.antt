-- ===== src/Auth.antt =====
-- src/gg_relay/auth/store.py: the table of API keys. Labels, keys and hashes are texts that the program
-- only compares, so they are numbers here; the hash is a parameter.
pub mod Resolver
pub mod Endpoints
pub mod Bootstrap
pub mod Machine
pub mod Guard
pub mod Race
pub mod Revoked
use gg_proxy.Base.{
  ℕ, suc, ◌+◌, Bool, true, false, ◌&&◌, not, String, Option, none, some, List, [], ◌∷◌, ◌==◌,
  if◌then◌else◌, is_some, str_eq,
}
use gg_proxy.Base.Dict.{Dict, lookup, contains, insert}

-- A caller's label, or the one that the import of the environment uses.
pub data Creator : Type 0 where
  caller : ℕ → Creator
  env_bootstrap : Creator

pub record KeyRow : Type 0 where
  pub key_hash : ℕ
  pub role : String
  pub created_at : ℕ
  pub created_by_label : Option Creator
  pub expires_at : Option ℕ
  pub revoked_at : Option ℕ
  pub last_used_at : Option ℕ
  pub notes : Option String

-- The rows under their labels, which the table keeps unique.
abbrev pub Keys : Type 0
Keys = Dict KeyRow

pub record NewKey : Type 0 where
  pub role : String
  pub created_by_label : Option Creator
  pub expires_at : Option ℕ
  pub notes : Option String

-- `ApiKeyStore.create`. A label that is taken raises `ApiKeyConflictError`, `none`.
unfoldable pub create_key : ℕ → ℕ → NewKey → ℕ → Keys → Option Keys
create_key label key_hash new now keys =
    if contains label keys then none else some (insert label row keys)
  where
    row : KeyRow
    row = record {
      key_hash = key_hash;
      role = new.role;
      created_at = now;
      created_by_label = new.created_by_label;
      expires_at = new.expires_at;
      revoked_at = none;
      last_used_at = none;
      notes = new.notes;
    }

-- `get_by_hash`: the first row with the hash.
unfoldable pub get_by_hash : ℕ → Keys → Option (ℕ × KeyRow)
get_by_hash kh [] = none
get_by_hash kh ((label, row) ∷ keys) =
    if row.key_hash == kh then some (label, row) else get_by_hash kh keys

abbrev pub get_by_label : ℕ → Keys → Option KeyRow
get_by_label label keys = lookup label keys

abbrev pub active : KeyRow → Bool
active row = not (is_some row.revoked_at)

-- `revoke`: the row of the label, if it is active; and whether there was one.
unfoldable pub revoke : ℕ → ℕ → Keys → Keys × Bool
revoke label now [] = ([], false)
revoke label now ((other, row) ∷ keys) =
    let rest = revoke label now keys in
    if other == label && active row
    then ((other, record row { revoked_at = some now }) ∷ keys, true)
    else ((other, row) ∷ rest.0, rest.1)

-- `touch_last_used`
unfoldable pub touch_last_used : ℕ → ℕ → Keys → Keys
touch_last_used kh now [] = []
touch_last_used kh now ((label, row) ∷ keys) =
    let rest = touch_last_used kh now keys in
    (label, (if row.key_hash == kh then record row { last_used_at = some now } else row)) ∷ rest

abbrev pub is_active_admin : KeyRow → Bool
is_active_admin row = str_eq row.role "admin" && active row

unfoldable pub count_active_admins : Keys → ℕ
count_active_admins [] = 0
count_active_admins ((label, row) ∷ keys) =
    (if is_active_admin row then 1 else 0) + count_active_admins keys
