-- ===== src/Auth/Bootstrap.antt =====
-- src/gg_relay/auth/env_resolver.py: the keys of the environment enter the table at startup.
use gg_proxy.Base.{
  ℕ, suc, String, Option, none, some, List, [], ◌∷◌, option_or, is_some, if◌then◌else◌,
}
use gg_proxy.Base.Dict.{Dict, lookup}
use gg_proxy.Auth.{env_bootstrap, Keys, NewKey, create_key, get_by_label}

pub record Summary : Type 0 where
  pub created : ℕ
  pub skipped : ℕ

abbrev pub imported : Dict String → String → ℕ → NewKey
imported role_mapping default_role label = record {
  role = option_or (lookup label role_mapping) default_role;
  created_by_label = some env_bootstrap;
  expires_at = none;
  notes = some "Auto-imported from RELAY_API_KEYS_RAW env";
}

abbrev pub made : Option Keys → Keys × Summary → Keys × Summary
made none state = state
made (some keys) (_, summary) = (keys, record summary { created = suc summary.created })

-- One pass of the loop: a label that has a row is skipped, whatever the row's hash.
unfoldable pub sync_one : Dict String → String → ℕ → ℕ → ℕ → Keys × Summary → Keys × Summary
sync_one role_mapping default_role label key_hash now (keys, summary) =
    if is_some (get_by_label label keys)
    then (keys, record summary { skipped = suc summary.skipped })
    else made (create_key label key_hash (imported role_mapping default_role label) now keys)
        (keys, summary)

-- `sync_to_db`, over pairs of a label and the hash of its key.
unfoldable pub sync_to_db :
    Dict String → String → List (ℕ × ℕ) → ℕ → Keys × Summary → Keys × Summary
sync_to_db role_mapping default_role [] now state = state
sync_to_db role_mapping default_role ((label, key_hash) ∷ env) now state =
    sync_to_db role_mapping default_role env now
      (sync_one role_mapping default_role label key_hash now state)
