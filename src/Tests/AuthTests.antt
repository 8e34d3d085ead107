-- ===== src/Tests/AuthTests.antt =====
-- Tests of the API keys: the guard of the last admin, two revokes at once, and revoked keys.
use gg_proxy.Base.{ℕ, ◌≡◌, refl, true, false, none, some, List, [], ◌∷◌, arith}
use gg_proxy.Auth.{caller, KeyRow, Keys, get_by_hash, revoke, count_active_admins}
use gg_proxy.Auth.Resolver.{Settings, Drops, resolve_key}
use gg_proxy.Auth.Endpoints.{
  Desk, last_admin_revoke_forbidden, revoke_checks, revoke_writes, after_checks, revoke_api_key,
}
use gg_proxy.Auth.Machine.{
  Action, resolves, begins, lands, revokes, imports, log_turns, act, history,
}
use gg_proxy.Auth.Guard.{Guarded, history-Guarded}
use gg_proxy.Auth.Race.{revoke_race}
use gg_proxy.Auth.Revoked.History.{revoked_key_refused}

abbrev admin_row : ℕ → KeyRow
admin_row key_hash = record {
  key_hash = key_hash;
  role = "admin";
  created_at = 1;
  created_by_label = some (caller 1);
  expires_at = none;
  revoked_at = none;
  last_used_at = none;
  notes = none;
}

abbrev keys : Keys
keys = (1, admin_row 11) ∷ (2, admin_row 12) ∷ []

abbrev settings : Settings
settings = record { cache_ttl = 10; touch_throttle = 60; override = none; evict = λ cache. cache }

settings-Drops : Drops settings
settings-Drops cache d = (d, λ kh entry h. h)

-- The second admin's key is in the cache.
abbrev desk : Desk
desk = record {
  keys = keys;
  resolver = record {
    cache =
        (12, (some (record { label = 2; role = "admin"; expires_at = none; notes = none }), 100))
        ∷ [];
    inflight = [];
    last_touch = [];
    touches = [];
  };
  sink = record { up = true; rows = [] };
}

-- A revoke of the other admin, and then one of the last.
abbrev attempts : List (ℕ × Action)
attempts =
    (5, resolves 12)
    ∷ (6, revokes 1 2)
    ∷ (7, log_turns false)
    ∷ (8, revokes 2 1)
    ∷ (9, imports [] "submitter" ((3, 13) ∷ []))
    ∷ []

history-Guarded_example : Guarded (history settings attempts desk).keys
unfolding count_active_admins
history-Guarded_example = history-Guarded settings attempts desk (omega arith, (refl, (refl, tt)))

-- The last admin stays.
last_admin :
    (revoke_api_key 2 1 8 (history settings ((6, revokes 1 2) ∷ []) desk)).1
    ≡ last_admin_revoke_forbidden
unfolding revoke_api_key revoke_checks act count_active_admins revoke_writes revoke
last_admin = refl

revoke_race_example :
    count_active_admins
      (after_checks 2 1
        (revoke_checks 2 1 keys)
        7
        (after_checks 1 2 (revoke_checks 1 2 keys) 7 desk).0).0.keys
    ≡ 0
unfolding count_active_admins
revoke_race_example =
    revoke_race 1 2 (admin_row 11) (admin_row 12) 7 desk (λ h. absurd (omega arith))
      (refl, (refl, tt)) refl refl refl refl refl

revoked_key_refused_example :
    (resolve_key settings 8 12
      (history settings ((7, begins 12) ∷ (9, lands 12) ∷ []) (revoke_api_key 1 2 6 desk).0).keys
      (history settings
        ((7, begins 12) ∷ (9, lands 12) ∷ [])
        (revoke_api_key 1 2 6 desk).0).resolver).1
    ≡ none
unfolding get_by_hash revoke_api_key revoke_checks count_active_admins revoke_writes
revoked_key_refused_example =
    revoked_key_refused settings settings-Drops 1 2 (admin_row 12) 6 desk (refl, tt) tt refl refl
      refl refl ((7, begins 12) ∷ (9, lands 12) ∷ []) 8
