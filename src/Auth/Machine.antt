-- ===== src/Auth/Machine.antt =====
-- The key table, the cache and the endpoints under any sequence of requests. The endpoints run to their
-- ends one after the other; lookups of keys may overlap with them.
use gg_proxy.Base.{ℕ, Bool, String, List, [], ◌∷◌}
use gg_proxy.Base.Dict.{Dict}
use gg_proxy.Auth.{touch_last_used}
use gg_proxy.Auth.Resolver.{Settings, resolve_key, begin_lookup, land_lookup}
use gg_proxy.Auth.Endpoints.{Desk, ApiKeyCreate, create_api_key, revoke_api_key}
use gg_proxy.Auth.Bootstrap.{sync_to_db}

-- What can happen: a request with a key of a hash, a touch whose task runs, the two endpoints, the
-- import of the environment, and the log going down or coming up.
pub data Action : Type 0 where
  resolves : ℕ → Action
  -- such a request up to its wait for the row, and from there on
  begins lands : ℕ → Action
  touches : ℕ → Action
  creates : ℕ → ApiKeyCreate → ℕ → Action
  revokes : ℕ → ℕ → Action
  imports : Dict String → String → List (ℕ × ℕ) → Action
  log_turns : Bool → Action

module _ (settings : Settings) where
  unfoldable pub act : ℕ → Action → Desk → Desk
  act now (resolves kh) desk = record desk {
    resolver = (resolve_key settings now kh desk.keys desk.resolver).0;
  }
  act now (begins kh) desk = record desk {
    resolver = begin_lookup settings now kh desk.keys desk.resolver;
  }
  act now (lands kh) desk = record desk { resolver = land_lookup settings now kh desk.resolver }
  act now (touches kh) desk = record desk { keys = touch_last_used kh now desk.keys }
  act now (creates caller payload kh) desk = (create_api_key caller payload kh now desk).0
  act now (revokes caller label) desk = (revoke_api_key caller label now desk).0
  act now (imports mapping default_role env) desk = record desk {
    keys =
        (sync_to_db mapping default_role env now
          (desk.keys, record { created = 0; skipped = 0 })).0;
  }
  act now (log_turns up) desk = record desk { sink = record desk.sink { up = up } }

  -- A history of actions, each with its time.
  abbrev pub history : List (ℕ × Action) → Desk → Desk
  history [] desk = desk
  history ((now, action) ∷ actions) desk = history actions (act now action desk)
