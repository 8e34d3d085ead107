-- ===== src/Roles.antt =====
-- src/gg_relay/api/dependencies/require_role.py: who may call an endpoint.
pub mod Gate
use Prim.Native.String.{String}
use gg_proxy.Base.{
  ℕ, Bool, true, false, not, ◌&&◌, Option, none, some, List, [], ◌∷◌, if◌then◌else◌, ltb, option_or,
  str_eq, truthy, text_lookup,
}
use gg_proxy.Base.Dict.{lookup}
use gg_proxy.Store.{Row, Sessions, get_session}

-- The keys of `ROLE_HIERARCHY`.
pub data Role : Type 0 where
  viewer submitter admin : Role

abbrev pub role_name : Role → String
role_name viewer = "viewer"
role_name submitter = "submitter"
role_name admin = "admin"

abbrev pub role_rank : Role → ℕ
role_rank viewer = 0
role_rank submitter = 1
role_rank admin = 2

-- `ROLE_HIERARCHY.get(role, 0)`
unfoldable pub rank_of : String → ℕ
rank_of role = if str_eq role "submitter" then 1 else if str_eq role "admin" then 2 else 0

pub record RoleConfig : Type 0 where
  -- `role_override_mode == "db"`
  pub roles_from_db : Bool
  pub role_mapping : List (String × String)

-- The table of sessions, or a store whose read raises.
pub data Store : Type 0 where
  readable : Sessions → Store
  raising : Store

pub record Request : Type 0 where
  pub api_key_label : Option String
  pub api_key_role : Option String
  pub config : Option RoleConfig
  pub store : Option Store

abbrev pub mapped_role : String → RoleConfig → String
mapped_role label cfg = option_or (text_lookup label cfg.role_mapping) "viewer"

unfoldable pub resolve_role : Request → String
resolve_role r = elim r.api_key_label [
  | none ↦ "viewer"
  | some label ↦ elim r.config [
    | none ↦ "viewer"
    | some cfg ↦
        if cfg.roles_from_db && truthy r.api_key_role
        then option_or r.api_key_role "viewer"
        else mapped_role label cfg
  ]
]

pub data Access : Type 0 where
  -- with the role that satisfies the endpoint
  granted : String → Access
  insufficient_role no_ownership_check_possible ownership_check_error not_owner : Access
  -- 404
  session_not_found : Access

unfoldable pub require_role : Role → Request → Access
require_role min_role r =
    if ltb (rank_of (resolve_role r)) (role_rank min_role)
    then insufficient_role
    else granted (resolve_role r)

abbrev pub same_owner : Option String → String → Bool
same_owner none label = false
same_owner (some owner) label = str_eq owner label

unfoldable pub check_owner : Role → ℕ → String → Store → Access
check_owner min_role sid label raising = ownership_check_error
check_owner min_role sid label (readable db) = elim (get_session sid db) [
  | none ↦ session_not_found
  | some row ↦ if same_owner row.owner label then granted (role_name min_role) else not_owner
]

unfoldable pub check_own_session : Role → ℕ → Request → Access
check_own_session min_role sid r = elim r.store [
  | none ↦ no_ownership_check_possible
  | some store ↦ elim r.api_key_label [
    | none ↦ no_ownership_check_possible
    | some label ↦ check_owner min_role sid label store
  ]
]

abbrev pub is_granted : Access → Bool
is_granted (granted role) = true
is_granted _ = false

unfoldable pub require_role_or_own_session : Role → ℕ → Request → Access
require_role_or_own_session min_role sid r =
    let by_role = require_role min_role r in
    if is_granted by_role then by_role else check_own_session min_role sid r
