-- ===== src/Manager/Submit.antt =====
-- `submit`: the credential gate, the row, the audit entry, the event and the task. The session id is the
-- uuid that the call draws; the redacted spec and prompt are what the redaction engine returned.
pub mod Gate
use Prim.Native.Char.{code}
use Prim.Native.String.{String, count}
use gg_proxy.Base.{
  is_space, ℕ, suc, Bool, true, false, not, ◌&&◌, ◌||◌, Option, none, some, List, [], ◌∷◌, ◌++◌,
  ◌==◌, leb, if◌then◌else◌, is_some, truthy, str_eq, text_lookup, option_or, take_chars,
}
use gg_proxy.Base.Dict.{insert}
use gg_proxy.Domain.{queued}
use gg_proxy.Store.{Sessions, NewSession, create_session, no_aggregates}
use gg_proxy.Audit.{AuditRow, Value}
use gg_proxy.Manager.State.{
  Manager, Task, Result, ok, err, Event, session_created, shutting_down, missing_credentials,
  credentials_lookup_unavailable, id_exists, event_dropped, audited, publish, optional,
}

abbrev pub Credentials : Type 0
Credentials = List (String × String)

-- `bool(value.strip())`
unfoldable pub not_blank : String → Bool
not_blank String.[] = false
not_blank (String.◌∷◌ c s) = not (is_space (code c)) || not_blank s

abbrev pub has_value : String → Credentials → Bool
has_value key creds = elim (text_lookup key creds) [ none ↦ false | some v ↦ not_blank v ]

unfoldable pub credential_bundle_is_complete : Credentials → Bool
credential_bundle_is_complete creds =
    has_value "ANTHROPIC_API_KEY" creds || has_value "ANTHROPIC_AUTH_TOKEN" creds

-- The arguments of `submit`.
pub record Submission : Type 0 where
  pub spec_redacted : String
  pub prompt_redacted : String
  pub executor : String
  pub tags : List String
  pub trace_id : String
  pub credentials : Credentials
  pub api_key_id : Option ℕ
  pub owner : Option String
  pub actor_label : Option String
  pub actor_role : Option String
  pub description : Option String
  pub parent_session_id : Option ℕ
  -- `plugins.extra_env` of the spec
  pub extra_env : List (String × String)

-- The users' stored credentials: no store, or a lookup by label that may raise.
abbrev pub UserStore : Type 0
UserStore = Option (String → Option Credentials)

-- The credentials that the session runs with. A key of the body comes first, as it wins over the stored
-- one in `{**db_creds, **body}`.
unfoldable pub merged_credentials : UserStore → Bool → Submission → Result Credentials
merged_credentials none strict s = ok s.credentials
merged_credentials (some get_for_user) strict s =
    if truthy s.actor_label
    then (elim (get_for_user (option_or s.actor_label "")) [
      | none ↦ if strict then err credentials_lookup_unavailable else ok s.credentials
      | some db_creds ↦ ok (s.credentials ++ db_creds)
    ])
    else ok s.credentials

abbrev pub is_admin : Option String → Bool
is_admin none = false
is_admin (some role) = str_eq role "admin"

-- Only a non-admin is refused, and only in strict mode.
unfoldable pub credential_gate : UserStore → Bool → Submission → Result Credentials
unfolding merged_credentials
credential_gate users strict s = elim (merged_credentials users strict s) [
  | err e ↦ err e
  | ok creds ↦
      if credential_bundle_is_complete creds
      then ok creds
      else if is_admin s.actor_role
      then ok creds
      else if strict
      then err missing_credentials
      else ok creds
]

abbrev pub trace_value : String → Option String
trace_value t = if truthy (some t) then some t else none

abbrev pub new_session : Submission → NewSession
new_session s = record {
  spec_json = s.spec_redacted;
  trace_id = trace_value s.trace_id;
  backend = s.executor;
  tags = s.tags;
  owner = s.owner;
  description = s.description;
  parent_session_id = s.parent_session_id;
}

abbrev pub create_row : ℕ → Submission → AuditRow
create_row sid s = record {
  actor = if truthy s.owner then option_or s.owner "anon" else "anon";
  action = "session_create";
  target_type = "session";
  target_id = sid;
  metadata =
      ("backend", Value.text s.executor)
      ∷ ("tags", Value.texts s.tags)
      ∷ ("trace_id", optional (trace_value s.trace_id))
      ∷ ("has_description", Value.flag (is_some s.description))
      ∷ ("prompt_len", Value.number (count s.prompt_redacted))
      ∷ (
        "parent_session_id",
        elim s.parent_session_id [ none ↦ Value.absent | some p ↦ Value.number p ],
      )
      ∷ [];
}

-- The session is tracked, and its task waits for a slot.
unfoldable pub track : ℕ → Submission → Manager → Manager
track sid s m = record m {
  metrics = insert sid no_aggregates m.metrics;
  api_key_by_session = insert sid s.api_key_id m.api_key_by_session;
  owner_by_session = insert sid s.owner m.owner_by_session;
  session_states = insert sid queued m.session_states;
  running_tasks = insert sid (record { acquired = false; cancelling = false }) m.running_tasks;
}

-- If the event cannot be persisted, the row and the audit row are written all the same.
unfoldable pub enqueue :
    ℕ → Submission → Credentials → Sessions → Manager → Result Credentials × Manager
unfolding audited publish track
enqueue sid s creds db m =
    let m₁ = audited (create_row sid s) (record m { store = db }) in
    if m.persists
    then (
      ok creds,
      track sid s (publish (session_created sid (take_chars 512 s.prompt_redacted) s.tags) m₁),
    )
    else (err event_dropped, m₁)

-- The rest of `submit` behind the gate, with the credentials that the task is started with.
unfoldable pub behind_gate :
    ℕ → Submission → ℕ → Manager → Result Credentials → Result Credentials × Manager
behind_gate sid s now m (err e) = (err e, m)
behind_gate sid s now m (ok creds) = elim (create_session sid (new_session s) now m.store) [
  | none ↦ (err id_exists, m)
  | some db ↦ enqueue sid s creds db m
]

unfoldable pub submit : ℕ → Submission → UserStore → ℕ → Manager → Result Credentials × Manager
unfolding behind_gate enqueue
submit sid s users now m =
    if m.accepting_new
    then behind_gate sid s now m (credential_gate users m.config.require_per_user_credentials s)
    else (err shutting_down, m)
