-- ===== src/Manager/Retry.antt =====
-- `retry`: a fresh session from the spec of an old one. What the spec's JSON decodes to, and what the
-- redaction engine makes of the new spec and its prompt, are the argument `Codec`.
pub mod Identity
use Prim.Native.String.{String, ◌++◌ as ◌+++◌}
use gg_proxy.Base.{
  ℕ, ◌≡◌, ◌≢◌, refl, sym, ap, ◌∙◌, ◌⊎◌, inl, inr, Bool, true, false, not, Option, none, some, List,
  [], ◌∷◌, ◌++◌, arith, ◌==◌, if◌then◌else◌, truthy, str_eq, option_or, Option-cases, Bool-cases,
}
use gg_proxy.Base.Dict.{lookup, insert, lookup-insert}
use gg_proxy.Store.{Row, get_session, create_session}
use gg_proxy.Audit.{AuditRow, Value}
use gg_proxy.Manager.State.{
  Manager, Error, Result, ok, err, session_not_found, retry_config, audited,
}
use gg_proxy.Manager.Submit.{
  Credentials, Submission, UserStore, submit, credential_gate, merged_credentials, behind_gate,
  enqueue,
}

pub record SpecJson : Type 0 where
  pub prompt : Option String
  -- whether a profile, a module or a skill is named
  pub has_plugins : Bool
  pub executor : Option String
  pub tags : List String
  -- `plugins.extra_env`
  pub extra_env : List (String × String)

pub record Codec : Type 0 where
  pub decode : String → SpecJson
  pub redacted_spec : SpecJson → String
  pub redacted_prompt : SpecJson → String

pub record Retrier : Type 0 where
  pub actor : Option String
  pub actor_role : Option String

abbrev pub or_else : Option String → Option String → Option String
or_else a b = if truthy a then a else b

abbrev pub new_owner : Retrier → Row → String
new_owner who original = option_or (or_else who.actor (or_else original.owner (some "anon"))) "anon"

abbrev pub executor_of : SpecJson → String
executor_of j = option_or (or_else j.executor (some "inprocess")) "inprocess"

-- The credentials of the submission are empty: what its actor has stored is merged in by `submit`.
unfoldable pub retry_submission : Codec → ℕ → String → Retrier → Row → SpecJson → Submission
retry_submission codec sid id_text who original j = record {
  spec_redacted = codec.redacted_spec j;
  prompt_redacted = codec.redacted_prompt j;
  executor = executor_of j;
  tags = j.tags;
  trace_id = "";
  credentials = [];
  api_key_id = none;
  owner = some (new_owner who original);
  actor_label = who.actor;
  actor_role = who.actor_role;
  description = or_else original.description (some ("Retry of " +++ id_text));
  parent_session_id = some sid;
  extra_env = j.extra_env;
}

abbrev pub retry_row : ℕ → ℕ → Retrier → Row → SpecJson → AuditRow
retry_row sid new_sid who original j = record {
  actor = new_owner who original;
  action = "session_retry";
  target_type = "session";
  target_id = new_sid;
  metadata =
      ("parent_session_id", Value.number sid)
      ∷ ("tags", Value.texts j.tags)
      ∷ ("backend", Value.text (executor_of j))
      ∷ [];
}

-- `env[k] = v` for each pair; the first entry of a key is the one that counts.
abbrev pub set_all : List (String × String) → List (String × String) → List (String × String)
set_all [] env = env
set_all (kv ∷ rows) env = set_all rows (kv ∷ env)

-- The environment of a run in this process, from what is passed on of the host's (client.py).
unfoldable pub session_env :
    List (String × String) → Credentials → List (String × String) → String → List (String × String)
session_env host credentials extra_env trace_id =
    let env = set_all extra_env (set_all credentials host) in
    if str_eq trace_id "" then env else ("RELAY_TRACE_ID", trace_id) ∷ env

unfoldable pub retry_found :
    Codec → ℕ → String → Retrier → ℕ → UserStore → ℕ → Row → Manager → Result Credentials × Manager
unfolding audited
retry_found codec sid id_text who new_sid users now original m =
    let j = codec.decode original.spec_json in
    if truthy j.prompt
    then (if j.has_plugins
        then (let (out, m') =
              submit new_sid (retry_submission codec sid id_text who original j) users now m in
            elim out [
              | err e ↦ (err e, m')
              | ok creds ↦ (ok creds, audited (retry_row sid new_sid who original j) m')
            ])
        else (err retry_config, m))
    else (err retry_config, m)

unfoldable pub retry :
    Codec → ℕ → String → Retrier → ℕ → UserStore → ℕ → Manager → Result Credentials × Manager
retry codec sid id_text who new_sid users now m = elim (get_session sid m.store) [
  | none ↦ (err session_not_found, m)
  | some original ↦ retry_found codec sid id_text who new_sid users now original m
]
