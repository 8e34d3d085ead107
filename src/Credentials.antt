-- ===== src/Credentials.antt =====
-- The upstream credentials that users store: src/gg_relay/store/user_credentials.py, and the endpoints
-- of src/gg_relay/api/routers/user_credentials.py that write them. The ids of rows are left out.
pub mod Held
pub mod Given
pub mod Served
pub mod Story
use Prim.Native.String.{count}
use gg_proxy.Base.{
  ℕ, Bool, true, false, ◌&&◌, ◌||◌, not, String, Option, none, some, List, [], ◌∷◌, ◌++◌, leb,
  is_some, if◌then◌else◌, str_eq,
}
use gg_proxy.Roles.{rank_of}

pub record CredentialRow : Type 0 where
  pub user_label : String
  pub env_name : String
  pub value_encrypted : String
  pub key_fingerprint : String
  pub created_at : ℕ
  pub updated_at : ℕ
  pub created_by_label : String
  pub notes : Option String

-- `encrypt` also takes what makes each of its texts another; `none` is `InvalidToken`.
pub record Fernet : Type 0 where
  pub encrypt : ℕ → String → String
  pub decrypt : String → Option String

pub record UserCredentialsStore : Type 0 where
  pub fernet : Option Fernet
  pub key_fingerprint : Option String
  pub rows : List CredentialRow

-- `row_fp != self._key_fingerprint`
abbrev pub is_bricked : Option String → CredentialRow → Bool
is_bricked none row = false
is_bricked (some fp) row = not (str_eq row.key_fingerprint fp)

abbrev pub read_value : Fernet → Option String → CredentialRow → Option String
read_value fernet fp row = if is_bricked fp row then none else fernet.decrypt row.value_encrypted

-- `out[k] = v`
abbrev pub set_name : String → String → List (String × String) → List (String × String)
set_name k v [] = (k, v) ∷ []
set_name k v (first ∷ out) = if str_eq k first.0 then (k, v) ∷ out else first ∷ set_name k v out

abbrev pub set_read : String → Option String → List (String × String) → List (String × String)
set_read k none out = out
set_read k (some v) out = set_name k v out

module _ (fernet : Fernet) (fp : Option String) (label : String) where
  abbrev pub collect : List CredentialRow → List (String × String) → List (String × String)
  collect [] out = out
  collect (row ∷ rows) out = collect rows (
      if str_eq row.user_label label
      then set_read row.env_name (read_value fernet fp row) out
      else out)

unfoldable pub get_for_user : String → UserCredentialsStore → List (String × String)
get_for_user label store = elim store.fernet [
  | none ↦ []
  | some fernet ↦
      if str_eq label "" then [] else collect fernet store.key_fingerprint label store.rows []
]

abbrev pub is_of : String → String → CredentialRow → Bool
is_of label env row = str_eq row.user_label label && str_eq row.env_name env

abbrev pub merged : CredentialRow → CredentialRow → CredentialRow
merged new row = record row {
  value_encrypted = new.value_encrypted;
  key_fingerprint = new.key_fingerprint;
  updated_at = new.updated_at;
  created_by_label = new.created_by_label;
  notes = new.notes;
}

-- The statement: the row goes in, or on the row with its label and name.
abbrev pub put_row : CredentialRow → List CredentialRow → List CredentialRow
put_row new [] = new ∷ []
put_row new (row ∷ rows) =
    if is_of new.user_label new.env_name row then merged new row ∷ rows else row ∷ put_row new rows

pub record NewCredential : Type 0 where
  pub user_label : String
  pub env_name : String
  pub value : String
  pub actor_label : String
  pub notes : Option String

abbrev pub encrypted : Fernet → String → ℕ → ℕ → NewCredential → CredentialRow
encrypted fernet fp iv now new = record {
  user_label = new.user_label;
  env_name = new.env_name;
  value_encrypted = fernet.encrypt iv new.value;
  key_fingerprint = fp;
  created_at = now;
  updated_at = now;
  created_by_label = new.actor_label;
  notes = new.notes;
}

abbrev pub with_key :
    NewCredential
    → ℕ
    → ℕ
    → Option Fernet
    → Option String
    → UserCredentialsStore
    → Option UserCredentialsStore
with_key new iv now none fp store = none
with_key new iv now (some fernet) none store = none
with_key new iv now (some fernet) (some fp) store =
    some (record store { rows = put_row (encrypted fernet fp iv now new) store.rows })

-- `none` is `UserCredentialsFeatureDisabled`.
unfoldable pub upsert : NewCredential → ℕ → ℕ → UserCredentialsStore → Option UserCredentialsStore
upsert new iv now store = with_key new iv now store.fernet store.key_fingerprint store

abbrev pub has_row : String → String → List CredentialRow → Bool
has_row label env [] = false
has_row label env (row ∷ rows) = is_of label env row || has_row label env rows

abbrev pub delete_rows : String → String → List CredentialRow → List CredentialRow
delete_rows label env [] = []
delete_rows label env (row ∷ rows) =
    if is_of label env row then delete_rows label env rows else row ∷ delete_rows label env rows

unfoldable pub delete : String → String → UserCredentialsStore → UserCredentialsStore × Bool
delete label env store =
    (record store { rows = delete_rows label env store.rows }, has_row label env store.rows)

-- `ALLOWED_ENV_NAMES`
abbrev pub allowed_env_names : List String
allowed_env_names =
    "ANTHROPIC_API_KEY" ∷ "ANTHROPIC_BASE_URL" ∷ "ANTHROPIC_AUTH_TOKEN" ∷ "AWS_ACCESS_KEY_ID"
    ∷ "AWS_SECRET_ACCESS_KEY" ∷ "AWS_SESSION_TOKEN" ∷ "AWS_REGION"
    ∷ "GOOGLE_APPLICATION_CREDENTIALS" ∷ "CLOUD_ML_REGION" ∷ "ANTHROPIC_VERTEX_PROJECT_ID" ∷ []

abbrev pub is_in : String → List String → Bool
is_in k [] = false
is_in k (name ∷ names) = str_eq k name || is_in k names

abbrev pub env_name_is_allowed : String → Bool
env_name_is_allowed env = is_in env allowed_env_names

pub record CredentialUpsert : Type 0 where
  pub value : String
  pub notes : Option String

abbrev notes_fit : Option String → Bool
notes_fit none = true
notes_fit (some s) = leb (count s) 512

abbrev pub body_fits : CredentialUpsert → Bool
body_fits body = leb 1 (count body.value) && (leb (count body.value) 4096 && notes_fit body.notes)

pub data LengthClass : Type 0 where
  short medium long huge : LengthClass

abbrev pub length_class : String → LengthClass
length_class value =
    if leb (count value) 32
    then short
    else if leb (count value) 128
    then medium
    else if leb (count value) 1024
    then long
    else huge

pub record Caller : Type 0 where
  pub label : Option String
  pub role : String

pub data CredentialEvent : Type 0 where
  upserted : LengthClass → CredentialEvent
  deleted : Bool → CredentialEvent

pub record CredentialNote : Type 0 where
  pub actor : String
  pub user_label : String
  pub env_name : String
  pub self_service : Bool
  pub event : CredentialEvent

pub data Audit : Type 0 where
  absent up down : Audit

pub record Vault : Type 0 where
  pub store : UserCredentialsStore
  pub audit : Audit
  pub log : List CredentialNote

-- `failed` is what an audit log that is down raises.
pub data Response : Type 0 where
  ok no_content : Response
  env_name_not_allowed user_credentials_disabled : Response
  forbidden unprocessable failed : Response

abbrev pub recorded : CredentialNote → Response → Vault → Vault × Response
recorded note reply vault = elim vault.audit [
  | absent ↦ (vault, reply)
  | up ↦ (record vault { log = vault.log ++ (note ∷ []) }, reply)
  | down ↦ (vault, failed)
]

abbrev pub finish_upsert :
    Bool → NewCredential → Vault → Option UserCredentialsStore → Vault × Response
finish_upsert self_service new vault none = (vault, user_credentials_disabled)
finish_upsert self_service new vault (some store) =
    recorded
      (record {
        actor = new.actor_label;
        user_label = new.user_label;
        env_name = new.env_name;
        self_service = self_service;
        event = upserted (length_class new.value);
      })
      ok (record vault { store = store })

abbrev pub upsert_credential :
    Bool → String → String → String → CredentialUpsert → ℕ → ℕ → Vault → Vault × Response
upsert_credential self_service label actor env body iv now vault =
    if not (body_fits body)
    then (vault, unprocessable)
    else if not (env_name_is_allowed env)
    then (vault, env_name_not_allowed)
    else if not (is_some vault.store.fernet)
    then (vault, user_credentials_disabled)
    else finish_upsert self_service new vault (upsert new iv now vault.store)
  where
    new : NewCredential
    new = record {
      user_label = label;
      env_name = env;
      value = body.value;
      actor_label = actor;
      notes = body.notes;
    }

abbrev pub finish_delete :
    Bool → String → String → String → Vault → UserCredentialsStore × Bool → Vault × Response
finish_delete self_service label actor env vault (store, removed) =
    recorded
      (record {
        actor = actor;
        user_label = label;
        env_name = env;
        self_service = self_service;
        event = deleted removed;
      })
      no_content (record vault { store = store })

abbrev pub delete_credential : Bool → String → String → String → Vault → Vault × Response
delete_credential self_service label actor env vault =
    if not (env_name_is_allowed env)
    then (vault, env_name_not_allowed)
    else if not (is_some vault.store.fernet)
    then (vault, user_credentials_disabled)
    else finish_delete self_service label actor env vault (delete label env vault.store)

-- `label or default`
abbrev label_or : Option String → String → String
label_or none default = default
label_or (some label) default = if str_eq label "" then default else label

abbrev pub mine : Caller → String
mine who = label_or who.label "anon"

abbrev pub admin_label : Caller → String
admin_label who = label_or who.label "admin"

unfoldable pub upsert_my_credential :
    Caller → String → CredentialUpsert → ℕ → ℕ → Vault → Vault × Response
upsert_my_credential who env body iv now vault =
    if leb 1 (rank_of who.role)
    then upsert_credential true (mine who) (mine who) env body iv now vault
    else (vault, forbidden)

unfoldable pub delete_my_credential : Caller → String → Vault → Vault × Response
delete_my_credential who env vault =
    if leb 1 (rank_of who.role)
    then delete_credential true (mine who) (mine who) env vault
    else (vault, forbidden)

unfoldable pub upsert_user_credential :
    Caller → String → String → CredentialUpsert → ℕ → ℕ → Vault → Vault × Response
upsert_user_credential who label env body iv now vault =
    if leb 2 (rank_of who.role)
    then upsert_credential false label (admin_label who) env body iv now vault
    else (vault, forbidden)

unfoldable pub delete_user_credential : Caller → String → String → Vault → Vault × Response
delete_user_credential who label env vault =
    if leb 2 (rank_of who.role)
    then delete_credential false label (admin_label who) env vault
    else (vault, forbidden)
