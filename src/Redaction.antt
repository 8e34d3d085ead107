-- ===== src/Redaction.antt =====
-- src/gg_relay/redaction/engine.py: what is masked before it is stored or logged.
pub mod Secrets
use gg_proxy.Base.{
  ℕ, Bool, true, false, ◌||◌, String, Option, List, [], ◌∷◌, map, if◌then◌else◌, str_eq,
}

pub data Key : Type 0 where
  named : String → Key
  unnamed : ℕ → Key

-- `scalar` is any value that is neither a text nor a container.
mutual
  pub data Value : Type 0 where
    str : String → Value
    scalar : ℕ → Value
    mapping : Fields → Value
    listed : Items → Value
    tupled : Items → Value

  pub data Items : Type 0 where
    no_items : Items
    item : Value → Items → Items

  pub data Fields : Type 0 where
    no_fields : Fields
    field : Key → Value → Fields → Fields

abbrev pub redacted : String
redacted = "***REDACTED***"

abbrev pub default_sensitive_keys : List String
default_sensitive_keys =
    "api_key" ∷ "apikey" ∷ "api-key" ∷ "token" ∷ "secret" ∷ "password" ∷ "pass" ∷ "passwd"
    ∷ "credentials" ∷ "auth" ∷ "authorization" ∷ "anthropic_api_key" ∷ "openai_api_key"
    ∷ "x-api-key" ∷ []

-- For each pattern, `pattern.sub(REDACTED, ·)`; and `str.lower`.
pub record RedactionEngine : Type 0 where
  pub patterns : List (String → String)
  pub lower : String → String
  pub keys : List String

unfoldable pub new_engine :
    List (String → String) → (String → String) → List String → RedactionEngine
new_engine patterns lower sensitive_keys = record {
  patterns = patterns;
  lower = lower;
  keys = map lower sensitive_keys;
}

abbrev pub in_keys : String → List String → Bool
in_keys k [] = false
in_keys k (j ∷ keys) = str_eq k j || in_keys k keys

abbrev pub sub_all : List (String → String) → String → String
sub_all [] out = out
sub_all (pattern ∷ patterns) out = sub_all patterns (pattern out)

module _ (engine : RedactionEngine) where
  unfoldable pub redact_string : String → String
  redact_string s = sub_all engine.patterns s

  abbrev pub is_sensitive : Key → Bool
  is_sensitive (named k) = in_keys (engine.lower k) engine.keys
  is_sensitive (unnamed k) = false

  unfoldable mutual
    pub redact_value : Value → Value
    redact_value (str s) = str (redact_string s)
    redact_value (scalar n) = scalar n
    redact_value (mapping d) = mapping (redact_dict d)
    redact_value (listed items) = listed (redact_items items)
    redact_value (tupled items) = listed (redact_items items)

    pub redact_items : Items → Items
    redact_items no_items = no_items
    redact_items (item v items) = item (redact_value v) (redact_items items)

    pub redact_dict : Fields → Fields
    redact_dict no_fields = no_fields
    redact_dict (field k v d) =
        field k (if is_sensitive k then str redacted else redact_value v) (redact_dict d)

  unfoldable pub redact_frame : Fields → Fields
  redact_frame frame = redact_dict frame

-- What a log event holds at its top level.
pub data Logged : Type 0 where
  secret_str : String → Logged
  plain_str : String → Logged
  other_value : ℕ → Logged

module _ (search : String → Bool) where
  unfoldable pub mask_value : Logged → Logged
  mask_value (secret_str s) = plain_str "***"
  mask_value (plain_str s) = plain_str (if search s then "***" else s)
  mask_value (other_value n) = other_value n

  unfoldable pub redaction_processor : List (String × Logged) → List (String × Logged)
  redaction_processor [] = []
  redaction_processor ((k, v) ∷ event_dict) = (k, mask_value v) ∷ redaction_processor event_dict
