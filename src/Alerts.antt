-- ===== src/Alerts.antt =====
-- src/gg_relay/subscribers/alert_router.py: rules, a cooldown for each kind of alert, and the sending of a
-- card. Times and the cooldown are in one unit.
pub mod Cooldown
use Prim.Native.String.{String}
use text.Mathlib.Text.{starts_with}
use gg_proxy.Base.{
  ℕ, suc, ◌-◌, Bool, true, false, not, ◌&&◌, ◌||◌, Option, none, some, List, [], ◌∷◌, ◌++◌,
  if◌then◌else◌, leb, ltb, length, is_some, option_or, str_eq, truthy, text_lookup, drop_chars,
  strip,
}

abbrev pub Rules : Type 0
Rules = List (String × List String)

abbrev pub default_rules : Rules
default_rules =
    ("fail", "always" ∷ [])
    ∷ ("cancel", "timeout" ∷ "timeout_recovered" ∷ "paused_timeout" ∷ [])
    ∷ ("complete", "tag=notify" ∷ [])
    ∷ []

-- What an alert is counted under: event type, owner and end reason.
pub record AlertKey : Type 0 where
  pub event_type : String
  pub owner : String
  pub end_reason : String

abbrev pub key_eq : AlertKey → AlertKey → Bool
key_eq a b =
    str_eq a.event_type b.event_type && (str_eq a.owner b.owner && str_eq a.end_reason b.end_reason)

-- The least recent alert stands first.
abbrev pub LastAlert : Type 0
LastAlert = List (AlertKey × ℕ)

pub record Card : Type 0 where
  pub channel_id : Option String
  pub mention : Option String

-- The card builder and the backend: `none` and `false` when they raise.
pub record Im : Type 0 where
  pub build : AlertKey → Option String → Option Card
  pub send : Card → Bool

pub record Router : Type 0 where
  pub rules : Rules
  pub user_mapping : List (String × String)
  pub im : Option Im
  pub default_channel : Option String
  pub cooldown : ℕ
  pub last_alert : LastAlert

abbrev pub lru_cap : ℕ
lru_cap = 1000

-- A rule of the configuration takes the place of the default one of its name.
unfoldable pub init : Rules → List (String × String) → Option Im → Option String → ℕ → Router
init rules user_mapping im default_channel cooldown = record {
  rules = rules ++ default_rules;
  user_mapping = user_mapping;
  im = im;
  default_channel = default_channel;
  cooldown = cooldown;
  last_alert = [];
}

abbrev pub rule_key : String → Option String
rule_key event_type =
    if str_eq event_type "session_failed"
    then some "fail"
    else if str_eq event_type "session_cancelled"
    then some "cancel"
    else if str_eq event_type "session_completed"
    then some "complete"
    else none

abbrev pub has_tag : String → List String → Bool
has_tag wanted [] = false
has_tag wanted (tag ∷ tags) = str_eq wanted tag || has_tag wanted tags

abbrev pub condition_holds : String → List String → String → Bool
condition_holds end_reason tags cond =
    if str_eq cond "always"
    then true
    else if starts_with cond "tag="
    then (let wanted = strip (drop_chars 4 cond) in
        if str_eq wanted "" then false else has_tag wanted tags)
    else str_eq cond end_reason

abbrev pub any_holds : String → List String → List String → Bool
any_holds end_reason tags [] = false
any_holds end_reason tags (cond ∷ conds) =
    condition_holds end_reason tags cond || any_holds end_reason tags conds

unfoldable pub matches : String → String → List String → Router → Bool
matches event_type end_reason tags r = elim (rule_key event_type) [
  | none ↦ false
  | some key ↦ any_holds end_reason tags (option_or (text_lookup key r.rules) [])
]

unfoldable pub last_of : AlertKey → LastAlert → Option ℕ
last_of k [] = none
last_of k ((j, t) ∷ d) = if key_eq k j then some t else last_of k d

-- Every entry of the key, so that no side condition on the keys is needed.
unfoldable pub without : AlertKey → LastAlert → LastAlert
without k [] = []
without k (e ∷ d) = let rest = without k d in if key_eq k e.0 then rest else e ∷ rest

-- `popitem(last=False)`, of a dict that is not empty
abbrev pub drop_oldest : LastAlert → LastAlert
drop_oldest [] = []
drop_oldest (e ∷ d) = d

unfoldable pub make_room : AlertKey → LastAlert → LastAlert
make_room k d = if not (is_some (last_of k d)) && leb lru_cap (length d) then drop_oldest d else d

abbrev pub record_alert : AlertKey → ℕ → LastAlert → LastAlert
record_alert k now d = without k (make_room k d) ++ (k, now) ∷ []

abbrev pub in_cooldown : ℕ → ℕ → Option ℕ → Bool
in_cooldown cooldown now none = false
in_cooldown cooldown now (some last) = ltb (now - last) cooldown

-- Whether the key may alert now.
unfoldable pub cooldown_check : AlertKey → ℕ → Router → Bool × Router
cooldown_check k now r =
    if in_cooldown r.cooldown now (last_of k r.last_alert)
    then (false, r)
    else (true, record r { last_alert = record_alert k now r.last_alert })

unfoldable pub resolve_mention : Option String → Router → Option String
resolve_mention owner r =
    if truthy owner then text_lookup (option_or owner "") r.user_mapping else none

pub record Alert : Type 0 where
  pub event_type : String
  pub owner : Option String
  pub tags : List String
  pub end_reason : String

abbrev pub key_of : Alert → AlertKey
key_of a = record {
  event_type = a.event_type;
  owner = if truthy a.owner then option_or a.owner "anon" else "anon";
  end_reason = a.end_reason;
}

abbrev pub in_channel : Option String → Card → Card
in_channel channel card =
    if not (is_some card.channel_id) && truthy channel
    then record card { channel_id = channel }
    else card

-- Whether a card was handed over; every failure is logged and passed over.
unfoldable pub deliver : Alert → Router → Bool
deliver a r = elim r.im [
  | none ↦ false
  | some im ↦ elim (im.build (key_of a) (resolve_mention a.owner r)) [
    | none ↦ false
    | some card ↦ im.send (in_channel r.default_channel card)
  ]
]

unfoldable pub dispatch : Alert → ℕ → Router → Bool × Router
dispatch a now r =
    if matches a.event_type a.end_reason a.tags r
    then (let (may, r') = cooldown_check (key_of a) now r in (may && deliver a r', r'))
    else (false, r)
