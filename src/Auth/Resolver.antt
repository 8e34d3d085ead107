-- ===== src/Auth/Resolver.antt =====
-- src/gg_relay/auth/db_resolver.py: keys resolved through a cache with a lifetime, in one worker. A
-- lookup of the table may be on its way while other calls are made; the cache is the library's
-- `TTLCache`, of which `evict` stands for what a full one drops. The table does not raise.
use gg_proxy.Base.{
  ℕ, ◌+◌, ◌-◌, ◌≡◌, Bool, false, String, Option, none, some, List, [], ◌∷◌, ltb, if◌then◌else◌,
  option_or, str_eq, is_some,
}
use gg_proxy.Base.Dict.{Dict, Distinct, lookup, insert, erase}
use gg_proxy.Auth.{KeyRow, Keys, get_by_hash, get_by_label}

pub record ResolvedKey : Type 0 where
  pub label : ℕ
  pub role : String
  pub expires_at : Option ℕ
  pub notes : Option String

-- An answer, positive or negative, and the time at which the cache forgets it.
abbrev pub Cached : Type 0
Cached = Option ResolvedKey × ℕ

pub record Settings : Type 0 where
  pub cache_ttl : ℕ
  pub touch_throttle : ℕ
  -- `role_mapping` where `role_override_mode` is "config" and there is a configuration
  pub override : Option (Dict String)
  pub evict : Dict Cached → Dict Cached

-- An eviction only drops entries.
abbrev pub Drops : Settings → Type 0
Drops settings =
    (cache : Dict Cached)
    → Distinct cache
    → Distinct (settings.evict cache)
      × ((kh : ℕ) (entry : Cached)
          → lookup kh (settings.evict cache) ≡ some entry
          → lookup kh cache ≡ some entry)

-- `_cache`; `_inflight`, with what the row that the lookup has read comes to; `_last_touch`; and the
-- touches whose tasks have not run.
pub record Resolver : Type 0 where
  pub cache : Dict Cached
  pub inflight : Dict (Option ResolvedKey)
  pub last_touch : Dict ℕ
  pub touches : List ℕ

abbrev overridden : Option (Dict String) → ℕ → String → String
overridden none label role = role
overridden (some mapping) label role = elim (lookup label mapping) [
  | none ↦ role
  | some other ↦ if str_eq other "" then role else other
]

abbrev expired : Option ℕ → ℕ → Bool
expired none now = false
expired (some at) now = ltb at now

-- `_lookup` of the row that the hash finds.
abbrev pub accepted : Settings → ℕ → Option (ℕ × KeyRow) → Option ResolvedKey
accepted settings now none = none
accepted settings now (some (label, row)) = elim row.revoked_at [
  | some at ↦ none
  | none ↦
      if expired row.expires_at now
      then none
      else some (record {
        label = label;
        role = overridden settings.override label row.role;
        expires_at = row.expires_at;
        notes = row.notes;
      })
]

unfoldable pub lookup_key : Settings → ℕ → ℕ → Keys → Option ResolvedKey
lookup_key settings now kh keys = accepted settings now (get_by_hash kh keys)

-- `_schedule_touch`
unfoldable pub schedule_touch : Settings → ℕ → ℕ → Resolver → Resolver
schedule_touch settings now kh r =
    if ltb (now - option_or (lookup kh r.last_touch) 0) settings.touch_throttle
    then r
    else record r { last_touch = insert kh now r.last_touch; touches = kh ∷ r.touches }

abbrev pub touch_if : Settings → ℕ → ℕ → Option ResolvedKey → Resolver → Resolver
touch_if settings now kh none r = r
touch_if settings now kh (some key) r = schedule_touch settings now kh r

-- `self._cache[kh] = resolved`
abbrev pub store_answer : Settings → ℕ → ℕ → Option ResolvedKey → Resolver → Resolver
store_answer settings now kh answer r = record r {
  cache = settings.evict (insert kh (answer, now + settings.cache_ttl) r.cache);
}

-- `self._cache.get(kh, _MISSING)`: an entry past its time is missing.
abbrev pub cached_answer : ℕ → Option Cached → Option (Option ResolvedKey)
cached_answer now none = none
cached_answer now (some (answer, until)) = if ltb now until then some answer else none

-- The rest of a lookup whose row has been read.
abbrev pub land_answer : Settings → ℕ → ℕ → Resolver → Option (Option ResolvedKey) → Resolver
land_answer settings now kh r none = r
land_answer settings now kh r (some answer) =
    touch_if settings now kh answer
      (store_answer settings now kh answer (record r { inflight = erase kh r.inflight }))

unfoldable pub land_lookup : Settings → ℕ → ℕ → Resolver → Resolver
land_lookup settings now kh r = land_answer settings now kh r (lookup kh r.inflight)

abbrev pub begin_with : Settings → ℕ → ℕ → Keys → Resolver → Option (Option ResolvedKey) → Resolver
begin_with settings now kh keys r (some answer) = touch_if settings now kh answer r
begin_with settings now kh keys r none =
    if is_some (lookup kh r.inflight)
    then r
    else record r { inflight = insert kh (lookup_key settings now kh keys) r.inflight }

-- `resolve` up to its wait: the row is read, or another call's lookup is waited for.
unfoldable pub begin_lookup : Settings → ℕ → ℕ → Keys → Resolver → Resolver
begin_lookup settings now kh keys r =
    begin_with settings now kh keys r (cached_answer now (lookup kh r.cache))

-- Without a lookup on its way there is one now.
abbrev pub looked_up :
    Settings → ℕ → ℕ → Keys → Resolver → Option (Option ResolvedKey) → Resolver × Option ResolvedKey
looked_up settings now kh keys r (some answer) =
    (land_answer settings now kh r (some answer), answer)
looked_up settings now kh keys r none =
    let answer = lookup_key settings now kh keys in
    (touch_if settings now kh answer (store_answer settings now kh answer r), answer)

abbrev pub answer_with :
    Settings → ℕ → ℕ → Keys → Resolver → Option (Option ResolvedKey) → Resolver × Option ResolvedKey
answer_with settings now kh keys r (some answer) = (touch_if settings now kh answer r, answer)
answer_with settings now kh keys r none = looked_up settings now kh keys r (lookup kh r.inflight)

-- `resolve`, of the key's hash, to its end: a lookup that is on its way is waited for, and lands.
unfoldable pub resolve_key : Settings → ℕ → ℕ → Keys → Resolver → Resolver × Option ResolvedKey
resolve_key settings now kh keys r =
    answer_with settings now kh keys r (cached_answer now (lookup kh r.cache))

abbrev pub forget_hash : ℕ → Resolver → Resolver
forget_hash kh r = record r { cache = erase kh r.cache; last_touch = erase kh r.last_touch }

-- `invalidate_cache`: by hash, by label through the table, or all of it.
unfoldable pub invalidate_cache : Option ℕ → Option ℕ → Keys → Resolver → Resolver
invalidate_cache (some kh) label keys r = forget_hash kh r
invalidate_cache none (some label) keys r = elim (get_by_label label keys) [
  | none ↦ r
  | some row ↦ forget_hash row.key_hash r
]
invalidate_cache none none keys r = record r { cache = []; last_touch = [] }
