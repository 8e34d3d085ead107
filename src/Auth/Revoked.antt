-- ===== src/Auth/Revoked.antt =====
-- A key that has been revoked is refused from then on, whatever the cache held.
pub mod Table
pub mod Cache
pub mod History
use gg_proxy.Base.{
  ℕ, suc, ◌+◌, ◌≡◌, ◌≢◌, refl, Bool, true, false, ◌&&◌, String, Option, none, some, List, [], ◌∷◌,
  ltb, ◌==◌, arith, Bool-cases, Option-cases, inl, inr, is_some, if◌then◌else◌, subst, sym, ◌∙◌, ap,
  ◌⊎◌, if_both,
}
use mathlib.Core.Option.{some-injective}
use gg_proxy.Base.Dict.{
  Dict, Distinct, lookup, insert, erase, contains, lookup-insert, insert-Distinct, erase-Distinct,
  lookup-erase_self, lookup-erase_ne,
}
use gg_proxy.Auth.{
  KeyRow, Keys, NewKey, create_key, get_by_hash, get_by_label, revoke, active, touch_last_used,
}
use gg_proxy.Auth.Resolver.{
  ResolvedKey, Cached, Settings, Drops, Resolver, accepted, lookup_key, schedule_touch,
  store_answer, cached_answer, touch_if, answer_with, resolve_key, forget_hash, invalidate_cache,
}
use gg_proxy.Auth.Endpoints.{
  Desk, Response, no_content, Checked, refuse, go_on, KeyLog, ApiKeyCreate, after_audit,
  after_create, create_api_key, revoke_checks, revoke_writes, after_checks, revoke_api_key,
}
use gg_proxy.Auth.Bootstrap.{Summary, made, sync_one, sync_to_db}
use gg_proxy.Auth.Machine.{
  Action, resolves, touches, creates, revokes, imports, log_turns, act, history,
}
use gg_proxy.Auth.Guard.{Sound, revoke_checks-Sound, head_found}

-- The row that the hash finds is there and revoked.
abbrev pub revoked_entry : Option (ℕ × KeyRow) → Bool
revoked_entry none = false
revoked_entry (some (label, row)) = is_some row.revoked_at

-- The cache does not answer with a key.
abbrev pub quiet : Option Cached → Bool
quiet none = true
quiet (some (none, until)) = true
quiet (some (some key, until)) = false

abbrev pub IsDead : ℕ → Keys → Type 0
IsDead kh keys = revoked_entry (get_by_hash kh keys) ≡ true

-- No lookup that is on its way has found the key valid.
abbrev pub unpromising : Option (Option ResolvedKey) → Bool
unpromising none = true
unpromising (some none) = true
unpromising (some (some key)) = false

abbrev pub IsQuiet : ℕ → Resolver → Type 0
IsQuiet kh r =
    ((quiet (lookup kh r.cache) ≡ true) × Distinct r.cache)
    × ((unpromising (lookup kh r.inflight) ≡ true) × Distinct r.inflight)
