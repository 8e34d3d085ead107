-- ===== src/RateLimit.antt =====
-- src/gg_relay/api/middleware/rate_limit.py: the token bucket of each API key, and the middleware. Time
-- is counted in ticks, `hz` to the second, and tokens in parts, `60 * hz` to a token, so that a tick at
-- `rate_per_min` adds exactly `rate_per_min` parts; the source computes the same in floats.
pub mod Budget
pub mod Moves
pub mod Quota
pub mod Recency
pub mod Table
use Prim.Native.String.{String}
use gg_proxy.Base.{
  ℕ, suc, ◌+◌, ◌-◌, ◌*◌, ◌/◌, min, Bool, true, false, not, ◌&&◌, ◌||◌, Option, none, some, List, [],
  ◌∷◌, ◌++◌, ltb, leb, ◌==◌, if◌then◌else◌, length, option_or, str_eq, truthy,
}
use gg_proxy.Base.Dict.{Dict, lookup, contains, insert, erase}
use gg_proxy.Base.Set.{member, discard}
use text.Mathlib.Text.{starts_with}

pub record Bucket : Type 0 where
  pub tokens : ℕ
  pub last_refill : ℕ

pub record Limits : Type 0 where
  pub rate_per_min : ℕ
  pub burst : ℕ
  pub lru_cap : ℕ
  -- in seconds
  pub ttl : ℕ
  pub hz : ℕ

-- The least recently used bucket and lock stand first.
pub record Limiter : Type 0 where
  pub limits : Limits
  pub buckets : Dict Bucket
  pub locks : List ℕ

-- `__init__`
abbrev pub new_limiter : Limits → Limiter
new_limiter l = record { limits = l; buckets = []; locks = [] }

abbrev pub one_token : Limits → ℕ
one_token l = 60 * l.hz

abbrev pub full : Limits → ℕ
full l = l.burst * one_token l

-- An idle bucket is older than the window.
abbrev pub is_stale : Limits → ℕ → Bucket → Bool
is_stale l now b = ltb (l.ttl * l.hz) (now - b.last_refill)

abbrev pub stale_keys : Limits → ℕ → Dict Bucket → List ℕ
stale_keys l now [] = []
stale_keys l now ((k, b) ∷ d) =
    let rest = stale_keys l now d in if is_stale l now b then k ∷ rest else rest

abbrev pub pop_keys : List ℕ → Limiter → Limiter
pop_keys [] m = m
pop_keys (k ∷ ks) m =
    pop_keys ks (record m { buckets = erase k m.buckets; locks = discard k m.locks })

unfoldable pub sweep_once : ℕ → Limiter → Limiter
sweep_once now m = pop_keys (stale_keys m.limits now m.buckets) m

-- `none` is the KeyError of `popitem` on no bucket, which a cap of 0 brings about.
unfoldable pub evict_lru : Limiter → Option Limiter
evict_lru m =
    if leb m.limits.lru_cap (length m.buckets)
    then (elim m.buckets [
      | [] ↦ none
      | e ∷ rest ↦ some (record m { buckets = rest; locks = discard e.0 m.locks })
    ])
    else some m

pub data Verdict : Type 0 where
  allowed : Verdict
  -- with the parts that are missing to a token
  denied : ℕ → Verdict
  key_error : Verdict
  -- at a rate of 0 the wait is divided by it
  zero_division : Verdict

-- Refill, then spend a token if there is one.
unfoldable pub refill : Limits → ℕ → Bucket → Bucket
refill l now b = record {
  tokens = min (full l) (b.tokens + (now - b.last_refill) * l.rate_per_min);
  last_refill = now;
}

unfoldable pub spend : Limits → ℕ → Bucket → Verdict × Bucket
unfolding refill
spend l now b =
    let b' = refill l now b in
    if leb (one_token l) b'.tokens
    then (allowed, record b' { tokens = b'.tokens - one_token l })
    else if l.rate_per_min == 0
    then (zero_division, b')
    else (denied (one_token l - b'.tokens), b')

abbrev pub fresh_bucket : Limits → ℕ → Bucket
fresh_bucket l now = record { tokens = full l; last_refill = now }

-- `d[k] = v` and `move_to_end(k)`
abbrev pub put_last {ℓ} : {V : Type ℓ} → ℕ → V → Dict V → Dict V
put_last k v d = erase k d ++ (k, v) ∷ []

abbrev pub to_end : ℕ → List ℕ → List ℕ
to_end k ks = discard k ks ++ k ∷ []

-- Under the key's lock.
unfoldable pub spend_key : ℕ → ℕ → Limiter → Verdict × Limiter
spend_key key now m =
    let b = option_or (lookup key m.buckets) (fresh_bucket m.limits now) in
    let (verdict, b') = spend m.limits now b in
    (verdict, record m { buckets = put_last key b' m.buckets; locks = to_end key m.locks })

unfoldable pub acquire : ℕ → ℕ → Limiter → Verdict × Limiter
acquire key now m =
    if member key m.locks
    then spend_key key now m
    else elim (evict_lru m) [ none ↦ (key_error, m) | some m' ↦ spend_key key now m' ]

-- `int(retry_after) + 1`, in seconds, of the wait for the missing parts.
unfoldable pub retry_seconds : Limits → ℕ → ℕ
retry_seconds l missing = missing / (l.rate_per_min * l.hz) + 1

pub data Dispatch : Type 0 where
  passes_on : Dispatch
  -- 429, with `Retry-After`
  too_many : ℕ → Dispatch
  -- an exception: 500
  raises : Dispatch

abbrev pub is_exempt : String → Bool
is_exempt path = str_eq path "/healthz" || (str_eq path "/readyz" || str_eq path "/metrics")

abbrev pub any_prefix : List String → String → Bool
any_prefix [] path = false
any_prefix (pre ∷ pres) path = starts_with path pre || any_prefix pres path

abbrev pub verdict_dispatch : Limits → Verdict → Dispatch
verdict_dispatch l allowed = passes_on
verdict_dispatch l (denied missing) = too_many (retry_seconds l missing)
verdict_dispatch l key_error = raises
verdict_dispatch l zero_division = raises

-- An exempt path, and a request with no key, does not reach the limiter.
unfoldable pub dispatch : List String → String → Option ℕ → ℕ → Limiter → Dispatch × Limiter
dispatch exempt path key_id now m =
    if is_exempt path || any_prefix exempt path then (passes_on, m) else elim key_id [
      | none ↦ (passes_on, m)
      | some key ↦ let (v, m') = acquire key now m in (verdict_dispatch m.limits v, m')
    ]
