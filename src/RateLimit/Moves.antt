-- ===== src/RateLimit/Moves.antt =====
-- What a request or a sweep makes of one key's bucket.
use gg_proxy.Base.{
  ℕ, ◌+◌, ◌-◌, ◌*◌, ◌≤◌, ◌≡◌, ◌⊎◌, inl, inr, refl, ap, ◌∙◌, sym, Bool, true, false, not, ◌&&◌,
  Option, none, some, List, [], ◌∷◌, arith, ◌==◌, leb, if◌then◌else◌, length, option_or, is_some,
  Bool-cases,
}
use gg_proxy.Base.Dict.{Dict, lookup, Distinct}
use gg_proxy.Base.Set.{member, discard}
use gg_proxy.RateLimit.{
  Bucket, Limits, Limiter, one_token, full, fresh_bucket, spend, spend_key, acquire, evict_lru,
  sweep_once, stale_keys, is_stale, pop_keys,
}
use gg_proxy.RateLimit.Budget.{is_allowed, spend_budget, span_split}
use gg_proxy.RateLimit.Recency.{lookup-put_last}
use gg_proxy.RateLimit.Table.{IsTidy, sweep_once-IsTidy, rest-lookup, unless_stale}

abbrev pub one_if : Bool → ℕ
one_if b = if b then 1 else 0

-- What the key can spend at a time without a refill.
abbrev pub room : Limits → ℕ → Option Bucket → ℕ
room l now none = full l
room l now (some b) = b.tokens + (now - b.last_refill) * l.rate_per_min

abbrev pub Past : ℕ → Option Bucket → Type 0
Past now none = Unit {0}
Past now (some b) = b.last_refill ≤ now

-- What a step makes of the key's bucket, if it is let through or not and dropped or not.
pub Moved : Limits → ℕ → Option Bucket → Option Bucket → Bool → Bool → Type 0
Moved l now o o' passed dropped =
    let (v, b') = spend l now (option_or o (fresh_bucket l now)) in
    ((o' ≡ some b') × (passed ≡ is_allowed v) × (dropped ≡ false))
    ⊎ (((o' ≡ o) × (passed ≡ false) × (dropped ≡ false))
        ⊎ ((o' ≡ none) × (passed ≡ false) × (dropped ≡ true)))

spent_room :
    (l : Limits) (start now : ℕ) (o : Option Bucket)
    → start ≤ now
    → Past start o
    → let (v, b') = spend l now (option_or o (fresh_bucket l now)) in
      ((if is_allowed v then one_token l else 0) + b'.tokens
        ≤ room l start o + (now - start) * l.rate_per_min)
      × (b'.last_refill ≡ now)
spent_room l start now none h past =
    let (budget, at, _) = spend_budget l now (fresh_bucket l now) (omega arith) in
    (ground (arith, budget), at)
spent_room l start now (some b) h past =
    let (budget, at, _) = spend_budget l now b (omega (arith, h, past)) in
    (omega (arith, budget, span_split b.last_refill start now l.rate_per_min past h), at)

no_span : (now : ℕ) → now - now ≡ 0
no_span now = omega arith

paid :
    (a : Bool) (one tokens now last r bound more : ℕ)
    → (if a then one else 0) + tokens ≤ bound
    → last ≡ now
    → one_if a * one + (tokens + (now - last) * r) ≤ bound + 0 * more
paid true one tokens now last r bound more h e =
    rw (e, ap (λ (t : ℕ). t * r) (no_span now)) (omega (arith, h))
paid false one tokens now last r bound more h e =
    rw (e, ap (λ (t : ℕ). t * r) (no_span now)) (omega (arith, h))

-- One step costs no more than the refill of its time, and a full bucket where the key's is dropped.
pub Moved-room :
    (l : Limits) (start now : ℕ) (o o' : Option Bucket) (passed dropped : Bool)
    → start ≤ now
    → Past start o
    → Moved l now o o' passed dropped
    → (one_if passed * one_token l + room l now o'
        ≤ room l start o + (now - start) * l.rate_per_min + one_if dropped * full l)
      × Past now o'
unfolding Moved
Moved-room l start now o o' passed dropped h past (inl (e, p, d)) =
    let (budget, at) = spent_room l start now o h past in
    rw (e, p, d)
      (paid _ (one_token l) _ now _ l.rate_per_min _ (full l) budget at, omega (arith, at))
Moved-room l start now none o' passed dropped h past (inr (inl (e, p, d))) =
    rw (e, p, d) (omega arith, tt)
Moved-room l start now (some b) o' passed dropped h past (inr (inl (e, p, d))) =
    rw (e, p, d)
      (
        omega (arith, span_split b.last_refill start now l.rate_per_min past h),
        omega (arith, past, h),
      )
Moved-room l start now o o' passed dropped h past (inr (inr (e, p, d))) =
    rw (e, p, d) (omega arith, tt)

evicted :
    (k : ℕ) (l : Limits) (d : Dict Bucket) (s : List ℕ)
    → 1 ≤ l.lru_cap
    → Distinct d
    → (m : Limiter) × (evict_lru (record { limits = l; buckets = d; locks = s }) ≡ some m)
      × (m.limits ≡ l)
      × Distinct m.buckets
      × ((lookup k m.buckets ≡ lookup k d) ⊎ (lookup k m.buckets ≡ none))
unfolding evict_lru
evicted k l [] s c distinct =
    (record { limits = l; buckets = []; locks = s }, ground (arith, c), refl, tt, inl refl)
evicted k l (e ∷ d) s c distinct = elim (Bool-cases (leb l.lru_cap (length (e ∷ d)))) [
  | inl at_cap ↦ (
    record { limits = l; buckets = d; locks = discard e.0 s },
    ground arith,
    refl,
    distinct.1,
    elim (Bool-cases (k == e.0)) [
      | inl same ↦ inr (rest-lookup k e d distinct ∙ ground (arith, same))
      | inr other ↦ inl (ground (arith, other))
    ],
  )
  | inr below ↦
      (record { limits = l; buckets = e ∷ d; locks = s }, ground arith, refl, distinct, inl refl)
]

spend_key-Moved_own :
    (key now : ℕ) (m : Limiter)
    → Distinct m.buckets
    → Moved m.limits now
        (lookup key m.buckets)
        (lookup key (spend_key key now m).1.buckets)
        (key == key && is_allowed (spend_key key now m).0)
        (is_some (lookup key m.buckets)
          && not (is_some (lookup key (spend_key key now m).1.buckets)))
unfolding Moved spend_key
spend_key-Moved_own key now m distinct = inl (found, ground arith, ground (arith, found))
  where
    b : Bucket
    b = (spend m.limits now (option_or (lookup key m.buckets) (fresh_bucket m.limits now))).1

    found : lookup key (spend_key key now m).1.buckets ≡ some b
    found = ground (arith, lookup-put_last key key b m.buckets distinct)

spend_key-lookup_ne :
    (k key now : ℕ) (m : Limiter)
    → (k == key) ≡ false
    → Distinct m.buckets
    → lookup k (spend_key key now m).1.buckets ≡ lookup k m.buckets
unfolding spend_key
spend_key-lookup_ne k key now m ne distinct = ground (
  arith,
  ne,
  lookup-put_last k key
      (spend m.limits now (option_or (lookup key m.buckets) (fresh_bucket m.limits now))).1
      m.buckets distinct,
)

-- Another key's bucket stays, or is dropped.
other_Moved :
    (l : Limits) (now : ℕ) (o o' : Option Bucket)
    → (o' ≡ o) ⊎ (o' ≡ none)
    → Moved l now o o' false (is_some o && not (is_some o'))
unfolding Moved
other_Moved l now o o' (inl e) = inr (inl (e, refl, ground (arith, e)))
other_Moved l now none o' (inr e) = inr (inl (e, refl, ground arith))
other_Moved l now (some b) o' (inr e) = inr (inr (e, refl, ground (arith, e)))

spend_key-Moved :
    (k key now : ℕ) (m : Limiter)
    → Distinct m.buckets
    → Moved m.limits now
        (lookup k m.buckets)
        (lookup k (spend_key key now m).1.buckets)
        (k == key && is_allowed (spend_key key now m).0)
        (is_some (lookup k m.buckets) && not (is_some (lookup k (spend_key key now m).1.buckets)))
spend_key-Moved k key now m distinct = elim (Bool-cases (k == key)) [
  | inl same ↦
      let e : k ≡ key = ground (arith, same) in rw e (spend_key-Moved_own key now m distinct)
  | inr ne ↦ rw ne (
      other_Moved m.limits now (lookup k m.buckets) (lookup k (spend_key key now m).1.buckets)
        (inl (spend_key-lookup_ne k key now m ne distinct)))
]

-- A new key, after the eviction that makes room for it.
fresh_Moved :
    (k key now : ℕ) (m m' : Limiter)
    → lookup key m.buckets ≡ none
    → m'.limits ≡ m.limits
    → Distinct m'.buckets
    → (lookup k m'.buckets ≡ lookup k m.buckets) ⊎ (lookup k m'.buckets ≡ none)
    → Moved m.limits now
        (lookup k m.buckets)
        (lookup k (spend_key key now m').1.buckets)
        (k == key && is_allowed (spend_key key now m').0)
        (is_some (lookup k m.buckets) && not (is_some (lookup k (spend_key key now m').1.buckets)))
fresh_Moved k key now m m' new lim distinct was = elim (Bool-cases (k == key)) [
  | inl same ↦
      let e : lookup k m.buckets ≡ lookup k m'.buckets = elim was [
        | inl e ↦ sym e
        | inr e ↦ ground (arith, same, new) ∙ sym e
      ] in
      rw (sym lim, e) (spend_key-Moved k key now m' distinct)
  | inr ne ↦
      let e = spend_key-lookup_ne k key now m' ne distinct in
      rw ne (
        other_Moved m.limits now (lookup k m.buckets) (lookup k (spend_key key now m').1.buckets)
          (elim was [ inl f ↦ inl (e ∙ f) | inr f ↦ inr (e ∙ f) ]))
]

spend_key-limits : (key now : ℕ) (m : Limiter) → (spend_key key now m).1.limits ≡ m.limits
unfolding spend_key
spend_key-limits key now m = refl

pop_keys-limits : (ks : List ℕ) (m : Limiter) → (pop_keys ks m).limits ≡ m.limits
pop_keys-limits [] m = refl
pop_keys-limits (k ∷ ks) m = pop_keys-limits ks _

pub acquire-Moved :
    (k key now : ℕ) (m : Limiter)
    → 1 ≤ m.limits.lru_cap
    → IsTidy m
    → Moved m.limits now
        (lookup k m.buckets)
        (lookup k (acquire key now m).1.buckets)
        (k == key && is_allowed (acquire key now m).0)
        (is_some (lookup k m.buckets) && not (is_some (lookup k (acquire key now m).1.buckets)))
      × ((acquire key now m).1.limits ≡ m.limits)
unfolding acquire
acquire-Moved k key now m c t = elim (Bool-cases (member key m.locks)) [
  | inl known ↦ rw known (spend_key-Moved k key now m t.distinct, spend_key-limits key now m)
  | inr unknown ↦
      let (m', e, lim, distinct, was) = evicted k m.limits m.buckets m.locks c t.distinct in
      rw (unknown, e)
        (
          fresh_Moved k key now m m' (ground (arith, t.paired key, unknown)) lim distinct was,
          spend_key-limits key now m' ∙ lim,
        )
]

unless_stale-cases :
    (l : Limits) (now : ℕ) (o : Option Bucket)
    → (unless_stale l now o ≡ o) ⊎ (unless_stale l now o ≡ none)
unless_stale-cases l now none = inl refl
unless_stale-cases l now (some b) = elim (Bool-cases (is_stale l now b)) [
  | inl stale ↦ inr (ground (arith, stale))
  | inr fresh ↦ inl (ground (arith, fresh))
]

pub sweep_once-Moved :
    (k now : ℕ) (m : Limiter)
    → IsTidy m
    → Moved m.limits now
        (lookup k m.buckets)
        (lookup k (sweep_once now m).buckets)
        false
        (is_some (lookup k m.buckets) && not (is_some (lookup k (sweep_once now m).buckets)))
      × ((sweep_once now m).limits ≡ m.limits)
unfolding sweep_once
sweep_once-Moved k now m t =
    let e = (sweep_once-IsTidy now m t).1 k in
    (
      other_Moved m.limits now (lookup k m.buckets) (lookup k (sweep_once now m).buckets)
          (elim (unless_stale-cases m.limits now (lookup k m.buckets)) [
            | inl f ↦ inl (e ∙ f)
            | inr f ↦ inr (e ∙ f)
          ]),
      pop_keys-limits (stale_keys m.limits now m.buckets) m,
    )
