-- ===== src/RateLimit/Table.antt =====
-- The two dicts of the limiter.
use gg_proxy.Base.{
  ℕ, ◌≤◌, ◌<◌, ◌≡◌, ◌≢◌, refl, ◌∙◌, ◌⊎◌, inl, inr, true, false, Option, none, some, List, [], ◌∷◌,
  arith, ◌==◌, if◌then◌else◌, length, Bool-cases, option_or, leb,
}
use gg_proxy.Base.Dict.{
  Dict, lookup, contains, erase, Distinct, lookup-erase_ne, lookup-erase_self, erase-Distinct,
  length-erase-le,
}
use gg_proxy.Base.Set.{member, discard, member-discard}
use gg_proxy.RateLimit.{
  Bucket, Limits, Limiter, key_error, full, fresh_bucket, spend, spend_key, acquire, evict_lru,
  pop_keys, sweep_once, stale_keys, is_stale,
}
use gg_proxy.RateLimit.Budget.{spend_le_full}
use gg_proxy.RateLimit.Recency.{lookup-put_last, put_last-Distinct, length-put_last, member-to_end}

-- Every lock has its bucket and every bucket its lock; no more buckets than the cap; and no bucket is
-- above the burst.
pub record IsTidy (m : Limiter) : Type 0 where
  pub paired : (k : ℕ) → contains k m.buckets ≡ member k m.locks
  pub distinct : Distinct m.buckets
  pub capped : length m.buckets ≤ m.limits.lru_cap
  pub filled : (k : ℕ) (b : Bucket) → lookup k m.buckets ≡ some b → b.tokens ≤ full m.limits

spend_key-IsTidy :
    (key now : ℕ) (m : Limiter)
    → IsTidy m
    → (member key m.locks ≡ true) ⊎ (length m.buckets < m.limits.lru_cap)
    → IsTidy (spend_key key now m).1
unfolding spend_key
spend_key-IsTidy key now m t room = record {
  paired = λ k. ground (
    arith,
    lookup-put_last k key b m.buckets t.distinct,
    member-to_end k key m.locks,
    t.paired k,
  );
  distinct = put_last-Distinct key b m.buckets t.distinct;
  capped = ground (arith, length-put_last key b m.buckets, t.capped, t.paired key, room);
  filled = λ k c h.
      ground (arith, lookup-put_last k key b m.buckets t.distinct, t.filled k c, tokens_full);
}
  where
    b : Bucket
    b = (spend m.limits now (option_or (lookup key m.buckets) (fresh_bucket m.limits now))).1

    tokens_full : b.tokens ≤ full m.limits
    tokens_full =
        spend_le_full m.limits now (option_or (lookup key m.buckets) (fresh_bucket m.limits now))

pub rest-lookup :
    {V : Type 0} (k : ℕ) (e : ℕ × V) (d : Dict V)
    → Distinct (e ∷ d)
    → lookup k d ≡ (if k == e.0 then none else lookup k (e ∷ d))
rest-lookup k e d h = ground (arith, h.0)

evict_lru-IsTidy :
    (l : Limits) (d : Dict Bucket) (s : List ℕ)
    → 1 ≤ l.lru_cap
    → IsTidy (record { limits = l; buckets = d; locks = s })
    → (m : Limiter) × (evict_lru (record { limits = l; buckets = d; locks = s }) ≡ some m)
      × IsTidy m
      × (length m.buckets < m.limits.lru_cap)
      × (m.limits ≡ l)
unfolding evict_lru
evict_lru-IsTidy l [] s c t =
    (record { limits = l; buckets = []; locks = s }, ground arith, t, omega (arith, c), refl)
evict_lru-IsTidy l (e ∷ d) s c t = elim (Bool-cases (leb l.lru_cap (length (e ∷ d)))) [
  | inl at_cap ↦ (
    record { limits = l; buckets = d; locks = discard e.0 s },
    ground arith,
    record {
      paired =
          λ k. ground (arith, rest-lookup k e d t.distinct, member-discard k e.0 s, t.paired k);
      distinct = t.distinct.1;
      capped = omega (arith, t.capped);
      filled = λ k b h. ground (arith, rest-lookup k e d t.distinct, t.filled k b);
    },
    omega (arith, t.capped),
    refl,
  )
  | inr below ↦
      (record { limits = l; buckets = e ∷ d; locks = s }, ground arith, t, ground arith, refl)
]

spend-decides : (l : Limits) (now : ℕ) (b : Bucket) → (spend l now b).0 ≢ key_error
unfolding spend
spend-decides l now b h = ground arith

-- A limiter whose cap is not 0 keeps its dicts tidy: after any request on any key at any time, every
-- lock has its bucket and every bucket its lock, the buckets are no more than the cap, and none of them is
-- above the burst; and the request is decided, never ended by an empty table.
pub acquire-IsTidy :
    (key now : ℕ) (m : Limiter)
    → 1 ≤ m.limits.lru_cap
    → IsTidy m
    → IsTidy (acquire key now m).1 × ((acquire key now m).0 ≢ key_error)
unfolding acquire spend_key
acquire-IsTidy key now m c t = elim (Bool-cases (member key m.locks)) [
  | inl known ↦ rw known (
    spend_key-IsTidy key now m t (inl known),
    spend-decides m.limits now (option_or (lookup key m.buckets) (fresh_bucket m.limits now)),
  )
  | inr unknown ↦
      let (m', e, t', room, _) = evict_lru-IsTidy m.limits m.buckets m.locks c t in
      rw (unknown, e)
        (
          spend_key-IsTidy key now m' t' (inr room),
          spend-decides m'.limits now
              (option_or (lookup key m'.buckets) (fresh_bucket m'.limits now)),
        )
]

erase_both-IsTidy :
    (key : ℕ) (m : Limiter)
    → IsTidy m
    → IsTidy (record m { buckets = erase key m.buckets; locks = discard key m.locks })
erase_both-IsTidy key m t = record {
  paired = λ k. ground (
    arith,
    lookup-erase_ne k key m.buckets,
    lookup-erase_self key m.buckets t.distinct,
    member-discard k key m.locks,
    t.paired k,
  );
  distinct = erase-Distinct key m.buckets t.distinct;
  capped = omega (arith, length-erase-le key m.buckets, t.capped);
  filled = λ k b h. ground (
    arith,
    lookup-erase_ne k key m.buckets,
    lookup-erase_self key m.buckets t.distinct,
    t.filled k b,
  );
}

pop_keys-IsTidy : (ks : List ℕ) (m : Limiter) → IsTidy m → IsTidy (pop_keys ks m)
pop_keys-IsTidy [] m t = t
pop_keys-IsTidy (k ∷ ks) m t = pop_keys-IsTidy ks _ (erase_both-IsTidy k m t)

pub lookup-pop_keys :
    (k : ℕ) (ks : List ℕ) (m : Limiter)
    → Distinct m.buckets
    → lookup k (pop_keys ks m).buckets ≡ (if member k ks then none else lookup k m.buckets)
lookup-pop_keys k [] m h = refl
lookup-pop_keys k (j ∷ ks) m h =
    lookup-pop_keys k ks (record m { buckets = erase j m.buckets; locks = discard j m.locks })
      (erase-Distinct j m.buckets h)
    ∙ ground (arith, lookup-erase_ne k j m.buckets, lookup-erase_self j m.buckets h)

abbrev pub unless_stale : Limits → ℕ → Option Bucket → Option Bucket
unless_stale l now none = none
unless_stale l now (some b) = if is_stale l now b then none else some b

member-stale_keys :
    (l : Limits) (now k : ℕ) (d : Dict Bucket)
    → contains k d ≡ false
    → member k (stale_keys l now d) ≡ false
member-stale_keys l now k [] h = refl
member-stale_keys l now k ((j, b) ∷ d) h = ground (arith, member-stale_keys l now k d)

stale-lookup :
    (l : Limits) (now k : ℕ) (d : Dict Bucket)
    → Distinct d
    → (if member k (stale_keys l now d) then none else lookup k d) ≡ unless_stale l now (lookup k d)
stale-lookup l now k [] h = refl
stale-lookup l now k ((j, b) ∷ d) h =
    ground (arith, h.0, stale-lookup l now k d h.1, member-stale_keys l now k d)

-- One sweep of a tidy limiter leaves it tidy, and it forgets exactly the buckets that have been idle for
-- longer than the window: every other key keeps its bucket as it was.
pub sweep_once-IsTidy :
    (now : ℕ) (m : Limiter)
    → IsTidy m
    → IsTidy (sweep_once now m)
      × ((k : ℕ)
          → lookup k (sweep_once now m).buckets ≡ unless_stale m.limits now (lookup k m.buckets))
unfolding sweep_once
sweep_once-IsTidy now m t = (
  pop_keys-IsTidy (stale_keys m.limits now m.buckets) m t,
  λ k.
      lookup-pop_keys k (stale_keys m.limits now m.buckets) m t.distinct
      ∙ stale-lookup m.limits now k m.buckets t.distinct,
)
