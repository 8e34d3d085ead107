-- ===== src/RateLimit/Quota.antt =====
-- What one key can get out of the limiter, over requests of all keys and sweeps.
use native.Mathlib.Nat.{add-mul}
use gg_proxy.Base.{
  ℕ, ◌+◌, ◌-◌, ◌*◌, ◌≤◌, ◌≡◌, refl, ◌∙◌, subst, Bool, false, not, ◌&&◌, List, [], ◌∷◌, arith, ◌==◌,
}
use gg_proxy.Base.Dict.{lookup, contains}
use gg_proxy.RateLimit.{Limits, Limiter, one_token, full, acquire, new_limiter, sweep_once}
use gg_proxy.RateLimit.Budget.{is_allowed, span_split}
use gg_proxy.RateLimit.Table.{IsTidy, acquire-IsTidy, sweep_once-IsTidy}
use gg_proxy.RateLimit.Moves.{
  one_if, room, Past, Moved, Moved-room, acquire-Moved, sweep_once-Moved,
}

-- What happens to the limiter: a request on a key at a time, or the sweep at a time.
pub data Traffic : Type 0 where
  asks : ℕ → ℕ → Traffic
  sweeps : ℕ → Traffic

abbrev pub time_of : Traffic → ℕ
time_of (asks key now) = now
time_of (sweeps now) = now

abbrev pub after : Traffic → Limiter → Limiter
after (asks key now) m = (acquire key now m).1
after (sweeps now) m = sweep_once now m

-- Whether a request on the key is let through.
abbrev pub passes : ℕ → Traffic → Limiter → Bool
passes k (asks key now) m = k == key && is_allowed (acquire key now m).0
passes k (sweeps now) m = false

-- Whether the key's bucket is dropped, as the least recently used one or as a stale one.
abbrev pub drops : ℕ → Traffic → Limiter → Bool
drops k t m = contains k m.buckets && not (contains k (after t m).buckets)

abbrev pub allowed_of : ℕ → List Traffic → Limiter → ℕ
allowed_of k [] m = 0
allowed_of k (t ∷ ts) m = one_if (passes k t m) + allowed_of k ts (after t m)

abbrev pub drops_of : ℕ → List Traffic → Limiter → ℕ
drops_of k [] m = 0
drops_of k (t ∷ ts) m = one_if (drops k t m) + drops_of k ts (after t m)

-- No time lies before the one in front of it.
abbrev pub InOrder : ℕ → List Traffic → Type 0
InOrder start [] = Unit {0}
InOrder start (t ∷ ts) = (start ≤ time_of t) × InOrder (time_of t) ts

abbrev pub end_of : ℕ → List Traffic → ℕ
end_of start [] = start
end_of start (t ∷ ts) = end_of (time_of t) ts

-- One thing that happens: the key's bucket moves as it may, and the limiter stays tidy.
after-Moved :
    (k : ℕ) (t : Traffic) (m : Limiter)
    → 1 ≤ m.limits.lru_cap
    → IsTidy m
    → Moved m.limits
        (time_of t)
        (lookup k m.buckets)
        (lookup k (after t m).buckets)
        (passes k t m)
        (drops k t m)
      × ((after t m).limits ≡ m.limits)
      × IsTidy (after t m)
after-Moved k (asks key now) m c t =
    let (moved, lim) = acquire-Moved k key now m c t in
    (moved, lim, (acquire-IsTidy key now m c t).0)
after-Moved k (sweeps now) m c t =
    let (moved, lim) = sweep_once-Moved k now m t in (moved, lim, (sweep_once-IsTidy now m t).0)

InOrder-le : (start : ℕ) (ts : List Traffic) → InOrder start ts → start ≤ end_of start ts
InOrder-le start [] o = omega arith
InOrder-le start (t ∷ ts) o = omega (arith, InOrder-le (time_of t) ts o.1, o.0)

add_up :
    (p a one before left s n f r d more bound : ℕ)
    → s ≤ n
    → n ≤ f
    → p * one + left ≤ before + (n - s) * r + d * bound
    → a * one ≤ left + (f - n) * r + more * bound
    → (p + a) * one ≤ before + (f - s) * r + (d + more) * bound
add_up p a one before left s n f r d more bound h k first rest =
    omega (arith, add-mul p a one, add-mul d more bound, span_split s n f r h k, first, rest)

quota :
    (l : Limits) (k start : ℕ) (ts : List Traffic) (m : Limiter)
    → 1 ≤ l.lru_cap
    → m.limits ≡ l
    → IsTidy m
    → Past start (lookup k m.buckets)
    → InOrder start ts
    → allowed_of k ts m * one_token l
      ≤ room l start (lookup k m.buckets)
        + (end_of start ts - start) * l.rate_per_min
        + drops_of k ts m * full l
quota l k start [] m c e t past o = omega arith
quota l k start (x ∷ ts) m c e t past (first, o) =
    let (moved, lim, tidy) = after-Moved k x m (rw e c) t in
    let (cost, past') =
      Moved-room l start (time_of x) (lookup k m.buckets) (lookup k (after x m).buckets)
        (passes k x m) (drops k x m) first past
        (subst
          (λ (y : Limits).
            Moved y (time_of x) (lookup k m.buckets) (lookup k (after x m).buckets) (passes k x m)
              (drops k x m))
          e moved) in
    add_up (one_if (passes k x m)) (allowed_of k ts (after x m)) (one_token l)
      (room l start (lookup k m.buckets)) (room l (time_of x) (lookup k (after x m).buckets)) start
      (time_of x) (end_of (time_of x) ts) l.rate_per_min (one_if (drops k x m))
      (drops_of k ts (after x m)) (full l) first (InOrder-le (time_of x) ts o) cost
      (quota l k (time_of x) ts (after x m) c (lim ∙ e) tidy past' o)

new_limiter-IsTidy : (l : Limits) → IsTidy (new_limiter l)
new_limiter-IsTidy l = record {
  paired = λ k. refl;
  distinct = tt;
  capped = omega arith;
  filled = λ k b h. absurd (ground arith);
}

-- From a new limiter whose cap is not 0, over any requests on any keys and any sweeps, one after the other at
-- times that never go back: the requests on one key that are let through cost no more than a full
-- bucket, another one for each time that the key's bucket is dropped, as the least recently used one or
-- as a stale one, and the refill of the time that has passed, `rate_per_min` parts of a token for each
-- tick.
pub allowed_bounded :
    (l : Limits) (k start : ℕ) (ts : List Traffic)
    → 1 ≤ l.lru_cap
    → InOrder start ts
    → allowed_of k ts (new_limiter l) * one_token l
      ≤ (1 + drops_of k ts (new_limiter l)) * full l + (end_of start ts - start) * l.rate_per_min
allowed_bounded l k start ts c o = omega (
  arith,
  add-mul 1 (drops_of k ts (new_limiter l)) (full l),
  quota l k start ts (new_limiter l) c refl (new_limiter-IsTidy l) tt o,
)
