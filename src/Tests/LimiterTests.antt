-- ===== src/Tests/LimiterTests.antt =====
-- Tests of the rate limiter.
use gg_proxy.Base.{◌+◌, ◌-◌, ◌*◌, ◌≤◌, ◌≡◌, refl, ◌≢◌, List, [], ◌∷◌, arith}
use gg_proxy.RateLimit.Table.{IsTidy, acquire-IsTidy}
use gg_proxy.RateLimit.{
  Bucket, Limits, Limiter, new_limiter, spend, acquire, retry_seconds, allowed, key_error,
}
use gg_proxy.RateLimit.Budget.{retry_after_suffices}
use gg_proxy.RateLimit.Quota.{Traffic, asks, sweeps, allowed_of, drops_of, allowed_bounded}

-- 30 requests a minute and 2 at once, on a clock of one tick to the second.
abbrev limits : Limits
limits = record { rate_per_min = 30; burst = 2; lru_cap = 2; ttl = 600; hz = 1 }

-- The third key takes the place of the first.
abbrev traffic : List Traffic
traffic = asks 3 10 ∷ asks 3 10 ∷ asks 4 11 ∷ asks 5 12 ∷ asks 3 13 ∷ sweeps 700 ∷ []

allowed_bounded_example :
    allowed_of 3 traffic (new_limiter limits) * 60
    ≤ (1 + drops_of 3 traffic (new_limiter limits)) * 120 + (700 - 10) * 30
allowed_bounded_example =
    allowed_bounded limits 3 10 traffic (omega arith)
      (omega arith, (omega arith, (omega arith, (omega arith, (omega arith, (omega arith, tt))))))

abbrev empty_bucket : Bucket
empty_bucket = record { tokens = 0; last_refill = 10 }

retry_after_suffices_example : (spend limits 12 empty_bucket).0 ≡ allowed
unfolding spend retry_seconds
retry_after_suffices_example =
    retry_after_suffices limits 10 13 60 empty_bucket empty_bucket (omega arith) refl (omega arith)

abbrev limiter : Limiter
limiter = record { limits = limits; buckets = []; locks = [] }

limiter-IsTidy : IsTidy limiter
limiter-IsTidy = record {
  paired = λ k. refl;
  distinct = tt;
  capped = omega arith;
  filled = λ k b h. absurd (ground arith);
}

acquire-IsTidy_example : IsTidy (acquire 3 10 limiter).1 × ((acquire 3 10 limiter).0 ≢ key_error)
acquire-IsTidy_example = acquire-IsTidy 3 10 limiter (omega arith) limiter-IsTidy

abbrev used : Limiter
used = (acquire 3 10 limiter).1
