-- ===== src/RateLimit/Budget.antt =====
-- What one request gets out of a bucket, and when the next one does.
use native.Mathlib.Nat.{add-mul, mul-le-mul_right}
use gg_proxy.Base.{
  ℕ, ◌+◌, ◌-◌, ◌*◌, ◌/◌, ◌≤◌, ◌<◌, ◌≡◌, ◌≢◌, ap, ◌∙◌, sym, Bool, true, false, arith, if◌then◌else◌,
}
use gg_proxy.RateLimit.{
  Bucket, Limits, Verdict, allowed, denied, one_token, full, spend, retry_seconds,
}

abbrev pub is_allowed : Verdict → Bool
is_allowed allowed = true
is_allowed _ = false

pub spend_budget :
    (l : Limits) (now : ℕ) (b : Bucket)
    → b.last_refill ≤ now
    → let (v, b') = spend l now b in
      ((if is_allowed v then one_token l else 0) + b'.tokens
        ≤ b.tokens + (now - b.last_refill) * l.rate_per_min)
      × (b'.last_refill ≡ now)
      × (b'.tokens ≤ full l)
unfolding spend
spend_budget l now b h = ground arith

pub spend_le_full : (l : Limits) (now : ℕ) (b : Bucket) → (spend l now b).1.tokens ≤ full l
unfolding spend
spend_le_full l now b = ground arith

pub span_split : (s n f r : ℕ) → s ≤ n → n ≤ f → (n - s) * r + (f - n) * r ≡ (f - s) * r
span_split s n f r h k = sym (add-mul (n - s) (f - n) r) ∙ ap (λ (t : ℕ). t * r) (omega arith)

wait_covers : (missing d : ℕ) → d ≢ 0 → missing < (missing / d + 1) * d
wait_covers missing d h = grind arith

denied_facts :
    (l : Limits) (now missing : ℕ) (b b' : Bucket)
    → spend l now b ≡ (denied missing, b')
    → (b'.last_refill ≡ now)
      × (b'.tokens + missing ≡ one_token l)
      × (b'.tokens < one_token l)
      × (l.rate_per_min ≢ 0)
unfolding spend
denied_facts l now missing b b' e = ground arith

spend_refilled :
    (l : Limits) (now : ℕ) (b : Bucket)
    → one_token l ≤ full l
    → one_token l ≤ b.tokens + (now - b.last_refill) * l.rate_per_min
    → (spend l now b).0 ≡ allowed
unfolding spend
spend_refilled l now b h k = ground arith

regroup_wait : (q r h : ℕ) → q * (r * h) ≡ q * h * r
regroup_wait q r h = grind arith

-- With a burst of at least one, a client that is refused and comes back no sooner than its `Retry-
-- After` says is let through.
pub retry_after_suffices :
    (l : Limits) (now later missing : ℕ) (b b' : Bucket)
    → 1 ≤ l.burst
    → spend l now b ≡ (denied missing, b')
    → now + retry_seconds l missing * l.hz ≤ later
    → (spend l later b').0 ≡ allowed
unfolding retry_seconds
retry_after_suffices l now later missing b b' burst e h =
    let facts = denied_facts l now missing b b' e in
    let d : ℕ = l.rate_per_min * l.hz in
    let q : ℕ = missing / d + 1 in
    let covers = wait_covers missing d (grind (arith, facts)) in
    let waited =
      mul-le-mul_right {m = q * l.hz} {n = later - now} l.rate_per_min (omega (arith, h)) in
    spend_refilled l later b' (grind (arith, burst))
      (rw facts.0 (omega (arith, facts.1, covers, waited, regroup_wait q l.rate_per_min l.hz)))
