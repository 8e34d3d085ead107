-- ===== src/Auth/Revoked/Cache.antt =====
-- A cache without a positive answer for a revoked key gets none.
use gg_proxy.Base.{
  ℕ, ◌+◌, ◌≡◌, refl, true, Option, none, some, ltb, ◌==◌, arith, Bool-cases, Option-cases, inl, inr,
  subst, sym, ◌∙◌, ap, if_both,
}
use gg_proxy.Base.Dict.{
  Dict, Distinct, lookup, insert, erase, lookup-insert, insert-Distinct, erase-Distinct,
  lookup-erase_self, lookup-erase_ne,
}
use gg_proxy.Auth.{KeyRow, Keys, get_by_hash, get_by_label}
use gg_proxy.Auth.Resolver.{
  ResolvedKey, Cached, Settings, Drops, Resolver, accepted, lookup_key, schedule_touch,
  store_answer, cached_answer, touch_if, land_answer, land_lookup, begin_with, begin_lookup,
  looked_up, answer_with, resolve_key, forget_hash, invalidate_cache,
}
use gg_proxy.Auth.Revoked.{revoked_entry, quiet, unpromising, IsDead, IsQuiet}

-- The cache under what the endpoints and the requests do to it.
pub forget_hash-IsQuiet :
    (kh other : ℕ) (r : Resolver) → IsQuiet kh r → IsQuiet kh (forget_hash other r)
forget_hash-IsQuiet kh other r ((q, d), f) = (
  (
    elim (Bool-cases (kh == other)) [
      | inl same ↦
          subst (λ o. quiet o ≡ true)
            (sym (lookup-erase_self kh r.cache d)
              ∙ ap (λ k. lookup kh (erase k r.cache)) (ground arith))
            refl
      | inr other_key ↦ rw (lookup-erase_ne kh other r.cache (ground arith)) q
    ],
    erase-Distinct other r.cache d,
  ),
  f,
)

pub forget_hash_self :
    (kh : ℕ) (r : Resolver)
    → Distinct r.cache
    → lookup kh r.inflight ≡ none
    → Distinct r.inflight
    → IsQuiet kh (forget_hash kh r)
forget_hash_self kh r d none_on_its_way f = (
  (rw (lookup-erase_self kh r.cache d) refl, erase-Distinct kh r.cache d),
  (rw none_on_its_way refl, f),
)

pub invalidate_cache-IsQuiet :
    (kh : ℕ) (key_hash label : Option ℕ) (keys : Keys) (r : Resolver)
    → IsQuiet kh r
    → IsQuiet kh (invalidate_cache key_hash label keys r)
unfolding invalidate_cache
invalidate_cache-IsQuiet kh (some other) label keys r q = forget_hash-IsQuiet kh other r q
invalidate_cache-IsQuiet kh none none keys r q = ((refl, tt), q.1)
invalidate_cache-IsQuiet kh none (some label) keys r q =
    elim (Option-cases (get_by_label label keys)) [
      | inl e ↦ rw (e, invalidate_cache) q
      | inr (row, e) ↦ rw (e, invalidate_cache) (forget_hash-IsQuiet kh row.key_hash r q)
    ]

-- A dead key is looked up in vain.
lookup_key_dead :
    (settings : Settings) (now kh : ℕ) (keys : Keys)
    → IsDead kh keys
    → lookup_key settings now kh keys ≡ none
unfolding lookup_key
lookup_key_dead settings now kh keys dead = go (get_by_hash kh keys) dead
  where
    go : (o : Option (ℕ × KeyRow)) → revoked_entry o ≡ true → accepted settings now o ≡ none
    go none h = absurd (ground arith)
    go (some (label, row)) h = ground arith

evict-quiet :
    (settings : Settings)
    → Drops settings
    → (kh : ℕ) (cache : Dict Cached) → Distinct cache
    → quiet (lookup kh cache) ≡ true
    → quiet (lookup kh (settings.evict cache)) ≡ true
evict-quiet settings drops kh cache d q = elim (Option-cases (lookup kh (settings.evict cache))) [
  | inl e ↦ rw e refl
  | inr (entry, e) ↦ rw e (subst (λ o. quiet o ≡ true) ((drops cache d).1 kh entry e) q)
]

insert-quiet :
    (kh other until : ℕ) (answer : Option ResolvedKey) (cache : Dict Cached)
    → ((kh == other) ≡ true → answer ≡ none)
    → quiet (lookup kh cache) ≡ true
    → quiet (lookup kh (insert other (answer, until) cache)) ≡ true
insert-quiet kh other until answer cache vain q = elim (Bool-cases (kh == other)) [
  | inl same ↦ rw (lookup-insert kh other (answer, until) cache, same, vain same) refl
  | inr ne ↦ rw (lookup-insert kh other (answer, until) cache, ne) q
]

-- A cache without a positive answer keeps none for a key that is looked up in vain.
store_answer-IsQuiet :
    (settings : Settings)
    → Drops settings
    → (now kh other : ℕ) (answer : Option ResolvedKey) (r : Resolver)
    → ((kh == other) ≡ true → answer ≡ none)
    → IsQuiet kh r
    → IsQuiet kh (store_answer settings now other answer r)
store_answer-IsQuiet settings drops now kh other answer r vain ((q, d), f) =
    let kept = insert-Distinct other (answer, now + settings.cache_ttl) r.cache d in
    (
      (
        evict-quiet settings drops kh _ kept (insert-quiet kh other _ answer r.cache vain q),
        (drops _ kept).0,
      ),
      f,
    )

touch_if-IsQuiet :
    (settings : Settings) (now kh other : ℕ) (answer : Option ResolvedKey) (r : Resolver)
    → IsQuiet kh r
    → IsQuiet kh (touch_if settings now other answer r)
unfolding schedule_touch
touch_if-IsQuiet settings now kh other none r q = q
touch_if-IsQuiet settings now kh other (some key) r q = if_both (IsQuiet kh) _ q q

-- A lookup that found nothing may land.
land_answer-IsQuiet :
    (settings : Settings)
    → Drops settings
    → (now kh other : ℕ) (r : Resolver) (o : Option (Option ResolvedKey))
    → lookup other r.inflight ≡ o
    → IsQuiet kh r
    → IsQuiet kh (land_answer settings now other r o)
land_answer-IsQuiet settings drops now kh other r none e q = q
land_answer-IsQuiet settings drops now kh other r (some answer) e (c, (u, f)) =
    touch_if-IsQuiet settings now kh other answer _ (
      store_answer-IsQuiet settings drops now kh other answer
        (record r { inflight = erase other r.inflight }) vain
        (
          c,
          (
            elim (Bool-cases (kh == other)) [
              | inl same ↦
                  subst (λ o. unpromising o ≡ true)
                    (sym (lookup-erase_self kh r.inflight f)
                      ∙ ap (λ k. lookup kh (erase k r.inflight)) (ground arith))
                    refl
              | inr ne ↦ rw (lookup-erase_ne kh other r.inflight (ground arith)) u
            ],
            erase-Distinct other r.inflight f,
          ),
        ))
  where
    refused : (answer : Option ResolvedKey) → unpromising (some answer) ≡ true → answer ≡ none
    refused none h = refl
    refused (some key) h = absurd (ground arith)

    vain : (kh == other) ≡ true → answer ≡ none
    vain same =
        refused answer
          (subst (λ o. unpromising o ≡ true) (ap (λ k. lookup k r.inflight) (ground arith) ∙ e) u)

pub land_lookup-IsQuiet :
    (settings : Settings)
    → Drops settings
    → (now kh other : ℕ) (r : Resolver) → IsQuiet kh r
    → IsQuiet kh (land_lookup settings now other r)
unfolding land_lookup
land_lookup-IsQuiet settings drops now kh other r q =
    land_answer-IsQuiet settings drops now kh other r (lookup other r.inflight) refl q

looked_up_in_vain :
    (settings : Settings) (now kh other : ℕ) (keys : Keys)
    → IsDead kh keys
    → (kh == other) ≡ true
    → lookup_key settings now other keys ≡ none
looked_up_in_vain settings now kh other keys dead same =
    subst (λ k. lookup_key settings now k keys ≡ none) (ground arith)
      (lookup_key_dead settings now kh keys dead)

-- A lookup that begins finds a dead key revoked.
pub begin_lookup-IsQuiet :
    (settings : Settings) (now kh other : ℕ) (keys : Keys) (r : Resolver)
    → IsDead kh keys
    → IsQuiet kh r
    → IsQuiet kh (begin_lookup settings now other keys r)
unfolding begin_lookup
begin_lookup-IsQuiet settings now kh other keys r dead q =
    go (cached_answer now (lookup other r.cache))
  where
    found : Option ResolvedKey
    found = lookup_key settings now other keys

    begun : unpromising (lookup kh (insert other found r.inflight)) ≡ true
    begun = elim (Bool-cases (kh == other)) [
      | inl same ↦
          rw
            (
              lookup-insert kh other found r.inflight,
              same,
              looked_up_in_vain settings now kh other keys dead same,
            )
            refl
      | inr ne ↦ rw (lookup-insert kh other found r.inflight, ne) q.1.0
    ]

    go : (o : Option (Option ResolvedKey)) → IsQuiet kh (begin_with settings now other keys r o)
    go (some answer) = touch_if-IsQuiet settings now kh other answer r q
    go none = if_both (IsQuiet kh) _ q (q.0, (begun, insert-Distinct other found r.inflight q.1.1))

pub resolve_key-IsQuiet :
    (settings : Settings)
    → Drops settings
    → (now kh other : ℕ) (keys : Keys) (r : Resolver) → IsDead kh keys
    → IsQuiet kh r
    → IsQuiet kh (resolve_key settings now other keys r).0
unfolding resolve_key
resolve_key-IsQuiet settings drops now kh other keys r dead q =
    go (cached_answer now (lookup other r.cache))
  where
    waits :
        (o : Option (Option ResolvedKey))
        → lookup other r.inflight ≡ o
        → IsQuiet kh (looked_up settings now other keys r o).0
    waits (some answer) e = land_answer-IsQuiet settings drops now kh other r (some answer) e q
    waits none e = touch_if-IsQuiet settings now kh other _ _ (
        store_answer-IsQuiet settings drops now kh other _ r
          (looked_up_in_vain settings now kh other keys dead) q)

    go : (o : Option (Option ResolvedKey)) → IsQuiet kh (answer_with settings now other keys r o).0
    go (some answer) = touch_if-IsQuiet settings now kh other answer r q
    go none = waits (lookup other r.inflight) refl

-- With both, the key is refused.
pub resolve_key_dead :
    (settings : Settings) (now kh : ℕ) (keys : Keys) (r : Resolver)
    → IsDead kh keys
    → IsQuiet kh r
    → (resolve_key settings now kh keys r).1 ≡ none
unfolding resolve_key
resolve_key_dead settings now kh keys r dead ((q, d), (u, f)) = go (lookup kh r.cache) q
  where
    fresh :
        (o : Option (Option ResolvedKey))
        → unpromising o ≡ true
        → (looked_up settings now kh keys r o).1 ≡ none
    fresh none h = lookup_key_dead settings now kh keys dead
    fresh (some none) h = refl
    fresh (some (some key)) h = absurd (ground arith)

    go :
        (o : Option Cached)
        → quiet o ≡ true
        → (answer_with settings now kh keys r (cached_answer now o)).1 ≡ none
    go none h = fresh (lookup kh r.inflight) u
    go (some (some key, until)) h = absurd (ground arith)
    go (some (none, until)) h = elim (Bool-cases (ltb now until)) [
      | inl e ↦ rw e refl
      | inr e ↦ rw e (fresh (lookup kh r.inflight) u)
    ]
