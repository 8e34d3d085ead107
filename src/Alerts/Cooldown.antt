-- ===== src/Alerts/Cooldown.antt =====
-- No two alerts of a kind within the cooldown.
use Prim.Native.String.{String}
use gg_proxy.Base.{
  ℕ, suc, ◌+◌, ◌≤◌, ◌<◌, ◌≡◌, refl, ap, sym, subst, ◌∙◌, inl, inr, Bool, true, false, none, some,
  List, [], ◌∷◌, ◌++◌, arith, if◌then◌else◌, length, Bool-cases, str_eq, eq_iff, if_both,
}
use gg_proxy.Alerts.{
  AlertKey, key_eq, LastAlert, Router, Alert, key_of, lru_cap, last_of, without, make_room,
  in_cooldown, cooldown_check, dispatch, matches,
}

str_eq_refl : (s : String) → str_eq s s ≡ true
str_eq_refl s = (eq_iff s s).1 refl

key_eq_refl : (k : AlertKey) → key_eq k k ≡ true
key_eq_refl k =
    ground (arith, str_eq_refl k.event_type, str_eq_refl k.owner, str_eq_refl k.end_reason)

str_eq_transport : (s t : String) → str_eq s t ≡ true → s ≡ t
str_eq_transport s t = (eq_iff s t).0

-- Equal keys are equal to the same keys.
key_eq_right : (a b c : AlertKey) → key_eq a b ≡ true → key_eq c a ≡ false → key_eq c b ≡ false
key_eq_right a b c h n = ground (
  arith,
  str_eq_transport a.event_type b.event_type,
  str_eq_transport a.owner b.owner,
  str_eq_transport a.end_reason b.end_reason,
)

-- How many alerts are more recent than the key's.
unfoldable behind : AlertKey → LastAlert → ℕ
behind k [] = 0
behind k (e ∷ d) = if key_eq k e.0 then length d else behind k d

abbrev Kept : AlertKey → ℕ → ℕ → LastAlert → Type 0
Kept k t n d = (last_of k d ≡ some t) × (behind k d ≤ n)

length-last : (e : AlertKey × ℕ) (d : LastAlert) → length (d ++ e ∷ []) ≡ suc (length d)
length-last e [] = refl
length-last e (f ∷ d) = ap suc (length-last e d)

length-without : (k : AlertKey) (d : LastAlert) → length (without k d) ≤ length d
unfolding without
length-without k [] = omega arith
length-without k (e ∷ d) = ground (arith, length-without k d)

append-Kept :
    (k : AlertKey) (t n : ℕ) (e : AlertKey × ℕ) (d : LastAlert)
    → Kept k t n d
    → Kept k t (suc n) (d ++ e ∷ [])
unfolding last_of behind
append-Kept k t n e [] h = absurd (ground (arith, h.0))
append-Kept k t n e (f ∷ d) h = elim (Bool-cases (key_eq k f.0)) [
  | inl same ↦ (ground (arith, h.0), ground (arith, h.1, length-last e d))
  | inr other ↦
      let rest = append-Kept k t n e d (ground (arith, h.0), ground (arith, h.1)) in
      (ground (arith, rest.0), ground (arith, rest.1))
]

without-Kept :
    (k j : AlertKey) (t n : ℕ) (d : LastAlert)
    → key_eq j k ≡ false
    → Kept k t n d
    → Kept k t n (without j d)
unfolding last_of behind without
without-Kept k j t n [] ne h = h
without-Kept k j t n (f ∷ d) ne h = elim (Bool-cases (key_eq k f.0)) [
  | inl same ↦ (
    ground (arith, h.0, key_eq_right k f.0 j same ne),
    ground (arith, h.1, key_eq_right k f.0 j same ne, length-without j d),
  )
  | inr other ↦
      let rest = without-Kept k j t n d ne (ground (arith, h.0), ground (arith, h.1)) in
      (ground (arith, rest.0), ground (arith, rest.1))
]

make_room-Kept :
    (k j : AlertKey) (t n : ℕ) (d : LastAlert)
    → suc n < lru_cap
    → Kept k t n d
    → Kept k t n (make_room j d)
unfolding last_of behind make_room
make_room-Kept k j t n [] c h = absurd (ground (arith, h.0))
make_room-Kept k j t n (f ∷ d) c h = elim (Bool-cases (key_eq k f.0)) [
  | inl same ↦ (ground (arith, h.0, h.1), ground (arith, h.1))
  | inr other ↦ (ground (arith, h.0), ground (arith, h.1))
]

last_of-without_self : (k : AlertKey) (d : LastAlert) → last_of k (without k d) ≡ none
unfolding last_of without
last_of-without_self k [] = refl
last_of-without_self k (e ∷ d) = ground (arith, last_of-without_self k d)

append_new-Kept :
    (k : AlertKey) (t : ℕ) (d : LastAlert) → last_of k d ≡ none → Kept k t 0 (d ++ (k, t) ∷ [])
unfolding last_of behind
append_new-Kept k t [] h = (ground (arith, key_eq_refl k), ground (arith, key_eq_refl k))
append_new-Kept k t (e ∷ d) h = elim (Bool-cases (key_eq k e.0)) [
  | inl same ↦ absurd (ground (arith, h))
  | inr other ↦
      let rest = append_new-Kept k t d (ground (arith, h)) in
      (ground (arith, rest.0), ground (arith, rest.1))
]

more-Kept : (k : AlertKey) (t n : ℕ) (d : LastAlert) → Kept k t n d → Kept k t (suc n) d
more-Kept k t n d h = (h.0, omega (arith, h.1))

cooldown_check-Kept :
    (k j : AlertKey) (t n now : ℕ) (r : Router)
    → key_eq j k ≡ false
    → suc n < lru_cap
    → Kept k t n r.last_alert
    → Kept k t (suc n) (cooldown_check j now r).1.last_alert
unfolding cooldown_check
cooldown_check-Kept k j t n now r ne c h =
    if_both (λ (out : Bool × Router). Kept k t (suc n) out.1.last_alert)
      (in_cooldown r.cooldown now (last_of j r.last_alert)) (more-Kept k t n r.last_alert h)
      (append-Kept k t n (j, now) (without j (make_room j r.last_alert))
        (without-Kept k j t n (make_room j r.last_alert) ne
          (make_room-Kept k j t n r.last_alert c h)))

dispatch-Kept :
    (k : AlertKey) (t n : ℕ) (a : Alert) (now : ℕ) (r : Router)
    → key_eq (key_of a) k ≡ false
    → suc n < lru_cap
    → Kept k t n r.last_alert
    → Kept k t (suc n) (dispatch a now r).1.last_alert
unfolding dispatch
dispatch-Kept k t n a now r ne c h =
    if_both (λ (out : Bool × Router). Kept k t (suc n) out.1.last_alert)
      (matches a.event_type a.end_reason a.tags r)
      (cooldown_check-Kept k (key_of a) t n now r ne c h) (more-Kept k t n r.last_alert h)

dispatch-cooldown : (a : Alert) (now : ℕ) (r : Router) → (dispatch a now r).1.cooldown ≡ r.cooldown
unfolding dispatch cooldown_check
dispatch-cooldown a now r = ground arith

pub run : List (Alert × ℕ) → Router → Router
run [] r = r
run ((a, now) ∷ more) r = run more (dispatch a now r).1

-- No alert of the list counts under the key.
abbrev pub AllOther : AlertKey → List (Alert × ℕ) → Type 0
AllOther k [] = Unit {0}
AllOther k (x ∷ more) = (key_eq (key_of x.0) k ≡ false) × AllOther k more

run-Kept :
    (k : AlertKey) (t n : ℕ) (alerts : List (Alert × ℕ)) (r : Router)
    → AllOther k alerts
    → n + length alerts < lru_cap
    → Kept k t n r.last_alert
    → Kept k t (n + length alerts) (run alerts r).last_alert
      × ((run alerts r).cooldown ≡ r.cooldown)
unfolding run
run-Kept k t n [] r o c h = ((h.0, omega (arith, h.1)), refl)
run-Kept k t n ((a, now) ∷ more) r o c h =
    let rest =
      run-Kept k t (suc n) more (dispatch a now r).1 o.1 (omega (arith, c))
        (dispatch-Kept k t n a now r o.0 (omega (arith, c)) h) in
    ((rest.0.0, omega (arith, rest.0.1)), rest.1 ∙ dispatch-cooldown a now r)

sent-Kept :
    (a : Alert) (t : ℕ) (r : Router)
    → (dispatch a t r).0 ≡ true
    → Kept (key_of a) t 0 (dispatch a t r).1.last_alert
unfolding dispatch cooldown_check
sent-Kept a t r h = elim (Bool-cases (matches a.event_type a.end_reason a.tags r)) [
  | inr none_holds ↦ absurd (ground (arith, h))
  | inl holds ↦ elim (Bool-cases (in_cooldown r.cooldown t (last_of (key_of a) r.last_alert))) [
    | inl within ↦ absurd (ground (arith, h))
    | inr over ↦
        rw (holds, over)
          (append_new-Kept (key_of a) t (without (key_of a) (make_room (key_of a) r.last_alert))
            (last_of-without_self (key_of a) (make_room (key_of a) r.last_alert)))
  ]
]

Kept-silent :
    (b : Alert) (t later n : ℕ) (r : Router)
    → Kept (key_of b) t n r.last_alert
    → t ≤ later
    → later < t + r.cooldown
    → (dispatch b later r).0 ≡ false
unfolding dispatch cooldown_check
Kept-silent b t later n r h p l = ground (arith, h.0)

key_of_same :
    (a b : Alert)
    → b.event_type ≡ a.event_type
    → b.owner ≡ a.owner
    → b.end_reason ≡ a.end_reason
    → key_of b ≡ key_of a
key_of_same a b type owner reason = rw (type, owner, reason) refl

-- After a card has been sent, no other card of the same event type, owner and end reason, whatever its
-- tags are, is sent within the cooldown, whatever fewer than 1000 alerts of other kinds come in between.
pub alert_spacing :
    (a b : Alert) (t later : ℕ) (r : Router) (between : List (Alert × ℕ))
    → b.event_type ≡ a.event_type
    → b.owner ≡ a.owner
    → b.end_reason ≡ a.end_reason
    → (dispatch a t r).0 ≡ true
    → AllOther (key_of a) between
    → length between < lru_cap
    → t ≤ later
    → later < t + r.cooldown
    → (dispatch b later (run between (dispatch a t r).1)).0 ≡ false
alert_spacing a b t later r between type owner reason sent o few p soon =
    let kept =
      run-Kept (key_of a) t 0 between (dispatch a t r).1 o (omega (arith, few))
        (sent-Kept a t r sent) in
    let same = kept.1 ∙ dispatch-cooldown a t r in
    Kept-silent b t later (0 + length between) (run between (dispatch a t r).1)
      (subst (λ k. Kept k t (0 + length between) (run between (dispatch a t r).1).last_alert)
        (sym (key_of_same a b type owner reason)) kept.0)
      p (omega (arith, soon, same))
