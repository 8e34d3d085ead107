-- ===== src/Core/Bus/Publish.antt =====
-- Whom an event reaches, and what is in the store by then.
use gg_proxy.Base.{
  ℕ, ◌≡◌, ◌≢◌, refl, ◌∙◌, ◌⊎◌, inl, inr, Bool, true, false, some, List, [], ◌∷◌, ◌++◌, arith, ◌==◌,
  if◌then◌else◌, Option-cases, Bool-cases, none, option_or, if_both,
}
use gg_proxy.Base.Dict.{lookup, lookup-insert}
use gg_proxy.Core.Bus.{
  Sub, is_full, Tier, lossy, durable, Event, Wait, Bus, wildcard, Published, fine, drop_error, hand,
  hand_all, dispatch, fan_out, persist, publish, put,
}

module _ {E : Type 0} where
  dispatch-store :
      (topic : ℕ) (tier : Tier) (wait : Wait E) (e : E) (b : Bus E)
      → (dispatch topic tier wait e b).1.durable_store ≡ b.durable_store
  unfolding dispatch
  dispatch-store topic tier wait e b = elim (Option-cases (lookup topic b.subs)) [
    | inl missing ↦ rw (missing, dispatch) refl
    | inr (subs, found) ↦ rw (found, dispatch) refl
  ]

  fan_out-store :
      (topic : ℕ) (tier : Tier) (wait : Wait E) (e : E) (b : Bus E)
      → (fan_out topic tier wait e b).1.durable_store ≡ b.durable_store
  unfolding fan_out
  fan_out-store topic tier wait e b =
      if_both (λ (r : Published × Bus E). r.1.durable_store ≡ b.durable_store)
        (dispatch topic tier wait e b).0
        (dispatch-store wildcard tier wait e (dispatch topic tier wait e b).1
          ∙ dispatch-store topic tier wait e b)
        (dispatch-store topic tier wait e b)

  abbrev Stored : Event E → Bus E → List E → Published × Bus E → Type 0
  Stored ev b log r = (r ≡ (drop_error, b)) ⊎ (r.1.durable_store ≡ some (log ++ ev.body ∷ []))

  persisted :
      (stored : Bool) (ev : Event E) (b : Bus E) (log : List E)
      → ev.tier ≡ durable
      → b.durable_store ≡ some log
      → (persist stored ev b ≡ (false, b))
        ⊎ (((persist stored ev b).0 ≡ true)
            × ((persist stored ev b).1.durable_store ≡ some (log ++ ev.body ∷ [])))
  unfolding persist
  persisted true ev b log d s = ground arith
  persisted false ev b log d s = ground arith

  -- A durable event on an open bus with a store is in the store before any subscriber gets it: a publish
  -- either ends with the drop error and has changed nothing, or the store's log ends with the event.
  pub durable_stored_first :
      (stored : Bool) (wait : Wait E) (ev : Event E) (b : Bus E) (log : List E)
      → b.closed ≡ false
      → ev.tier ≡ durable
      → b.durable_store ≡ some log
      → (publish stored wait ev b ≡ (drop_error, b))
        ⊎ ((publish stored wait ev b).1.durable_store ≡ some (log ++ ev.body ∷ []))
  unfolding publish
  durable_stored_first stored wait ev b log c d s = elim (persisted stored ev b log d s) [
    | inl failed ↦ inl (ground (arith, failed))
    | inr (went, kept) ↦
        inr (
          ground (arith, kept, fan_out-store ev.topic ev.tier wait ev.body (persist stored ev b).1))
  ]

  -- Every queue has room for one more item.
  abbrev pub AllRoom : List (Sub E) → Type 0
  AllRoom [] = Unit {0}
  AllRoom (s ∷ subs) = (is_full s ≡ false) × AllRoom subs

  abbrev pub append_to_all : E → List (Sub E) → List (Sub E)
  append_to_all e [] = []
  append_to_all e (s ∷ subs) = record s { items = s.items ++ e ∷ [] } ∷ append_to_all e subs

  hand-room :
      (tier : Tier) (timeout : ℕ) (wait : Wait E) (e : E) (s : Sub E)
      → is_full s ≡ false
      → hand tier timeout wait e s ≡ (true, record s { items = s.items ++ e ∷ [] })
  unfolding hand put
  hand-room lossy timeout wait e s h = ground arith
  hand-room durable timeout wait e s h = ground arith

  hand_all-room :
      (tier : Tier) (timeout : ℕ) (wait : Wait E) (e : E) (subs : List (Sub E))
      → AllRoom subs
      → hand_all tier timeout wait e subs ≡ (true, append_to_all e subs)
  unfolding hand_all
  hand_all-room tier timeout wait e [] h = refl
  hand_all-room tier timeout wait e (s ∷ subs) h =
      rw (hand-room tier timeout wait e s h.0, hand_all-room tier timeout wait e subs h.1, hand_all)
        refl

  -- `self._subs.get(topic, ())`
  abbrev pub subscribers : ℕ → Bus E → List (Sub E)
  subscribers topic b = option_or (lookup topic b.subs) []

  dispatch-room :
      (topic : ℕ) (wait : Wait E) (e : E) (b : Bus E)
      → AllRoom (subscribers topic b)
      → ((dispatch topic lossy wait e b).0 ≡ true)
        × ((t : ℕ)
            → subscribers t (dispatch topic lossy wait e b).1
              ≡ (if t == topic then append_to_all e (subscribers topic b) else subscribers t b))
  unfolding dispatch
  dispatch-room topic wait e b room = elim (Option-cases (lookup topic b.subs)) [
    | inl missing ↦ rw (missing, dispatch) (refl, λ t. nobody missing t)
    | inr (subs, found) ↦
        let all = hand_all-room lossy b.durable_block_timeout wait e subs (rw found at room) in
        rw (found, dispatch)
          (
            ground (arith, all),
            λ t. ground (arith, all, lookup-insert t topic (append_to_all e subs) b.subs),
          )
  ]
    where
      nobody :
          lookup topic b.subs ≡ none
          → (t : ℕ) → subscribers t b ≡ (if t == topic then [] else subscribers t b)
      nobody missing t = elim (Bool-cases (t == topic)) [
        | inl same ↦ rw same (let e : t ≡ topic = ground arith in rw e (rw missing refl))
        | inr other ↦ rw other refl
      ]

  -- On an open bus where every queue of the event's topic and of the wildcard, which is another topic,
  -- has room, if there are any, a lossy event reaches each of their subscribers exactly once, as its
  -- newest item, and the queues of every other topic stay as they are.
  pub publish_reaches :
      (stored : Bool) (wait : Wait E) (ev : Event E) (b : Bus E)
      → b.closed ≡ false
      → ev.tier ≡ lossy
      → ev.topic ≢ wildcard
      → AllRoom (subscribers ev.topic b)
      → AllRoom (subscribers wildcard b)
      → ((publish stored wait ev b).0 ≡ fine)
        × ((t : ℕ)
            → subscribers t (publish stored wait ev b).1 ≡ (
                if t == wildcard
                then append_to_all ev.body (subscribers wildcard b)
                else if t == ev.topic
                then append_to_all ev.body (subscribers ev.topic b)
                else subscribers t b))
  unfolding publish persist fan_out
  publish_reaches stored wait ev b c l n room room' = (
    ground (arith, c, l, first.0, second.0),
    λ t. ground (arith, c, l, first.0, first.1 t, second.0, second.1 t, still),
  )
    where
      b' : Bus E
      b' = (dispatch ev.topic lossy wait ev.body b).1

      first :
          ((dispatch ev.topic lossy wait ev.body b).0 ≡ true)
          × ((t : ℕ)
              → subscribers t b' ≡ (
                  if t == ev.topic
                  then append_to_all ev.body (subscribers ev.topic b)
                  else subscribers t b))
      first = dispatch-room ev.topic wait ev.body b room

      -- The wildcard's queues are still the same.
      still : subscribers wildcard b' ≡ subscribers wildcard b
      still = ground (arith, first.1 wildcard)

      second :
          ((dispatch wildcard lossy wait ev.body b').0 ≡ true)
          × ((t : ℕ)
              → subscribers t (dispatch wildcard lossy wait ev.body b').1 ≡ (
                  if t == wildcard
                  then append_to_all ev.body (subscribers wildcard b')
                  else subscribers t b'))
      second = dispatch-room wildcard wait ev.body b' (rw still room')
