-- ===== src/Core/Bus.antt =====
-- src/gg_relay/core/event_bus.py: the fan-out of events to bounded queues. A topic is a text that is
-- only compared, so a number stands for it. The subscribers of a topic stay the same while an event is
-- handed to them.
pub mod Queue
pub mod Publish
use gg_proxy.Base.{
  ℕ, suc, ◌+◌, ◌<◌, Bool, true, false, not, ◌&&◌, Option, none, some, List, [], ◌∷◌, ◌++◌, ◌==◌,
  if◌then◌else◌, leb, ltb, length,
}
use gg_proxy.Base.Dict.{Dict, lookup, insert}

pub record Sub (E : Type 0) : Type 0 where
  pub maxsize : ℕ
  -- the oldest first
  pub items : List E
  pub closed_flag : Bool
  pub dropped : ℕ
  pub durable_dropped : ℕ

module _ {E : Type 0} where
  abbrev pub is_full : Sub E → Bool
  is_full s = leb s.maxsize (length s.items)

  -- The end of a turn of `_dispatch`: a full queue loses its oldest item. `false` is the IndexError of a
  -- queue that is full while it is empty.
  unfoldable pub put : E → Sub E → Bool × Sub E
  put e s =
      if is_full s
      then (elim s.items [
        | [] ↦ (false, s)
        | oldest ∷ rest ↦ (true, record s { items = rest ++ e ∷ []; dropped = s.dropped + 1 })
      ])
      else (true, record s { items = s.items ++ e ∷ [] })

  -- The consumer takes the oldest item, if there is one.
  unfoldable pub take_item : Sub E → Option E × Sub E
  take_item s = elim s.items [
    | [] ↦ (none, s)
    | oldest ∷ rest ↦ (some oldest, record s { items = rest })
  ]

  -- The publisher of a durable event has waited in vain.
  unfoldable pub waited_in_vain : Sub E → Sub E
  waited_in_vain s = record s { durable_dropped = s.durable_dropped + 1 }

pub data Tier : Type 0 where
  lossy durable : Tier

pub record Event (E : Type 0) : Type 0 where
  pub topic : ℕ
  pub tier : Tier
  pub body : E

-- What a subscriber has become by the time that its queue was drained; `none` is the timeout.
abbrev pub Wait : Type 0 → Type 0
Wait E = Sub E → Option (Sub E)

pub record Bus (E : Type 0) : Type 0 where
  pub subs : Dict (List (Sub E))
  pub closed : Bool
  pub durable_block_timeout : ℕ
  -- the log of an attached store
  pub durable_store : Option (List E)
  pub strict_durable : Bool

abbrev pub wildcard : ℕ
wildcard = 0

pub data Published : Type 0 where
  fine : Published
  -- `DurableEventDropError`
  drop_error : Published
  index_error : Published

module _ {E : Type 0} where
  abbrev pub new_sub : ℕ → Bool → Sub E
  new_sub maxsize closed = record {
    maxsize = maxsize;
    items = [];
    closed_flag = closed;
    dropped = 0;
    durable_dropped = 0;
  }

  abbrev pub subs_of : ℕ → Bus E → List (Sub E)
  subs_of topic b = elim (lookup topic b.subs) [ none ↦ [] | some l ↦ l ]

  -- A subscriber of a bus that is closed is closed at once.
  unfoldable pub subscribe : ℕ → ℕ → Bus E → Bus E
  subscribe topic maxsize b = record b {
    subs = insert topic (subs_of topic b ++ new_sub maxsize b.closed ∷ []) b.subs;
  }

  abbrev pub waits_for : Tier → ℕ → Sub E → Bool
  waits_for lossy timeout s = false
  waits_for durable timeout s = is_full s && ltb 0 timeout

  -- One turn of `_dispatch`.
  unfoldable pub hand : Tier → ℕ → Wait E → E → Sub E → Bool × Sub E
  unfolding put waited_in_vain
  hand tier timeout wait e s =
      if waits_for tier timeout s
      then (elim (wait s) [ none ↦ put e (waited_in_vain s) | some drained ↦ put e drained ])
      else put e s

  -- An error ends the loop.
  unfoldable pub hand_all : Tier → ℕ → Wait E → E → List (Sub E) → Bool × List (Sub E)
  hand_all tier timeout wait e [] = (true, [])
  hand_all tier timeout wait e (s ∷ subs) =
      let (went, s') = hand tier timeout wait e s in
      let (all, rest) = hand_all tier timeout wait e subs in
      if went then (all, s' ∷ rest) else (false, s' ∷ subs)

  unfoldable pub dispatch : ℕ → Tier → Wait E → E → Bus E → Bool × Bus E
  dispatch topic tier wait e b = elim (lookup topic b.subs) [
    | none ↦ (true, b)
    | some subs ↦
        let (all, subs') = hand_all tier b.durable_block_timeout wait e subs in
        (all, record b { subs = insert topic subs' b.subs })
  ]

  -- To the topic and then to the wildcard.
  unfoldable pub fan_out : ℕ → Tier → Wait E → E → Bus E → Published × Bus E
  fan_out topic tier wait e b =
      let (went, b') = dispatch topic tier wait e b in
      let (all, b'') = dispatch wildcard tier wait e b' in
      if went then ((if all then fine else index_error), b'') else (index_error, b')

  -- A durable event goes to the store first; `stored` tells whether the store took it.
  unfoldable pub persist : Bool → Event E → Bus E → Bool × Bus E
  persist stored ev b = elim ev.tier [
    | lossy ↦ (true, b)
    | durable ↦ elim b.durable_store [
      | none ↦ (not b.strict_durable, b)
      | some log ↦
          if stored
          then (true, record b { durable_store = some (log ++ ev.body ∷ []) })
          else (false, b)
    ]
  ]

  unfoldable pub publish : Bool → Wait E → Event E → Bus E → Published × Bus E
  unfolding persist
  publish stored wait ev b =
      if b.closed
      then (fine, b)
      else (let (went, b') = persist stored ev b in
          if went then fan_out ev.topic ev.tier wait ev.body b' else (drop_error, b'))

  -- The form with a topic of its own is lossy.
  unfoldable pub publish_on : ℕ → Wait E → E → Bus E → Published × Bus E
  publish_on topic wait e b = if b.closed then (fine, b) else fan_out topic lossy wait e b

  abbrev pub close_subs : List (Sub E) → List (Sub E)
  close_subs [] = []
  close_subs (s ∷ subs) = record s { closed_flag = true } ∷ close_subs subs

  abbrev pub close_topics : Dict (List (Sub E)) → Dict (List (Sub E))
  close_topics [] = []
  close_topics ((topic, subs) ∷ d) = (topic, close_subs subs) ∷ close_topics d

  unfoldable pub close : Bus E → Bus E
  close b = if b.closed then b else record b { closed = true; subs = close_topics b.subs }
