-- ===== src/Manager/Frames.antt =====
-- The `session.end` frame: what it says of tokens, turns and cost goes into the session's metrics. The
-- fields that are there hold numbers; cost is counted in the table's unit.
use gg_proxy.Base.{ℕ, Option, none, some, List, [], ◌∷◌, ◌==◌, if◌then◌else◌, option_or}
use gg_proxy.Base.Dict.{lookup, insert}
use gg_proxy.Store.{Aggregates}
use gg_proxy.Manager.State.{Manager}

-- The nested shape, with the names of both its versions.
pub record EndTokens : Type 0 where
  pub input_tokens : Option ℕ
  pub tokens_in : Option ℕ
  pub output_tokens : Option ℕ
  pub tokens_out : Option ℕ
  pub turn_count : Option ℕ

pub record EndFrame : Type 0 where
  pub input_tokens : Option ℕ
  pub output_tokens : Option ℕ
  pub turn_count : Option ℕ
  pub cost_usd : Option ℕ
  pub tokens : Option EndTokens

-- `a or b or … or 0`
unfoldable pub first_truthy : List (Option ℕ) → ℕ
first_truthy [] = 0
first_truthy (none ∷ more) = first_truthy more
first_truthy (some n ∷ more) = let rest = first_truthy more in if n == 0 then rest else n

abbrev pub nested : (EndTokens → Option ℕ) → EndFrame → Option ℕ
nested field f = elim f.tokens [ none ↦ none | some t ↦ field t ]

unfoldable pub harvest : EndFrame → Aggregates → Aggregates
harvest f old = record {
  input_tokens =
      first_truthy
        (f.input_tokens ∷ nested (λ t. t.input_tokens) f ∷ nested (λ t. t.tokens_in) f ∷ []);
  output_tokens =
      first_truthy
        (f.output_tokens ∷ nested (λ t. t.output_tokens) f ∷ nested (λ t. t.tokens_out) f ∷ []);
  cost_usd = option_or f.cost_usd old.cost_usd;
  turn_count = first_truthy (f.turn_count ∷ nested (λ t. t.turn_count) f ∷ []);
}

unfoldable pub record_session_end : ℕ → EndFrame → Manager → Manager
record_session_end sid f m = elim (lookup sid m.metrics) [
  | none ↦ m
  | some old ↦ record m { metrics = insert sid (harvest f old) m.metrics }
]
