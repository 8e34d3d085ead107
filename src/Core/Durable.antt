-- ===== src/Core/Durable.antt =====
-- src/gg_relay/store/durable_event.py: the table of events, as it runs on every database but PostgreSQL,
-- and its replay. A row is its sequence number and its event.
pub mod Replay
use gg_proxy.Base.{
  ℕ, suc, ◌+◌, max, Bool, true, false, List, [], ◌∷◌, ◌++◌, map, if◌then◌else◌, ltb, leb, take,
}

abbrev pub Rows : Type 0 → Type 0
Rows E = List (ℕ × E)

module _ {E : Type 0} where
  -- `COALESCE(MAX(seq), 0)`
  unfoldable pub max_seq : Rows E → ℕ
  max_seq [] = 0
  max_seq ((n, e) ∷ rows) = max n (max_seq rows)

  unfoldable pub persist : E → Rows E → ℕ × Rows E
  persist e rows = let next = max_seq rows + 1 in (next, rows ++ (next, e) ∷ [])

  -- `WHERE seq > last_seq`
  unfoldable pub rows_after : ℕ → Rows E → Rows E
  rows_after last_seq [] = []
  rows_after last_seq (r ∷ rows) =
      let later = rows_after last_seq rows in if ltb last_seq r.0 then r ∷ later else later

  abbrev pub insert_seq : ℕ × E → Rows E → Rows E
  insert_seq r [] = r ∷ []
  insert_seq r (s ∷ rows) = if leb r.0 s.0 then r ∷ s ∷ rows else s ∷ insert_seq r rows

  -- `ORDER BY seq ASC`
  unfoldable pub order_by_seq : Rows E → Rows E
  order_by_seq [] = []
  order_by_seq (r ∷ rows) = insert_seq r (order_by_seq rows)

  unfoldable pub fetch_after : ℕ → ℕ → Rows E → List E
  fetch_after last_seq limit rows =
      map (λ r. r.1) (take limit (order_by_seq (rows_after last_seq rows)))
