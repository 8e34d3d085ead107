-- ===== src/Core/Durable/Replay.antt =====
-- A reader that comes back gets what it missed.
use mathlib.Core.List.{append_assoc, append-nil}
use gg_proxy.Base.{
  ℕ, zero, suc, ◌+◌, ◌≤◌, max, ◌≡◌, refl, sym, ap, ◌∙◌, List, [], ◌∷◌, ◌++◌, map, arith, take,
}
use gg_proxy.Core.Durable.{
  Rows, max_seq, persist, rows_after, insert_seq, order_by_seq, fetch_after,
}

module _ {E : Type 0} where
  pub persist_all : List E → Rows E → Rows E
  persist_all [] rows = rows
  persist_all (e ∷ es) rows = persist_all es (persist e rows).1

  -- The rows of events that follow a number.
  unfoldable numbered : ℕ → List E → Rows E
  numbered n [] = []
  numbered n (e ∷ es) = (n + 1, e) ∷ numbered (n + 1) es

  max_seq-append :
      (rows : Rows E) (n : ℕ) (e : E) → max_seq (rows ++ (n, e) ∷ []) ≡ max n (max_seq rows)
  unfolding max_seq
  max_seq-append [] n e = omega arith
  max_seq-append ((m, f) ∷ rows) n e = omega (arith, max_seq-append rows n e)

  persist_all-numbered :
      (es : List E) (rows : Rows E) → persist_all es rows ≡ rows ++ numbered (max_seq rows) es
  unfolding persist_all numbered persist
  persist_all-numbered [] rows = sym (append-nil rows)
  persist_all-numbered (e ∷ es) rows =
      persist_all-numbered es (rows ++ (max_seq rows + 1, e) ∷ [])
      ∙ ap (λ (n : ℕ). (rows ++ (max_seq rows + 1, e) ∷ []) ++ numbered n es) next
      ∙ append_assoc rows ((max_seq rows + 1, e) ∷ []) (numbered (max_seq rows + 1) es)
    where
      next : max_seq (rows ++ (max_seq rows + 1, e) ∷ []) ≡ max_seq rows + 1
      next = omega (arith, max_seq-append rows (max_seq rows + 1) e)

  rows_after-numbered :
      (n last : ℕ) (es : List E) → last ≤ n → rows_after last (numbered n es) ≡ numbered n es
  unfolding rows_after numbered
  rows_after-numbered n last [] h = refl
  rows_after-numbered n last (e ∷ es) h =
      ground (arith, rows_after-numbered (n + 1) last es (omega (arith, h)))

  rows_after-append :
      (last : ℕ) (rows : Rows E) (es : List E)
      → max_seq rows ≤ last
      → rows_after last (rows ++ numbered last es) ≡ numbered last es
  unfolding rows_after max_seq
  rows_after-append last [] es h = rows_after-numbered last last es (omega arith)
  rows_after-append last ((n, e) ∷ rows) es h =
      ground (arith, rows_after-append last rows es (omega (arith, h)))

  insert_seq-numbered :
      (n : ℕ) (e : E) (es : List E) → insert_seq (n, e) (numbered n es) ≡ (n, e) ∷ numbered n es
  unfolding numbered
  insert_seq-numbered n e [] = refl
  insert_seq-numbered n e (f ∷ es) = ground arith

  order_by_seq-numbered : (n : ℕ) (es : List E) → order_by_seq (numbered n es) ≡ numbered n es
  unfolding order_by_seq numbered
  order_by_seq-numbered n [] = refl
  order_by_seq-numbered n (e ∷ es) =
      ap (insert_seq (n + 1, e)) (order_by_seq-numbered (n + 1) es)
      ∙ insert_seq-numbered (n + 1) e es

  take-numbered :
      (limit n : ℕ) (es : List E) → map (λ r. r.1) (take limit (numbered n es)) ≡ take limit es
  unfolding numbered
  take-numbered zero n es = refl
  take-numbered (suc limit) n [] = refl
  take-numbered (suc limit) n (e ∷ es) = ap (◌∷◌ e) (take-numbered limit (n + 1) es)

  -- A reader that has seen all there was, and asks for what came after the last number it saw, gets exactly
  -- the events that have been persisted since, in the order they were, up to its limit.
  pub fetch_after-persist_all :
      (rows : Rows E) (es : List E) (limit : ℕ)
      → fetch_after (max_seq rows) limit (persist_all es rows) ≡ take limit es
  unfolding fetch_after
  fetch_after-persist_all rows es limit =
      ap
        (λ (all : Rows E).
          map (λ r. r.1) (take limit (order_by_seq (rows_after (max_seq rows) all))))
        (persist_all-numbered es rows)
      ∙ ap (λ (all : Rows E). map (λ r. r.1) (take limit (order_by_seq all)))
          (rows_after-append (max_seq rows) rows es (omega arith))
      ∙ ap (λ (all : Rows E). map (λ r. r.1) (take limit all))
          (order_by_seq-numbered (max_seq rows) es)
      ∙ take-numbered limit (max_seq rows) es
