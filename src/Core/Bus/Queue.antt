-- ===== src/Core/Bus/Queue.antt =====
-- What a subscriber receives of what is put into its queue.
use mathlib.Core.List.{append_assoc, append-nil}
use gg_proxy.Base.{
  ℕ, suc, ◌+◌, ◌≤◌, ◌≡◌, sym, ap, ◌∙◌, subst, ◌⊎◌, inl, inr, Option, none, some, List, [], ◌∷◌,
  ◌++◌, arith, Bool-cases, List-cases, length, length-append,
}
use gg_proxy.Core.Bus.{Sub, is_full, put, take_item, waited_in_vain}

pub data Step (E : Type 0) : Type 0 where
  puts : E → Step E
  takes : Step E
  waits_in_vain : Step E

module _ {E : Type 0} where
  -- `xs` is `ys` without `n` of its elements, in order.
  pub data Drops : ℕ → List E → List E → Type 0 where
    all : Drops 0 [] []
    kept : {n : ℕ} {xs ys : List E} {x : E} → Drops n xs ys → Drops n (x ∷ xs) (x ∷ ys)
    lost : {n : ℕ} {xs ys : List E} {x : E} → Drops n xs ys → Drops (suc n) xs (x ∷ ys)

  Drops-refl : (xs : List E) → Drops 0 xs xs
  Drops-refl [] = all
  Drops-refl (x ∷ xs) = kept (Drops-refl xs)

  abbrev received : Option E → List E × Sub E → List E × Sub E
  received none out = out
  received (some e) (items, s) = (e ∷ items, s)

  -- The items that the consumer took, and the queue.
  pub run : Sub E → List (Step E) → List E × Sub E
  run s [] = ([], s)
  run s (puts e ∷ steps) = run (put e s).1 steps
  run s (takes ∷ steps) = let (item, s') = take_item s in received item (run s' steps)
  run s (waits_in_vain ∷ steps) = run (waited_in_vain s) steps

  pub all_put : List (Step E) → List E
  all_put [] = []
  all_put (puts e ∷ steps) = e ∷ all_put steps
  all_put (takes ∷ steps) = all_put steps
  all_put (waits_in_vain ∷ steps) = all_put steps

  -- A queue that holds no more than it may, and may hold something.
  abbrev pub IsBounded : Sub E → Type 0
  IsBounded s = (1 ≤ s.maxsize) × (length s.items ≤ s.maxsize)

  put-IsBounded : (e : E) (s : Sub E) → IsBounded s → IsBounded (put e s).1
  unfolding put
  put-IsBounded e s b = ground (arith, length-append s.items (e ∷ []))

  abbrev Account : ℕ → List E → List E × Sub E → Type 0
  Account before offered (taken, s) =
      (n : ℕ) × (s.dropped ≡ before + n) × Drops n (taken ++ s.items) offered × IsBounded s

  put-cases :
      (e : E) (s : Sub E)
      → IsBounded s
      → (((put e s).1.dropped ≡ s.dropped) × ((put e s).1.items ≡ s.items ++ e ∷ []))
        ⊎ ((x : E) × (rest : List E) × (s.items ≡ x ∷ rest)
            × ((put e s).1.dropped ≡ s.dropped + 1)
            × ((put e s).1.items ≡ rest ++ e ∷ []))
  unfolding put
  put-cases e s b = elim (Bool-cases (is_full s)) [
    | inr below ↦ inl (ground arith, ground arith)
    | inl at_limit ↦ elim (List-cases s.items) [
      | inl none_there ↦ absurd (ground arith)
      | inr (x, rest, i) ↦ inr (x, rest, i, ground arith, ground arith)
    ]
  ]

  put-Account :
      (e : E) (s : Sub E) (later : List E) (out : List E × Sub E)
      → IsBounded s
      → Account (put e s).1.dropped ((put e s).1.items ++ later) out
      → Account s.dropped (s.items ++ e ∷ later) out
  put-Account e s later out b (n, d, k, b') = elim (put-cases e s b) [
    | inl (same, i) ↦ (
      n,
      omega (arith, d, same),
      subst (Drops n (out.0 ++ out.1.items))
          (ap (λ (l : List E). l ++ later) i ∙ append_assoc s.items (e ∷ []) later) k,
      b',
    )
    | inr (x, rest, i, one_more, i') ↦ (
      suc n,
      omega (arith, d, one_more),
      subst (Drops (suc n) (out.0 ++ out.1.items)) (ap (λ (l : List E). l ++ e ∷ later) (sym i)) (
          lost (
            subst (Drops n (out.0 ++ out.1.items))
              (ap (λ (l : List E). l ++ later) i' ∙ append_assoc rest (e ∷ []) later) k)),
      b',
    )
  ]

  take_item-empty : (s : Sub E) → s.items ≡ [] → take_item s ≡ (none, s)
  unfolding take_item
  take_item-empty s h = ground arith

  take_item-oldest :
      (s : Sub E) (x : E) (rest : List E)
      → s.items ≡ x ∷ rest
      → take_item s ≡ (some x, record s { items = rest })
  unfolding take_item
  take_item-oldest s x rest h = ground arith

  -- Whatever is put into a bounded queue and taken from it, in any order, and however often a publisher
  -- waits in vain: what the consumer has taken, followed by what still stands in the queue, is what stood
  -- there followed by what was put, in the same order, without exactly as many items as the counter
  -- of drops has gone up by. The queue stays bounded.
  pub run-Drops :
      (s : Sub E) (steps : List (Step E))
      → IsBounded s
      → (n : ℕ) × ((run s steps).1.dropped ≡ s.dropped + n)
        × Drops n ((run s steps).0 ++ (run s steps).1.items) (s.items ++ all_put steps)
        × IsBounded (run s steps).1
  unfolding run all_put waited_in_vain
  run-Drops s [] b =
      (0, omega arith, subst (Drops 0 s.items) (sym (append-nil s.items)) (Drops-refl s.items), b)
  run-Drops s (puts e ∷ steps) b =
      put-Account e s (all_put steps) (run (put e s).1 steps) b
        (run-Drops (put e s).1 steps (put-IsBounded e s b))
  run-Drops s (takes ∷ steps) b = elim (List-cases s.items) [
    | inl empty ↦ subst counts (sym (take_item-empty s empty)) (run-Drops s steps b)
    | inr (x, rest, i) ↦
        let (n, d, k, b') =
          run-Drops (record s { items = rest }) steps (b.0, omega (arith, b.1, ap length i)) in
        subst counts (sym (take_item-oldest s x rest i))
          (n, d, subst (Drops n _) (ap (λ (l : List E). l ++ all_put steps) (sym i)) (kept k), b')
  ]
    where
      counts : Option E × Sub E → Type 0
      counts t = Account s.dropped (s.items ++ all_put steps) (received t.0 (run t.1 steps))
  run-Drops s (waits_in_vain ∷ steps) b = run-Drops (waited_in_vain s) steps b
