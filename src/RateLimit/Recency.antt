-- ===== src/RateLimit/Recency.antt =====
-- Dicts and key lists in the order of their use: what moves to the end is found as before.
use gg_proxy.Base.{
  ℕ, suc, ◌≡◌, refl, ap, false, ◌||◌, none, some, List, [], ◌∷◌, ◌++◌, arith, ◌==◌, if◌then◌else◌,
  length,
}
use gg_proxy.Base.Dict.{
  Dict, lookup, contains, erase, Distinct, lookup-erase_ne, lookup-erase_self, erase-Distinct,
}
use gg_proxy.Base.Set.{member, discard, member-discard}
use gg_proxy.RateLimit.{put_last, to_end}

module _ {V : Type 0} where
  lookup-last :
      (j k : ℕ) (v : V) (d : Dict V)
      → lookup j (d ++ (k, v) ∷ [])
        ≡ (if contains j d then lookup j d else if j == k then some v else none)
  lookup-last j k v [] = refl
  lookup-last j k v (e ∷ d) = ground (arith, lookup-last j k v d)

  pub lookup-put_last :
      (j k : ℕ) (v : V) (d : Dict V)
      → Distinct d
      → lookup j (put_last k v d) ≡ (if j == k then some v else lookup j d)
  lookup-put_last j k v d h =
      ground (arith, lookup-last j k v (erase k d), lookup-erase_ne j k d, lookup-erase_self k d h)

  last-Distinct :
      (k : ℕ) (v : V) (d : Dict V) → Distinct d → contains k d ≡ false → Distinct (d ++ (k, v) ∷ [])
  last-Distinct k v [] h n = (refl, tt)
  last-Distinct k v (e ∷ d) h n = ground (arith, last-Distinct k v d h.1, lookup-last e.0 k v d)

  pub put_last-Distinct : (k : ℕ) (v : V) (d : Dict V) → Distinct d → Distinct (put_last k v d)
  put_last-Distinct k v d h =
      last-Distinct k v (erase k d) (erase-Distinct k d h) (ground (arith, lookup-erase_self k d h))

  length-last : (k : ℕ) (v : V) (d : Dict V) → length (d ++ (k, v) ∷ []) ≡ suc (length d)
  length-last k v [] = refl
  length-last k v (e ∷ d) = ap suc (length-last k v d)

  length-erase :
      (k : ℕ) (d : Dict V)
      → (if contains k d then suc (length (erase k d)) else length (erase k d)) ≡ length d
  length-erase k [] = refl
  length-erase k (e ∷ d) = ground (arith, length-erase k d)

  pub length-put_last :
      (k : ℕ) (v : V) (d : Dict V)
      → length (put_last k v d) ≡ (if contains k d then length d else suc (length d))
  length-put_last k v d = ground (arith, length-last k v (erase k d), length-erase k d)

member-last : (j k : ℕ) (s : List ℕ) → member j (s ++ k ∷ []) ≡ (j == k || member j s)
member-last j k [] = ground arith
member-last j k (i ∷ s) = ground (arith, member-last j k s)

pub member-to_end : (j k : ℕ) (s : List ℕ) → member j (to_end k s) ≡ (j == k || member j s)
member-to_end j k s = ground (arith, member-last j k (discard k s), member-discard j k s)
