-- ===== src/Base/Dict.antt =====
-- A Python dict in insertion order. A key stands for a text that the program only compares.
use Prim.Native.Nat.{ℕ, suc, ◌≤◌}
use mathlib.Core.Path.{◌≡◌, refl}
use mathlib.Core.Logic.{◌≢◌}
use mathlib.Core.Bool.{Bool, false}
use mathlib.Core.Option.{Option, none, some}
use mathlib.Core.List.{List, [], ◌∷◌}
use native.Mathlib.Omega.{arith}
use gg_proxy.Base.Tests.{◌==◌, if◌then◌else◌, is_some}
use gg_proxy.Base.Lists.{length}

abbrev pub Dict {ℓ} : Type ℓ → Type ℓ
Dict V = List (ℕ × V)

module _ {ℓ} {V : Type ℓ} where
  -- `d.get(k)`
  abbrev pub lookup : ℕ → Dict V → Option V
  lookup key [] = none
  lookup key ((other, value) ∷ rest) = if key == other then some value else lookup key rest

  -- `k in d`
  abbrev pub contains : ℕ → Dict V → Bool
  contains key dict = is_some (lookup key dict)

  -- `d.pop(k, None)`
  abbrev pub erase : ℕ → Dict V → Dict V
  erase key [] = []
  erase key (first ∷ rest) = if key == first.0 then rest else first ∷ erase key rest

  pub lookup-erase_ne :
      (other key : ℕ) (dict : Dict V)
      → other ≢ key
      → lookup other (erase key dict) ≡ lookup other dict
  lookup-erase_ne other key [] ne = refl
  lookup-erase_ne other key (first ∷ rest) ne = ground (arith, lookup-erase_ne other key rest ne)

  -- `d[k] = v`: the place of an old key is kept, a new key goes to the end.
  abbrev pub insert : ℕ → V → Dict V → Dict V
  insert key value [] = (key, value) ∷ []
  insert key value (first ∷ rest) =
      if key == first.0 then (key, value) ∷ rest else first ∷ insert key value rest

  pub lookup-insert :
      (other key : ℕ) (value : V) (dict : Dict V)
      → lookup other (insert key value dict)
        ≡ (if other == key then some value else lookup other dict)
  lookup-insert other key value [] = ground arith
  lookup-insert other key value (first ∷ rest) = ground (arith, lookup-insert other key value rest)

  pub lookup-insert_self :
      (key : ℕ) (value : V) (dict : Dict V) → lookup key (insert key value dict) ≡ some value
  lookup-insert_self key value dict = ground (arith, lookup-insert key key value dict)

  -- No key occurs twice, as the functions above maintain.
  abbrev pub Distinct : Dict V → Type 0
  Distinct [] = Unit {0}
  Distinct ((k, v) ∷ d) = (is_some (lookup k d) ≡ false) × Distinct d

  pub lookup-erase_self : (k : ℕ) (d : Dict V) → Distinct d → lookup k (erase k d) ≡ none
  lookup-erase_self k [] h = refl
  lookup-erase_self k (e ∷ d) h = ground (arith, lookup-erase_self k d h.1)

  pub insert-Distinct : (k : ℕ) (v : V) (d : Dict V) → Distinct d → Distinct (insert k v d)
  insert-Distinct k v [] h = (refl, tt)
  insert-Distinct k v (e ∷ d) h = ground (arith, insert-Distinct k v d h.1, lookup-insert e.0 k v d)

  pub erase-Distinct : (k : ℕ) (d : Dict V) → Distinct d → Distinct (erase k d)
  erase-Distinct k [] h = tt
  erase-Distinct k (e ∷ d) h = ground (arith, erase-Distinct k d h.1, lookup-erase_ne e.0 k d)

  pub length-insert :
      (k : ℕ) (v : V) (d : Dict V)
      → length (insert k v d) ≡ (if contains k d then length d else suc (length d))
  length-insert k v [] = refl
  length-insert k v (e ∷ d) = ground (arith, length-insert k v d)

  pub length-erase-le : (k : ℕ) (d : Dict V) → length (erase k d) ≤ length d
  length-erase-le k [] = omega arith
  length-erase-le k (e ∷ d) = ground (arith, length-erase-le k d)
