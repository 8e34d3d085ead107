-- ===== src/Base/Set.antt =====
-- A Python set of keys.
use Prim.Native.Nat.{◌≤◌, ℕ}
use mathlib.Core.Path.{◌≡◌, refl}
use mathlib.Core.Logic.{◌≢◌}
use mathlib.Core.Bool.{Bool, false, not, ◌&&◌, ◌||◌}
use mathlib.Core.List.{List, [], ◌∷◌}
use native.Mathlib.Omega.{arith}
use gg_proxy.Base.Tests.{◌==◌, if◌then◌else◌}
use gg_proxy.Base.Lists.{length}

abbrev pub member : ℕ → List ℕ → Bool
member k [] = false
member k (j ∷ s) = k == j || member k s

-- `s.add(k)`
abbrev pub add : ℕ → List ℕ → List ℕ
add k s = if member k s then s else k ∷ s

-- `s.discard(k)`: every occurrence, so no side condition is needed.
abbrev pub discard : ℕ → List ℕ → List ℕ
discard k [] = []
discard k (j ∷ s) = let rest = discard k s in if k == j then rest else j ∷ rest

pub member-add : (j k : ℕ) (s : List ℕ) → member j (add k s) ≡ (j == k || member j s)
member-add j k s = ground arith

pub member-discard_self : (k : ℕ) (s : List ℕ) → member k (discard k s) ≡ false
member-discard_self k [] = refl
member-discard_self k (j ∷ s) = ground (arith, member-discard_self k s)

pub member-discard_ne : (j k : ℕ) (s : List ℕ) → j ≢ k → member j (discard k s) ≡ member j s
member-discard_ne j k [] h = refl
member-discard_ne j k (i ∷ s) h = ground (arith, member-discard_ne j k s h)

pub member-discard : (j k : ℕ) (s : List ℕ) → member j (discard k s) ≡ (not (j == k) && member j s)
member-discard j k [] = ground arith
member-discard j k (i ∷ s) = ground (arith, member-discard j k s)

pub length-discard-le : (k : ℕ) (s : List ℕ) → length (discard k s) ≤ length s
length-discard-le k [] = omega arith
length-discard-le k (j ∷ s) = ground (arith, length-discard-le k s)
