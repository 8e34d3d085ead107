-- ===== src/Manager/Slots/Count.antt =====
-- How many slots the tasks hold.
use gg_proxy.Base.{
  ℕ, suc, ◌≡◌, refl, Bool, true, false, not, ◌&&◌, none, some, List, [], ◌∷◌, arith, if◌then◌else◌,
  is_some,
}
use gg_proxy.Base.Dict.{Dict, lookup, insert, erase, Distinct}
use gg_proxy.Base.Set.{member, discard, member-discard_self, member-discard_ne}
use gg_proxy.Manager.State.{Task}

abbrev pub is_acquired : ℕ → Dict Task → Bool
is_acquired sid tasks = elim (lookup sid tasks) [ none ↦ false | some t ↦ t.acquired ]

-- Tasks that got past the semaphore and whose slot is not lent.
unfoldable pub holding : List ℕ → Dict Task → ℕ
holding lent [] = 0
holding lent ((sid, t) ∷ ts) =
    let n = holding lent ts in if t.acquired && not (member sid lent) then suc n else n

pub holding-insert_new :
    (sid : ℕ) (t : Task) (lent : List ℕ) (ts : Dict Task)
    → lookup sid ts ≡ none
    → t.acquired ≡ false
    → holding lent (insert sid t ts) ≡ holding lent ts
unfolding holding
holding-insert_new sid t lent [] h a = ground arith
holding-insert_new sid t lent ((j, u) ∷ ts) h a = ground (arith, holding-insert_new sid t lent ts)

pub holding-insert_same :
    (sid : ℕ) (t u : Task) (lent : List ℕ) (ts : Dict Task)
    → lookup sid ts ≡ some u
    → t.acquired ≡ u.acquired
    → holding lent (insert sid t ts) ≡ holding lent ts
unfolding holding
holding-insert_same sid t u lent [] h a = ground arith
holding-insert_same sid t u lent ((j, w) ∷ ts) h a =
    ground (arith, holding-insert_same sid t u lent ts)

pub holding-admit :
    (sid : ℕ) (t u : Task) (lent : List ℕ) (ts : Dict Task)
    → lookup sid ts ≡ some u
    → u.acquired ≡ false
    → t.acquired ≡ true
    → member sid lent ≡ false
    → holding lent (insert sid t ts) ≡ suc (holding lent ts)
unfolding holding
holding-admit sid t u lent [] h a b c = ground arith
holding-admit sid t u lent ((j, w) ∷ ts) h a b c = ground (arith, holding-admit sid t u lent ts)

holding-absent_add :
    (sid : ℕ) (lent : List ℕ) (ts : Dict Task)
    → is_some (lookup sid ts) ≡ false
    → holding (sid ∷ lent) ts ≡ holding lent ts
unfolding holding
holding-absent_add sid lent [] h = refl
holding-absent_add sid lent ((j, w) ∷ ts) h = ground (arith, holding-absent_add sid lent ts)

pub holding-absent_discard :
    (sid : ℕ) (lent : List ℕ) (ts : Dict Task)
    → is_some (lookup sid ts) ≡ false
    → holding (discard sid lent) ts ≡ holding lent ts
unfolding holding
holding-absent_discard sid lent [] h = refl
holding-absent_discard sid lent ((j, w) ∷ ts) h =
    ground (arith, holding-absent_discard sid lent ts, member-discard_ne j sid lent)

pub holding-lend :
    (sid : ℕ) (lent : List ℕ) (ts : Dict Task)
    → Distinct ts
    → is_acquired sid ts ≡ true
    → member sid lent ≡ false
    → suc (holding (sid ∷ lent) ts) ≡ holding lent ts
unfolding holding
holding-lend sid lent [] d a h = ground arith
holding-lend sid lent ((j, w) ∷ ts) d a h =
    ground (arith, holding-lend sid lent ts, holding-absent_add sid lent ts)

pub holding-regain :
    (sid : ℕ) (lent : List ℕ) (ts : Dict Task)
    → Distinct ts
    → is_acquired sid ts ≡ true
    → member sid lent ≡ true
    → holding (discard sid lent) ts ≡ suc (holding lent ts)
unfolding holding
holding-regain sid lent [] d a h = ground arith
holding-regain sid lent ((j, w) ∷ ts) d a h = ground (
  arith,
  holding-regain sid lent ts,
  holding-absent_discard sid lent ts,
  member-discard_self sid lent,
  member-discard_ne j sid lent,
)

-- A task leaves the table.
pub holding-erase :
    (sid : ℕ) (t : Task) (lent : List ℕ) (ts : Dict Task)
    → Distinct ts
    → lookup sid ts ≡ some t
    → (if t.acquired && not (member sid lent)
        then suc (holding lent (erase sid ts))
        else holding lent (erase sid ts))
      ≡ holding lent ts
unfolding holding
holding-erase sid t lent [] d h = ground arith
holding-erase sid t lent ((j, w) ∷ ts) d h = ground (arith, holding-erase sid t lent ts)
