-- ===== src/Manager/Slots/Balance.antt =====
-- The books of the semaphore: free slots and held slots against the configured limit, over every history of
-- the manager.
use gg_proxy.Base.{
  ℕ, suc, ◌+◌, ◌≤◌, ◌<◌, length, ◌≡◌, ◌≢◌, refl, inl, inr, true, false, some, arith, if◌then◌else◌,
  Option-cases, Bool-cases,
}
use gg_proxy.Base.Dict.{
  lookup, contains, insert, erase, Distinct, insert-Distinct, erase-Distinct, lookup-insert,
  lookup-erase_ne, lookup-erase_self,
}
use gg_proxy.Base.Set.{length-discard-le, member, discard, member-add, member-discard}
use gg_proxy.Manager.State.{Task, cancel_task}
use gg_proxy.Manager.Slots.{View, new_task, enroll, admit, connect, lend, regain, finish, drop}
use gg_proxy.Manager.Slots.Count.{
  is_acquired, holding, holding-insert_new, holding-insert_same, holding-admit, holding-lend,
  holding-regain, holding-absent_discard, holding-erase,
}

add-one_left : (n : ℕ) → 1 + n ≡ suc n
add-one_left n = omega arith

zero_plus : (n : ℕ) → 0 + n ≡ n
zero_plus n = omega arith

-- One slot too many for a session that was paused.
abbrev pub leak : ℕ → View → ℕ
leak sid v = if member sid v.paused then 1 else 0

module _ (limit most : ℕ) where
  -- The books with `excess` slots too many: the tasks' ids are distinct, only tasks past the semaphore have
  -- a bridge or a lent slot, every paused session's slot is lent, and no more are paused than may be.
  pub record Books (excess : ℕ) (v : View) : Type 0 where
    pub distinct : Distinct v.tasks
    pub balance : v.free + holding v.lent v.tasks ≡ v.limit + excess
    pub bridged_run : (sid : ℕ) → member sid v.bridged ≡ true → is_acquired sid v.tasks ≡ true
    pub lent_run : (sid : ℕ) → member sid v.lent ≡ true → is_acquired sid v.tasks ≡ true
    pub paused_lent : (sid : ℕ) → member sid v.paused ≡ true → member sid v.lent ≡ true
    pub capped : length v.paused ≤ v.cap
    pub limit_kept : v.limit ≡ limit
    pub cap_kept : v.cap ≡ most

  pub enroll-Books :
      (excess sid : ℕ) (v : View)
      → contains sid v.tasks ≡ false
      → Books excess v
      → Books excess (enroll sid v)
  enroll-Books excess sid v new b = record {
    distinct = insert-Distinct sid new_task v.tasks b.distinct;
    balance = ground (arith, holding-insert_new sid new_task v.lent v.tasks, b.balance);
    bridged_run = λ j h. ground (arith, b.bridged_run j h, lookup-insert j sid new_task v.tasks);
    lent_run = λ j h. ground (arith, b.lent_run j h, lookup-insert j sid new_task v.tasks);
    paused_lent = b.paused_lent;
    capped = b.capped;
    limit_kept = b.limit_kept;
    cap_kept = b.cap_kept;
  }

  pub admit-Books :
      (excess sid : ℕ) (t : Task) (v : View)
      → lookup sid v.tasks ≡ some t
      → t.acquired ≡ false
      → v.free ≢ 0
      → Books excess v
      → Books excess (admit sid t v)
  admit-Books excess sid t v h a f b = record {
    distinct = insert-Distinct sid running v.tasks b.distinct;
    balance =
        ground
          (arith, holding-admit sid running t v.lent v.tasks h a refl, b.balance, b.lent_run sid);
    bridged_run = λ j h. ground (arith, b.bridged_run j h, lookup-insert j sid running v.tasks);
    lent_run = λ j h. ground (arith, b.lent_run j h, lookup-insert j sid running v.tasks);
    paused_lent = b.paused_lent;
    capped = b.capped;
    limit_kept = b.limit_kept;
    cap_kept = b.cap_kept;
  }
    where
      running : Task
      running = record t { acquired = true }

  pub connect-Books :
      (excess sid : ℕ) (v : View)
      → is_acquired sid v.tasks ≡ true
      → Books excess v
      → Books excess (connect sid v)
  connect-Books excess sid v a b = record {
    distinct = b.distinct;
    balance = b.balance;
    bridged_run = λ j h. ground (arith, b.bridged_run j, member-add j sid v.bridged);
    lent_run = b.lent_run;
    paused_lent = b.paused_lent;
    capped = b.capped;
    limit_kept = b.limit_kept;
    cap_kept = b.cap_kept;
  }

  pub lend-Books :
      (excess sid : ℕ) (v : View)
      → member sid v.bridged ≡ true
      → (member sid v.paused ≡ false) × (length v.paused < v.cap)
      → Books excess v
      → Books excess (lend sid v)
  lend-Books excess sid v h r b = record {
    distinct = b.distinct;
    balance =
        ground (arith, holding-lend sid v.lent v.tasks b.distinct (b.bridged_run sid h), b.balance);
    bridged_run = b.bridged_run;
    lent_run = λ j m. ground (arith, b.lent_run j, b.bridged_run sid h);
    paused_lent = λ j m. ground (arith, b.paused_lent j);
    capped = ground arith;
    limit_kept = b.limit_kept;
    cap_kept = b.cap_kept;
  }

  pub regain-Books :
      (excess sid : ℕ) (v : View)
      → member sid v.paused ≡ true
      → v.free ≢ 0
      → Books excess v
      → Books excess (regain sid v)
  regain-Books excess sid v h f b = record {
    distinct = b.distinct;
    balance = ground (
      arith,
      holding-regain sid v.lent v.tasks b.distinct (b.lent_run sid (b.paused_lent sid h))
          (b.paused_lent sid h),
      b.balance,
    );
    bridged_run = b.bridged_run;
    lent_run = λ j m. ground (arith, b.lent_run j, member-discard j sid v.lent);
    paused_lent = λ j m.
        ground (arith, b.paused_lent j, member-discard j sid v.lent, member-discard j sid v.paused);
    capped = omega (arith, b.capped, length-discard-le sid v.paused);
    limit_kept = b.limit_kept;
    cap_kept = b.cap_kept;
  }

  pub finish-Books :
      (excess sid : ℕ) (t : Task) (v : View)
      → lookup sid v.tasks ≡ some t
      → Books excess v
      → Books excess (finish sid t v)
  finish-Books excess sid t v h b = record {
    distinct = erase-Distinct sid v.tasks b.distinct;
    balance = ground (
      arith,
      holding-erase sid t v.lent v.tasks b.distinct h,
      holding-absent_discard sid v.lent (erase sid v.tasks),
      lookup-erase_self sid v.tasks b.distinct,
      b.balance,
    );
    bridged_run = λ j m.
        ground
          (arith, b.bridged_run j, member-discard j sid v.bridged, lookup-erase_ne j sid v.tasks);
    lent_run = λ j m.
        ground (arith, b.lent_run j, member-discard j sid v.lent, lookup-erase_ne j sid v.tasks);
    paused_lent = λ j m.
        ground (arith, b.paused_lent j, member-discard j sid v.lent, member-discard j sid v.paused);
    capped = omega (arith, b.capped, length-discard-le sid v.paused);
    limit_kept = b.limit_kept;
    cap_kept = b.cap_kept;
  }

  replace-Books :
      (excess sid : ℕ) (t u : Task) (v : View)
      → lookup sid v.tasks ≡ some u
      → t.acquired ≡ u.acquired
      → Books excess v
      → Books excess (record v { tasks = insert sid t v.tasks })
  replace-Books excess sid t u v h a b = record {
    distinct = insert-Distinct sid t v.tasks b.distinct;
    balance = ground (arith, holding-insert_same sid t u v.lent v.tasks h a, b.balance);
    bridged_run = λ j m. ground (arith, b.bridged_run j m, lookup-insert j sid t v.tasks);
    lent_run = λ j m. ground (arith, b.lent_run j m, lookup-insert j sid t v.tasks);
    paused_lent = b.paused_lent;
    capped = b.capped;
    limit_kept = b.limit_kept;
    cap_kept = b.cap_kept;
  }

  flag-Books :
      (excess sid : ℕ) (v : View)
      → Books excess v
      → Books excess (record v { tasks = cancel_task sid v.tasks })
  flag-Books excess sid v b = elim (Option-cases (lookup sid v.tasks)) [
    | inl missing ↦ rw (missing, cancel_task) b
    | inr (t, h) ↦
        rw (h, cancel_task) (replace-Books excess sid (record t { cancelling = true }) t v h refl b)
  ]

  -- A paused session that is taken off both sets without its slot being fetched back.
  unpause-Books :
      (excess sid : ℕ) (v : View)
      → member sid v.paused ≡ true
      → Books excess v
      → Books (suc excess) (record v { paused = discard sid v.paused; lent = discard sid v.lent })
  unpause-Books excess sid v h b = record {
    distinct = b.distinct;
    balance = ground (
      arith,
      holding-regain sid v.lent v.tasks b.distinct (b.lent_run sid (b.paused_lent sid h))
          (b.paused_lent sid h),
      b.balance,
    );
    bridged_run = b.bridged_run;
    lent_run = λ j m. ground (arith, b.lent_run j, member-discard j sid v.lent);
    paused_lent = λ j m.
        ground (arith, b.paused_lent j, member-discard j sid v.lent, member-discard j sid v.paused);
    capped = omega (arith, b.capped, length-discard-le sid v.paused);
    limit_kept = b.limit_kept;
    cap_kept = b.cap_kept;
  }

  pub drop-Books :
      (excess sid : ℕ) (v : View) → Books excess v → Books (leak sid v + excess) (drop sid v)
  drop-Books excess sid v b = elim (Bool-cases (member sid v.paused)) [
    | inl paused ↦
        rw (paused, add-one_left excess)
          (flag-Books (suc excess) sid _ (unpause-Books excess sid v paused b))
    | inr not_paused ↦ rw (not_paused, zero_plus excess) (flag-Books excess sid v b)
  ]
