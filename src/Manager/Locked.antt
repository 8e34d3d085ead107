-- ===== src/Manager/Locked.antt =====
-- `_update_status_locked`: a version-checked write with one retry. What other writers do to the table
-- while it sleeps is the argument `others`.
use gg_proxy.Base.{
  ℕ, ◌+◌, ◌≡◌, ◌≢◌, refl, ◌⊎◌, inl, inr, false, Option, none, some, arith, ◌==◌, if◌then◌else◌,
}
use gg_proxy.Base.Dict.{lookup, insert}
use gg_proxy.Store.{
  Row, Sessions, Patch, is_empty, patched, Write, written, conflict, update_session_status,
  get_session,
}
use gg_proxy.Store.Locking.{CheckedWrite, update-CheckedWrite}

pub data Locked : Type 0 where
  locked : ℕ → Locked
  -- `ConcurrencyError` of the second attempt
  lost : ℕ → Option ℕ → Locked
  no_row : Locked

-- The second attempt, whose conflict is raised.
unfoldable pub second_attempt : ℕ → Patch → ℕ → Sessions → Locked × Sessions
second_attempt sid p expected db =
    let (w, db') = update_session_status sid p (some expected) db in
    elim w [ written v ↦ (locked v, db') | conflict actual ↦ (lost expected actual, db') ]

-- After a conflict: the version that the conflict carries, or else the row's.
unfoldable pub retry : ℕ → Patch → Option ℕ → Sessions → Locked × Sessions
unfolding second_attempt get_session
retry sid p (some actual) db = second_attempt sid p actual db
retry sid p none db = elim (get_session sid db) [
  | none ↦ (no_row, db)
  | some r ↦ second_attempt sid p r.version db
]

unfoldable pub first_attempt : ℕ → Patch → ℕ → (Sessions → Sessions) → Sessions → Locked × Sessions
unfolding retry
first_attempt sid p expected others db =
    let (w, db') = update_session_status sid p (some expected) db in
    elim w [ written v ↦ (locked v, db') | conflict actual ↦ retry sid p actual (others db') ]

-- With no version from the caller the row's is read.
unfoldable pub update_status_locked :
    ℕ → Option ℕ → Patch → (Sessions → Sessions) → Sessions → Locked × Sessions
unfolding first_attempt get_session
update_status_locked sid (some expected) p others db = first_attempt sid p expected others db
update_status_locked sid none p others db = elim (get_session sid db) [
  | none ↦ (no_row, db)
  | some r ↦ first_attempt sid p r.version others db
]

-- The write went through on a row of the table `db`: at its version, by one, and nothing else changed.
abbrev pub Wrote : ℕ → Patch → Sessions → Sessions → ℕ → Type 0
Wrote sid p db db' v =
    (r : Row) × (lookup sid db ≡ some r)
    × (v ≡ r.version + 1)
    × ((j : ℕ) → lookup j db' ≡ (if j == sid then some (patched p v r) else lookup j db))

-- What the helper has returned and done, by how it ended.
abbrev pub LockedWrite : ℕ → Patch → (Sessions → Sessions) → Sessions → Locked × Sessions → Type 0
LockedWrite sid p others db (locked v, db') = Wrote sid p db db' v ⊎ Wrote sid p (others db) db' v
LockedWrite sid p others db (lost expected actual, db') =
    (db' ≡ others db) × (actual ≢ some expected)
LockedWrite sid p others db (no_row, db') =
    ((db' ≡ db) × (lookup sid db ≡ none)) ⊎ ((db' ≡ others db) × (lookup sid (others db) ≡ none))

module _ (sid : ℕ) (p : Patch) (some_column : is_empty p ≡ false) where
  second_attempt-LockedWrite :
      (expected : ℕ) (others : Sessions → Sessions) (db : Sessions)
      → LockedWrite sid p others db (second_attempt sid p expected (others db))
  unfolding second_attempt
  second_attempt-LockedWrite expected others db =
      go (update_session_status sid p (some expected) (others db))
        (update-CheckedWrite sid p expected (others db) some_column)
    where
      go :
          (w : Write × Sessions)
          → CheckedWrite sid p expected (others db) w
          → LockedWrite sid p others db (elim w.0 [
            | written v ↦ (locked v, w.1)
            | conflict actual ↦ (lost expected actual, w.1)
          ])
      go (written v, db') (r, h, e, ve, at) = inr (r, h, ground arith, at)
      go (conflict none, db') (missing, same) = (same, cc)
      go (conflict (some a), db') (r, h, e, ne, same) = (same, λ q. ne (ground arith))

  retry-LockedWrite :
      (actual : Option ℕ) (others : Sessions → Sessions) (db : Sessions)
      → LockedWrite sid p others db (retry sid p actual (others db))
  unfolding retry
  retry-LockedWrite (some a) others db = second_attempt-LockedWrite a others db
  retry-LockedWrite none others db = go (lookup sid (others db)) refl
    where
      go :
          (o : Option Row)
          → lookup sid (others db) ≡ o
          → LockedWrite sid p others db (elim o [
            | none ↦ (no_row, others db)
            | some r ↦ second_attempt sid p r.version (others db)
          ])
      go none e = inr (refl, e)
      go (some r) e = second_attempt-LockedWrite r.version others db

  first_attempt-LockedWrite :
      (expected : ℕ) (others : Sessions → Sessions) (db : Sessions)
      → LockedWrite sid p others db (first_attempt sid p expected others db)
  unfolding first_attempt
  first_attempt-LockedWrite expected others db =
      go (update_session_status sid p (some expected) db)
        (update-CheckedWrite sid p expected db some_column)
    where
      go :
          (w : Write × Sessions)
          → CheckedWrite sid p expected db w
          → LockedWrite sid p others db (elim w.0 [
            | written v ↦ (locked v, w.1)
            | conflict actual ↦ retry sid p actual (others w.1)
          ])
      go (written v, db') (r, h, e, ve, at) = inl (r, h, ground arith, at)
      go (conflict none, db') (missing, same) = rw same (retry-LockedWrite none others db)
      go (conflict (some a), db') (r, h, e, ne, same) =
          rw same (retry-LockedWrite (some a) others db)

  -- A write of some column by `_update_status_locked`, whatever version the caller expects and whatever
  -- other writers do between its attempts: if it reports a version, then the patched row went at that
  -- version, one above the row's, either into the table as it was called or into the table that the others
  -- left, and no other row of that table changed; if it reports a lost race or a missing row, the
  -- table holds the others' writes and nothing of its own.
  pub update_status_locked-LockedWrite :
      (expected : Option ℕ) (others : Sessions → Sessions) (db : Sessions)
      → LockedWrite sid p others db (update_status_locked sid expected p others db)
  unfolding update_status_locked
  update_status_locked-LockedWrite (some v) others db = first_attempt-LockedWrite v others db
  update_status_locked-LockedWrite none others db = go (lookup sid db) refl
    where
      go :
          (o : Option Row)
          → lookup sid db ≡ o
          → LockedWrite sid p others db
              (elim o [ none ↦ (no_row, db) | some r ↦ first_attempt sid p r.version others db ])
      go none e = inl (refl, e)
      go (some r) e = first_attempt-LockedWrite r.version others db

-- One conflict is absorbed: if no other writer comes in during the retry, a write of some column goes
-- through on any row that exists, however old the version is that the caller read.
pub update_status_locked_absorbs :
    (sid : ℕ) (p : Patch) (expected : Option ℕ) (db : Sessions) (r : Row)
    → is_empty p ≡ false
    → lookup sid db ≡ some r
    → update_status_locked sid expected p (λ t. t) db
      ≡ (locked (r.version + 1), insert sid (patched p (r.version + 1) r) db)
unfolding update_status_locked update_session_status
update_status_locked_absorbs sid p none db r e h = ground arith
update_status_locked_absorbs sid p (some v) db r e h = ground arith
