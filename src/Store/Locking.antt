-- ===== src/Store/Locking.antt =====
-- Optimistic locking of a session's row.
use gg_proxy.Base.{
  ℕ, ◌+◌, ◌≡◌, ◌≢◌, refl, inl, inr, false, none, some, arith, Option-cases, Bool-cases, ◌==◌,
  if◌then◌else◌,
}
use gg_proxy.Base.Dict.{lookup, lookup-insert}
use gg_proxy.Store.{
  Row, Sessions, Patch, is_empty, patched, Write, written, conflict, update_session_status,
}

-- What a version-checked write has returned and done, case by case.
abbrev pub CheckedWrite : ℕ → Patch → ℕ → Sessions → Write × Sessions → Type 0
CheckedWrite sid p v db (written w, db') =
    (r : Row) × (lookup sid db ≡ some r)
    × (r.version ≡ v)
    × (w ≡ v + 1)
    × ((j : ℕ) → lookup j db' ≡ (if j == sid then some (patched p w r) else lookup j db))
CheckedWrite sid p v db (conflict none, db') = (lookup sid db ≡ none) × (db' ≡ db)
CheckedWrite sid p v db (conflict (some a), db') =
    (r : Row) × (lookup sid db ≡ some r) × (r.version ≡ a) × (a ≢ v) × (db' ≡ db)

-- A version-checked write of some column, case by case: it succeeds exactly on a row of the expected
-- version, and then that row alone holds the patched columns at the next version; in every other case
-- the table is unchanged, and the conflict carries the version that stands there, if any.
pub update-CheckedWrite :
    (sid : ℕ) (p : Patch) (v : ℕ) (db : Sessions)
    → is_empty p ≡ false
    → CheckedWrite sid p v db (update_session_status sid p (some v) db)
unfolding update_session_status
update-CheckedWrite sid p v db some_column = elim (Option-cases (lookup sid db)) [
  | inl missing ↦ rw (some_column, missing) (missing, refl)
  | inr (r, e) ↦ elim (Bool-cases (r.version == v)) [
    | inl same ↦
        rw (some_column, e, same)
          (r, e, ground arith, refl, λ j. lookup-insert j sid (patched p (v + 1) r) db)
    | inr other ↦ rw (some_column, e, other) (r, e, refl, ground arith, refl)
  ]
]

-- Of two writers of some column that read the same version at most one gets through: after a checked
-- write has succeeded, a second one against the same version is refused, with the new version in the
-- refusal, and changes nothing.
pub update_once :
    (sid : ℕ) (p q : Patch) (v w : ℕ) (db : Sessions)
    → is_empty p ≡ false
    → is_empty q ≡ false
    → (update_session_status sid p (some v) db).0 ≡ written w
    → let db' = (update_session_status sid p (some v) db).1 in
      update_session_status sid q (some v) db' ≡ (conflict (some (v + 1)), db')
unfolding update_session_status patched
update_once sid p q v w db ep eq h = elim (Option-cases (lookup sid db)) [
  | inl missing ↦ ground arith
  | inr (r, e) ↦ ground (arith, lookup-insert sid sid (patched p (v + 1) r) db)
]
