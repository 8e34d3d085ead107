-- ===== src/Store/AuditLog/Complete.antt =====
-- The audit log read page by page: nothing that was recorded is left out, or read twice.
use gg_proxy.Base.{
  ℕ, suc, ◌≤◌, ◌<◌, ◌≡◌, refl, false, String, Option, none, some, List, [], ◌∷◌, ◌++◌, ◌==◌, length,
  arith, ◌∙◌,
}
use text.Mathlib.TextPositions.{eq_refl}
use gg_proxy.Paging.{Key, beyond, where_rows, newest_first}
use gg_proxy.Paging.Order.{Apart, Free}
use gg_proxy.Paging.Cursor.{
  Codes, CodesLaws, decoded, audit_filter_hash, encode_audit_cursor, decode_audit_cursor,
}
use gg_proxy.Paging.Cursor.Anchor.{decode_audit_cursor-encode_audit_cursor}
use gg_proxy.Paging.Walk.{walk, walk_all, Serves}
use gg_proxy.Store.AuditLog.{
  LogRow, AuditLog, Entry, record_audit, log_key, AuditQuery, resolve, asked, after_row, audit_hash,
  list_audit,
}

-- Every id of a row is below the bound.
abbrev pub AllBelow : ℕ → List LogRow → Type 0
AllBelow bound [] = Unit {0}
AllBelow bound (row ∷ rows) = (row.id < bound) × AllBelow bound rows

-- No two rows have one id, and the next id is free.
abbrev pub IsLog : AuditLog → Type 0
IsLog log = Apart log_key log.rows × AllBelow log.next_id log.rows

AllBelow-suc : (n : ℕ) (rows : List LogRow) → AllBelow n rows → AllBelow (suc n) rows
AllBelow-suc n [] h = tt
AllBelow-suc n (row ∷ rows) h = (omega arith, AllBelow-suc n rows h.1)

AllBelow-append :
    (n : ℕ) (rows : List LogRow) (row : LogRow)
    → row.id < n
    → AllBelow n rows
    → AllBelow n (rows ++ (row ∷ []))
AllBelow-append n [] row p h = (p, tt)
AllBelow-append n (first ∷ rows) row p h = (h.0, AllBelow-append n rows row p h.1)

Free-append :
    (id : ℕ) (rows : List LogRow) (row : LogRow)
    → (row.id == id) ≡ false
    → Free log_key id rows
    → Free log_key id (rows ++ (row ∷ []))
Free-append id [] row p h = (p, tt)
Free-append id (first ∷ rows) row p h = (h.0, Free-append id rows row p h.1)

ne_of_lt : (a b : ℕ) → a < b → (b == a) ≡ false
ne_of_lt a b h = ground arith

Apart-append :
    (rows : List LogRow) (row : LogRow)
    → AllBelow row.id rows
    → Apart log_key rows
    → Apart log_key (rows ++ (row ∷ []))
Apart-append [] row h apart = (tt, tt)
Apart-append (first ∷ rows) row h apart = (
  Free-append first.id rows row (ne_of_lt first.id row.id h.0) apart.0,
  Apart-append rows row h.1 apart.1,
)

-- Recording keeps the ids apart.
pub record_audit-IsLog :
    (entry : Entry) (given : Option ℕ) (now : ℕ) (log : AuditLog)
    → IsLog log
    → IsLog (record_audit entry given now log).0
unfolding record_audit
record_audit-IsLog entry given now log (apart, below) = (
  Apart-append log.rows _ below apart,
  AllBelow-append (suc log.next_id) log.rows _ (omega arith)
      (AllBelow-suc log.next_id log.rows below),
)

-- A log after a sequence of entries, each with the time of its writing.
abbrev pub recorded : List (Entry × ℕ) → AuditLog → AuditLog
recorded [] log = log
recorded ((entry, now) ∷ entries) log = recorded entries (record_audit entry none now log).0

recorded-IsLog :
    (entries : List (Entry × ℕ)) (log : AuditLog) → IsLog log → IsLog (recorded entries log)
recorded-IsLog [] log h = h
recorded-IsLog ((entry, now) ∷ entries) log h =
    recorded-IsLog entries (record_audit entry none now log).0
      (record_audit-IsLog entry none now log h)

abbrev pub empty_log : AuditLog
empty_log = record { rows = []; next_id = 1 }

after_row-beyond :
    (after : Option Key) (row : LogRow) → after_row after row ≡ beyond after (log_key row)
after_row-beyond none row = refl
after_row-beyond (some k) row = refl

module _ (codes : Codes) (laws : CodesLaws codes) where
  own_cursor :
      (k : Key) (filter : String)
      → decode_audit_cursor codes
          (encode_audit_cursor codes k.0 k.1 (codes.sha1_prefix filter))
          (codes.sha1_prefix filter)
        ≡ decoded k
  own_cursor k filter =
      decode_audit_cursor-encode_audit_cursor codes laws k.0 k.1 filter (codes.sha1_prefix filter)
      ∙ (rw (eq_refl (codes.sha1_prefix filter)) refl)

  list_audit-Serves :
      (query : AuditQuery) (limit : ℕ) (log : AuditLog)
      → Serves log_key
          (λ k. encode_audit_cursor codes k.0 k.1 (audit_hash codes (resolve query)))
          (asked (resolve query))
          limit
          log.rows
          (λ after. list_audit codes query limit after log)
  unfolding list_audit audit_filter_hash
  list_audit-Serves query limit log none = refl
  list_audit-Serves query limit log (some k) = rw (own_cursor k _) refl

-- Of a log that began empty, and on which entries were recorded one after the other, following the
-- cursors of `list_audit` from the first page gives every row that the query asks for, once each,
-- newest first, as one statement without a limit would: for a page size of at least 1, and in no more
-- pages than one more than the rows recorded.
pub list_audit-walk :
    (codes : Codes)
    → CodesLaws codes
    → (query : AuditQuery) (limit : ℕ) (entries : List (Entry × ℕ)) → 1 ≤ limit
    → walk
        (λ after. list_audit codes query limit after (recorded entries empty_log))
        (suc (length (recorded entries empty_log).rows))
        none
      ≡ some (
          newest_first log_key
            (where_rows (asked (resolve query)) (recorded entries empty_log).rows))
list_audit-walk codes laws query limit entries positive =
    let log = recorded entries empty_log in
    walk_all log_key _ (asked (resolve query)) limit log.rows _
      (list_audit-Serves codes laws query limit log) (recorded-IsLog entries empty_log (tt, tt)).0
      positive (suc (length log.rows)) (omega arith)
