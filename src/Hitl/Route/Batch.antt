-- ===== src/Hitl/Route/Batch.antt =====
-- The batch endpoint reports on every id, and answers none twice.
use gg_proxy.Base.{
  ℕ, suc, ◌+◌, ◌≤◌, ◌≡◌, refl, ap, ◌∙◌, inl, inr, true, false, ◌&&◌, String, Option, List, [], ◌∷◌,
  map, arith, ◌==◌, if◌then◌else◌, length, Bool-cases,
}
use gg_proxy.Hitl.Table.{Decision}
use gg_proxy.Hitl.{resolve, Result-cases}
use gg_proxy.Hitl.Decisions.{Holds, after, after-resolve-Holds, resolve-Holds}
use gg_proxy.Hitl.Route.{
  to_decision, BatchRequest, Desk, ItemStatus, is_ok, batch_item, batch_items, count_ok,
  count_errors, batch_hitl,
}

map-batch_items :
    (b : BatchRequest) (size now : ℕ) (ids : List ℕ) (s : Desk)
    → map (λ item. item.0) (batch_items b size now ids s).0 ≡ ids
unfolding batch_items
map-batch_items b size now [] s = refl
map-batch_items b size now (hid ∷ ids) s =
    ap (◌∷◌ hid) (map-batch_items b size now ids (batch_item b size now hid s).1)

count-length : (items : List (ℕ × ItemStatus)) → count_ok items + count_errors items ≡ length items
unfolding count_ok count_errors
count-length [] = omega arith
count-length ((hid, status) ∷ items) = ground (arith, count-length items)

length-batch_items :
    (b : BatchRequest) (size now : ℕ) (ids : List ℕ) (s : Desk)
    → length (batch_items b size now ids s).0 ≡ length ids
unfolding batch_items
length-batch_items b size now [] s = refl
length-batch_items b size now (hid ∷ ids) s =
    ap suc (length-batch_items b size now ids (batch_item b size now hid s).1)

-- The response has one item for each id of the batch, in the batch's order, and its two counts add up
-- to the size of the batch, whatever fails on the way.
pub batch_covers :
    (b : BatchRequest) (now : ℕ) (s : Desk)
    → let r = (batch_hitl b now s).0 in
      (map (λ item. item.0) r.items ≡ b.ids) × (r.ok_count + r.error_count ≡ length b.ids)
unfolding batch_hitl
batch_covers b now s = (
  map-batch_items b (length b.ids) now b.ids s,
  count-length (batch_items b (length b.ids) now b.ids s).0
      ∙ length-batch_items b (length b.ids) now b.ids s,
)

abbrev Answer : Type 0
Answer = Decision × Option String

-- One turn changes the coordinator by its `resolve` alone.
batch_item-coordinator :
    (b : BatchRequest) (size now hid : ℕ) (s : Desk)
    → (batch_item b size now hid s).1.coordinator
      ≡ after s.coordinator (resolve hid (to_decision b.action) b.reason s.table s.coordinator)
unfolding batch_item
batch_item-coordinator b size now hid s = ground arith

batch_item-Holds :
    (b : BatchRequest) (size now hid id : ℕ) (answer : Answer) (s : Desk)
    → Holds id answer s.coordinator
    → Holds id answer (batch_item b size now hid s).1.coordinator
batch_item-Holds b size now hid id answer s h =
    rw (batch_item-coordinator b size now hid s)
      (after-resolve-Holds id answer hid (to_decision b.action) b.reason s.table s.coordinator h)

batch_item_refused :
    (b : BatchRequest) (size now id : ℕ) (answer : Answer) (s : Desk)
    → Holds id answer s.coordinator
    → is_ok (batch_item b size now id s).0 ≡ false
unfolding batch_item resolve
batch_item_refused b size now id answer s (e, h, f) = ground arith

batch_item_answers :
    (b : BatchRequest) (size now id : ℕ) (s : Desk)
    → is_ok (batch_item b size now id s).0 ≡ true
    → Holds id (to_decision b.action, b.reason) (batch_item b size now id s).1.coordinator
unfolding batch_item
batch_item_answers b size now id s h =
    elim (Result-cases (resolve id (to_decision b.action) b.reason s.table s.coordinator)) [
      | inl (e, failed) ↦ absurd (ground arith)
      | inr (c, went) ↦
          rw (batch_item-coordinator b size now id s) (
            rw went (resolve-Holds id (to_decision b.action) b.reason s.table s.coordinator c went))
    ]

-- How often an id is reported as answered.
abbrev pub count_ok_of : ℕ → List (ℕ × ItemStatus) → ℕ
count_ok_of id [] = 0
count_ok_of id ((hid, status) ∷ items) =
    let n = count_ok_of id items in if hid == id && is_ok status then suc n else n

none_more :
    (b : BatchRequest) (size now id : ℕ) (answer : Answer) (ids : List ℕ) (s : Desk)
    → Holds id answer s.coordinator
    → count_ok_of id (batch_items b size now ids s).0 ≡ 0
unfolding batch_items
none_more b size now id answer [] s h = refl
none_more b size now id answer (hid ∷ ids) s h = ground (
  arith,
  batch_item_refused b size now id answer s h,
  none_more b size now id answer ids (batch_item b size now hid s).1
      (batch_item-Holds b size now hid id answer s h),
)

once :
    (b : BatchRequest) (size now id : ℕ) (ids : List ℕ) (s : Desk)
    → count_ok_of id (batch_items b size now ids s).0 ≤ 1
unfolding batch_items
once b size now id [] s = omega arith
once b size now id (hid ∷ ids) s = elim (Bool-cases (is_ok (batch_item b size now hid s).0)) [
  | inl answered ↦ ground (
    arith,
    once b size now id ids (batch_item b size now hid s).1,
    none_more b size now hid (to_decision b.action, b.reason) ids (batch_item b size now hid s).1
        (batch_item_answers b size now hid s answered),
  )
  | inr refused ↦ ground (arith, once b size now id ids (batch_item b size now hid s).1)
]

-- An id that the batch names several times is answered once at most: no later item for it is `ok`.
pub batch_answers_once :
    (b : BatchRequest) (now id : ℕ) (s : Desk) → count_ok_of id (batch_hitl b now s).0.items ≤ 1
unfolding batch_hitl
batch_answers_once b now id s = once b (length b.ids) now id b.ids s
