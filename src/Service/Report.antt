-- ===== src/Service/Report.antt =====
-- `report` for EX = 5: where each work-item writes, in the buffer that `populateData` lays out.
use ocl_gprm.Base.Grid.{index-ne}
use ocl_gprm.Base.{
  ℕ, zero, suc, ◌+◌, ◌*◌, ◌^◌, ◌≤◌, ◌<◌, ◌≡◌, ◌≢◌, ◌⊎◌, inl, inr, refl, sym, ◌∙◌, arith, u32,
  Memory, store, store_ne,
}
use mathlib.Core.Path.{subst}
use native.Mathlib.Decide.{dec_lt}
use ocl_gprm.WorkItem.{WorkItem}
use ocl_gprm.Service.{report}
use ocl_gprm.Host.UserData.{clear_reports, populate_reports}

-- The number of a work-item's part of the reports.
abbrev pub part : WorkItem → ℕ → ℕ
part w idx = idx * w.nth + w.local_id

-- Four words from `at` on hold a work-item's report, and all others are as they were.
pub record IsReported (w : WorkItem) (idx at : ℕ) (mem mem' : Memory ℕ) : Type 0 where
  pub outside : (k : ℕ) → (k < at) ⊎ (at + 4 ≤ k) → mem' k ≡ mem k
  pub global_id : mem' at ≡ u32 w.global_id
  pub local_id : mem' (at + 1) ≡ u32 w.local_id
  pub group_id : mem' (at + 2) ≡ u32 w.group_id
  pub number : mem' (at + 3) ≡ u32 idx

pub part-lt : (n nth idx i : ℕ) → idx < n → i < nth → idx * nth + i < n * nth
part-lt n nth idx i p q = grind arith

abbrev four : ℕ → WorkItem → ℕ → Memory ℕ → Memory ℕ
four at w idx mem =
    let d1 = store mem at (u32 w.global_id) in
    let d2 = store d1 (at + 1) (u32 w.local_id) in
    let d3 = store d2 (at + 2) (u32 w.group_id) in store d3 (at + 3) (u32 idx)

four-IsReported :
    (w : WorkItem) (idx at : ℕ) (mem : Memory ℕ) → IsReported w idx at mem (four at w idx mem)
unfolding store
four-IsReported w idx at mem = record {
  outside = λ k h. ground arith;
  global_id = ground arith;
  local_id = ground arith;
  group_id = ground arith;
  number = ground arith;
}

pub part-IsReported :
    (w : WorkItem) (idx res at : ℕ) (mem : Memory ℕ)
    → 4 * w.nth * idx + 4 * w.local_id ≡ at
    → at + 4 ≤ 2 ^ 32
    → IsReported w idx (res + at) mem (report w mem res idx)
unfolding report
part-IsReported w idx res at mem e small =
    let cut : u32 (4 * w.nth * idx) ≡ 4 * w.nth * idx = omega arith in
    let written : report w mem res idx ≡ four (res + at) w idx mem = rw (cut, e, report) refl in
    subst (IsReported w idx (res + at) mem) (sym written) (four-IsReported w idx (res + at) mem)

clear_reports-below :
    (left first ii : ℕ) (mem : Memory ℕ) (j : ℕ)
    → j < first
    → clear_reports left first ii mem j ≡ mem j
unfolding clear_reports
clear_reports-below zero first ii mem j h = refl
clear_reports-below (suc left) first ii mem j h =
    clear_reports-below left first (ii + 4) _ j h
    ∙ store_ne _ (first + ii + 3) j 0 (omega arith)
    ∙ store_ne _ (first + ii + 2) j 0 (omega arith)
    ∙ store_ne _ (first + ii + 1) j 0 (omega arith)
    ∙ store_ne _ (first + ii) j 0 (omega arith)

pub populate_reports-first :
    (n nth : ℕ) (fresh : Memory ℕ)
    → 513 + n * nth * 4 < 2 ^ 32
    → ((populate_reports n nth fresh).1 1 ≡ 512)
      × ((populate_reports n nth fresh).0 ≡ 513 + n * nth * 4)
unfolding populate_reports store
populate_reports-first n nth fresh fits =
    (clear_reports-below (n * nth) _ 0 _ 1 (omega arith), omega arith)

-- For EX = 5, where the data buffer's size fits 32 bits, and two different work-items of `n`
-- services with NTH threads each, by number or by thread: `report` of the first writes its four
-- identifiers to four words of its own, all at 512 or above and inside the buffer that
-- `populateData` has allocated, and changes no other word; and `report` of the second changes none
-- of these.
pub report-bounds :
    (n idx idx' : ℕ) (w w' : WorkItem) (fresh mem : Memory ℕ)
    → 513 + n * w.nth * 4 < 2 ^ 32
    → idx < n
    → idx' < n
    → w.local_id < w.nth
    → w'.local_id < w.nth
    → w'.nth ≡ w.nth
    → (idx ≢ idx') ⊎ (w.local_id ≢ w'.local_id)
    → let (size, data_p) = populate_reports n w.nth fresh in
      let at = data_p 1 + 4 * part w idx in
      (512 ≤ at)
      × (at + 4 < size)
      × IsReported w idx at mem (report w mem (data_p 1) idx)
      × ((k : ℕ) → at ≤ k → k < at + 4 → report w' mem (data_p 1) idx' k ≡ mem k)
report-bounds n idx idx' w w' fresh mem fits hi hi' hl hl' e ne =
    let (first, size) = populate_reports-first n w.nth fresh fits in
    let inside = part-lt n w.nth idx w.local_id hi hl in
    let inside' = part-lt n w.nth idx' w'.local_id hi' hl' in
    let apart = index-ne w.nth idx w.local_id idx' w'.local_id hl hl' ne in
    let here : 4 * w.nth * idx + 4 * w.local_id ≡ 4 * (idx * w.nth + w.local_id) = grind arith in
    let there : 4 * w'.nth * idx' + 4 * w'.local_id ≡ 4 * (idx' * w.nth + w'.local_id) =
      rw (e) (grind arith) in
    rw (first, size)
      (
        omega arith,
        omega arith,
        part-IsReported w idx 512 _ mem here (omega arith),
        λ k p q.
            (part-IsReported w' idx' 512 _ mem there (omega arith)).outside k
              (in_parts k apart p q),
      )
  where
    in_parts :
        (k : ℕ) {x y : ℕ}
        → x ≢ y
        → 512 + 4 * x ≤ k
        → k < 512 + 4 * x + 4
        → (k < 512 + 4 * y) ⊎ (512 + 4 * y + 4 ≤ k)
    in_parts k {x} {y} ne p q = elim (dec_lt x y) [
      | yes h ↦ inl (omega arith)
      | no h ↦ inr (omega arith)
    ]
