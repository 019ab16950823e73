-- ===== src/Queue/Transfer/Complete.antt =====
-- `computation_complete` finds out whether any packet is left.
use native.Mathlib.Decide.{ℕ_discrete}
use ocl_gprm.Base.{ℕ, zero, suc, ◌+◌, ◌≤◌, ◌<◌, ◌≡◌, ◌↔◌, refl, sym, arith, Bool, true, Memory}
use ocl_gprm.Packet.{Packet}
use ocl_gprm.Queue.{q_is_empty}
use ocl_gprm.Queue.Transfer.{row_complete, rows_complete, computation_complete}

module _ (q rq : Memory Packet) (n : ℕ) where
  abbrev BothEmpty : ℕ → ℕ → Type 0
  BothEmpty i j = (q_is_empty i j q n ≡ true) × (q_is_empty i j rq n ≡ true)

  row_complete-elim :
      (left i j : ℕ) (c : Bool)
      → row_complete left i j q rq n c ≡ true
      → (c ≡ true) × ((k : ℕ) → j ≤ k → k < j + left → BothEmpty i k)
  unfolding row_complete
  row_complete-elim zero i j c h = (h, λ k p r. absurd (omega arith))
  row_complete-elim (suc left) i j c h =
      let (now, later) = row_complete-elim left i (j + 1) _ h in
      (
        ground arith,
        λ k p r. elim (ℕ_discrete j k) [
          | yes e ↦ rw (sym e) (ground arith)
          | no e ↦ later k (omega arith) (omega arith)
        ],
      )

  row_complete-intro :
      (left i j : ℕ) (c : Bool)
      → c ≡ true
      → ((k : ℕ) → j ≤ k → k < j + left → BothEmpty i k)
      → row_complete left i j q rq n c ≡ true
  unfolding row_complete
  row_complete-intro zero i j c h all = h
  row_complete-intro (suc left) i j c h all =
      let here = all j (omega arith) (omega arith) in
      row_complete-intro left i (j + 1) _ (ground arith)
        (λ k p r. all k (omega arith) (omega arith))

  rows_complete-elim :
      (left i : ℕ) (c : Bool)
      → rows_complete left i q rq n c ≡ true
      → (c ≡ true) × ((k j : ℕ) → i ≤ k → k < i + left → j < n → BothEmpty k j)
  unfolding rows_complete
  rows_complete-elim zero i c h = (h, λ k j p r s. absurd (omega arith))
  rows_complete-elim (suc left) i c h =
      let (now, later) = rows_complete-elim left (i + 1) _ h in
      let (before, row) = row_complete-elim n i 0 c now in
      (
        before,
        λ k j p r s. elim (ℕ_discrete i k) [
          | yes e ↦ rw (sym e) (row j (omega arith) (omega arith))
          | no e ↦ later k j (omega arith) (omega arith) s
        ],
      )

  rows_complete-intro :
      (left i : ℕ) (c : Bool)
      → c ≡ true
      → ((k j : ℕ) → i ≤ k → k < i + left → j < n → BothEmpty k j)
      → rows_complete left i q rq n c ≡ true
  unfolding rows_complete
  rows_complete-intro zero i c h all = h
  rows_complete-intro (suc left) i c h all =
      rows_complete-intro left (i + 1) _
        (row_complete-intro n i 0 c h (λ j p r. all i j (omega arith) (omega arith) (omega arith)))
        (λ k j p r s. all k j (omega arith) (omega arith) s)

  -- The computation counts as complete exactly when no queue of either buffer has a packet.
  pub computation_complete_iff :
      (computation_complete q rq n ≡ true)
      ↔ ((i j : ℕ) → i < n → j < n → (q_is_empty i j q n ≡ true) × (q_is_empty i j rq n ≡ true))
  unfolding computation_complete
  computation_complete_iff = (
    λ h i j hi hj. (rows_complete-elim n 0 true h).1 i j (omega arith) (omega arith) hj,
    λ all. rows_complete-intro n 0 true refl (λ i j p r s. all i j (omega arith) s),
  )
