-- ===== src/Service/Matrix/Unit.antt =====
-- M_OclGPRM_MAT_unit writes the unit matrix.
use ocl_gprm.Base.Grid.{index-lt}
use ocl_gprm.Base.{
  ℕ, zero, suc, ◌+◌, ◌*◌, ◌^◌, ◌≤◌, ◌<◌, ◌≡◌, ◌⊎◌, refl, arith, ◌==◌, if◌then◌else◌, u32, Memory,
  store,
}
use ocl_gprm.Service.Matrix.{unit_cols, unit_rows, mat_unit}
use ocl_gprm.Service.Matrix.Cells.{Segment, Segment-refl, Segment-trans, store-Segment}

abbrev pub unit_cell : ℕ → ℕ → ℕ
unit_cell i j = if i == j then 1 else 0

module _ (at n : ℕ) (small : n * n ≤ 2 ^ 32) where
  unit_cols-Segment :
      (left i j : ℕ) (m : Memory ℕ)
      → i < n
      → j + left ≡ n
      → Segment at n unit_cell (i * n + j) (i * n + n) m (unit_cols at n left i j m)
  unfolding unit_cols
  unit_cols-Segment zero i j m hi e = Segment-refl at n unit_cell _ _ m (omega arith)
  unit_cols-Segment (suc left) i j m hi e =
      let index : u32 (i * n + j) ≡ i * n + j = omega (arith, index-lt n i j hi (omega arith)) in
      let cell : ℕ = if i == j then 1 else 0 in
      rw (index) (
        Segment-trans at n unit_cell (i * n + j) (i * n + n)
          (store-Segment at n unit_cell i j cell m (omega arith) refl)
          (unit_cols-Segment left i (j + 1) (store m (at + (i * n + j)) cell) hi (omega arith)) refl
          (omega arith) (omega arith) (omega arith) refl)

  unit_rows-Segment :
      (left i : ℕ) (m : Memory ℕ)
      → i + left ≡ n
      → Segment at n unit_cell (i * n) (n * n) m (unit_rows at n left i m)
  unfolding unit_rows
  unit_rows-Segment zero i m e = Segment-refl at n unit_cell _ _ m (grind arith)
  unit_rows-Segment (suc left) i m e =
      Segment-trans at n unit_cell (i * n) (n * n)
        (unit_cols-Segment n i 0 m (omega arith) (omega arith))
        (unit_rows-Segment left (i + 1) (unit_cols at n n i 0 m) (omega arith)) (omega arith)
        (omega arith) (grind arith) (grind arith) refl

  -- For a width whose square is at most 2 ^ 32, the service writes the unit matrix, and no other word.
  pub mat_unit-IsUnit :
      (mem : Memory ℕ)
      → ((k : ℕ) → (k < at) ⊎ (at + n * n ≤ k) → mat_unit at n mem k ≡ mem k)
        × ((i j : ℕ) → i < n → j < n → mat_unit at n mem (at + (i * n + j)) ≡ unit_cell i j)
  unfolding mat_unit
  mat_unit-IsUnit mem =
      let s = unit_rows-Segment n 0 mem (omega arith) in
      (
        λ k h. s.outside k (ground arith),
        λ i j hi hj. s.cells i j hj (omega arith) (index-lt n i j hi hj),
      )
