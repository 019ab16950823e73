-- ===== src/Service/Matrix/Sum.antt =====
-- M_OclGPRM_MAT_add writes the sum of two matrices.
use native.Mathlib.Decide.{dec_lt}
use ocl_gprm.Base.Grid.{index-lt}
use ocl_gprm.Base.{
  ℕ, zero, suc, ◌+◌, ◌*◌, ◌%◌, ◌^◌, ◌≤◌, ◌<◌, ◌≡◌, ◌⊎◌, inl, inr, refl, ◌∙◌, arith, u32, Memory,
  store,
}
use ocl_gprm.Service.Matrix.{add_cols, add_rows, mat_add}
use ocl_gprm.Service.Matrix.Cells.{Segment, Segment-refl, Segment-trans, store-Segment}

-- The sum goes into the operand's own cells, or apart from them.
abbrev pub IsInPlace : ℕ → ℕ → ℕ → Type 0
IsInPlace result n from = (from ≡ result) ⊎ ((from + n * n ≤ result) ⊎ (result + n * n ≤ from))

module _ (m1 m2 result n : ℕ) (small : n * n ≤ 2 ^ 32) (place_1 : IsInPlace result n m1)
    (place_2 : IsInPlace result n m2) (mem : Memory ℕ) where
  abbrev sum_cell : ℕ → ℕ → ℕ
  sum_cell i j = (mem (m1 + (i * n + j)) + mem (m2 + (i * n + j))) % 2 ^ 32

  -- The cells of the operands from `t` on are as they were at first.
  abbrev Rest : ℕ → Memory ℕ → Type 0
  Rest t m = (k : ℕ) → t ≤ k → k < n * n → (m (m1 + k) ≡ mem (m1 + k)) × (m (m2 + k) ≡ mem (m2 + k))

  behind :
      (from to at k : ℕ)
      → IsInPlace result n at
      → to ≤ n * n
      → to ≤ k
      → k < n * n
      → (at + k < result + from) ⊎ (result + to ≤ at + k)
  behind from to at k (inl e) h p q = inr (omega arith)
  behind from to at k (inr (inl before)) h p q = elim (dec_lt (at + k) (result + from)) [
    | yes lt ↦ inl lt
    | no ge ↦ inr (omega arith)
  ]
  behind from to at k (inr (inr after)) h p q = inr (omega arith)

  Segment-Rest :
      (from to : ℕ) {m m' : Memory ℕ}
      → Segment result n sum_cell from to m m'
      → Rest from m
      → from ≤ to
      → to ≤ n * n
      → Rest to m'
  Segment-Rest from to s rest le h k p q = (
    s.outside (m1 + k) (behind from to m1 k place_1 h p q) ∙ (rest k (omega arith) q).0,
    s.outside (m2 + k) (behind from to m2 k place_2 h p q) ∙ (rest k (omega arith) q).1,
  )

  add_cols-Segment :
      (left row col : ℕ) (m : Memory ℕ)
      → row < n
      → col + left ≡ n
      → Rest (row * n + col) m
      → Segment result n sum_cell
          (row * n + col)
          (row * n + n)
          m
          (add_cols m1 m2 result n left row col m)
  unfolding add_cols
  add_cols-Segment zero row col m hi e rest = Segment-refl result n sum_cell _ _ m (omega arith)
  add_cols-Segment (suc left) row col m hi e rest =
      let inside = index-lt n row col hi (omega arith) in
      let index : u32 (row * n + col) ≡ row * n + col = omega (arith, inside) in
      let here = rest (row * n + col) (omega arith) inside in
      let cell = u32 (m (m1 + (row * n + col)) + m (m2 + (row * n + col))) in
      let same : cell ≡ sum_cell row col = rw (here.0, here.1) refl in
      let first = store-Segment result n sum_cell row col cell m (omega arith) same in
      let later =
        Segment-Rest (row * n + col) (row * n + col + 1) first rest (omega arith) (omega arith) in
      rw (index) (
        Segment-trans result n sum_cell (row * n + col) (row * n + n) first
          (add_cols-Segment left row (col + 1) (store m (result + (row * n + col)) cell) hi
            (omega arith) (λ k p q. later k (omega arith) q))
          refl (omega arith) (omega arith) (omega arith) refl)

  add_rows-Segment :
      (left row : ℕ) (m : Memory ℕ)
      → row + left ≡ n
      → Rest (row * n) m
      → Segment result n sum_cell (row * n) (n * n) m (add_rows m1 m2 result n left row m)
  unfolding add_rows
  add_rows-Segment zero row m e rest = Segment-refl result n sum_cell _ _ m (grind arith)
  add_rows-Segment (suc left) row m e rest =
      let next : row * n + n ≡ (row + 1) * n = grind arith in
      let within : (row + 1) * n ≤ n * n = grind arith in
      let first =
        add_cols-Segment n row 0 m (omega arith) (omega arith) (λ k p q. rest k (omega arith) q) in
      let later =
        Segment-Rest (row * n + 0) (row * n + n) first (λ k p q. rest k (omega arith) q)
          (omega arith) (omega arith) in
      Segment-trans result n sum_cell (row * n) (n * n) first
        (add_rows-Segment left (row + 1) (add_cols m1 m2 result n n row 0 m) (omega arith)
          (λ k p q. later k (omega arith) q))
        (omega arith) (omega arith) next within refl

  -- For a width whose square is at most 2 ^ 32, and operands each of which is where the result goes
  -- or lies apart from it, M_OclGPRM_MAT_add leaves in each cell of the result the sum of the
  -- operands' cells, cut to 32 bits, and changes no word outside the result.
  pub mat_add-IsSum :
      ((k : ℕ) → (k < result) ⊎ (result + n * n ≤ k) → mat_add m1 m2 result n mem k ≡ mem k)
      × ((i j : ℕ)
          → i < n
          → j < n
          → mat_add m1 m2 result n mem (result + (i * n + j))
            ≡ (mem (m1 + (i * n + j)) + mem (m2 + (i * n + j))) % 2 ^ 32)
  unfolding mat_add
  mat_add-IsSum =
      let s = add_rows-Segment n 0 mem (omega arith) (λ k p q. (refl, refl)) in
      (
        λ k h. s.outside k (ground arith),
        λ i j hi hj. s.cells i j hj (omega arith) (index-lt n i j hi hj),
      )
