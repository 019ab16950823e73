-- ===== src/Service/Matrix.antt =====
-- The matrix services of `service_compute`, and `matmultKernel`. A matrix of `n` rows of `n` words
-- begins at an index of the data buffer.
pub mod Launch
pub mod Product
pub mod Cells
pub mod Unit
pub mod Sum
pub mod Identity
use ocl_gprm.Base.{ℕ, zero, suc, ◌+◌, ◌-◌, ◌*◌, ◌/◌, ◌==◌, if◌then◌else◌, u32, Memory, store}
use ocl_gprm.WorkItem.{WorkItem}

module _ (m1 m2 result n : ℕ) where
  -- The inner loop of M_OclGPRM_MAT_add, from column `col` of `row` on.
  unfoldable pub add_cols : ℕ → ℕ → ℕ → Memory ℕ → Memory ℕ
  add_cols zero row col mem = mem
  add_cols (suc left) row col mem =
      let i = u32 (row * n + col) in
      let sum = u32 (mem (m1 + i) + mem (m2 + i)) in
      add_cols left row (col + 1) (store mem (result + i) sum)

  unfoldable pub add_rows : ℕ → ℕ → Memory ℕ → Memory ℕ
  add_rows zero row mem = mem
  add_rows (suc left) row mem = add_rows left (row + 1) (add_cols n row 0 mem)

  -- M_OclGPRM_MAT_add
  unfoldable pub mat_add : Memory ℕ → Memory ℕ
  mat_add mem = add_rows n 0 mem

module _ (m n : ℕ) where
  unfoldable pub unit_cols : ℕ → ℕ → ℕ → Memory ℕ → Memory ℕ
  unit_cols zero i j mem = mem
  unit_cols (suc left) i j mem =
      unit_cols left i (j + 1) (store mem (m + u32 (i * n + j)) (if i == j then 1 else 0))

  unfoldable pub unit_rows : ℕ → ℕ → Memory ℕ → Memory ℕ
  unit_rows zero i mem = mem
  unit_rows (suc left) i mem = unit_rows left (i + 1) (unit_cols n i 0 mem)

  -- M_OclGPRM_MAT_unit
  unfoldable pub mat_unit : Memory ℕ → Memory ℕ
  mat_unit mem = unit_rows n 0 mem

module _ (a b c width : ℕ) where
  -- `elt += mB[jj+mWidth*k]*mA[k+ii*mWidth]`, for the `left` last values of `k`
  unfoldable pub dot : ℕ → ℕ → ℕ → ℕ → ℕ → Memory ℕ → ℕ
  dot zero ii jj k elt mem = elt
  dot (suc left) ii jj k elt mem =
      dot left ii jj (k + 1)
        (u32 (elt + mem (b + u32 (jj + width * k)) * mem (a + u32 (k + ii * width)))) mem

  unfoldable pub mult_cells : ℕ → ℕ → ℕ → Memory ℕ → Memory ℕ
  mult_cells zero ii jj mem = mem
  mult_cells (suc left) ii jj mem =
      mult_cells left (ii + 1) jj (store mem (c + u32 (ii * width + jj)) (dot width ii jj 0 0 mem))

  unfoldable pub mult_columns : ℕ → ℕ → ℕ → ℕ → Memory ℕ → Memory ℕ
  mult_columns zero rows first jj mem = mem
  mult_columns (suc left) rows first jj mem =
      mult_columns left rows first (jj + 1) (mult_cells rows first jj mem)

-- `matmultKernel`: the work-item's share of the rows, in its group's share of the columns.
unfoldable pub matmult_kernel : WorkItem → ℕ → ℕ → ℕ → ℕ → Memory ℕ → Memory ℕ
matmult_kernel w a b c width mem =
    let wg_range = width / w.num_groups in
    let th_range = width / w.local_size in
    let from = u32 (w.group_id * wg_range) in
    let to = u32 ((w.group_id + 1) * wg_range) in
    let first = u32 (w.local_id * th_range) in
    let last = u32 ((w.local_id + 1) * th_range) in
    mult_columns a b c width (to - from) (last - first) first from mem
