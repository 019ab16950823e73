-- ===== src/Service/Matrix/Identity.antt =====
-- The product with the matrix that M_OclGPRM_MAT_unit writes.
use native.Mathlib.Decide.{ℕ_discrete}
use ocl_gprm.Base.Grid.{index-lt}
use ocl_gprm.Base.{
  ℕ, zero, suc, ◌+◌, ◌*◌, ◌%◌, ◌^◌, ◌≤◌, ◌<◌, ◌≡◌, inl, inr, refl, ap, ◌∙◌, arith, ==_of_ne,
  ==_self, Memory, List,
}
use ocl_gprm.WorkItem.{WorkItem}
use ocl_gprm.Service.Matrix.{mat_unit}
use ocl_gprm.Service.Matrix.Unit.{unit_cell, mat_unit-IsUnit}
use ocl_gprm.Service.Matrix.Product.{inner_product, IsApart}
use ocl_gprm.Service.Matrix.Launch.{
  IsSplit, IsLaunch, square-le, matmult_all, matmult_all-IsProduct,
}

module _ (a b width : ℕ) (mem : Memory ℕ) (i j : ℕ) (hj : j < width)
    (unit : (k : ℕ) → k < width → mem (b + (k * width + j)) ≡ unit_cell k j) where
  -- Past the diagonal nothing is added.
  past_diagonal : (n k : ℕ) → k + n ≤ width → j < k → inner_product a b width mem i j n k ≡ 0
  unfolding inner_product
  past_diagonal zero k h lt = refl
  past_diagonal (suc n) k h lt =
      rw
        (
          unit k (omega arith),
          ==_of_ne k j (omega arith),
          past_diagonal n (k + 1) (omega arith) (omega arith),
        )
        (omega arith)

  to_diagonal :
      (n k : ℕ)
      → k + n ≤ width
      → k ≤ j
      → j < k + n
      → inner_product a b width mem i j n k ≡ mem (a + (i * width + j))
  unfolding inner_product
  to_diagonal zero k h le lt = absurd (omega arith)
  to_diagonal (suc n) k h le lt = elim (ℕ_discrete k j) [
    | yes e ↦
        rw (e, unit j hj, ==_self j, past_diagonal n (j + 1) (omega arith) (omega arith))
          (omega arith)
    | no ne ↦
        rw
          (
            unit k (omega arith),
            ==_of_ne k j ne,
            to_diagonal n (k + 1) (omega arith) (omega arith) (omega arith),
          )
          (omega arith)
  ]

-- For a width of at most 65536 that the number of groups and the number of threads of a group, both
-- at least one, divide, and three matrices that lie apart from one another: when M_OclGPRM_MAT_unit
-- has written the second operand and then every work-item of every group has run `matmultKernel`, in
-- any order, each cell of the result is that of the first operand, cut to 32 bits.
pub mat_unit-matmult_all :
    (a b c width groups threads wg_range th_range : ℕ) (mem : Memory ℕ) (ws : List WorkItem)
    → IsSplit width groups threads wg_range th_range
    → IsLaunch groups threads ws
    → IsApart c width a
    → IsApart c width b
    → IsApart b width a
    → (i j : ℕ) → i < width
    → j < width
    → matmult_all ws a b c width (mat_unit b width mem) (c + (i * width + j))
      ≡ mem (a + (i * width + j)) % 2 ^ 32
mat_unit-matmult_all a b c width groups threads wg_range th_range mem ws split launch apart_a
      apart_b apart i j hi hj =
    let small = square-le width split.small in
    let m = mat_unit b width mem in
    let (outside, cells) = mat_unit-IsUnit b width small mem in
    let product =
      matmult_all-IsProduct a b c width groups threads wg_range th_range split apart_a apart_b m ws
        launch in
    let inside = index-lt width i j hi hj in
    let operand : m (a + (i * width + j)) ≡ mem (a + (i * width + j)) =
      outside (a + (i * width + j))
        (elim apart [ inl p ↦ inl (omega arith) | inr p ↦ inr (omega arith) ]) in
    product.cells i j hi hj
    ∙ ap (λ s. s % 2 ^ 32)
        (to_diagonal a b width m i j hj (λ k hk. cells k j hk hj) width 0 (omega arith)
            (omega arith) (omega arith)
          ∙ operand)
