-- ===== src/Host/Check/Laws.antt =====
-- The host computes the reference product right.
use ocl_gprm.Base.Grid.{index-lt}
use ocl_gprm.Base.{
  ℕ, zero, suc, ◌+◌, ◌*◌, ◌%◌, ◌^◌, ◌≤◌, ◌<◌, ◌≡◌, refl, ap, ◌∙◌, arith, u32, Memory, store_self,
  store_ne,
}
use native.Mathlib.Decide.{ℕ_discrete}
use ocl_gprm.Service.Matrix.Product.{inner_product, product_cell}
use ocl_gprm.Host.Check.{cache_row, ref_element, ref_row, ref_rows, reference_product}

module _ (width : ℕ) (data_p : Memory ℕ) where
  cache_row-below :
      (left a0 i j : ℕ) (row : Memory ℕ) (k : ℕ)
      → k < j
      → cache_row width data_p left a0 i j row k ≡ row k
  unfolding cache_row
  cache_row-below zero a0 i j row k h = refl
  cache_row-below (suc left) a0 i j row k h =
      cache_row-below left a0 i (j + 1) _ k (omega arith) ∙ store_ne row j k _ (omega arith)

  cache_row-inside :
      (left a0 i j : ℕ) (row : Memory ℕ) (k : ℕ)
      → j ≤ k
      → k < j + left
      → cache_row width data_p left a0 i j row k ≡ data_p (u32 (a0 + i * width + k))
  unfolding cache_row
  cache_row-inside zero a0 i j row k p q = absurd (omega arith)
  cache_row-inside (suc left) a0 i j row k p q = elim (ℕ_discrete k j) [
    | yes e ↦ rw (e) (cache_row-below left a0 i (j + 1) _ j (omega arith) ∙ store_self row j _)
    | no ne ↦ cache_row-inside left a0 i (j + 1) _ k (omega arith) (omega arith)
  ]

  module _ (a0 b0 : ℕ) (fits_a : a0 + width * width ≤ 2 ^ 32)
      (fits_b : b0 + width * width ≤ 2 ^ 32) where
    ref_element-inner :
        (left i j k x : ℕ) (row : Memory ℕ)
        → i < width
        → j < width
        → k + left ≤ width
        → ((t : ℕ) → t < width → row t ≡ data_p (a0 + (i * width + t)))
        → ref_element width data_p left b0 row j k (x % 2 ^ 32)
          ≡ (x + inner_product a0 b0 width data_p i j left k) % 2 ^ 32
    unfolding ref_element inner_product
    ref_element-inner zero i j k x row hi hj h cached = omega arith
    ref_element-inner (suc left) i j k x row hi hj h cached =
        let column : u32 (b0 + k * width + j) ≡ b0 + (k * width + j) =
          omega (arith, index-lt width k j (omega arith) hj) in
        let term = data_p (a0 + (i * width + k)) * data_p (b0 + (k * width + j)) in
        rw (column, cached k (omega arith))
          (ap (λ e. ref_element width data_p left b0 row j (k + 1) e) {y = (x + term) % 2 ^ 32}
              (omega arith)
            ∙ ref_element-inner left i j (k + 1) (x + term) row hi hj (omega arith) cached
            ∙ omega arith)

    cached-row :
        (i : ℕ) (row : Memory ℕ)
        → i < width
        → (t : ℕ) → t < width
        → cache_row width data_p width a0 i 0 row t ≡ data_p (a0 + (i * width + t))
    cached-row i row hi t ht =
        cache_row-inside width a0 i 0 row t (omega arith) (omega arith)
        ∙ ap data_p (omega (arith, index-lt width i t hi ht))

    ref_cell :
        (i j : ℕ) (row : Memory ℕ)
        → i < width
        → j < width
        → ((t : ℕ) → t < width → row t ≡ data_p (a0 + (i * width + t)))
        → ref_element width data_p width b0 row j 0 0 ≡ product_cell a0 b0 width data_p i j
    ref_cell i j row hi hj cached =
        ref_element-inner width i j 0 0 row hi hj (omega arith) cached
        ∙ ap (λ s. s % 2 ^ 32) {y = inner_product a0 b0 width data_p i j width 0} (omega arith)

    ref_row-below :
        (left i j : ℕ) (row m : Memory ℕ) (x : ℕ)
        → i < width
        → j + left ≤ width
        → x < i * width + j
        → ref_row width data_p left b0 row i j m x ≡ m x
    unfolding ref_row
    ref_row-below zero i j row m x hi h p = refl
    ref_row-below (suc left) i j row m x hi h p =
        ref_row-below left i (j + 1) row _ x hi (omega arith) (omega arith)
        ∙ store_ne m (u32 (i * width + j)) x _ (omega (arith, index-lt width i j hi (omega arith)))

    ref_row-inside :
        (left i j : ℕ) (row m : Memory ℕ) (j' : ℕ)
        → i < width
        → j + left ≤ width
        → ((t : ℕ) → t < width → row t ≡ data_p (a0 + (i * width + t)))
        → j ≤ j'
        → j' < j + left
        → ref_row width data_p left b0 row i j m (i * width + j')
          ≡ product_cell a0 b0 width data_p i j'
    unfolding ref_row
    ref_row-inside zero i j row m j' hi h cached p q = absurd (omega arith)
    ref_row-inside (suc left) i j row m j' hi h cached p q = elim (ℕ_discrete j' j) [
      | yes e ↦
          let index : u32 (i * width + j) ≡ i * width + j =
            omega (arith, index-lt width i j hi (omega arith)) in
          rw (e, index)
            (ref_row-below left i (j + 1) row _ (i * width + j) hi (omega arith) (omega arith)
              ∙ store_self m (i * width + j) _
              ∙ ref_cell i j row hi (omega arith) cached)
      | no ne ↦
          ref_row-inside left i (j + 1) row _ j' hi (omega arith) cached (omega arith) (omega arith)
    ]

    ref_rows-below :
        (left i : ℕ) (row m : Memory ℕ) (x : ℕ)
        → i + left ≤ width
        → x < i * width
        → ref_rows width data_p left a0 b0 i row m x ≡ m x
    unfolding ref_rows
    ref_rows-below zero i row m x h p = refl
    ref_rows-below (suc left) i row m x h p =
        let next : (i + 1) * width ≡ i * width + width = grind arith in
        ref_rows-below left (i + 1) _ _ x (omega arith) (omega arith)
        ∙ ref_row-below width i 0 _ m x (omega arith) (omega arith) (omega arith)

    ref_rows-inside :
        (left i : ℕ) (row m : Memory ℕ) (i' j' : ℕ)
        → i + left ≤ width
        → i ≤ i'
        → i' < i + left
        → j' < width
        → ref_rows width data_p left a0 b0 i row m (i' * width + j')
          ≡ product_cell a0 b0 width data_p i' j'
    unfolding ref_rows
    ref_rows-inside zero i row m i' j' h p q hj = absurd (omega arith)
    ref_rows-inside (suc left) i row m i' j' h p q hj = elim (ℕ_discrete i' i) [
      | yes e ↦
          let next : (i + 1) * width ≡ i * width + width = grind arith in
          rw (e) (
            ref_rows-below left (i + 1) _ _ (i * width + j') (omega arith) (omega arith)
            ∙ ref_row-inside width i 0 _ m j' (omega arith) (omega arith)
                (cached-row i row (omega arith)) (omega arith) (omega arith))
      | no ne ↦ ref_rows-inside left (i + 1) _ _ i' j' (omega arith) (omega arith) (omega arith) hj
    ]

-- A cell of the reference product is the cell of the product of the two operands.
pub reference_product-cell :
    (width : ℕ) (data_p fresh_row fresh_ref : Memory ℕ) (i j : ℕ)
    → data_p 1 + width * width ≤ 2 ^ 32
    → data_p 2 + width * width ≤ 2 ^ 32
    → i < width
    → j < width
    → reference_product width data_p fresh_row fresh_ref (i * width + j)
      ≡ product_cell (data_p 1) (data_p 2) width data_p i j
unfolding reference_product
reference_product-cell width data_p fresh_row fresh_ref i j fits_a fits_b hi hj =
    ref_rows-inside width data_p (data_p 1) (data_p 2) fits_a fits_b width 0 fresh_row fresh_ref i j
      (omega arith) (omega arith) (omega arith) hj
