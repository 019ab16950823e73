-- ===== src/Host/Check/Product.antt =====
-- The matrix multiplication from the user data to the host's report.
use ocl_gprm.Base.Grid.{part-of}
use ocl_gprm.Base.{
  ℕ, ◌+◌, ◌-◌, ◌*◌, ◌/◌, ◌%◌, ◌^◌, ◌≤◌, ◌<◌, ◌≡◌, inl, inr, refl, sym, ap, ap₂, ◌∙◌, arith, u32,
  Memory, List,
}
use ocl_gprm.WorkItem.{WorkItem}
use ocl_gprm.Service.Matrix.Product.{SameOperands, inner_product_ext, product_cell, IsApart}
use ocl_gprm.Service.Matrix.Launch.{
  IsSplit, IsLaunch, IsProduct, matmult_all, matmult_all-IsProduct,
}
use ocl_gprm.Host.UserData.{populate_matmult}
use ocl_gprm.Host.UserData.Laws.{populate_matmult-layout}
use ocl_gprm.Host.Check.{reference_product, check}
use ocl_gprm.Host.Check.Laws.{reference_product-cell}
use ocl_gprm.Host.Check.Compare.{agreeing-all, compare_lem}

-- Three matrices within 2^32 words: the operands, and behind the pointers and apart from the operands the result.
pub record IsPlaced (width : ℕ) (mem : Memory ℕ) : Type 0 where
  pub fits_a : mem 1 + width * width ≤ 2 ^ 32
  pub fits_b : mem 2 + width * width ≤ 2 ^ 32
  pub fits_c : mem 3 + width * width ≤ 2 ^ 32
  pub behind : 4 ≤ mem 3
  pub apart_a : IsApart (mem 3) width (mem 1)
  pub apart_b : IsApart (mem 3) width (mem 2)

pub populate_matmult-IsPlaced :
    (rand : ℕ → ℕ) (width : ℕ) (fresh : Memory ℕ)
    → 513 + 3 * (width * width) < 2 ^ 32
    → IsPlaced width (populate_matmult rand width fresh).1
populate_matmult-IsPlaced rand width fresh fits =
    let (_, p1, p2, p3, _, _, _, _) = populate_matmult-layout rand width fresh fits in
    record {
      fits_a = omega arith;
      fits_b = omega arith;
      fits_c = omega arith;
      behind = omega arith;
      apart_a = inl (omega arith);
      apart_b = inl (omega arith);
    }

IsProduct-SameOperands :
    (width : ℕ) (mem mem' : Memory ℕ)
    → IsPlaced width mem
    → IsProduct (mem 1) (mem 2) (mem 3) width mem mem'
    → SameOperands (mem 1) (mem 2) width mem mem'
IsProduct-SameOperands width mem mem' placed product k h = (
  product.outside (mem 1 + k)
      (elim placed.apart_a [ inl p ↦ inl (omega arith) | inr p ↦ inr (omega arith) ]),
  product.outside (mem 2 + k)
      (elim placed.apart_b [ inl p ↦ inl (omega arith) | inr p ↦ inr (omega arith) ]),
)

module _ (width : ℕ) (mem mem' : Memory ℕ) (placed : IsPlaced width mem)
    (product : IsProduct (mem 1) (mem 2) (mem 3) width mem mem') where
  -- The host has the operands and pointers as they were before the launches, or after them.
  abbrev IsCopy : Memory ℕ → Type 0
  IsCopy data_p =
      ((k : ℕ) → k < 4 → data_p k ≡ mem k) × SameOperands (mem 1) (mem 2) width mem data_p

  check-cell :
      (data_p fresh_row fresh_ref : Memory ℕ)
      → IsCopy data_p
      → (i j : ℕ) → i < width
      → j < width
      → mem' (mem 3 + (i * width + j))
        ≡ reference_product width data_p fresh_row fresh_ref (i * width + j)
  check-cell data_p fresh_row fresh_ref (pointers, same) i j hi hj =
      let p1 = pointers 1 (omega arith) in
      let p2 = pointers 2 (omega arith) in
      product.cells i j hi hj
      ∙ ap (λ s. s % 2 ^ 32)
          (sym (
            inner_product_ext (mem 1) (mem 2) width mem data_p i j width 0 hi hj (omega arith)
              same))
      ∙ ap₂ (λ a b. product_cell a b width data_p i j) (sym p1) (sym p2)
      ∙ sym (
          reference_product-cell width data_p fresh_row fresh_ref i j
            (omega (arith, p1, placed.fits_a)) (omega (arith, p2, placed.fits_b)) hi hj)

  check-element :
      (data_p fresh_row fresh_ref : Memory ℕ)
      → IsCopy data_p
      → (k : ℕ) → k < width * width
      → mem' (mem 3 + k) ≡ reference_product width data_p fresh_row fresh_ref k
  check-element data_p fresh_row fresh_ref copy k h =
      let (i_in, from, to) = part-of width width k h in
      let i = k / width in
      let j = k - i * width in
      let e : k ≡ i * width + j = omega arith in
      ap (λ k. mem' (mem 3 + k)) e
      ∙ check-cell data_p fresh_row fresh_ref copy i j i_in (omega arith)
      ∙ ap (reference_product width data_p fresh_row fresh_ref) (sym e)

  pub check-IsProduct :
      (data_p result fresh_row fresh_ref : Memory ℕ)
      → ((k : ℕ) → k < 4 → data_p k ≡ mem k)
      → SameOperands (mem 1) (mem 2) width mem data_p
      → ((k : ℕ) → k < width * width → result k ≡ mem' (mem 3 + k))
      → check width data_p result fresh_row fresh_ref ≡ (width * width, 0)
  unfolding check
  check-IsProduct data_p result fresh_row fresh_ref pointers same read =
      let ref = reference_product width data_p fresh_row fresh_ref in
      compare_lem width result ref
      ∙ ap (λ n. (n, width * width - n))
          (agreeing-all result ref (width * width) 0 (λ k p q.
            read k (omega arith)
            ∙ check-element data_p fresh_row fresh_ref (pointers, same) k (omega arith)))
      ∙ ap (λ n. (width * width, n)) (omega arith)

  -- Without USE_SUBBUFFER: all of the data buffer has been read back.
  check-whole :
      (fresh_row fresh_ref : Memory ℕ)
      → check width mem' (λ k. mem' (u32 (mem' 3 + k))) fresh_row fresh_ref ≡ (width * width, 0)
  check-whole fresh_row fresh_ref =
      let pointers : (k : ℕ) → k < 4 → mem' k ≡ mem k =
        λ k h. product.outside k (inl (omega (arith, placed.behind))) in
      check-IsProduct mem' (λ k. mem' (u32 (mem' 3 + k))) fresh_row fresh_ref pointers
        (IsProduct-SameOperands width mem mem' placed product)
        (λ k h. ap mem' (omega (arith, pointers 3 (omega arith), placed.fits_c)))

-- On the user data of the matrix multiplication, for a width of at most 65536 that the numbers of
-- groups and of threads, both at least one, divide and a data buffer that fits 32 bits, when all
-- work-items of all groups have run `matmultKernel` on the three pointers, in any order, the host's
-- check counts width * width right elements and no wrong one: both where the result alone has been
-- read back, as with USE_SUBBUFFER, and where the whole data buffer has.
pub check-matmult :
    (width groups threads wg_range th_range : ℕ)
    (split : IsSplit width groups threads wg_range th_range) (ws : List WorkItem) (rand : ℕ → ℕ)
    (fresh fresh_row fresh_ref m_c : Memory ℕ)
    → IsLaunch groups threads ws
    → 513 + 3 * (width * width) < 2 ^ 32
    → let mem = (populate_matmult rand width fresh).1 in
      let mem' = matmult_all ws (mem 1) (mem 2) (mem 3) width mem in
      ((k : ℕ) → k < width * width → m_c k ≡ mem' (mem 3 + k))
      → (check width mem m_c fresh_row fresh_ref ≡ (width * width, 0))
        × (check width mem' (λ k. mem' (u32 (mem' 3 + k))) fresh_row fresh_ref ≡ (width * width, 0))
check-matmult width groups threads wg_range th_range split ws rand fresh fresh_row fresh_ref m_c
      launch fits read =
    let mem = (populate_matmult rand width fresh).1 in
    let placed = populate_matmult-IsPlaced rand width fresh fits in
    let mem' = matmult_all ws (mem 1) (mem 2) (mem 3) width mem in
    let product =
      matmult_all-IsProduct (mem 1) (mem 2) (mem 3) width groups threads wg_range th_range split
        placed.apart_a placed.apart_b mem ws launch in
    (
      check-IsProduct width mem mem' placed product mem m_c fresh_row fresh_ref (λ k h. refl)
          (λ k h. (refl, refl)) read,
      check-whole width mem mem' placed product fresh_row fresh_ref,
    )
