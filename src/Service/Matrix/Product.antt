-- ===== src/Service/Matrix/Product.antt =====
-- The loops of `matmultKernel` write cells of the matrix product, and nothing else.
use ocl_gprm.Base.Grid.{index-lt, index-ne, pair_cases}
use ocl_gprm.Base.{
  ℕ, zero, suc, ◌+◌, ◌*◌, ◌%◌, ◌^◌, ◌≤◌, ◌<◌, ◌≡◌, ◌⊎◌, inl, inr, refl, ap, ap₂, ◌∙◌, arith, u32,
  Memory, store, store_self, store_ne,
}
use native.Mathlib.Decide.{ℕ_discrete}
use ocl_gprm.Service.Matrix.{dot, mult_cells, mult_columns}

-- The sum of `n` products of row `i` of the matrix at `a` and column `j` of the one at `b`, from the
-- `k`-th on.
unfoldable pub inner_product : ℕ → ℕ → ℕ → Memory ℕ → ℕ → ℕ → ℕ → ℕ → ℕ
inner_product a b width mem i j zero k = 0
inner_product a b width mem i j (suc n) k =
    mem (a + (i * width + k)) * mem (b + (k * width + j))
    + inner_product a b width mem i j n (k + 1)

-- A cell of the product of two matrices of 32-bit words.
abbrev pub product_cell : ℕ → ℕ → ℕ → Memory ℕ → ℕ → ℕ → ℕ
product_cell a b width mem i j = inner_product a b width mem i j width 0 % 2 ^ 32

-- The memories have the same operands.
abbrev pub SameOperands : ℕ → ℕ → ℕ → Memory ℕ → Memory ℕ → Type 0
SameOperands a b width mem mem' =
    (k : ℕ) → k < width * width → (mem' (a + k) ≡ mem (a + k)) × (mem' (b + k) ≡ mem (b + k))

pub inner_product_ext :
    (a b width : ℕ) (mem mem' : Memory ℕ) (i j n k : ℕ)
    → i < width
    → j < width
    → k + n ≤ width
    → SameOperands a b width mem mem'
    → inner_product a b width mem' i j n k ≡ inner_product a b width mem i j n k
unfolding inner_product
inner_product_ext a b width mem mem' i j zero k hi hj h same = refl
inner_product_ext a b width mem mem' i j (suc n) k hi hj h same =
    ap₂ ◌+◌
      (ap₂ ◌*◌ (same (i * width + k) (index-lt width i k hi (omega arith))).0
        (same (k * width + j) (index-lt width k j (omega arith) hj)).1)
      (inner_product_ext a b width mem mem' i j n (k + 1) hi hj (omega arith) same)

-- The result lies apart from an operand.
abbrev pub IsApart : ℕ → ℕ → ℕ → Type 0
IsApart c width from = (from + width * width ≤ c) ⊎ (c + width * width ≤ from)

module _ (a b c width : ℕ) (small : width * width ≤ 2 ^ 32) where
  -- The loop over `k` adds up the inner product, cut to 32 bits.
  dot-inner_product :
      (n i j k x : ℕ) (mem : Memory ℕ)
      → i < width
      → j < width
      → k + n ≤ width
      → dot a b c width n i j k (x % 2 ^ 32) mem
        ≡ (x + inner_product a b width mem i j n k) % 2 ^ 32
  unfolding dot inner_product
  dot-inner_product zero i j k x mem hi hj h = omega arith
  dot-inner_product (suc n) i j k x mem hi hj h =
      let row : u32 (k + i * width) ≡ i * width + k =
        omega (arith, index-lt width i k hi (omega arith)) in
      let column : u32 (j + width * k) ≡ k * width + j =
        omega (arith, index-lt width k j (omega arith) hj) in
      let term = mem (a + (i * width + k)) * mem (b + (k * width + j)) in
      rw (row, column)
        (ap (λ e. dot a b c width n i j (k + 1) e mem) {y = (x + term) % 2 ^ 32} (omega arith)
          ∙ dot-inner_product n i j (k + 1) (x + term) mem hi hj (omega arith)
          ∙ omega arith)

  -- A step from `m` to `m'` that writes nothing but right cells, and among them those of `Covers`.
  -- `mem` is the memory whose product is computed.
  pub record Step (Covers : ℕ → ℕ → Type 0) (mem m m' : Memory ℕ) : Type 0 where
    pub outside : (k : ℕ) → (k < c) ⊎ (c + width * width ≤ k) → m' k ≡ m k
    pub kept :
        (i j : ℕ)
        → i < width
        → j < width
        → m (c + (i * width + j)) ≡ product_cell a b width mem i j
        → m' (c + (i * width + j)) ≡ product_cell a b width mem i j
    pub written :
        (i j : ℕ)
        → i < width
        → j < width
        → Covers i j
        → m' (c + (i * width + j)) ≡ product_cell a b width mem i j

  pub Step-refl : (mem m : Memory ℕ) → Step (λ i j. ⊥) mem m m
  Step-refl mem m = record {
    outside = λ k h. refl;
    kept = λ i j hi hj e. e;
    written = λ i j hi hj h. absurd h;
  }

  pub Step-trans :
      {P Q : ℕ → ℕ → Type 0} {mem m m1 m' : Memory ℕ}
      → Step P mem m m1
      → Step Q mem m1 m'
      → Step (λ i j. P i j ⊎ Q i j) mem m m'
  Step-trans s t = record {
    outside = λ k h. t.outside k h ∙ s.outside k h;
    kept = λ i j hi hj e. t.kept i j hi hj (s.kept i j hi hj e);
    written = λ i j hi hj h. elim h [
      | inl p ↦ t.kept i j hi hj (s.written i j hi hj p)
      | inr q ↦ t.written i j hi hj q
    ];
  }

  pub Step-weaken :
      {P Q : ℕ → ℕ → Type 0} {mem m m' : Memory ℕ}
      → ((i j : ℕ) → i < width → j < width → Q i j → P i j)
      → Step P mem m m'
      → Step Q mem m m'
  Step-weaken f s = record {
    outside = s.outside;
    kept = s.kept;
    written = λ i j hi hj q. s.written i j hi hj (f i j hi hj q);
  }

  module _ (apart_a : IsApart c width a) (apart_b : IsApart c width b) (mem : Memory ℕ) where
    pub Step-SameOperands :
        {P : ℕ → ℕ → Type 0} {m m' : Memory ℕ}
        → Step P mem m m'
        → SameOperands a b width mem m
        → SameOperands a b width mem m'
    Step-SameOperands s same k h = (
      s.outside (a + k) (elim apart_a [ inl p ↦ inl (omega arith) | inr p ↦ inr (omega arith) ])
          ∙ (same k h).0,
      s.outside (b + k) (elim apart_b [ inl p ↦ inl (omega arith) | inr p ↦ inr (omega arith) ])
          ∙ (same k h).1,
    )

    dot-product_cell :
        (m : Memory ℕ) (i j : ℕ)
        → SameOperands a b width mem m
        → i < width
        → j < width
        → dot a b c width width i j 0 0 m ≡ product_cell a b width mem i j
    dot-product_cell m i j same hi hj =
        dot-inner_product width i j 0 0 m hi hj (omega arith)
        ∙ ap (λ s. s % 2 ^ 32)
            (omega arith ∙ inner_product_ext a b width mem m i j width 0 hi hj (omega arith) same)

    -- One cell.
    store-Step :
        (m : Memory ℕ) (i j : ℕ)
        → SameOperands a b width mem m
        → i < width
        → j < width
        → Step
            (λ i' j'. (i' ≡ i) × (j' ≡ j))
            mem
            m
            (store m (c + u32 (i * width + j)) (dot a b c width width i j 0 0 m))
    store-Step m i j same hi hj =
        let index : u32 (i * width + j) ≡ i * width + j = omega (arith, index-lt width i j hi hj) in
        let v = product_cell a b width mem i j in
        let at = c + (i * width + j) in
        rw (index, dot-product_cell m i j same hi hj)
          (record {
            outside = λ k h. store_ne m at k v (ground (arith, index-lt width i j hi hj));
            kept = λ i' j' hi' hj' e. elim (pair_cases i' j' i j) [
              | inl (p, r) ↦ rw (p, r) (store_self m at v)
              | inr ne ↦
                  store_ne m at (c + (i' * width + j')) v
                    (omega (arith, index-ne width i' j' i j hj' hj ne))
                  ∙ e
            ];
            written = λ i' j' hi' hj' h. rw (h.0, h.1) (store_self m at v);
          })

    -- The rows from `ii` on of column `jj`.
    mult_cells-Step :
        (left ii jj : ℕ) (m : Memory ℕ)
        → SameOperands a b width mem m
        → ii + left ≤ width
        → jj < width
        → Step
            (λ i j. (ii ≤ i) × (i < ii + left) × (j ≡ jj))
            mem
            m
            (mult_cells a b c width left ii jj m)
    unfolding mult_cells
    mult_cells-Step zero ii jj m same h hj =
        Step-weaken (λ i j hi hj p. absurd (omega arith)) (Step-refl mem m)
    mult_cells-Step (suc left) ii jj m same h hj =
        let first = store-Step m ii jj same (omega arith) hj in
        let rest =
          mult_cells-Step left (ii + 1) jj _ (Step-SameOperands first same) (omega arith) hj in
        Step-weaken
          (λ i j hi hj p. elim (ℕ_discrete i ii) [
            | yes e ↦ inl (e, p.2)
            | no ne ↦ inr (omega arith, omega arith, p.2)
          ])
          (Step-trans first rest)

    -- The rows from `first` on of the columns from `jj` on.
    pub mult_columns-Step :
        (left rows first jj : ℕ) (m : Memory ℕ)
        → SameOperands a b width mem m
        → first + rows ≤ width
        → jj + left ≤ width
        → Step
            (λ i j. (first ≤ i) × (i < first + rows) × (jj ≤ j) × (j < jj + left))
            mem
            m
            (mult_columns a b c width left rows first jj m)
    unfolding mult_columns
    mult_columns-Step zero rows first jj m same h hj =
        Step-weaken (λ i j hi hj p. absurd (omega arith)) (Step-refl mem m)
    mult_columns-Step (suc left) rows first jj m same h hj =
        let column = mult_cells-Step rows first jj m same h (omega arith) in
        let rest =
          mult_columns-Step left rows first (jj + 1) _ (Step-SameOperands column same) h
            (omega arith) in
        Step-weaken
          (λ i j hi hj p. elim (ℕ_discrete j jj) [
            | yes e ↦ inl (p.0, p.1, e)
            | no ne ↦ inr (p.0, p.1, omega arith, omega arith)
          ])
          (Step-trans column rest)
