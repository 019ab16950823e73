-- ===== src/Service/Matrix/Launch.antt =====
-- The launch of `matmultKernel` by all work-items, in whatever order they run.
use ocl_gprm.Base.{
  ℕ, ◌+◌, ◌-◌, ◌*◌, ◌/◌, ◌^◌, ◌≤◌, ◌<◌, ◌≡◌, ◌⊎◌, inl, inr, refl, sym, arith, u32, Memory, List, [],
  ◌∷◌,
}
use native.Mathlib.Nat.{mul-div_cancel}
use ocl_gprm.Base.Grid.{part-of}
use ocl_gprm.WorkItem.{WorkItem}
use ocl_gprm.Service.Matrix.{mult_columns, matmult_kernel}
use ocl_gprm.Service.Matrix.Product.{
  product_cell, SameOperands, Step, Step-refl, Step-trans, Step-weaken, Step-SameOperands,
  mult_columns-Step, IsApart,
}

-- A work-item of `groups` groups of `threads` each.
pub record IsShare (groups threads : ℕ) (w : WorkItem) : Type 0 where
  pub num_groups : w.num_groups ≡ groups
  pub local_size : w.local_size ≡ threads
  pub group_id : w.group_id < groups
  pub local_id : w.local_id < threads

-- The square of a width that fits 16 bits.
pub square-le : (width : ℕ) → width ≤ 2 ^ 16 → width * width ≤ 2 ^ 32
square-le width h = grind arith

part-le : (range parts i : ℕ) → i < parts → i * range + range ≤ range * parts
part-le range parts i h = grind arith

-- A matrix whose width is a multiple of the number of groups and of the number of threads of a group.
pub record IsSplit (width groups threads wg_range th_range : ℕ) : Type 0 where
  pub small : width ≤ 2 ^ 16
  pub groups_pos : 0 < groups
  pub threads_pos : 0 < threads
  pub by_groups : width ≡ wg_range * groups
  pub by_threads : width ≡ th_range * threads

-- The cells of a work-item: its share of the rows, in its group's share of the columns.
pub record IsCell (wg_range th_range : ℕ) (w : WorkItem) (i j : ℕ) : Type 0 where
  pub row_from : w.local_id * th_range ≤ i
  pub row_to : i < w.local_id * th_range + th_range
  pub column_from : w.group_id * wg_range ≤ j
  pub column_to : j < w.group_id * wg_range + wg_range

-- All work-items of a launch, in the order in which they run.
abbrev AllShares : ℕ → ℕ → List WorkItem → Type 0
AllShares groups threads [] = Unit {0}
AllShares groups threads (w ∷ ws) = IsShare groups threads w × AllShares groups threads ws

abbrev Occurs : ℕ → ℕ → List WorkItem → Type 0
Occurs group thread [] = ⊥
Occurs group thread (w ∷ ws) =
    ((w.group_id ≡ group) × (w.local_id ≡ thread)) ⊎ Occurs group thread ws

pub record IsLaunch (groups threads : ℕ) (ws : List WorkItem) : Type 0 where
  pub shares : AllShares groups threads ws
  pub complete : (group thread : ℕ) → group < groups → thread < threads → Occurs group thread ws

-- The work-items one after the other.
abbrev pub matmult_all : List WorkItem → ℕ → ℕ → ℕ → ℕ → Memory ℕ → Memory ℕ
matmult_all [] a b c width mem = mem
matmult_all (w ∷ ws) a b c width mem = matmult_all ws a b c width (matmult_kernel w a b c width mem)

-- A memory has the product at `c`, and is as it was before elsewhere.
pub record IsProduct (a b c width : ℕ) (mem mem' : Memory ℕ) : Type 0 where
  pub outside : (k : ℕ) → (k < c) ⊎ (c + width * width ≤ k) → mem' k ≡ mem k
  pub cells :
      (i j : ℕ)
      → i < width
      → j < width
      → mem' (c + (i * width + j)) ≡ product_cell a b width mem i j

module _ (a b c width groups threads wg_range th_range : ℕ)
    (split : IsSplit width groups threads wg_range th_range) where
  kernel-columns :
      (w : WorkItem) (m : Memory ℕ)
      → IsShare groups threads w
      → matmult_kernel w a b c width m
        ≡ mult_columns a b c width wg_range th_range
            (w.local_id * th_range)
            (w.group_id * wg_range)
            m
  unfolding matmult_kernel
  kernel-columns w m share =
      let e1 : width / w.num_groups ≡ wg_range =
        rw (share.num_groups, split.by_groups) (mul-div_cancel wg_range split.groups_pos) in
      let e2 : width / w.local_size ≡ th_range =
        rw (share.local_size, split.by_threads) (mul-div_cancel th_range split.threads_pos) in
      let g1 : w.group_id * wg_range + wg_range ≤ width =
        omega (arith, part-le wg_range groups w.group_id share.group_id, split.by_groups) in
      let g2 : w.local_id * th_range + th_range ≤ width =
        omega (arith, part-le th_range threads w.local_id share.local_id, split.by_threads) in
      let next1 : (w.group_id + 1) * wg_range ≡ w.group_id * wg_range + wg_range = grind arith in
      let next2 : (w.local_id + 1) * th_range ≡ w.local_id * th_range + th_range = grind arith in
      let small = split.small in
      let from : u32 (w.group_id * wg_range) ≡ w.group_id * wg_range = omega arith in
      let first : u32 (w.local_id * th_range) ≡ w.local_id * th_range = omega arith in
      let columns : u32 (w.group_id * wg_range + wg_range) - w.group_id * wg_range ≡ wg_range =
        omega arith in
      let rows : u32 (w.local_id * th_range + th_range) - w.local_id * th_range ≡ th_range =
        omega arith in
      rw (e1, e2, next1, next2, from, first, columns, rows) refl

  module _ (apart_a : IsApart c width a) (apart_b : IsApart c width b) (mem : Memory ℕ) where
    abbrev small : width * width ≤ 2 ^ 32
    small = square-le width split.small

    kernel-Step :
        (w : WorkItem) (m : Memory ℕ)
        → IsShare groups threads w
        → SameOperands a b width mem m
        → Step a b c width small (IsCell wg_range th_range w) mem m (matmult_kernel w a b c width m)
    kernel-Step w m share same =
        let g1 : w.group_id * wg_range + wg_range ≤ width =
          omega (arith, part-le wg_range groups w.group_id share.group_id, split.by_groups) in
        let g2 : w.local_id * th_range + th_range ≤ width =
          omega (arith, part-le th_range threads w.local_id share.local_id, split.by_threads) in
        rw (kernel-columns w m share) (
          Step-weaken a b c width small
            (λ i j hi hj p. (p.row_from, p.row_to, p.column_from, p.column_to))
            (mult_columns-Step a b c width small apart_a apart_b mem wg_range th_range
              (w.local_id * th_range) (w.group_id * wg_range) m same g2 g1))

    abbrev Covered : List WorkItem → ℕ → ℕ → Type 0
    Covered [] i j = ⊥
    Covered (w ∷ ws) i j = IsCell wg_range th_range w i j ⊎ Covered ws i j

    all-Step :
        (ws : List WorkItem) (m : Memory ℕ)
        → AllShares groups threads ws
        → SameOperands a b width mem m
        → Step a b c width small (Covered ws) mem m (matmult_all ws a b c width m)
    all-Step [] m shares same = Step-refl a b c width small mem m
    all-Step (w ∷ ws) m shares same =
        let one = kernel-Step w m shares.0 same in
        Step-trans a b c width small one (
          all-Step ws (matmult_kernel w a b c width m) shares.1
            (Step-SameOperands a b c width small apart_a apart_b mem one same))

    Occurs-Covered :
        (ws : List WorkItem) (i j : ℕ)
        → i < width
        → j < width
        → Occurs (j / wg_range) (i / th_range) ws
        → Covered ws i j
    Occurs-Covered [] i j hi hj h = absurd h
    Occurs-Covered (w ∷ ws) i j hi hj (inl (p, q)) =
        let column = part-of wg_range groups j (rw (sym split.by_groups) hj) in
        let row = part-of th_range threads i (rw (sym split.by_threads) hi) in
        inl (record {
          row_from = rw q row.1;
          row_to = rw q row.2;
          column_from = rw p column.1;
          column_to = rw p column.2;
        })
    Occurs-Covered (w ∷ ws) i j hi hj (inr h) = inr (Occurs-Covered ws i j hi hj h)

    -- For a width of at most 65536 that the number of groups and the number of threads of a group,
    -- both at least one, divide, when every work-item of every group runs `matmultKernel`, one after
    -- the other in any order, on operands that lie apart from the result, each cell of the result is
    -- the inner product of its row and column, cut to 32 bits, and no word outside the result has
    -- changed.
    pub matmult_all-IsProduct :
        (ws : List WorkItem)
        → IsLaunch groups threads ws
        → IsProduct a b c width mem (matmult_all ws a b c width mem)
    matmult_all-IsProduct ws launch =
        let s = all-Step ws mem launch.shares (λ k h. (refl, refl)) in
        record {
          outside = s.outside;
          cells = λ i j hi hj.
              let column = part-of wg_range groups j (rw (sym split.by_groups) hj) in
              let row = part-of th_range threads i (rw (sym split.by_threads) hi) in
              s.written i j hi hj (
                Occurs-Covered ws i j hi hj
                  (launch.complete (j / wg_range) (i / th_range) column.0 row.0));
        }
