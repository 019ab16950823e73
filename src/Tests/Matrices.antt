-- ===== src/Tests/Matrices.antt =====
-- The multiplication of two matrices of two rows by two groups of two threads.
use native.Mathlib.Decide.{ℕ_discrete}
use ocl_gprm.Service.Matrix.{mat_add, mat_unit}
use ocl_gprm.Service.Matrix.Sum.{mat_add-IsSum}
use ocl_gprm.Service.Matrix.Identity.{mat_unit-matmult_all}
use ocl_gprm.Base.{
  ◌%◌, ◌^◌, ◌≤◌, ◌⊎◌, ℕ, ◌+◌, ◌*◌, ◌<◌, ◌≡◌, inl, inr, refl, arith, u32, Memory, List, [], ◌∷◌,
}
use ocl_gprm.WorkItem.{WorkItem}
use ocl_gprm.Service.Matrix.Launch.{
  IsSplit, IsLaunch, IsProduct, IsShare, matmult_all, matmult_all-IsProduct,
}
use ocl_gprm.Host.Setup.{pkt_base_init}
use ocl_gprm.Host.UserData.{populate_matmult}
use ocl_gprm.Host.Check.{check}
use ocl_gprm.Host.Check.Product.{check-matmult}

abbrev pub work_item : ℕ → ℕ → WorkItem
work_item group thread = record {
  group_id = group;
  num_groups = 2;
  local_id = thread;
  local_size = 2;
  global_id = 2 * group + thread;
  nth = 2;
  uninit = pkt_base_init;
}

abbrev pub all_items : List WorkItem
all_items = work_item 1 0 ∷ work_item 0 1 ∷ work_item 1 1 ∷ work_item 0 0 ∷ []

abbrev pub counting : Memory ℕ
counting i = i + 1

two_by_two-IsSplit : IsSplit 2 2 2 1 1
two_by_two-IsSplit = record {
  small = omega arith;
  groups_pos = omega arith;
  threads_pos = omega arith;
  by_groups = refl;
  by_threads = refl;
}

share : (group thread : ℕ) → group < 2 → thread < 2 → IsShare 2 2 (work_item group thread)
share group thread p q = record { num_groups = refl; local_size = refl; group_id = p; local_id = q }

all_items-IsLaunch : IsLaunch 2 2 all_items
all_items-IsLaunch = record {
  shares = (
    share 1 0 (omega arith) (omega arith),
    (
      share 0 1 (omega arith) (omega arith),
      (share 1 1 (omega arith) (omega arith), (share 0 0 (omega arith) (omega arith), tt)),
    ),
  );
  complete = λ group thread p q. elim (ℕ_discrete group 0) [
    | yes e ↦ elim (ℕ_discrete thread 0) [
      | yes r ↦ inr (inr (inr (inl (omega arith, omega arith))))
      | no r ↦ inr (inl (omega arith, omega arith))
    ]
    | no e ↦ elim (ℕ_discrete thread 0) [
      | yes r ↦ inl (omega arith, omega arith)
      | no r ↦ inr (inr (inl (omega arith, omega arith)))
    ]
  ];
}

matmult_all-IsProduct_example : IsProduct 0 4 8 2 counting (matmult_all all_items 0 4 8 2 counting)
matmult_all-IsProduct_example =
    matmult_all-IsProduct 0 4 8 2 2 2 1 1 two_by_two-IsSplit (inl (omega arith)) (inl (omega arith))
      counting all_items all_items-IsLaunch

check-matmult_example :
    let mem = (populate_matmult counting 2 counting).1 in
    let mem' = matmult_all all_items (mem 1) (mem 2) (mem 3) 2 mem in
    (check 2 mem (λ k. mem' (mem 3 + k)) counting counting ≡ (2 * 2, 0))
    × (check 2 mem' (λ k. mem' (u32 (mem' 3 + k))) counting counting ≡ (2 * 2, 0))
check-matmult_example =
    let mem = (populate_matmult counting 2 counting).1 in
    let mem' = matmult_all all_items (mem 1) (mem 2) (mem 3) 2 mem in
    check-matmult 2 2 2 1 1 two_by_two-IsSplit all_items counting counting counting counting
      (λ k. mem' (mem 3 + k)) all_items-IsLaunch (omega arith) (λ k h. refl)

-- The sum goes where the first operand is.
mat_add-IsSum_example :
    ((k : ℕ) → (k < 0) ⊎ (4 ≤ k) → mat_add 0 4 0 2 counting k ≡ counting k)
    × ((i j : ℕ)
        → i < 2
        → j < 2
        → mat_add 0 4 0 2 counting (0 + (i * 2 + j))
          ≡ (counting (0 + (i * 2 + j)) + counting (4 + (i * 2 + j))) % 2 ^ 32)
mat_add-IsSum_example =
    mat_add-IsSum 0 4 0 2 (omega arith) (inl refl) (inr (inr (omega arith))) counting

mat_unit-matmult_all_example :
    matmult_all all_items 0 4 8 2 (mat_unit 4 2 counting) (8 + (1 * 2 + 1)) ≡ 4
mat_unit-matmult_all_example =
    mat_unit-matmult_all 0 4 8 2 2 2 1 1 counting all_items two_by_two-IsSplit all_items-IsLaunch
      (inl (omega arith)) (inl (omega arith)) (inl (omega arith)) 1 1 (omega arith) (omega arith)
