-- ===== src/Host/UserData/Laws.antt =====
-- Where the buffers of the matrix multiplication lie, and what they hold at first.
use ocl_gprm.Base.{
  ℕ, zero, suc, ◌+◌, ◌-◌, ◌*◌, ◌%◌, ◌^◌, ◌≤◌, ◌<◌, ◌≡◌, refl, ap, ◌∙◌, arith, u32, Memory, store,
  store_self, store_ne,
}
use native.Mathlib.Decide.{ℕ_discrete, dec_lt}
use ocl_gprm.Host.UserData.{fill_random, populate_matmult}

fill_random-below :
    (rand : ℕ → ℕ) (left k i : ℕ) (mem : Memory ℕ) (j : ℕ)
    → j < i
    → fill_random rand left k i mem j ≡ mem j
unfolding fill_random
fill_random-below rand zero k i mem j h = refl
fill_random-below rand (suc left) k i mem j h =
    fill_random-below rand left (k + 1) (i + 1) _ j (omega arith) ∙ store_ne mem i j _ (omega arith)

fill_random-inside :
    (rand : ℕ → ℕ) (left k i : ℕ) (mem : Memory ℕ) (j : ℕ)
    → i ≤ j
    → j < i + left
    → fill_random rand left k i mem j ≡ rand (k + (j - i)) % 64
unfolding fill_random
fill_random-inside rand zero k i mem j p r = absurd (omega arith)
fill_random-inside rand (suc left) k i mem j p r = elim (ℕ_discrete j i) [
  | yes e ↦ rw e (
      fill_random-below rand left (k + 1) (i + 1) _ i (omega arith)
      ∙ store_self mem i _
      ∙ ap (λ t. rand t % 64) {x = k} {y = k + (i - i)} (omega arith))
  | no ne ↦
      fill_random-inside rand left (k + 1) (i + 1) _ j (omega arith) (omega arith)
      ∙ ap (λ t. rand t % 64) (omega arith)
]

module _ (rand : ℕ → ℕ) (a b k from next : ℕ) (mem : Memory ℕ) where
  -- Two loops, the second from `next` on.
  abbrev twice : Memory ℕ
  twice = fill_random rand b k next (fill_random rand a 0 from mem)

  twice-below : (j : ℕ) → j < from → j < next → twice j ≡ mem j
  twice-below j p r =
      fill_random-below rand b k next _ j r ∙ fill_random-below rand a 0 from mem j p

  twice-inside : (i : ℕ) → k ≡ a → next ≡ from + a → i < a + b → twice (from + i) ≡ rand i % 64
  twice-inside i e f h = elim (dec_lt i a) [
    | yes p ↦
        fill_random-below rand b k next _ (from + i) (omega arith)
        ∙ fill_random-inside rand a 0 from mem (from + i) (omega arith) (omega arith)
        ∙ ap (λ t. rand t % 64) (omega arith)
    | no p ↦
        fill_random-inside rand b k next _ (from + i) (omega arith) (omega arith)
        ∙ ap (λ t. rand t % 64) (omega arith)
  ]

module _ (rand : ℕ → ℕ) (dim : ℕ) (fresh : Memory ℕ) (fits : 513 + 3 * (dim * dim) < 2 ^ 32) where
  -- The buffer before the operands are filled in.
  abbrev pointers : Memory ℕ
  pointers =
      let s = dim * dim in
      let m2 = u32 (512 + s) in
      let m3 = u32 (m2 + s) in
      store (store (store (store (store (store fresh 0 4) 1 512) 2 m2) 3 m3) 4 dim) 5 (u32 (m3 + s))

  pointer-kept : (j : ℕ) → j < 512 → (populate_matmult rand dim fresh).1 j ≡ pointers j
  unfolding populate_matmult store
  pointer-kept j h =
      let m2 = u32 (512 + dim * dim) in
      let m3 = u32 (m2 + dim * dim) in
      twice-below rand (m2 - 512) (m3 - m2) (m2 - 512) 512 m2 pointers j h (omega arith)

  operand-filled :
      (i : ℕ) → i < 2 * (dim * dim) → (populate_matmult rand dim fresh).1 (512 + i) ≡ rand i % 64
  unfolding populate_matmult store
  operand-filled i h =
      let m2 = u32 (512 + dim * dim) in
      let m3 = u32 (m2 + dim * dim) in
      twice-inside rand (m2 - 512) (m3 - m2) (m2 - 512) 512 m2 pointers i refl (omega arith)
        (omega arith)

  size-is : (populate_matmult rand dim fresh).0 ≡ 513 + 3 * (dim * dim)
  unfolding populate_matmult
  size-is = grind arith

  -- For the matrix multiplication, where the data buffer's size fits 32 bits: the pointers are the
  -- first operand at 512, the second and the result one matrix further each, the width, and the end
  -- of the result; the size is one word more than that; and the two operands hold the random numbers
  -- in order, each modulo 64.
  pub populate_matmult-layout :
      let (size, mem) = populate_matmult rand dim fresh in
      (mem 0 ≡ 4)
      × (mem 1 ≡ 512)
      × (mem 2 ≡ 512 + dim * dim)
      × (mem 3 ≡ 512 + 2 * (dim * dim))
      × (mem 4 ≡ dim)
      × (mem 5 ≡ 512 + 3 * (dim * dim))
      × (size ≡ 513 + 3 * (dim * dim))
      × ((i : ℕ) → i < 2 * (dim * dim) → mem (512 + i) ≡ rand i % 64)
  unfolding store
  populate_matmult-layout = (
    omega (arith, pointer-kept 0 (omega arith)),
    omega (arith, pointer-kept 1 (omega arith)),
    omega (arith, pointer-kept 2 (omega arith)),
    omega (arith, pointer-kept 3 (omega arith)),
    omega (arith, pointer-kept 4 (omega arith)),
    omega (arith, pointer-kept 5 (omega arith)),
    size-is,
    operand-filled,
  )
