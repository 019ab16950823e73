-- ===== src/Queue/Layout.antt =====
-- Different queues use different parts of the buffer, all inside its allocated size.
use ocl_gprm.Base.Grid.{index-ne, index-lt}
use ocl_gprm.Base.{ℕ, ◌+◌, ◌*◌, ◌<◌, ◌≢◌, ◌⊎◌, arith}
use ocl_gprm.Macros.{max_bytecode_sz}
use ocl_gprm.Queue.{slot}

module _ (n a b : ℕ) (ha : a < n) (hb : b < n) where
  -- Every packet that a queue operation touches lies inside the buffer that the host allocates.
  pub slot-lt : (i : ℕ) → i < max_bytecode_sz → slot a b n i < n * n * max_bytecode_sz + n * n
  slot-lt i hi = omega (arith, index-lt n a b ha hb)

  -- No slot of any queue is a header.
  pub header-ne-slot : (c d i : ℕ) → a * n + b ≢ slot c d n i
  header-ne-slot c d i = omega (arith, index-lt n a b ha hb)

-- Different queues do not share a slot.
pub slot-ne :
    (n a b c d i j : ℕ)
    → b < n
    → d < n
    → (a ≢ c) ⊎ (b ≢ d)
    → i < max_bytecode_sz
    → j < max_bytecode_sz
    → slot a b n i ≢ slot c d n j
slot-ne n a b c d i j hb hd h hi hj = omega (arith, index-ne n a b c d hb hd h)
