-- ===== src/Base/Buffers.antt =====
-- A buffer of device or host memory as a function from its indices. Reads and writes outside the
-- allocated part are not faults here: bounds are stated as theorems about the indices used.
use Prim.Native.Nat.{ℕ}
use mathlib.Core.Path.{◌≡◌}
use mathlib.Core.Logic.{◌≢◌}
use native.Mathlib.Omega.{arith}
use ocl_gprm.Base.Tests.{◌==◌, if◌then◌else◌}

abbrev pub Memory {ℓ} : Type ℓ → Type ℓ
Memory A = ℕ → A

module _ {ℓ} {A : Type ℓ} where
  -- `m[i] = v`
  unfoldable pub store : Memory A → ℕ → A → Memory A
  store m i v j = if i == j then v else m j

  pub store_self : (m : Memory A) (i : ℕ) (v : A) → store m i v i ≡ v
  unfolding store
  store_self m i v = ground arith

  pub store_ne : (m : Memory A) (i j : ℕ) (v : A) → i ≢ j → store m i v j ≡ m j
  unfolding store
  store_ne m i j v h = ground arith
