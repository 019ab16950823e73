-- ===== src/Base/Bits/Digits.antt =====
-- The native bit operations one binary digit at a time, with the digit recursion's fuel dropped.
use Prim.Native.Nat.{
  ℕ, zero, suc, ◌+◌, ◌*◌, ◌/◌, ◌%◌, ◌≤◌, ◌<◌, min, max, digits, bit_and, bit_or, bit_and-bitwise,
  bit_or-bitwise,
}
use mathlib.Core.Path.{◌≡◌, refl, sym, ◌∙◌}
use native.Mathlib.Omega.{arith}

module _ (rest : ℕ → ℕ) (digit : ℕ → ℕ → ℕ) where
  -- Without digits in the first operand no fuel is used.
  digits-zero : (fuel b : ℕ) → digits rest digit fuel 0 b ≡ rest b
  digits-zero zero b = refl
  digits-zero (suc fuel) b = refl

  -- Two amounts of fuel that reach the first operand give the same digits.
  digits_agree :
      (a b fuel other : ℕ)
      → a ≤ fuel
      → a ≤ other
      → digits rest digit fuel a b ≡ digits rest digit other a b
  digits_agree zero b fuel other p q = digits-zero fuel b ∙ sym (digits-zero other b)
  digits_agree (suc a) b zero other p q = absurd (omega arith)
  digits_agree (suc a) b (suc fuel) zero p q = absurd (omega arith)
  digits_agree (suc a) b (suc fuel) (suc other) p q =
      let half = digits_agree (suc a / 2) (b / 2) fuel other (omega arith) (omega arith) in rw half

  -- The digit recursion with as much fuel as its first operand, one step on.
  digits_halve :
      (a b : ℕ)
      → digits rest digit (suc a) (suc a) b
        ≡ digits rest digit (suc a / 2) (suc a / 2) (b / 2) * 2 + digit (suc a % 2) (b % 2)
  digits_halve a b =
      let same = digits_agree (suc a / 2) (b / 2) a (suc a / 2) (omega arith) (omega arith) in
      omega (arith, same)

pub zero-bit_or : (b : ℕ) → bit_or 0 b ≡ b
zero-bit_or b = bit_or-bitwise 0 b

pub bit_and_step : (a b : ℕ) → bit_and a b ≡ bit_and (a / 2) (b / 2) * 2 + min (a % 2) (b % 2)
bit_and_step zero b = ground (arith, bit_and-bitwise 0 b, bit_and-bitwise 0 (b / 2))
bit_and_step (suc a) b =
    let whole = bit_and-bitwise (suc a) b in
    let halves = bit_and-bitwise (suc a / 2) (b / 2) in
    omega (arith, whole, digits_halve (λ y. 0) min a b, halves)

pub bit_or_step : (a b : ℕ) → bit_or a b ≡ bit_or (a / 2) (b / 2) * 2 + max (a % 2) (b % 2)
bit_or_step zero b = ground (arith, zero-bit_or b, zero-bit_or (b / 2))
bit_or_step (suc a) b =
    let whole = bit_or-bitwise (suc a) b in
    let halves = bit_or-bitwise (suc a / 2) (b / 2) in
    omega (arith, whole, digits_halve (λ y. y) max a b, halves)

-- By strong induction, with `bound` above the operand.
zero_right : (bound a : ℕ) → a < bound → (bit_and a 0 ≡ 0) × (bit_or a 0 ≡ a)
zero_right zero a h = absurd (omega arith)
zero_right (suc bound) zero h = (refl, refl)
zero_right (suc bound) (suc a) h =
    let half = zero_right bound (suc a / 2) (omega arith) in
    (omega (arith, half.0, bit_and_step (suc a) 0), omega (arith, half.1, bit_or_step (suc a) 0))

pub bit_and-zero : (a : ℕ) → bit_and a 0 ≡ 0
bit_and-zero a = (zero_right (suc a) a (omega arith)).0

pub bit_or-zero : (a : ℕ) → bit_or a 0 ≡ a
bit_or-zero a = (zero_right (suc a) a (omega arith)).1
