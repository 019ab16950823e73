-- ===== src/Base/Grid.antt =====
-- A square of `n` rows of `n` cells, laid out row by row.
use native.Mathlib.Decide.{ℕ_discrete, dec_lt}
use native.Mathlib.Nat.{div-mul-le_self, lt-div-mul-add, div-lt_iff_lt-mul}
use Prim.Native.Nat.{ℕ, zero, suc, ◌+◌, ◌*◌, ◌/◌, ◌≤◌, ◌<◌}
use mathlib.Core.Path.{◌≡◌, ap}
use mathlib.Core.Logic.{◌≢◌, ◌⊎◌, inl, inr}
use native.Mathlib.Omega.{arith}

-- A cell lies inside.
pub index-lt : (n a b : ℕ) → a < n → b < n → a * n + b < n * n
index-lt n a b ha hb = grind arith

row-le : (n a c : ℕ) → a < c → a * n + n ≤ c * n
row-le n a c h = grind arith

-- Different cells stand at different places.
pub index-ne : (n a b c d : ℕ) → b < n → d < n → (a ≢ c) ⊎ (b ≢ d) → a * n + b ≢ c * n + d
index-ne n a b c d hb hd h e = elim (dec_lt a c) [
  | yes p ↦ omega (arith, row-le n a c p)
  | no p ↦ elim (dec_lt c a) [ yes q ↦ omega (arith, row-le n c a q) | no q ↦ same (omega arith) h ]
]
  where
    same : a ≡ c → (a ≢ c) ⊎ (b ≢ d) → ⊥
    same r (inl k) = k r
    same r (inr k) = k (omega (arith, ap (λ t. t * n) r))

-- Two pairs are the same, or differ in a part.
pub pair_cases : (a b c d : ℕ) → ((a ≡ c) × (b ≡ d)) ⊎ ((a ≢ c) ⊎ (b ≢ d))
pair_cases a b c d = elim (ℕ_discrete a c) [
  | yes p ↦ elim (ℕ_discrete b d) [ yes r ↦ inl (p, r) | no r ↦ inr (inr r) ]
  | no p ↦ inr (inl p)
]

range-pos : (range parts i : ℕ) → i < range * parts → 0 < range
range-pos zero parts i h = omega arith
range-pos (suc range) parts i h = omega arith

-- The part that an index lies in.
pub part-of :
    (range parts i : ℕ)
    → i < range * parts
    → (i / range < parts) × (i / range * range ≤ i) × (i < i / range * range + range)
part-of range parts i h =
    let pos : 0 < range = range-pos range parts i h in
    ((div-lt_iff_lt-mul pos).1 (omega arith), div-mul-le_self i range, lt-div-mul-add pos)
