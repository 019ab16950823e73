-- ===== src/Base/Bits.antt =====
-- The bit operations of C on unsigned words as arithmetic: `&` and `|` act separately on the
-- low `k` bits and on the rest, so that a mask selects a remainder of a quotient.
mod Digits
use Prim.Native.Nat.{ℕ, zero, suc, ◌+◌, ◌-◌, ◌*◌, ◌/◌, ◌%◌, ◌^◌, ◌<◌, bit_and, bit_or}
use mathlib.Core.Path.{◌≡◌, refl, ◌∙◌, ap, ap₂}
use native.Mathlib.Nat.{pow-suc, one-le-pow, pow-zero}
use native.Mathlib.Omega.{arith}
use Digits.{bit_and_step, bit_or_step, bit_and-zero, bit_or-zero, zero-bit_or}

mul-pow-suc : (q k : ℕ) → q * 2 ^ suc k ≡ 2 * (q * 2 ^ k)
mul-pow-suc q k = omega (arith, ap (λ (t : ℕ). q * t) (pow-suc 2 k))

-- `&` on a word split at bit `k`.
pub bit_and_split :
    (k a b l m : ℕ)
    → l < 2 ^ k
    → m < 2 ^ k
    → bit_and (a * 2 ^ k + l) (b * 2 ^ k + m) ≡ bit_and a b * 2 ^ k + bit_and l m
bit_and_split zero a b zero zero hl hm = ground (arith, bit_and-zero 0)
bit_and_split zero a b l m hl hm = absurd (omega arith)
bit_and_split (suc k) a b l m hl hm = ground (
  arith,
  bit_and_step (a * 2 ^ suc k + l) (b * 2 ^ suc k + m),
  bit_and_step l m,
  mul-pow-suc a k,
  mul-pow-suc b k,
  mul-pow-suc (bit_and a b) k,
  pow-suc 2 k,
  bit_and_split k a b (l / 2) (m / 2) (omega (arith, pow-suc 2 k)) (omega (arith, pow-suc 2 k)),
)

-- `|` on a word split at bit `k`.
pub bit_or_split :
    (k a b l m : ℕ)
    → l < 2 ^ k
    → m < 2 ^ k
    → bit_or (a * 2 ^ k + l) (b * 2 ^ k + m) ≡ bit_or a b * 2 ^ k + bit_or l m
bit_or_split zero a b zero zero hl hm = ground (arith, bit_or-zero 0)
bit_or_split zero a b l m hl hm = absurd (omega arith)
bit_or_split (suc k) a b l m hl hm = ground (
  arith,
  bit_or_step (a * 2 ^ suc k + l) (b * 2 ^ suc k + m),
  bit_or_step l m,
  mul-pow-suc a k,
  mul-pow-suc b k,
  mul-pow-suc (bit_or a b) k,
  pow-suc 2 k,
  bit_or_split k a b (l / 2) (m / 2) (omega (arith, pow-suc 2 k)) (omega (arith, pow-suc 2 k)),
)

-- A word that fits `k` bits is kept by `&` with `k` ones.
bit_and_ones_below : (k a : ℕ) → a < 2 ^ k → bit_and a (2 ^ k - 1) ≡ a
bit_and_ones_below zero zero h = refl
bit_and_ones_below zero (suc a) h = absurd (omega arith)
bit_and_ones_below (suc k) a h = ground (
  arith,
  bit_and_step a (2 ^ suc k - 1),
  pow-suc 2 k,
  one-le-pow k 2,
  bit_and_ones_below k (a / 2) (omega (arith, pow-suc 2 k)),
)

module _ (k a : ℕ) where
  pub mod-pow-lt : a % 2 ^ k < 2 ^ k
  mod-pow-lt = omega (arith, one-le-pow k 2)

  -- `&` with `k` ones is the remainder.
  pub bit_and_ones : bit_and a (2 ^ k - 1) ≡ a % 2 ^ k
  bit_and_ones =
      div_mod
      ∙ bit_and_split k (a / 2 ^ k) 0 (a % 2 ^ k) (2 ^ k - 1) mod-pow-lt ones
      ∙ ap₂ (λ x y. x * 2 ^ k + y) (bit_and-zero (a / 2 ^ k))
          (bit_and_ones_below k (a % 2 ^ k) mod-pow-lt)
      ∙ omega arith
    where
      ones : 2 ^ k - 1 < 2 ^ k
      ones = omega (arith, one-le-pow k 2)

      div_mod :
          bit_and a (2 ^ k - 1) ≡ bit_and (a / 2 ^ k * 2 ^ k + a % 2 ^ k) (0 * 2 ^ k + (2 ^ k - 1))
      div_mod = ap₂ bit_and (omega arith) (omega arith)

  -- `&` with a mask whose low `k` bits are clear leaves those bits out.
  pub bit_and_high : (b : ℕ) → bit_and a (b * 2 ^ k) ≡ bit_and (a / 2 ^ k) b * 2 ^ k
  bit_and_high b =
      ap₂ bit_and (omega arith) (omega arith)
      ∙ bit_and_split k (a / 2 ^ k) b (a % 2 ^ k) 0 mod-pow-lt (omega (arith, one-le-pow k 2))
      ∙ omega (arith, bit_and-zero (a % 2 ^ k))

  -- `&` with a mask whose low `k` bits are set keeps those bits.
  pub bit_and_low :
      (b : ℕ) → bit_and a (b * 2 ^ k + (2 ^ k - 1)) ≡ bit_and (a / 2 ^ k) b * 2 ^ k + a % 2 ^ k
  bit_and_low b =
      ap (λ x. bit_and x (b * 2 ^ k + (2 ^ k - 1))) (omega arith)
      ∙ bit_and_split k (a / 2 ^ k) b (a % 2 ^ k) (2 ^ k - 1) mod-pow-lt
          (omega (arith, one-le-pow k 2))
      ∙ omega (arith, bit_and_ones_below k (a % 2 ^ k) mod-pow-lt)

-- `|` of a part above bit `k` and a part below it is their sum.
pub bit_or_disjoint : (k a l : ℕ) → l < 2 ^ k → bit_or (a * 2 ^ k) l ≡ a * 2 ^ k + l
bit_or_disjoint k a l h =
    ap₂ bit_or {x = a * 2 ^ k} (omega arith) (omega arith)
    ∙ bit_or_split k a 0 0 l (omega (arith, one-le-pow k 2)) h
    ∙ ap₂ (λ x y. x * 2 ^ k + y) (bit_or-zero a) (zero-bit_or l)

-- `|` of a word with the bits `k` and above of another, whose bits it leaves clear.
pub bit_or_insert :
    (k a b l : ℕ) → l < 2 ^ k → bit_or (a * 2 ^ k + l) (b * 2 ^ k) ≡ bit_or a b * 2 ^ k + l
bit_or_insert k a b l h =
    ap (bit_or (a * 2 ^ k + l)) {y = b * 2 ^ k + 0} (omega arith)
    ∙ bit_or_split k a b l 0 h (omega (arith, one-le-pow k 2))
    ∙ omega (arith, bit_or-zero l)
