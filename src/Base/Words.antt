-- ===== src/Base/Words.antt =====
-- Machine words as native numbers: the casts of C, shifts, and the idiom
-- `(x & ~MASK) | ((v << SHIFT) & MASK)` with which the program packs fields into a word.
use Prim.Native.Nat.{ℕ, ◌+◌, ◌-◌, ◌*◌, ◌/◌, ◌%◌, ◌^◌, bit_and, bit_or}
use mathlib.Core.Path.{◌≡◌, ◌∙◌, ap, ap₂}
use native.Mathlib.Nat.{one-le-pow, mul-div_cancel}
use native.Mathlib.Omega.{arith}
use ocl_gprm.Base.Bits.{
  mod-pow-lt, bit_and_ones, bit_and_high, bit_and_low, bit_or_disjoint, bit_or_insert,
}

abbrev pub u8 : ℕ → ℕ
u8 n = n % 2 ^ 8

abbrev pub u16 : ℕ → ℕ
u16 n = n % 2 ^ 16

abbrev pub u32 : ℕ → ℕ
u32 n = n % 2 ^ 32

abbrev pub u64 : ℕ → ℕ
u64 n = n % 2 ^ 64

infixl 75 ◌<<◌ ◌>>◌
abbrev pub ◌<<◌ : ℕ → ℕ → ℕ
x << k = x * 2 ^ k

abbrev pub ◌>>◌ : ℕ → ℕ → ℕ
x >> k = x / 2 ^ k

-- `~x` on `w` bits
abbrev pub complement : ℕ → ℕ → ℕ
complement w x = 2 ^ w - 1 - x

-- `(x & mask) >> shift`
unfoldable pub get_bits : ℕ → ℕ → ℕ → ℕ
get_bits mask shift x = bit_and x mask >> shift

-- `(x & ~mask) | ((v << shift) & mask)` on words of `w` bits
unfoldable pub put_bits : ℕ → ℕ → ℕ → ℕ → ℕ → ℕ
put_bits w mask shift x v =
    bit_or (bit_and x (complement w mask)) (bit_and ((v << shift) % 2 ^ w) mask)

-- `&` with `k` ones at bit `s`.
pub masked :
    (s k x : ℕ) {mask : ℕ} → mask ≡ (2 ^ k - 1) * 2 ^ s → bit_and x mask ≡ x / 2 ^ s % 2 ^ k * 2 ^ s
masked s k x e =
    ap (bit_and x) e
    ∙ bit_and_high s x (2 ^ k - 1)
    ∙ ap (λ t. t * 2 ^ s) (bit_and_ones k (x / 2 ^ s))

-- `&` with the complement of such a mask.
unmasked :
    (s k j x : ℕ) {rest : ℕ}
    → rest ≡ (2 ^ j - 1) * 2 ^ k * 2 ^ s + (2 ^ s - 1)
    → bit_and x rest ≡ x / 2 ^ s / 2 ^ k % 2 ^ j * 2 ^ k * 2 ^ s + x % 2 ^ s
unmasked s k j x c =
    ap (bit_and x) c
    ∙ bit_and_low s x ((2 ^ j - 1) * 2 ^ k)
    ∙ ap (λ t. t * 2 ^ s + x % 2 ^ s)
        (bit_and_high k (x / 2 ^ s) (2 ^ j - 1)
          ∙ ap (λ t. t * 2 ^ k) (bit_and_ones j (x / 2 ^ s / 2 ^ k)))

-- A mask of `k` ones at bit `s` reads the `k` bits from bit `s` on.
pub get_bits_lem :
    (s k x : ℕ) {mask : ℕ} → mask ≡ (2 ^ k - 1) * 2 ^ s → get_bits mask s x ≡ x / 2 ^ s % 2 ^ k
unfolding get_bits
get_bits_lem s k x e =
    ap (λ t. t / 2 ^ s) (masked s k x e)
    ∙ mul-div_cancel (x / 2 ^ s % 2 ^ k) (one-le-pow s 2 (omega arith))

-- Writing through such a mask replaces those bits, and keeps the bits below and above.
pub put_bits_lem :
    (s k j w x v : ℕ) {mask : ℕ}
    → mask ≡ (2 ^ k - 1) * 2 ^ s
    → complement w mask ≡ (2 ^ j - 1) * 2 ^ k * 2 ^ s + (2 ^ s - 1)
    → put_bits w mask s x v
      ≡ (x / 2 ^ s / 2 ^ k % 2 ^ j * 2 ^ k + v * 2 ^ s % 2 ^ w / 2 ^ s % 2 ^ k) * 2 ^ s + x % 2 ^ s
unfolding put_bits
put_bits_lem s k j w x v e c =
    let field = v * 2 ^ s % 2 ^ w / 2 ^ s % 2 ^ k in
    let high = x / 2 ^ s / 2 ^ k % 2 ^ j in
    ap₂ bit_or (unmasked s k j x c) (masked s k ((v << s) % 2 ^ w) e)
    ∙ bit_or_insert s (high * 2 ^ k) field (x % 2 ^ s) (mod-pow-lt s x)
    ∙ ap (λ t. t * 2 ^ s + x % 2 ^ s)
        (bit_or_disjoint k high field (mod-pow-lt k (v * 2 ^ s % 2 ^ w / 2 ^ s)))
