-- ===== src/Symbol/Words.antt =====
-- The symbol functions as arithmetic on the word.
use ocl_gprm.Base.{ℕ, ◌+◌, ◌*◌, ◌/◌, ◌%◌, ◌^◌, ◌≡◌, refl, ap, not, ◌==◌, get_bits_lem, put_bits_lem}
use ocl_gprm.Base.Bits.{bit_and_ones}
use ocl_gprm.Symbol.{
  symbol_get_kind, symbol_get_service, symbol_get_sn_id, symbol_get_snl_id, symbol_get_snc_id,
  symbol_get_opcode, symbol_get_address, symbol_get_nargs, symbol_is_quoted, symbol_set_kind,
  symbol_set_sn_id, symbol_set_snl_id, symbol_set_snc_id, symbol_set_opcode, symbol_set_address,
  symbol_set_nargs, symbol_set_value, symbol_quote, symbol_unquote, symbol_set_service,
}

pub get_kind : (s : ℕ) → symbol_get_kind s ≡ s / 2 ^ 60 % 2 ^ 4
unfolding symbol_get_kind
get_kind s = get_bits_lem 60 4 s refl

pub get_service : (s : ℕ) → symbol_get_service s ≡ s / 2 ^ 0 % 2 ^ 32
unfolding symbol_get_service
get_service s = get_bits_lem 0 32 s refl

pub get_sn_id : (s : ℕ) → symbol_get_sn_id s ≡ s / 2 ^ 24 % 2 ^ 8
unfolding symbol_get_sn_id
get_sn_id s = get_bits_lem 24 8 s refl

pub get_snl_id : (s : ℕ) → symbol_get_snl_id s ≡ s / 2 ^ 16 % 2 ^ 8
unfolding symbol_get_snl_id
get_snl_id s = get_bits_lem 16 8 s refl

pub get_snc_id : (s : ℕ) → symbol_get_snc_id s ≡ s / 2 ^ 8 % 2 ^ 8
unfolding symbol_get_snc_id
get_snc_id s = get_bits_lem 8 8 s refl

pub get_opcode : (s : ℕ) → symbol_get_opcode s ≡ s / 2 ^ 0 % 2 ^ 8
unfolding symbol_get_opcode
get_opcode s = get_bits_lem 0 8 s refl

pub get_address : (s : ℕ) → symbol_get_address s ≡ s / 2 ^ 32 % 2 ^ 16
unfolding symbol_get_address
get_address s = get_bits_lem 32 16 s refl

pub get_nargs : (s : ℕ) → symbol_get_nargs s ≡ s / 2 ^ 32 % 2 ^ 8
unfolding symbol_get_nargs
get_nargs s = bit_and_ones 8 (s / 2 ^ 32)

pub is_quoted : (s : ℕ) → symbol_is_quoted s ≡ not (s / 2 ^ 54 % 2 ^ 2 == 0)
unfolding symbol_is_quoted
is_quoted s = ap (λ t. not (t == 0)) (get_bits_lem 54 2 s refl)

pub set_kind :
    (s v : ℕ)
    → symbol_set_kind s v
      ≡ (s / 2 ^ 60 / 2 ^ 4 % 2 ^ 0 * 2 ^ 4 + v * 2 ^ 60 % 2 ^ 64 / 2 ^ 60 % 2 ^ 4) * 2 ^ 60
        + s % 2 ^ 60
unfolding symbol_set_kind
set_kind s v = put_bits_lem 60 4 0 64 s v refl refl

pub set_service :
    (s v : ℕ)
    → symbol_set_service s v
      ≡ (s / 2 ^ 0 / 2 ^ 32 % 2 ^ 32 * 2 ^ 32 + v * 2 ^ 0 % 2 ^ 64 / 2 ^ 0 % 2 ^ 32) * 2 ^ 0
        + s % 2 ^ 0
unfolding symbol_set_service
set_service s v = put_bits_lem 0 32 32 64 s v refl refl

pub set_sn_id :
    (s v : ℕ)
    → symbol_set_sn_id s v
      ≡ (s / 2 ^ 24 / 2 ^ 8 % 2 ^ 32 * 2 ^ 8 + v * 2 ^ 24 % 2 ^ 64 / 2 ^ 24 % 2 ^ 8) * 2 ^ 24
        + s % 2 ^ 24
unfolding symbol_set_sn_id
set_sn_id s v = put_bits_lem 24 8 32 64 s v refl refl

pub set_snl_id :
    (s v : ℕ)
    → symbol_set_snl_id s v
      ≡ (s / 2 ^ 16 / 2 ^ 8 % 2 ^ 40 * 2 ^ 8 + v * 2 ^ 16 % 2 ^ 64 / 2 ^ 16 % 2 ^ 8) * 2 ^ 16
        + s % 2 ^ 16
unfolding symbol_set_snl_id
set_snl_id s v = put_bits_lem 16 8 40 64 s v refl refl

pub set_snc_id :
    (s v : ℕ)
    → symbol_set_snc_id s v
      ≡ (s / 2 ^ 8 / 2 ^ 8 % 2 ^ 48 * 2 ^ 8 + v * 2 ^ 8 % 2 ^ 64 / 2 ^ 8 % 2 ^ 8) * 2 ^ 8
        + s % 2 ^ 8
unfolding symbol_set_snc_id
set_snc_id s v = put_bits_lem 8 8 48 64 s v refl refl

pub set_opcode :
    (s v : ℕ)
    → symbol_set_opcode s v
      ≡ (s / 2 ^ 0 / 2 ^ 8 % 2 ^ 56 * 2 ^ 8 + v * 2 ^ 0 % 2 ^ 64 / 2 ^ 0 % 2 ^ 8) * 2 ^ 0
        + s % 2 ^ 0
unfolding symbol_set_opcode
set_opcode s v = put_bits_lem 0 8 56 64 s v refl refl

pub set_address :
    (s v : ℕ)
    → symbol_set_address s v
      ≡ (s / 2 ^ 32 / 2 ^ 16 % 2 ^ 16 * 2 ^ 16 + v * 2 ^ 32 % 2 ^ 64 / 2 ^ 32 % 2 ^ 16) * 2 ^ 32
        + s % 2 ^ 32
unfolding symbol_set_address
set_address s v = put_bits_lem 32 16 16 64 s v refl refl

pub set_nargs :
    (s v : ℕ)
    → symbol_set_nargs s v
      ≡ (s / 2 ^ 32 / 2 ^ 8 % 2 ^ 24 * 2 ^ 8 + v * 2 ^ 32 % 2 ^ 64 / 2 ^ 32 % 2 ^ 8) * 2 ^ 32
        + s % 2 ^ 32
unfolding symbol_set_nargs
set_nargs s v = put_bits_lem 32 8 24 64 s v refl refl

pub set_value :
    (s v : ℕ)
    → symbol_set_value s v
      ≡ (s / 2 ^ 0 / 2 ^ 32 % 2 ^ 32 * 2 ^ 32 + v * 2 ^ 0 % 2 ^ 64 / 2 ^ 0 % 2 ^ 32) * 2 ^ 0
        + s % 2 ^ 0
unfolding symbol_set_value
set_value s v = put_bits_lem 0 32 32 64 s v refl refl

pub set_quote :
    (s : ℕ)
    → symbol_quote s
      ≡ (s / 2 ^ 54 / 2 ^ 2 % 2 ^ 8 * 2 ^ 2 + 1 * 2 ^ 54 % 2 ^ 64 / 2 ^ 54 % 2 ^ 2) * 2 ^ 54
        + s % 2 ^ 54
unfolding symbol_quote
set_quote s = put_bits_lem 54 2 8 64 s 1 refl refl

pub set_unquote :
    (s : ℕ)
    → symbol_unquote s
      ≡ (s / 2 ^ 54 / 2 ^ 2 % 2 ^ 8 * 2 ^ 2 + 0 * 2 ^ 54 % 2 ^ 64 / 2 ^ 54 % 2 ^ 2) * 2 ^ 54
        + s % 2 ^ 54
unfolding symbol_unquote
set_unquote s = put_bits_lem 54 2 8 64 s 0 refl refl
