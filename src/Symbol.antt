-- ===== src/Symbol.antt =====
-- kernels/VM.cl "Symbol Functions": a bytecode symbol is a 64-bit word with a kind, a quoted
-- flag, an address or argument count, and the name of a service.
pub mod Mask
pub mod Words
pub mod Fields
use ocl_gprm.Base.{
  ℕ, ◌+◌, ◌-◌, ◌*◌, ◌/◌, ◌%◌, ◌^◌, Bool, not, ◌==◌, bit_and, bit_or, u32, ◌<<◌, ◌>>◌, complement,
  get_bits, put_bits,
}
use Mask

unfoldable pub symbol_get_kind : ℕ → ℕ
symbol_get_kind s = get_bits Mask.kind_mask Mask.kind_shift s

unfoldable pub symbol_get_service : ℕ → ℕ
symbol_get_service s = get_bits Mask.service_mask Mask.service_shift s

unfoldable pub symbol_get_sn_id : ℕ → ℕ
symbol_get_sn_id s = get_bits Mask.sn_id_mask Mask.sn_id_shift s

unfoldable pub symbol_get_snl_id : ℕ → ℕ
symbol_get_snl_id s = get_bits Mask.snl_id_mask Mask.snl_id_shift s

unfoldable pub symbol_get_snc_id : ℕ → ℕ
symbol_get_snc_id s = get_bits Mask.snc_id_mask Mask.snc_id_shift s

unfoldable pub symbol_get_opcode : ℕ → ℕ
symbol_get_opcode s = get_bits Mask.opcode_mask Mask.opcode_shift s

unfoldable pub symbol_get_address : ℕ → ℕ
symbol_get_address s = get_bits Mask.address_mask Mask.address_shift s

unfoldable pub symbol_is_quoted : ℕ → Bool
symbol_is_quoted s = not (get_bits Mask.quoted_mask Mask.quoted_shift s == 0)

unfoldable pub symbol_get_nargs : ℕ → ℕ
symbol_get_nargs s = bit_and (s >> Mask.nargs_shift) Mask.nargs_fw

unfoldable pub symbol_get_value : ℕ → ℕ
symbol_get_value s = u32 s

unfoldable pub symbol_set_kind : ℕ → ℕ → ℕ
symbol_set_kind s v = put_bits 64 Mask.kind_mask Mask.kind_shift s v

unfoldable pub symbol_set_service : ℕ → ℕ → ℕ
symbol_set_service s v = put_bits 64 Mask.service_mask Mask.service_shift s v

unfoldable pub symbol_set_sn_id : ℕ → ℕ → ℕ
symbol_set_sn_id s v = put_bits 64 Mask.sn_id_mask Mask.sn_id_shift s v

unfoldable pub symbol_set_snl_id : ℕ → ℕ → ℕ
symbol_set_snl_id s v = put_bits 64 Mask.snl_id_mask Mask.snl_id_shift s v

unfoldable pub symbol_set_snc_id : ℕ → ℕ → ℕ
symbol_set_snc_id s v = put_bits 64 Mask.snc_id_mask Mask.snc_id_shift s v

unfoldable pub symbol_set_opcode : ℕ → ℕ → ℕ
symbol_set_opcode s v = put_bits 64 Mask.opcode_mask Mask.opcode_shift s v

unfoldable pub symbol_set_address : ℕ → ℕ → ℕ
symbol_set_address s v = put_bits 64 Mask.address_mask Mask.address_shift s v

unfoldable pub symbol_set_nargs : ℕ → ℕ → ℕ
symbol_set_nargs s v = put_bits 64 Mask.nargs_mask Mask.nargs_shift s v

unfoldable pub symbol_set_value : ℕ → ℕ → ℕ
symbol_set_value s v = put_bits 64 Mask.value_mask Mask.value_shift s v

-- `q` is a 32-bit `uint`, and OpenCL shifts such a word by the shift count modulo 32.
unfoldable pub symbol_set_quoted : ℕ → ℕ → ℕ
symbol_set_quoted s q =
    bit_or (bit_and s (complement 64 Mask.quoted_mask))
      (bit_and (u32 (q << (Mask.quoted_shift % 32))) Mask.quoted_mask)

unfoldable pub symbol_quote : ℕ → ℕ
symbol_quote s = put_bits 64 Mask.quoted_mask Mask.quoted_shift s 1

unfoldable pub symbol_unquote : ℕ → ℕ
symbol_unquote s = put_bits 64 Mask.quoted_mask Mask.quoted_shift s 0

unfoldable pub symbol_ks_create : ℕ → ℕ → ℕ → ℕ → ℕ → ℕ
symbol_ks_create nargs sn_id snl_id snc_id opcode =
    let s1 = symbol_set_kind 0 Mask.k_s in
    let s2 = symbol_unquote s1 in
    let s3 = symbol_set_nargs s2 nargs in
    let s4 = symbol_set_sn_id s3 sn_id in
    let s5 = symbol_set_snl_id s4 snl_id in
    let s6 = symbol_set_snc_id s5 snc_id in symbol_set_opcode s6 opcode

unfoldable pub symbol_kr_create : ℕ → ℕ → ℕ
symbol_kr_create subtask name =
    let s1 = symbol_set_kind 0 Mask.k_r in
    let s2 = symbol_unquote s1 in let s3 = symbol_set_address s2 subtask in symbol_set_value s3 name

unfoldable pub symbol_kb_create : ℕ → ℕ
symbol_kb_create value =
    let s1 = symbol_set_kind 0 Mask.k_b in let s2 = symbol_quote s1 in symbol_set_value s2 value
