-- ===== src/Tests/Symbols.antt =====
-- Packets and symbols with fields that do not fit.
use ocl_gprm.Base.{◌+◌, ◌/◌, ◌%◌, ◌^◌, ◌≡◌, arith, true, false}
use ocl_gprm.Packet.{
  pkt_create, pkt_get_type, pkt_get_source, pkt_get_arg_pos, pkt_get_sub, pkt_get_payload,
}
use ocl_gprm.Packet.Fields.{pkt_create-fields}
use ocl_gprm.Symbol.Mask
use ocl_gprm.Symbol.{
  symbol_get_kind, symbol_is_quoted, symbol_get_nargs, symbol_get_sn_id, symbol_get_snl_id,
  symbol_get_snc_id, symbol_get_opcode, symbol_get_address, symbol_get_value, symbol_set_quoted,
  symbol_unquote, symbol_ks_create, symbol_kr_create, symbol_kb_create,
}
use ocl_gprm.Symbol.Fields.{symbol_create-fields, kp_fields, symbol_set_quoted-never}
use ocl_gprm.Host.Setup.{pkt_base_init}

pkt_create-fields_example :
    let q = pkt_create pkt_base_init 2 255 17 1025 6 in
    (pkt_get_type q ≡ 2 % 4)
    × (pkt_get_source q ≡ 255 % 256)
    × (pkt_get_arg_pos q ≡ 17 % 16)
    × (pkt_get_sub q ≡ 1025 % 1024)
    × (pkt_get_payload q ≡ 6)
pkt_create-fields_example = pkt_create-fields pkt_base_init 2 255 17 1025 6

symbol_create-fields_example :
    let ks = symbol_ks_create 2 1 3 257 4 in
    let kr = symbol_kr_create 70000 0x01030102 in
    let kb = symbol_kb_create 42 in
    ((symbol_get_kind ks ≡ Mask.k_s)
      × (symbol_is_quoted ks ≡ false)
      × (symbol_get_nargs ks ≡ 2 % 256)
      × (symbol_get_sn_id ks ≡ 1 % 256)
      × (symbol_get_snl_id ks ≡ 3 % 256)
      × (symbol_get_snc_id ks ≡ 257 % 256)
      × (symbol_get_opcode ks ≡ 4 % 256))
    × ((symbol_get_kind kr ≡ Mask.k_r)
        × (symbol_is_quoted kr ≡ false)
        × (symbol_get_address kr ≡ 70000 % 65536)
        × (symbol_get_value kr ≡ 0x01030102 % 2 ^ 32)
        × (symbol_get_sn_id kr ≡ 0x01030102 / 2 ^ 24 % 256))
    × ((symbol_get_kind kb ≡ Mask.k_b)
        × (symbol_is_quoted kb ≡ true)
        × (symbol_get_value kb ≡ 42 % 2 ^ 32))
symbol_create-fields_example = symbol_create-fields 2 1 3 257 4 70000 0x01030102 42

kp_fields_example :
    let s = Mask.symbol_kp_zero + 600 in (symbol_get_kind s ≡ Mask.k_p) × (symbol_get_value s ≡ 600)
kp_fields_example = kp_fields 600 (omega arith)

symbol_set_quoted-never_example :
    (symbol_set_quoted (2 ^ 62) 1 ≡ symbol_unquote (2 ^ 62))
    × (symbol_is_quoted (symbol_set_quoted (2 ^ 62) 1) ≡ false)
symbol_set_quoted-never_example = symbol_set_quoted-never (2 ^ 62) 1
