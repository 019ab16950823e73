-- ===== src/Symbol/Fields.antt =====
-- What the constructors of symbols build, and that the getters read it back.
use ocl_gprm.Base.{
  ℕ, ◌+◌, ◌*◌, ◌/◌, ◌%◌, ◌^◌, ◌<◌, ◌≡◌, refl, ◌∙◌, ap, arith, true, false, not, ◌==◌, bit_and,
  bit_or, put_bits, complement, masked, u32, ◌<<◌,
}
use ocl_gprm.Symbol.Mask
use ocl_gprm.Symbol.Words.{
  get_kind, get_sn_id, get_snl_id, get_snc_id, get_opcode, get_address, get_nargs, is_quoted,
  set_kind, set_sn_id, set_snl_id, set_snc_id, set_opcode, set_address, set_nargs, set_value,
  set_quote, set_unquote,
}
use ocl_gprm.Symbol.{
  symbol_get_kind, symbol_get_sn_id, symbol_get_snl_id, symbol_get_snc_id, symbol_get_opcode,
  symbol_get_address, symbol_get_nargs, symbol_get_value, symbol_is_quoted, symbol_ks_create,
  symbol_kr_create, symbol_kb_create, symbol_set_kind, symbol_set_sn_id, symbol_set_snl_id,
  symbol_set_snc_id, symbol_set_address, symbol_set_nargs, symbol_unquote, symbol_quote,
  symbol_set_quoted,
}

unquoted : (s : ℕ) → s / 2 ^ 54 % 2 ^ 2 ≡ 0 → symbol_is_quoted s ≡ false
unquoted s h = is_quoted s ∙ ap (λ t. not (t == 0)) h

quoted : (s : ℕ) → s / 2 ^ 54 % 2 ^ 2 ≡ 1 → symbol_is_quoted s ≡ true
quoted s h = is_quoted s ∙ ap (λ t. not (t == 0)) h

ks_word :
    (nargs sn_id snl_id snc_id opcode : ℕ)
    → symbol_ks_create nargs sn_id snl_id snc_id opcode
      ≡ nargs % 2 ^ 8 * 2 ^ 32
        + sn_id % 2 ^ 8 * 2 ^ 24
        + snl_id % 2 ^ 8 * 2 ^ 16
        + snc_id % 2 ^ 8 * 2 ^ 8
        + opcode % 2 ^ 8
unfolding symbol_ks_create
ks_word nargs sn_id snl_id snc_id opcode =
    let s1 = symbol_set_kind 0 Mask.k_s in
    let s2 = symbol_unquote s1 in
    let s3 = symbol_set_nargs s2 nargs in
    let s4 = symbol_set_sn_id s3 sn_id in
    let s5 = symbol_set_snl_id s4 snl_id in
    let s6 = symbol_set_snc_id s5 snc_id in
    omega (
      arith,
      set_kind 0 Mask.k_s,
      set_unquote s1,
      set_nargs s2 nargs,
      set_sn_id s3 sn_id,
      set_snl_id s4 snl_id,
      set_snc_id s5 snc_id,
      set_opcode s6 opcode,
    )

kr_word :
    (address name : ℕ)
    → symbol_kr_create address name ≡ 2 ^ 62 + address % 2 ^ 16 * 2 ^ 32 + name % 2 ^ 32
unfolding symbol_kr_create
kr_word address name =
    let s1 = symbol_set_kind 0 Mask.k_r in
    let s2 = symbol_unquote s1 in
    let s3 = symbol_set_address s2 address in
    omega (arith, set_kind 0 Mask.k_r, set_unquote s1, set_address s2 address, set_value s3 name)

-- `symbol_KB_create` adds the value, cut to 32 bits, to the base symbol SYMBOL_KB_ZERO.
pub kb_word : (value : ℕ) → symbol_kb_create value ≡ Mask.symbol_kb_zero + value % 2 ^ 32
unfolding symbol_kb_create
kb_word value =
    let s1 = symbol_set_kind 0 Mask.k_b in
    let s2 = symbol_quote s1 in omega (arith, set_kind 0 Mask.k_b, set_quote s1, set_value s2 value)

-- A K_S symbol is unquoted, has its kind, and gives back the argument count, the three parts of the
-- service's name and the opcode, each cut to 8 bits.
symbol_ks_create-fields :
    (nargs sn_id snl_id snc_id opcode : ℕ)
    → let s = symbol_ks_create nargs sn_id snl_id snc_id opcode in
      (symbol_get_kind s ≡ Mask.k_s)
      × (symbol_is_quoted s ≡ false)
      × (symbol_get_nargs s ≡ nargs % 256)
      × (symbol_get_sn_id s ≡ sn_id % 256)
      × (symbol_get_snl_id s ≡ snl_id % 256)
      × (symbol_get_snc_id s ≡ snc_id % 256)
      × (symbol_get_opcode s ≡ opcode % 256)
symbol_ks_create-fields nargs sn_id snl_id snc_id opcode =
    let s = symbol_ks_create nargs sn_id snl_id snc_id opcode in
    let e = ks_word nargs sn_id snl_id snc_id opcode in
    (
      omega (arith, e, get_kind s),
      unquoted s (omega (arith, e)),
      omega (arith, e, get_nargs s),
      omega (arith, e, get_sn_id s),
      omega (arith, e, get_snl_id s),
      omega (arith, e, get_snc_id s),
      omega (arith, e, get_opcode s),
    )

-- A K_R symbol is unquoted, has its kind, and gives back the code address, cut to 16 bits, and the
-- name, cut to 32 bits, whose top byte is the service node.
symbol_kr_create-fields :
    (address name : ℕ)
    → let s = symbol_kr_create address name in
      (symbol_get_kind s ≡ Mask.k_r)
      × (symbol_is_quoted s ≡ false)
      × (symbol_get_address s ≡ address % 65536)
      × (symbol_get_value s ≡ name % 2 ^ 32)
      × (symbol_get_sn_id s ≡ name / 2 ^ 24 % 256)
unfolding symbol_get_value
symbol_kr_create-fields address name =
    let s = symbol_kr_create address name in
    let e = kr_word address name in
    (
      omega (arith, e, get_kind s),
      unquoted s (omega (arith, e)),
      omega (arith, e, get_address s),
      omega (arith, e),
      omega (arith, e, get_sn_id s),
    )

-- A K_B symbol is quoted, has its kind, and gives back its value, cut to 32 bits.
symbol_kb_create-fields :
    (value : ℕ)
    → let s = symbol_kb_create value in
      (symbol_get_kind s ≡ Mask.k_b)
      × (symbol_is_quoted s ≡ true)
      × (symbol_get_value s ≡ value % 2 ^ 32)
unfolding symbol_get_value
symbol_kb_create-fields value =
    let s = symbol_kb_create value in
    let e = kb_word value in
    (omega (arith, e, get_kind s), quoted s (omega (arith, e)), omega (arith, e))

-- The getters give back what a symbol was created with. A K_S symbol is unquoted, has its kind, and
-- gives back the argument count, the three parts of the service's name and the opcode, each cut to 8
-- bits; a K_R symbol is unquoted, has its kind, and gives back the code address, cut to 16 bits, and
-- the name, cut to 32 bits, whose top byte is the service node; a K_B symbol is quoted, has its
-- kind, and gives back its value, cut to 32 bits.
pub symbol_create-fields :
    (nargs sn_id snl_id snc_id opcode address name value : ℕ)
    → let ks = symbol_ks_create nargs sn_id snl_id snc_id opcode in
      let kr = symbol_kr_create address name in
      let kb = symbol_kb_create value in
      ((symbol_get_kind ks ≡ Mask.k_s)
        × (symbol_is_quoted ks ≡ false)
        × (symbol_get_nargs ks ≡ nargs % 256)
        × (symbol_get_sn_id ks ≡ sn_id % 256)
        × (symbol_get_snl_id ks ≡ snl_id % 256)
        × (symbol_get_snc_id ks ≡ snc_id % 256)
        × (symbol_get_opcode ks ≡ opcode % 256))
      × ((symbol_get_kind kr ≡ Mask.k_r)
          × (symbol_is_quoted kr ≡ false)
          × (symbol_get_address kr ≡ address % 65536)
          × (symbol_get_value kr ≡ name % 2 ^ 32)
          × (symbol_get_sn_id kr ≡ name / 2 ^ 24 % 256))
      × ((symbol_get_kind kb ≡ Mask.k_b)
          × (symbol_is_quoted kb ≡ true)
          × (symbol_get_value kb ≡ value % 2 ^ 32))
symbol_create-fields nargs sn_id snl_id snc_id opcode address name value = (
  symbol_ks_create-fields nargs sn_id snl_id snc_id opcode,
  symbol_kr_create-fields address name,
  symbol_kb_create-fields value,
)

-- What a DATA packet stores for the argument at data index `address` is a K_P symbol with that
-- value.
pub kp_fields :
    (address : ℕ)
    → address < 2 ^ 32
    → let s = Mask.symbol_kp_zero + address in
      (symbol_get_kind s ≡ Mask.k_p) × (symbol_get_value s ≡ address)
unfolding symbol_get_value
kp_fields address h =
    let s = Mask.symbol_kp_zero + address in (omega (arith, get_kind s), omega arith)

cleared : (s q : ℕ) → symbol_set_quoted s q ≡ symbol_unquote s
unfolding symbol_set_quoted symbol_unquote put_bits
cleared s q =
    ap (bit_or (bit_and s (complement 64 Mask.quoted_mask)))
      (masked 54 2 (u32 (q << 22)) {mask = Mask.quoted_mask} refl ∙ omega arith)

-- `symbol_set_quoted` clears the quoted field whatever it is asked to set: the shift count of its
-- 32-bit operand leaves no bit under the mask.
pub symbol_set_quoted-never :
    (s q : ℕ)
    → (symbol_set_quoted s q ≡ symbol_unquote s)
      × (symbol_is_quoted (symbol_set_quoted s q) ≡ false)
symbol_set_quoted-never s q = (
  cleared s q,
  ap symbol_is_quoted (cleared s q) ∙ unquoted (symbol_unquote s) (omega (arith, set_unquote s)),
)
