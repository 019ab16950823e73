-- ===== src/Symbol/Mask.antt =====
-- SYMBOL_..._MASK and _SHIFT of kernels/VM.cl, and the kinds of symbols.
use ocl_gprm.Base.{ℕ}

abbrev pub kind_mask : ℕ
kind_mask = 0xF000000000000000

abbrev pub kind_shift : ℕ
kind_shift = 60

abbrev pub quoted_mask : ℕ
quoted_mask = 0xC0000000000000

abbrev pub quoted_shift : ℕ
quoted_shift = 54

abbrev pub address_mask : ℕ
address_mask = 0xFFFF00000000

abbrev pub address_shift : ℕ
address_shift = 32

abbrev pub nargs_mask : ℕ
nargs_mask = 0xFF00000000

abbrev pub nargs_shift : ℕ
nargs_shift = 32

abbrev pub service_mask : ℕ
service_mask = 0xFFFFFFFF

abbrev pub service_shift : ℕ
service_shift = 0

abbrev pub sn_id_mask : ℕ
sn_id_mask = 0xFF000000

abbrev pub sn_id_shift : ℕ
sn_id_shift = 24

abbrev pub snl_id_mask : ℕ
snl_id_mask = 0xFF0000

abbrev pub snl_id_shift : ℕ
snl_id_shift = 16

abbrev pub snc_id_mask : ℕ
snc_id_mask = 0xFF00

abbrev pub snc_id_shift : ℕ
snc_id_shift = 8

abbrev pub opcode_mask : ℕ
opcode_mask = 0xFF

abbrev pub opcode_shift : ℕ
opcode_shift = 0

abbrev pub value_mask : ℕ
value_mask = 0xFFFFFFFF

abbrev pub value_shift : ℕ
value_shift = 0

abbrev pub nargs_fw : ℕ
nargs_fw = 0xFF

-- A symbol from which a subtask record is created.
abbrev pub k_s : ℕ
k_s = 0

-- A reference to code.
abbrev pub k_r : ℕ
k_r = 4

-- A value.
abbrev pub k_b : ℕ
k_b = 6

-- An index of data memory.
abbrev pub k_p : ℕ
k_p = 8

abbrev pub symbol_kb_zero : ℕ
symbol_kb_zero = 0x6040000000000000

abbrev pub symbol_kp_zero : ℕ
symbol_kp_zero = 0x8000000000000000
