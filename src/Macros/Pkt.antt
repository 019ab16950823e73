-- ===== src/Macros/Pkt.antt =====
-- PKT_... of include/SharedMacros.h: positions of the fields in a packet's first word.
use ocl_gprm.Base.{ℕ}

abbrev pub type_mask : ℕ
type_mask = 0x3

abbrev pub type_shift : ℕ
type_shift = 0

abbrev pub src_mask : ℕ
src_mask = 0x3FC

abbrev pub src_shift : ℕ
src_shift = 2

abbrev pub arg_mask : ℕ
arg_mask = 0x3C00

abbrev pub arg_shift : ℕ
arg_shift = 10

abbrev pub sub_mask : ℕ
sub_mask = 0xFFC000

abbrev pub sub_shift : ℕ
sub_shift = 14

abbrev pub ptype_mask : ℕ
ptype_mask = 0x1000000

abbrev pub ptype_shift : ℕ
ptype_shift = 24
