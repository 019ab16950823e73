-- ===== src/Macros/Method.antt =====
-- M_OclGPRM_... of include/SystemConfiguration.h: the opcodes that `service_compute` tells apart.
use ocl_gprm.Base.{ℕ}

abbrev pub test_report : ℕ
test_report = 66817

abbrev pub mem_ptr : ℕ
mem_ptr = 65793

abbrev pub mem_const : ℕ
mem_const = 65794

abbrev pub reg_write : ℕ
reg_write = 67073

abbrev pub reg_read : ℕ
reg_read = 67074

abbrev pub ctrl_begin : ℕ
ctrl_begin = 66561

abbrev pub ctrl_if : ℕ
ctrl_if = 66562

abbrev pub mat_mult : ℕ
mat_mult = 66049

abbrev pub mat_add : ℕ
mat_add = 66050

abbrev pub mat_unit : ℕ
mat_unit = 66052
