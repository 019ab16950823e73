-- ===== src/Macros.antt =====
-- The constants of include/SharedMacros.h and include/SystemConfiguration.h.
pub mod Pkt
pub mod Method
use ocl_gprm.Base.{ℕ, ◌-◌, ◌*◌}

-- RETURN_ADDRESS: the source of the root reference packet, which is no compute unit
abbrev pub return_address : ℕ
return_address = 255

-- READ and WRITE, as the last operation of a queue
abbrev pub read : ℕ
read = 0

abbrev pub write : ℕ
write = 1

abbrev pub max_bytecode_sz : ℕ
max_bytecode_sz = 32

abbrev pub code_store_size : ℕ
code_store_size = 256 * max_bytecode_sz

abbrev pub subt_size : ℕ
subt_size = 1024 - 1

abbrev pub data_info_offset : ℕ
data_info_offset = 1

abbrev pub nbytes : ℕ
nbytes = 8

abbrev pub buffer_ptr_file_sz : ℕ
buffer_ptr_file_sz = 256

abbrev pub register_file_sz : ℕ
register_file_sz = 256

-- ERROR, REFERENCE and DATA, the packet types
abbrev pub error : ℕ
error = 0

abbrev pub reference : ℕ
reference = 1

abbrev pub data_packet : ℕ
data_packet = 2
