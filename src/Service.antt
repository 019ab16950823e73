-- ===== src/Service.antt =====
-- kernels/VM.cl `service_compute` and "GPRM KERNEL API": the services that a subtask can ask for.
-- Addresses are indices of the data buffer. Loops run on the rounds left.
pub mod Matrix
pub mod Report
use ocl_gprm.Base.{
  ℕ, zero, suc, ◌+◌, ◌-◌, ◌*◌, ◌/◌, ◌%◌, ◌^◌, Bool, true, false, ◌&&◌, ◌||◌, ◌==◌, if◌then◌else◌,
  u32, u64, ◌<<◌, bit_and, Memory, store,
}
use ocl_gprm.Macros.{data_info_offset, buffer_ptr_file_sz}
use ocl_gprm.Macros.Method
use ocl_gprm.WorkItem.{WorkItem}
use ocl_gprm.Symbol.Mask
use ocl_gprm.Symbol.{
  symbol_get_kind, symbol_get_value, symbol_is_quoted, symbol_get_snl_id, symbol_get_snc_id,
  symbol_get_opcode,
}
use ocl_gprm.Subtask.Record.{SubtaskRecord, subt_rec_get_arg, subt_rec_get_service_id}
use Matrix.{matmult_kernel, mat_add, mat_unit}

unfoldable pub get_arg_value : ℕ → SubtaskRecord → ℕ
get_arg_value arg_pos rec =
    let symbol = subt_rec_get_arg rec arg_pos in
    let kind = symbol_get_kind symbol in
    let value = symbol_get_value symbol in
    if kind == Mask.k_r
    then symbol
    else if kind == Mask.k_b || kind == Mask.k_p
    then value
    else symbol

abbrev pub get_nargs : SubtaskRecord → ℕ
get_nargs rec = rec.nargs

unfoldable pub is_quoted_ref : ℕ → SubtaskRecord → Bool
is_quoted_ref arg_pos rec =
    let symbol = subt_rec_get_arg rec arg_pos in
    symbol_get_kind symbol == Mask.k_r && symbol_is_quoted symbol

-- Each work-item of each group writes four words of its own. Of an index only `4*NTH*idx` is a uint.
unfoldable pub report : WorkItem → Memory ℕ → ℕ → ℕ → Memory ℕ
report w mem res_array idx =
    let at = res_array + (u32 (4 * w.nth * idx) + 4 * w.local_id) in
    let d1 = store mem at (u32 w.global_id) in
    let d2 = store d1 (at + 1) (u32 w.local_id) in
    let d3 = store d2 (at + 2) (u32 w.group_id) in store d3 (at + 3) (u32 idx)

-- M_OclGPRM_CTRL_if: the chosen argument, or the reference to it with its opcode replaced.
unfoldable pub ctrl_if : SubtaskRecord → ℕ
ctrl_if rec =
    let pred = u32 (get_arg_value 0 rec) in
    let condval = bit_and pred 0x1 in
    let argidx = 2 - condval in
    let value = get_arg_value argidx rec in
    if is_quoted_ref argidx rec
    then u64 (bit_and value 0xFFFFFFFFFFFFFF00 + (argidx << 4) + 1)
    else value

-- The service number, from the three parts of the service's name.
unfoldable pub service_number : ℕ → ℕ
service_number service_details =
    let library = symbol_get_snl_id service_details in
    let class = symbol_get_snc_id service_details in
    let method = symbol_get_opcode service_details in u32 ((library << 16) + (class << 8) + method)

-- The registers stand behind the buffer pointers.
abbrev pub register : ℕ → ℕ
register i = u64 (i + data_info_offset + buffer_ptr_file_sz)

-- The result, and the data buffer afterwards.
unfoldable pub service_compute : WorkItem → SubtaskRecord → Memory ℕ → ℕ × Memory ℕ
service_compute w rec mem =
    let service = service_number (subt_rec_get_service_id rec) in
    let arg = λ (i : ℕ). get_arg_value i rec in
    if service == Method.mat_mult
    then (arg 2, matmult_kernel w (arg 0) (arg 1) (arg 2) (u32 (arg 3)) mem)
    else if service == Method.mat_add
    then (arg 2, mat_add (arg 0) (arg 1) (arg 2) (u32 (arg 3)) mem)
    else if service == Method.mat_unit
    then (arg 0, mat_unit (arg 0) (u32 (arg 1)) mem)
    else if service == Method.mem_ptr
    then (mem (data_info_offset + u32 (arg 0)), mem)
    else if service == Method.mem_const
    then (mem (u64 (arg 0 + data_info_offset)), mem)
    else if service == Method.reg_read
    then (mem (register (arg 0)), mem)
    else if service == Method.reg_write
    then (arg 1, store mem (register (arg 0)) (u32 (arg 1)))
    else if service == Method.ctrl_begin
    then (arg (u32 (get_nargs rec + 2 ^ 64 - 1)), mem)
    else if service == Method.test_report
    then (arg 0, report w mem (arg 0) (u32 (arg 1)))
    else if service == Method.ctrl_if
    then (ctrl_if rec, mem)
    else (0, mem)
