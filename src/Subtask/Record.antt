-- ===== src/Subtask/Record.antt =====
-- include/SharedTypes.h `SubtaskRecord` and kernels/VM.cl "Subtask Record Functions", for
-- MAX_BYTECODE_SZ = 32. The arrays `args` and `arg_status` have 31 elements. A write behind them is
-- left to the callers: only `parse_subtask` can make one, and then the model of it has no result. The
-- position that a data packet brings has 4 bits. Padding is left out.
pub mod ReturnAs
use ocl_gprm.Base.{ℕ, ◌+◌, ◌%◌, u8, u16, u32, get_bits, put_bits, bit_and, Memory, store}

pub record SubtaskRecord : Type 0 where
  pub service_id : ℕ
  pub code_addr : ℕ
  pub args : Memory ℕ
  pub arg_status : Memory ℕ
  pub nargs : ℕ
  pub subt_status : ℕ
  pub nargs_absent : ℕ
  pub return_to : ℕ
  pub return_as : ℕ

-- STS_new, STS_pending and STS_processing, of a record's `subt_status`
abbrev pub sts_new : ℕ
sts_new = 0

abbrev pub sts_pending : ℕ
sts_pending = 1

abbrev pub sts_processing : ℕ
sts_processing = 2

-- DS_absent, DS_present and DS_requested, of an argument
abbrev pub ds_absent : ℕ
ds_absent = 0

abbrev pub ds_present : ℕ
ds_present = 1

abbrev pub ds_requested : ℕ
ds_requested = 2

-- SUBTREC_RETURN_AS_ADDR_... and SUBTREC_RETURN_AS_POS_...
abbrev pub addr_mask : ℕ
addr_mask = 0xFF00

abbrev pub addr_shift : ℕ
addr_shift = 8

abbrev pub pos_mask : ℕ
pos_mask = 0xFF

abbrev pub pos_shift : ℕ
pos_shift = 0

abbrev pub subt_rec_get_arg : SubtaskRecord → ℕ → ℕ
subt_rec_get_arg r arg_pos = r.args arg_pos

abbrev pub subt_rec_get_arg_status : SubtaskRecord → ℕ → ℕ
subt_rec_get_arg_status r arg_pos = r.arg_status arg_pos

unfoldable pub subt_rec_get_return_as_addr : SubtaskRecord → ℕ
subt_rec_get_return_as_addr r = bit_and r.return_as addr_mask

unfoldable pub subt_rec_get_return_as_pos : SubtaskRecord → ℕ
subt_rec_get_return_as_pos r = bit_and r.return_as pos_mask

abbrev pub subt_rec_get_service_id : SubtaskRecord → ℕ
subt_rec_get_service_id r = r.service_id

abbrev pub subt_rec_get_code_addr : SubtaskRecord → ℕ
subt_rec_get_code_addr r = r.code_addr

abbrev pub subt_rec_get_return_to : SubtaskRecord → ℕ
subt_rec_get_return_to r = r.return_to

abbrev pub subt_rec_get_return_as : SubtaskRecord → ℕ
subt_rec_get_return_as r = r.return_as

abbrev pub subt_rec_get_nargs : SubtaskRecord → ℕ
subt_rec_get_nargs r = r.nargs

abbrev pub subt_rec_get_nargs_absent : SubtaskRecord → ℕ
subt_rec_get_nargs_absent r = r.nargs_absent

abbrev pub subt_rec_get_subt_status : SubtaskRecord → ℕ
subt_rec_get_subt_status r = r.subt_status

-- Each setter cuts its value to the field's width.
unfoldable pub subt_rec_set_arg : SubtaskRecord → ℕ → ℕ → SubtaskRecord
subt_rec_set_arg r arg_pos arg = record r { args = store r.args arg_pos arg }

unfoldable pub subt_rec_set_arg_status : SubtaskRecord → ℕ → ℕ → SubtaskRecord
subt_rec_set_arg_status r arg_pos status = record r {
  arg_status = store r.arg_status arg_pos (u8 status);
}

unfoldable pub subt_rec_set_service_id : SubtaskRecord → ℕ → SubtaskRecord
subt_rec_set_service_id r v = record r { service_id = u32 v }

unfoldable pub subt_rec_set_code_addr : SubtaskRecord → ℕ → SubtaskRecord
subt_rec_set_code_addr r v = record r { code_addr = u32 v }

unfoldable pub subt_rec_set_return_to : SubtaskRecord → ℕ → SubtaskRecord
subt_rec_set_return_to r v = record r { return_to = u16 v }

unfoldable pub subt_rec_set_return_as : SubtaskRecord → ℕ → SubtaskRecord
subt_rec_set_return_as r v = record r { return_as = u16 v }

unfoldable pub subt_rec_set_nargs : SubtaskRecord → ℕ → SubtaskRecord
subt_rec_set_nargs r v = record r { nargs = u8 v }

unfoldable pub subt_rec_set_nargs_absent : SubtaskRecord → ℕ → SubtaskRecord
subt_rec_set_nargs_absent r v = record r { nargs_absent = u8 v }

unfoldable pub subt_rec_set_subt_status : SubtaskRecord → ℕ → SubtaskRecord
subt_rec_set_subt_status r v = record r { subt_status = u8 v }

unfoldable pub subt_rec_incr_nargs_absent : SubtaskRecord → SubtaskRecord
subt_rec_incr_nargs_absent r = record r { nargs_absent = u8 (r.nargs_absent + 1) }

unfoldable pub subt_rec_set_return_as_addr : SubtaskRecord → ℕ → SubtaskRecord
subt_rec_set_return_as_addr r return_as_addr = record r {
  return_as = u16 (put_bits 32 addr_mask addr_shift r.return_as return_as_addr);
}

unfoldable pub subt_rec_set_return_as_pos : SubtaskRecord → ℕ → SubtaskRecord
subt_rec_set_return_as_pos r return_as_pos = record r {
  return_as = u16 (put_bits 32 pos_mask pos_shift r.return_as return_as_pos);
}
