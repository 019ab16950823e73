-- ===== src/Kernel/Parse.antt =====
-- kernels/VM.cl `parse_subtask`: a new subtask record from the code at an address, and request
-- packets for the arguments that others have to compute.
pub mod Laws
pub mod Created
pub mod Requests
use ocl_gprm.Base.{
  ℕ, zero, suc, ◌+◌, ◌-◌, ◌*◌, ◌%◌, ◌^◌, Bool, true, false, Option, none, some, ◌==◌, ltb,
  if◌then◌else◌, u32, Memory, store,
}
use ocl_gprm.Macros.{reference, max_bytecode_sz}
use ocl_gprm.WorkItem.{WorkItem}
use ocl_gprm.Packet.{Packet, pkt_create}
use ocl_gprm.Symbol.Mask
use ocl_gprm.Symbol.{
  symbol_get_kind, symbol_get_service, symbol_get_nargs, symbol_get_address, symbol_get_sn_id,
  symbol_is_quoted,
}
use ocl_gprm.Queue.{q_write}
use ocl_gprm.Subtask.Record.{
  SubtaskRecord, sts_new, sts_processing, sts_pending, ds_absent, ds_requested,
  subt_rec_set_service_id, subt_rec_set_code_addr, subt_rec_set_subt_status, subt_rec_set_nargs,
  subt_rec_set_nargs_absent, subt_rec_set_return_to, subt_rec_set_return_as_addr,
  subt_rec_set_return_as_pos, subt_rec_set_arg_status,
}
use ocl_gprm.Subtask.Table.{SubtaskTable, update_rec, subt_pop, subt_store_symbol}

-- The setters before the loop over the arguments, on the record that was popped.
unfoldable pub new_record : ℕ → ℕ → ℕ → ℕ → ℕ → SubtaskRecord → SubtaskRecord
new_record symbol source arg_pos subtask address rec =
    let nargs = symbol_get_nargs symbol in
    let r1 = subt_rec_set_service_id rec (symbol_get_service symbol) in
    let r2 = subt_rec_set_code_addr r1 address in
    let r3 = subt_rec_set_subt_status r2 sts_new in
    let r4 = subt_rec_set_nargs r3 nargs in
    let r5 = subt_rec_set_nargs_absent r4 nargs in
    let r6 = subt_rec_set_return_to r5 source in
    let r7 = subt_rec_set_return_as_addr r6 subtask in
    let r8 = subt_rec_set_return_as_pos r7 arg_pos in subt_rec_set_subt_status r8 sts_processing

-- Where the request for a reference goes: service node 1 is compute unit 0.
unfoldable pub destination : ℕ → ℕ → ℕ
destination symbol n = u32 (symbol_get_sn_id symbol + 2 ^ 32 - 1) % n

-- One round of the loop: the argument `arg_pos` of record `i`, given by `symbol`.
unfoldable pub parse_arg :
    WorkItem → ℕ → ℕ → ℕ → ℕ → Memory Packet → SubtaskTable → Memory Packet × SubtaskTable
parse_arg w i n arg_pos symbol rq table =
    let t1 = update_rec i (λ r. subt_rec_set_arg_status r arg_pos ds_absent) table in
    let stored = subt_store_symbol symbol arg_pos i t1 in
    let p = pkt_create w.uninit reference w.group_id arg_pos i (symbol_get_address symbol) in
    let rq1 = (q_write p w.group_id (destination symbol n) rq n).1 in
    let requested = update_rec i (λ r. subt_rec_set_arg_status r arg_pos ds_requested) t1 in
    if symbol_get_kind symbol == Mask.k_r
    then (if symbol_is_quoted symbol then (rq, stored) else (rq1, requested))
    else if symbol_get_kind symbol == Mask.k_b
    then (rq, stored)
    else (rq, t1)

-- The loop from `arg_pos` on, with `left` rounds to go.
unfoldable pub parse_args :
    ℕ
    → WorkItem
    → ℕ
    → ℕ
    → Memory ℕ
    → ℕ
    → ℕ
    → Memory Packet
    → SubtaskTable
    → Memory Packet × SubtaskTable
parse_args zero w i n c_store address arg_pos rq table = (rq, table)
parse_args (suc left) w i n c_store address arg_pos rq table =
    let symbol = c_store (u32 (address * max_bytecode_sz + arg_pos + 1)) in
    let (rq1, t1) = parse_arg w i n arg_pos symbol rq table in
    parse_args left w i n c_store address (arg_pos + 1) rq1 t1

-- The index of the new record, the transfer queues and the table; `none` where no record is
-- available, since the code then waits for ever, and where there are more arguments than the
-- MAX_BYTECODE_SZ - 1 elements of the record's arrays, since the loop then writes behind them.
unfoldable pub parse_subtask :
    WorkItem
    → ℕ
    → ℕ
    → ℕ
    → ℕ
    → ℕ
    → Memory ℕ
    → Memory Packet
    → SubtaskTable
    → Option (ℕ × Memory Packet × SubtaskTable)
parse_subtask w source arg_pos subtask address n c_store rq table = elim (subt_pop table) [
  | none ↦ none
  | some (i, t1) ↦
      let symbol = c_store (u32 (address * max_bytecode_sz)) in
      let t2 = update_rec i (new_record symbol source arg_pos subtask address) t1 in
      let (rq', t3) = parse_args (symbol_get_nargs symbol) w i n c_store address 0 rq t2 in
      if ltb (max_bytecode_sz - 1) (symbol_get_nargs symbol)
      then none
      else some (i, rq', update_rec i (λ r. subt_rec_set_subt_status r sts_pending) t3)
]
