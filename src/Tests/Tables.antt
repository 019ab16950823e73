-- ===== src/Tests/Tables.antt =====
-- A table of subtasks before the first launch, and a subtask whose code adds 4 to a result.
use mathlib.Core.List.{Mem}
use mathlib.Core.List.Perm
use ocl_gprm.Base.{
  inl, inr, u32, ◌≤◌, ◌<◌, ℕ, ◌-◌, ◌*◌, ◌%◌, ◌≡◌, ◌⊎◌, refl, arith, true, false, none, some, Memory,
  [], ◌∷◌, length, ◌==◌, if◌then◌else◌,
}
use ocl_gprm.Macros.{subt_size, max_bytecode_sz}
use ocl_gprm.Packet.{Packet}
use ocl_gprm.Symbol.{
  symbol_ks_create, symbol_kr_create, symbol_kb_create, symbol_get_kind, symbol_get_nargs,
  symbol_get_sn_id, symbol_is_quoted, symbol_set_kind, symbol_unquote, symbol_quote,
  symbol_set_nargs, symbol_set_sn_id, symbol_set_snl_id, symbol_set_snc_id, symbol_set_opcode,
  symbol_set_address, symbol_set_value,
}
use ocl_gprm.WorkItem.{WorkItem}
use ocl_gprm.Subtask.Record.{
  SubtaskRecord, subt_rec_get_return_as_addr, subt_rec_get_return_as_pos,
  subt_rec_set_return_as_addr, subt_rec_set_return_as_pos,
}
use ocl_gprm.Subtask.Record.ReturnAs.{return_as-fields}
use ocl_gprm.Subtask.Table.{SubtaskTable, subt_pop, subt_push, subt_set_top, subt_is_full}
use ocl_gprm.Subtask.Table.Stack.{available, IsStack, subt_pop_refines, subt_push_refines}
use ocl_gprm.Subtask.Table.Alloc.{all_records, Allocated, subt_pop-Allocated, subt_push-Allocated}
use ocl_gprm.Kernel.Parse.{destination, parse_subtask}
use ocl_gprm.Kernel.Parse.Created.{Created, parse_subtask-Created}
use ocl_gprm.Base.{ap, inl, inr, get_bits, put_bits}
use ocl_gprm.Queue.{q_get_head_index, q_get_tail_index}
use ocl_gprm.Queue.Frame.{AllValid}
use ocl_gprm.Subtask.Table.Stack.{length-entries}
use ocl_gprm.Kernel.Parse.Requests.{HasSent, request, all_requests, parse_subtask-HasSent}
use ocl_gprm.Host.Setup.{pkt_base_init}

abbrev record_5 : SubtaskRecord
record_5 = record {
  service_id = 0;
  code_addr = 0;
  args = λ k. 0;
  arg_status = λ k. 0;
  nargs = 2;
  subt_status = 0;
  nargs_absent = 2;
  return_to = 0;
  return_as = 0;
}

abbrev garbage : SubtaskTable
garbage = record { recs = λ i. record_5; av_recs = λ i. 77 }

-- What `create_subtask` makes, written as a function.
abbrev new_table : SubtaskTable
new_table = record { recs = λ i. record_5; av_recs = λ i. if i == 0 then 1 else i - 1 }

new_table-IsStack : IsStack new_table
new_table-IsStack = omega arith

new_table-Allocated : Allocated [] new_table
unfolding all_records
new_table-Allocated = Perm.refl (available new_table)

return_as-fields_example :
    let r' = subt_rec_set_return_as_pos (subt_rec_set_return_as_addr record_5 7) 3 in
    (subt_rec_get_return_as_pos r' ≡ 3 % 256) × (subt_rec_get_return_as_addr r' ≡ 7 % 256 * 256)
return_as-fields_example = return_as-fields record_5 7 3

subt_pop_refines_example :
    ((available new_table ≡ []) × (subt_pop new_table ≡ none))
    ⊎ ((i : ℕ) × (t' : SubtaskTable) × (subt_pop new_table ≡ some (i, t'))
        × (available new_table ≡ i ∷ available t')
        × (t'.recs ≡ new_table.recs)
        × IsStack t')
subt_pop_refines_example = subt_pop_refines new_table new_table-IsStack

abbrev popped : SubtaskTable
popped = subt_set_top new_table 2

pop-new : subt_pop new_table ≡ some (0, popped)
unfolding subt_pop subt_is_full
pop-new = refl

subt_pop-Allocated_example : (¬ Mem {A = ℕ} 0 []) × Allocated (0 ∷ []) popped × IsStack popped
subt_pop-Allocated_example =
    subt_pop-Allocated [] new_table new_table-IsStack 0 popped new_table-Allocated pop-new

subt_push-Allocated_example :
    (t' : SubtaskTable) × (subt_push 0 popped ≡ (true, t')) × Allocated [] t' × IsStack t'
subt_push-Allocated_example =
    subt_push-Allocated [] popped subt_pop-Allocated_example.2 0 subt_pop-Allocated_example.1

subt_push_refines_example :
    ((length (available new_table) ≡ subt_size) × (subt_push 4 new_table ≡ (false, new_table)))
    ⊎ ((t' : SubtaskTable) × (subt_push 4 new_table ≡ (true, t'))
        × (available t' ≡ 4 ∷ available new_table)
        × (t'.recs ≡ new_table.recs)
        × IsStack t')
subt_push_refines_example = subt_push_refines new_table new_table-IsStack 4

-- At code address 1: a service with two arguments, the result of the code at address 2, and 4.
abbrev code : Memory ℕ
code i =
    if i == 32
    then symbol_ks_create 2 1 3 1 2
    else if i == 33
    then symbol_kr_create 2 0x01030102
    else symbol_kb_create 4

abbrev worker : WorkItem
worker = record {
  group_id = 0;
  num_groups = 2;
  local_id = 0;
  local_size = 1;
  global_id = 0;
  nth = 1;
  uninit = pkt_base_init;
}

abbrev no_packets : Memory Packet
no_packets i = pkt_base_init

parse_subtask-Created_example :
    (((available new_table ≡ [])
        ⊎ (max_bytecode_sz ≤ symbol_get_nargs (code (u32 (1 * max_bytecode_sz)))))
      × (parse_subtask worker 1 3 7 1 2 code no_packets new_table ≡ none))
    ⊎ ((i : ℕ) × (rq' : Memory Packet) × (t' : SubtaskTable) × (parse_subtask worker 1 3 7 1 2 code
            no_packets new_table
          ≡ some (i, rq', t'))
        × (available new_table ≡ i ∷ available t')
        × IsStack t'
        × (symbol_get_nargs (code (u32 (1 * max_bytecode_sz))) < max_bytecode_sz)
        × Created code 1 3 7 1 i new_table.recs t')
parse_subtask-Created_example =
    parse_subtask-Created worker 1 3 7 1 2 code no_packets new_table new_table-IsStack

no_packets-AllValid : AllValid no_packets 2
unfolding q_get_head_index q_get_tail_index
no_packets-AllValid a b ha hb = record {
  head_in = omega arith;
  tail_in = omega arith;
  last_op = omega arith;
}

two_arguments : symbol_get_nargs (code (u32 (1 * max_bytecode_sz))) ≡ 2
unfolding symbol_get_nargs get_bits put_bits symbol_ks_create symbol_set_kind symbol_unquote
    symbol_set_nargs symbol_set_sn_id symbol_set_snl_id symbol_set_snc_id symbol_set_opcode
two_arguments = refl

parsed :
    (i : ℕ) × (rq' : Memory Packet) × (t' : SubtaskTable) × (parse_subtask worker 1 3 7 1 2 code
        no_packets new_table
      ≡ some (i, rq', t'))
parsed = elim (parse_subtask-Created worker 1 3 7 1 2 code no_packets new_table new_table-IsStack) [
  | inl (inl nothing, _) ↦
      absurd (omega (arith, length-entries new_table.av_recs 1 subt_size, ap length nothing))
  | inl (inr more, _) ↦ absurd (omega (arith, more, two_arguments))
  | inr (i, rq', t', e, _, _, _, _) ↦ (i, rq', t', e)
]

parse_subtask-HasSent_example :
    HasSent 0 2 (all_requests worker 2 code 1 parsed.0) no_packets parsed.1
parse_subtask-HasSent_example =
    parse_subtask-HasSent worker 1 3 7 1 2 code no_packets new_table (omega arith)
      no_packets-AllValid new_table-IsStack parsed.3

-- The one request goes to unit 0, whose service node is 1.
requested :
    (all_requests worker 2 code 1 0 0 ≡ request worker 0 0 (code 33) ∷ [])
    × (all_requests worker 2 code 1 0 1 ≡ [])
unfolding destination symbol_get_kind symbol_get_nargs symbol_get_sn_id symbol_is_quoted get_bits
    put_bits symbol_ks_create symbol_kr_create symbol_kb_create symbol_set_kind symbol_unquote
    symbol_quote symbol_set_nargs symbol_set_sn_id symbol_set_snl_id symbol_set_snc_id
    symbol_set_opcode symbol_set_address symbol_set_value
requested = (refl, refl)
