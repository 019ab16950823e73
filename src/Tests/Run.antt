-- ===== src/Tests/Run.antt =====
-- Whole runs, from the bytes of a bytecode file to the end of the launches.
use ocl_gprm.Base.{
  ℕ, zero, suc, ◌+◌, ◌*◌, ◌^◌, ◌≡◌, refl, Option, none, some, Memory, List, [], ◌∷◌,
}
use ocl_gprm.Kernel.{State, complete}
use ocl_gprm.Kernel.Launch.{Device}
use ocl_gprm.Host.Setup.{pkt_base_init}
use ocl_gprm.Host.Loop.{nd_range, toggled}
use ocl_gprm.Packet.{
  pkt_get_type, pkt_get_source, pkt_get_arg_pos, pkt_get_sub, pkt_get_payload, pkt_set_type,
  pkt_set_source, pkt_set_arg_pos, pkt_set_sub, pkt_set_payload_type, pkt_set_payload, pkt_create,
}
use ocl_gprm.Symbol.{
  symbol_get_kind, symbol_get_service, symbol_get_nargs, symbol_get_address, symbol_get_sn_id,
  symbol_is_quoted, symbol_get_value, symbol_get_snl_id, symbol_get_snc_id, symbol_get_opcode,
}
use ocl_gprm.Queue.{
  q_read, q_write, q_get_head_index, q_get_tail_index, q_set_head_index, q_set_tail_index,
  q_is_empty, q_is_full, q_set_last_op, q_last_op_is_read, q_last_op_is_write,
}
use ocl_gprm.Queue.Transfer.{
  q_transfer, transfer_from, transfer_queue, computation_complete, rows_complete, row_complete,
}
use ocl_gprm.Subtask.Record.{
  subt_rec_get_return_as_addr, subt_rec_get_return_as_pos, subt_rec_set_arg,
  subt_rec_set_arg_status, subt_rec_set_service_id, subt_rec_set_code_addr, subt_rec_set_return_to,
  subt_rec_set_nargs, subt_rec_set_nargs_absent, subt_rec_set_subt_status,
  subt_rec_set_return_as_addr, subt_rec_set_return_as_pos,
}
use ocl_gprm.Subtask.Table.{
  subt_set_top, subt_is_full, subt_is_empty, subt_push, subt_pop, subt_cleanup, store_symbol,
  subt_store_symbol, subt_is_ready,
}
use ocl_gprm.Service.{get_arg_value, service_number, service_compute}
use ocl_gprm.Kernel.Parse.{new_record, destination, parse_arg, parse_args, parse_subtask}
use ocl_gprm.Kernel.{
  parse_in_step, vm, vm_read, vm_write, read_from, read_queue, parse_pkt, parse_reference,
  parse_data, send_result,
}
use ocl_gprm.Kernel.Launch.{launch, run_item}
use ocl_gprm.Macros.Method
use ocl_gprm.Base.{length}
use ocl_gprm.Service.{register}
use ocl_gprm.Host.Loop.{upload}
use ocl_gprm.Host.Main.{prepare, prepare_arrays, create_tables}
use ocl_gprm.Host.Stream.{read_bytecode, read_words, read_word, get}
use ocl_gprm.Host.Stream.RoundTrip.{file}
use ocl_gprm.Host.Packets.RoundTrip.{Source, body}
use ocl_gprm.Host.Packets.{words2packets, read_packets, take_words, packet_length, read_packet}
use ocl_gprm.Host.CodeStore.{populate_code_store, load_packets, load_words, load_word}
use ocl_gprm.Tests.Programs.{fresh_arrays, empty_store}
use ocl_gprm.Host.Setup.{
  init_read_queues, create_subtask, fill_stack, init_queues, clear_from, toggle_state,
}
use ocl_gprm.Host.Loop.{threads, groups}
use ocl_gprm.Base.{store, get_bits, put_bits}

-- Writes 5, which unit 1 computes from the code at address 2, to register 3.
abbrev written : List Source
written =
    record {
      type = 0x0200;
      low = 0;
      second = 0;
      third = 2 ^ 32;
      payload =
          (2 * 2 ^ 32 + Method.reg_write)
          ∷ (6 * 2 ^ 60 + 3)
          ∷ (4 * 2 ^ 60 + 2 * 2 ^ 32 + 2 * 2 ^ 24)
          ∷ [];
    }
    ∷ record {
      type = 0x0200;
      low = 0;
      second = 0;
      third = 2 * 2 ^ 32;
      payload = (2 ^ 32 + Method.ctrl_begin) ∷ (6 * 2 ^ 60 + 5) ∷ [];
    }
    ∷ record { type = 0x0300; low = 0; second = 0; third = 2 ^ 32; payload = [] }
    ∷ []

-- The same, but with two steps in between: unit 0 has the code at address 2, which asks unit 1 for the
-- code at address 3, which asks for the 5 in turn. The record that asks unit 1 is not the first of its
-- table.
abbrev nested : List Source
nested =
    record {
      type = 0x0200;
      low = 0;
      second = 0;
      third = 2 ^ 32;
      payload =
          (2 * 2 ^ 32 + Method.reg_write)
          ∷ (6 * 2 ^ 60 + 3)
          ∷ (4 * 2 ^ 60 + 2 * 2 ^ 32 + 2 ^ 24)
          ∷ [];
    }
    ∷ record {
      type = 0x0200;
      low = 0;
      second = 0;
      third = 2 * 2 ^ 32;
      payload = (2 ^ 32 + Method.ctrl_begin) ∷ (4 * 2 ^ 60 + 3 * 2 ^ 32 + 2 * 2 ^ 24) ∷ [];
    }
    ∷ record {
      type = 0x0200;
      low = 0;
      second = 0;
      third = 3 * 2 ^ 32;
      payload = (2 ^ 32 + Method.ctrl_begin) ∷ (4 * 2 ^ 60 + 4 * 2 ^ 32 + 2 * 2 ^ 24) ∷ [];
    }
    ∷ record {
      type = 0x0200;
      low = 0;
      second = 0;
      third = 4 * 2 ^ 32;
      payload = (2 ^ 32 + Method.ctrl_begin) ∷ (6 * 2 ^ 60 + 5) ∷ [];
    }
    ∷ record { type = 0x0300; low = 0; second = 0; third = 2 ^ 32; payload = [] }
    ∷ []

-- One launch, and `k` rounds of the loop, also where the state has become COMPLETE.
abbrev one : Memory ℕ → Device → Option Device
one c_store d = launch (nd_range 2 1 (λ a b. pkt_base_init)) 2 c_store d

abbrev rounds : Memory ℕ → ℕ → Device → Option Device
rounds c_store zero d = some d
rounds c_store (suc k) d = elim (one c_store d) [
  | none ↦ none
  | some d' ↦ rounds c_store k (toggled d')
]

-- The state after `k` rounds, and what register 3 holds.
abbrev run_of : ℕ → List Source → Option (State × ℕ)
run_of k program =
    elim (prepare 2 (some (file ((length program * 2 ^ 48) ∷ body program))) fresh_arrays) [
      | none ↦ none
      | some p ↦ elim (rounds p.code_store k (upload p empty_store)) [
        | none ↦ none
        | some d ↦ some (d.state, d.mem (register 3))
      ]
    ]

six_rounds : run_of 6 written ≡ some (complete, 5)
unfolding pkt_get_type pkt_get_source pkt_get_arg_pos pkt_get_sub pkt_get_payload pkt_set_type
    pkt_set_source pkt_set_arg_pos pkt_set_sub pkt_set_payload_type pkt_set_payload pkt_create
    symbol_get_kind symbol_get_service symbol_get_nargs symbol_get_address symbol_get_sn_id
    symbol_is_quoted symbol_get_value symbol_get_snl_id symbol_get_snc_id symbol_get_opcode q_read
    q_write q_get_head_index q_get_tail_index q_set_head_index q_set_tail_index q_is_empty q_is_full
    q_set_last_op q_last_op_is_read q_last_op_is_write q_transfer transfer_from transfer_queue
    computation_complete rows_complete row_complete subt_rec_get_return_as_addr
    subt_rec_get_return_as_pos subt_rec_set_arg subt_rec_set_arg_status subt_rec_set_service_id
    subt_rec_set_code_addr subt_rec_set_return_to subt_rec_set_nargs subt_rec_set_nargs_absent
    subt_rec_set_subt_status subt_rec_set_return_as_addr subt_rec_set_return_as_pos subt_set_top
    subt_is_full subt_is_empty subt_push subt_pop subt_cleanup store_symbol subt_store_symbol
    subt_is_ready get_arg_value service_number service_compute new_record destination parse_arg
    parse_args parse_subtask parse_in_step vm vm_read vm_write read_from read_queue parse_pkt
    parse_reference parse_data send_result launch run_item init_queues clear_from toggle_state
    threads groups store get_bits put_bits prepare prepare_arrays create_tables read_bytecode
    read_words read_word words2packets read_packets take_words populate_code_store load_packets
    load_words load_word init_read_queues create_subtask fill_stack get packet_length read_packet
six_rounds = refl

-- The run ends, and register 3 has not been written: the answer of the code at address 3 has gone to
-- record 256 instead of record 1.
nested_lost : run_of 12 nested ≡ some (complete, 0)
unfolding pkt_get_type pkt_get_source pkt_get_arg_pos pkt_get_sub pkt_get_payload pkt_set_type
    pkt_set_source pkt_set_arg_pos pkt_set_sub pkt_set_payload_type pkt_set_payload pkt_create
    symbol_get_kind symbol_get_service symbol_get_nargs symbol_get_address symbol_get_sn_id
    symbol_is_quoted symbol_get_value symbol_get_snl_id symbol_get_snc_id symbol_get_opcode q_read
    q_write q_get_head_index q_get_tail_index q_set_head_index q_set_tail_index q_is_empty q_is_full
    q_set_last_op q_last_op_is_read q_last_op_is_write q_transfer transfer_from transfer_queue
    computation_complete rows_complete row_complete subt_rec_get_return_as_addr
    subt_rec_get_return_as_pos subt_rec_set_arg subt_rec_set_arg_status subt_rec_set_service_id
    subt_rec_set_code_addr subt_rec_set_return_to subt_rec_set_nargs subt_rec_set_nargs_absent
    subt_rec_set_subt_status subt_rec_set_return_as_addr subt_rec_set_return_as_pos subt_set_top
    subt_is_full subt_is_empty subt_push subt_pop subt_cleanup store_symbol subt_store_symbol
    subt_is_ready get_arg_value service_number service_compute new_record destination parse_arg
    parse_args parse_subtask parse_in_step vm vm_read vm_write read_from read_queue parse_pkt
    parse_reference parse_data send_result launch run_item init_queues clear_from toggle_state
    threads groups store get_bits put_bits prepare prepare_arrays create_tables read_bytecode
    read_words read_word words2packets read_packets take_words populate_code_store load_packets
    load_words load_word init_read_queues create_subtask fill_stack get packet_length read_packet
nested_lost = refl
