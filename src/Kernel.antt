-- ===== src/Kernel.antt =====
-- kernels/VM.cl `vm`, `parse_pkt` and `parse_subtask`: what one work-item does in one launch.
-- `none` stands for a work-item that does not return, or that writes behind the arrays of a subtask
-- record, which have no room for all arguments of its code.
pub mod Parse
pub mod Progress
pub mod ReadPhase
pub mod WritePhase
pub mod Launch
pub mod Sound
pub mod Network
use ocl_gprm.Base.{
  ℕ, zero, suc, ◌+◌, ◌-◌, ◌*◌, ◌%◌, ◌^◌, Bool, true, false, Option, none, some, ◌==◌, ltb,
  if◌then◌else◌, u32, Memory, store,
}
use ocl_gprm.Macros.{return_address, reference, data_packet, max_bytecode_sz, subt_size}
use ocl_gprm.WorkItem.{WorkItem}
use ocl_gprm.Packet.{
  Packet, pkt_create, pkt_get_type, pkt_get_source, pkt_get_arg_pos, pkt_get_sub, pkt_get_payload,
}
use ocl_gprm.Symbol.Mask
use ocl_gprm.Queue.{q_read, q_write}
use ocl_gprm.Queue.Transfer.{q_transfer, computation_complete}
use ocl_gprm.Subtask.Record.{
  SubtaskRecord, subt_rec_get_return_to, subt_rec_get_return_as_addr, subt_rec_get_return_as_pos,
}
use ocl_gprm.Subtask.Table.{
  SubtaskTable, subt_get_rec, subt_store_symbol, subt_is_ready, subt_cleanup,
}
use ocl_gprm.Service.{service_compute}
use Parse.{parse_subtask}

-- The global memory that parsing a packet changes: the transfer queues, the table of the work-item's
-- group, and the data buffer.
pub record Global : Type 0 where
  pub rq : Memory Packet
  pub table : SubtaskTable
  pub mem : Memory ℕ

-- `if (th_id==0)`: the result goes to `return_to`, and the record is freed.
unfoldable pub send_result : WorkItem → ℕ → ℕ → ℕ → ℕ → ℕ → ℕ → Global → Global
send_result w n return_to pos addr result i g =
    let p = pkt_create w.uninit data_packet w.group_id pos addr (u32 result) in
    record g { rq = (q_write p w.group_id return_to g.rq n).1; table = subt_cleanup i g.table }

-- `case REFERENCE`
unfoldable pub parse_reference : WorkItem → Packet → ℕ → Memory ℕ → Global → Option Global
parse_reference w p n c_store g =
    let source = pkt_get_source p in
    let arg_pos = pkt_get_arg_pos p in
    let subtask = pkt_get_sub p in
    elim (parse_subtask w source arg_pos subtask (pkt_get_payload p) n c_store g.rq g.table) [
      | none ↦ none
      | some (i, rq, table) ↦
          let g1 = record g { rq = rq; table = table } in
          let (result, mem) = service_compute w (subt_get_rec i table) g1.mem in
          let g2 = record g1 { mem = mem } in
          some (
            if subt_is_ready i table
            then (if w.local_id == 0
                then send_result w n source arg_pos subtask result i g2
                else g2)
            else g1)
    ]

-- `case DATA`
unfoldable pub parse_data : WorkItem → Packet → ℕ → Global → Global
parse_data w p n g =
    let i = pkt_get_sub p in
    let symbol = Mask.symbol_kp_zero + pkt_get_payload p in
    let g1 = record g { table = subt_store_symbol symbol (pkt_get_arg_pos p) i g.table } in
    let rec = subt_get_rec i g1.table in
    let (result, mem) = service_compute w rec g1.mem in
    let g2 = record g1 { mem = mem } in
    let return_to = subt_rec_get_return_to rec in
    let return_as_addr = subt_rec_get_return_as_addr rec in
    let return_as_pos = subt_rec_get_return_as_pos rec in
    if subt_is_ready i g1.table
    then (if w.local_id == 0
        then (if return_to == return_address
            then g2
            else send_result w n return_to return_as_pos return_as_addr result i g2)
        else g2)
    else g1

unfoldable pub parse_pkt : WorkItem → Packet → ℕ → Memory ℕ → Global → Option Global
parse_pkt w p n c_store g =
    if pkt_get_type p == reference
    then parse_reference w p n c_store g
    else if pkt_get_type p == data_packet
    then some (parse_data w p n g)
    else some g

-- `barrier(CLK_LOCAL_MEM_FENCE)`, at which a work-item waits for all others of its group. They do not
-- run meanwhile, so only the one of a group of its own goes on.
abbrev pub barrier {ℓ} : {A : Type ℓ} → WorkItem → A → Option A
barrier w a = if w.local_size == 1 then some a else none

-- One packet in the loop of state READ, up to the barrier.
unfoldable pub parse_in_step : WorkItem → Packet → ℕ → Memory ℕ → Global → Option Global
parse_in_step w p n c_store g = elim (parse_pkt w p n c_store g) [
  | none ↦ none
  | some g' ↦ barrier w g'
]

-- `*state`
pub data State : Type 0 where
  complete reading writing : State

pub record Buffers : Type 0 where
  pub q : Memory Packet
  pub state : State
  pub global : Global

-- `while (q_read(&p, sn_id, i, q, nservicenodes))`, with fuel
unfoldable pub read_queue :
    ℕ → WorkItem → ℕ → ℕ → Memory ℕ → Memory Packet → Global → Option (Memory Packet × Global)
read_queue zero w i n c_store q g = none
read_queue (suc fuel) w i n c_store q g = elim (q_read w.group_id i q n) [
  | none ↦ some (q, g)
  | some (p, q') ↦ elim (parse_in_step w p n c_store g) [
    | none ↦ none
    | some g' ↦ read_queue fuel w i n c_store q' g'
  ]
]

unfoldable pub read_from :
    ℕ → WorkItem → ℕ → ℕ → Memory ℕ → Memory Packet → Global → Option (Memory Packet × Global)
read_from zero w i n c_store q g = some (q, g)
read_from (suc left) w i n c_store q g = elim (read_queue (suc max_bytecode_sz) w i n c_store q g) [
  | none ↦ none
  | some (q', g') ↦ read_from left w (i + 1) n c_store q' g'
]

unfoldable pub vm_write : WorkItem → ℕ → Buffers → Option Buffers
vm_write w n b = elim (q_transfer w.group_id b.global.rq b.q n) [
  | none ↦ none
  | some (rq, q) ↦
      let g = record b.global { rq = rq } in
      let state = if computation_complete q rq n then complete else b.state in
      some (record { q = q; state = state; global = g })
]

unfoldable pub vm_read : WorkItem → ℕ → Memory ℕ → Buffers → Option Buffers
vm_read w n c_store b = elim (read_from n w 0 n c_store b.q b.global) [
  | none ↦ none
  | some (q, g) ↦ some (record b { q = q; global = g })
]

abbrev pub in_state : State → WorkItem → ℕ → Memory ℕ → Buffers → Option Buffers
in_state complete w n c_store b = some b
in_state reading w n c_store b = vm_read w n c_store b
in_state writing w n c_store b = if w.local_id == 0 then vm_write w n b else some b

-- The kernel, run by one work-item.
unfoldable pub vm : WorkItem → ℕ → Memory ℕ → Buffers → Option Buffers
vm w n c_store b = in_state b.state w n c_store b
