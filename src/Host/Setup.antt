-- ===== src/Host/Setup.antt =====
-- src/VM.cpp, the buffers before the first launch, and the launches until the kernel has set the
-- state to COMPLETE.
pub mod Laws
use ocl_gprm.Base.{
  ℕ, zero, suc, ◌+◌, ◌-◌, ◌*◌, ◌^◌, Option, none, some, Memory, store, List, [], ◌∷◌,
}
use ocl_gprm.Macros.{write, reference, return_address, max_bytecode_sz, subt_size}
use ocl_gprm.Packet.{Packet, pkt_create}
use ocl_gprm.Subtask.Table.{SubtaskTable}
use ocl_gprm.Kernel.{State, complete, reading, writing}

-- `pkt_base_init` of src/Packet.cpp
abbrev pub pkt_base_init : Packet
pkt_base_init = record { x = 0; y = 0 }

-- The size of each queue buffer, in packets.
abbrev pub q_buf_size : ℕ → ℕ
q_buf_size n = let n_queues = n * n in n_queues * max_bytecode_sz + n_queues

-- The `left` elements from `i` on are set to zero.
unfoldable pub clear_from : ℕ → ℕ → Memory Packet → Memory Packet
clear_from zero i queues = queues
clear_from (suc left) i queues = clear_from left (i + 1) (store queues i pkt_base_init)

-- Both queue buffers start zeroed; into the first goes the root reference packet, by hand.
unfoldable pub init_read_queues : ℕ → Memory Packet → Memory Packet
init_read_queues n read_queues = clear_from (q_buf_size n) 0 read_queues

unfoldable pub init_queues : ℕ → ℕ → Memory Packet → Memory Packet
init_queues n root_address queues =
    let n_queues = n * n in
    let q0 = clear_from (q_buf_size n) 0 queues in
    let p = pkt_create pkt_base_init reference return_address 0 0 root_address in
    let q1 = store q0 n_queues p in
    let q2 = store q1 0 (record { x = 2 ^ 16; y = (q1 0).y }) in
    store q2 0 (record { x = (q2 0).x; y = write })

-- `for (int i = 1; i < SUBT_SIZE + 1; i++)`, with `left` rounds to go
unfoldable pub fill_stack : ℕ → ℕ → Memory ℕ → Memory ℕ
fill_stack zero i av_recs = av_recs
fill_stack (suc left) i av_recs = fill_stack left (i + 1) (store av_recs i (i - 1))

-- `createSubtask`, on a table with unknown content
unfoldable pub create_subtask : SubtaskTable → SubtaskTable
create_subtask table = record table { av_recs = fill_stack subt_size 1 (store table.av_recs 0 1) }

-- `createSubt`, on the table that `new` returns; nothing calls it
unfoldable pub create_subt : SubtaskTable → SubtaskTable
create_subt table = record table { av_recs = fill_stack subt_size 1 (store table.av_recs 0 1) }

-- `toggleState`: the state after a launch that left the kernel's state as given
unfoldable pub toggle_state : State → State
toggle_state complete = complete
toggle_state reading = writing
toggle_state writing = reading
