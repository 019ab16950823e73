-- ===== src/Tests/Queues.antt =====
-- Two compute units; before the first launch, and after unit 0 has asked unit 1 for something.
use ocl_gprm.Base.{
  ℕ, refl, ◌^◌, ◌+◌, ◌<◌, ◌≡◌, ◌↔◌, ◌⊎◌, arith, true, none, some, Memory, length, if◌then◌else◌,
  ltb,
}
use ocl_gprm.Packet.{Packet, pkt_create}
use ocl_gprm.Queue.{q_get_head_index, q_get_tail_index, q_is_empty, q_size, q_read, q_write}
use ocl_gprm.Queue.Ring.{IsValid, read_packet, read_buffer, q_read-some}
use ocl_gprm.Queue.Window.{contents}
use ocl_gprm.Queue.Spec.{push, pop}
use ocl_gprm.Queue.Fifo.{q_write_refines, q_read_refines}
use ocl_gprm.Queue.Frame.{AllValid, q_write-AllValid}
use ocl_gprm.Queue.Size.{q_size_lem}
use ocl_gprm.Queue.Transfer.{computation_complete}
use ocl_gprm.Queue.Transfer.Complete.{computation_complete_iff}
use ocl_gprm.Host.Setup.{pkt_base_init, init_queues}
use ocl_gprm.Host.Setup.Laws.{init_queues-root}

abbrev blank : Memory Packet
blank i = pkt_base_init

abbrev first_queues : Memory Packet
first_queues = init_queues 2 5 blank

first_queues-AllValid : AllValid first_queues 2
first_queues-AllValid = (init_queues-root 2 5 blank (omega arith)).0

abbrev message : Packet
message = pkt_create pkt_base_init 1 0 3 7 9

-- The request of compute unit 0 waits for compute unit 1.
abbrev asked : Memory Packet
asked = (q_write message 0 1 first_queues 2).1

asked-AllValid : AllValid asked 2
asked-AllValid =
    q_write-AllValid message 0 1 first_queues 2 (omega arith) (omega arith) first_queues-AllValid

q_write_refines_example :
    let (done, q') = q_write message 0 0 first_queues 2 in
    ((done, contents 0 0 q' 2) ≡ push message (contents 0 0 first_queues 2)) × IsValid 0 0 q' 2
q_write_refines_example =
    q_write_refines 0 0 first_queues 2 (omega arith) (omega arith)
      (first_queues-AllValid 0 0 (omega arith) (omega arith)) message

q_read_refines_example :
    ((q_read 0 1 asked 2 ≡ none) × (pop (contents 0 1 asked 2) ≡ none))
    ⊎ ((p : Packet) × (q' : Memory Packet) × (q_read 0 1 asked 2 ≡ some (p, q'))
        × (pop (contents 0 1 asked 2) ≡ some (p, contents 0 1 q' 2))
        × IsValid 0 1 q' 2)
q_read_refines_example =
    q_read_refines 0 1 asked 2 (omega arith) (omega arith)
      (asked-AllValid 0 1 (omega arith) (omega arith))

-- Every queue with its first packet.
abbrev one_each : Memory Packet
one_each i = record { x = 2 ^ 16; y = 1 }

one_each-AllValid : AllValid one_each 2
unfolding q_get_head_index q_get_tail_index
one_each-AllValid a b ha hb = record {
  head_in = omega arith;
  tail_in = omega arith;
  last_op = omega arith;
}

first_read : q_read 0 0 one_each 2 ≡ some (read_packet 0 0 one_each 2, read_buffer 0 0 one_each 2)
unfolding q_is_empty
first_read = q_read-some 0 0 one_each 2 refl

q_size_lem_example :
    let head = q_get_head_index 0 1 asked 2 in
    let tail = q_get_tail_index 0 1 asked 2 in
    q_size 0 1 asked 2 + (if ltb tail head then tail else 0) ≡ length (contents 0 1 asked 2)
q_size_lem_example = q_size_lem 0 1 asked 2 (asked-AllValid 0 1 (omega arith) (omega arith))

computation_complete_iff_example : (computation_complete asked first_queues 2 ≡ true) ↔ (
    (i j : ℕ)
    → i < 2
    → j < 2
    → (q_is_empty i j asked 2 ≡ true) × (q_is_empty i j first_queues 2 ≡ true))
computation_complete_iff_example = computation_complete_iff asked first_queues 2
