-- ===== src/Queue/Transfer.antt =====
-- kernels/VM.cl `q_transfer` and `computation_complete`. Compute unit `n_id` moves what the
-- transfer queues `rq` hold for the others into the real queues `q`.
pub mod Laws
pub mod Complete
use ocl_gprm.Base.{
  ℕ, zero, suc, ◌+◌, Bool, true, false, ◌&&◌, not, Option, none, some, Memory, if◌then◌else◌,
}
use ocl_gprm.Macros.{max_bytecode_sz}
use ocl_gprm.Packet.{Packet}
use ocl_gprm.Queue.{q_read, q_write, q_is_empty}

-- `while (q_read(&packet, n_id, i, rq, n))`, with fuel: `none` is a loop that did not end. A packet
-- that the full queue does not take is lost.
unfoldable pub transfer_queue :
    ℕ → ℕ → ℕ → Memory Packet → Memory Packet → ℕ → Option (Memory Packet × Memory Packet)
transfer_queue zero n_id i rq q n = none
transfer_queue (suc fuel) n_id i rq q n = elim (q_read n_id i rq n) [
  | none ↦ some (rq, q)
  | some (packet, rq') ↦ transfer_queue fuel n_id i rq' (q_write packet i n_id q n).1 n
]

-- `for (i = ...; i < n; i++)`, with `left` rounds to go. A queue holds at most MAX_BYTECODE_SZ
-- packets, so one more round than that ends the inner loop.
unfoldable pub transfer_from :
    ℕ → ℕ → ℕ → Memory Packet → Memory Packet → ℕ → Option (Memory Packet × Memory Packet)
transfer_from zero n_id i rq q n = some (rq, q)
transfer_from (suc left) n_id i rq q n = elim (transfer_queue (suc max_bytecode_sz) n_id i rq q n) [
  | none ↦ none
  | some (rq', q') ↦ transfer_from left n_id (i + 1) rq' q' n
]

-- The transfer queues and the real queues afterwards.
unfoldable pub q_transfer :
    ℕ → Memory Packet → Memory Packet → ℕ → Option (Memory Packet × Memory Packet)
q_transfer n_id rq q n = transfer_from n n_id 0 rq q n

-- The inner loop of `computation_complete`, on row `i`.
unfoldable pub row_complete : ℕ → ℕ → ℕ → Memory Packet → Memory Packet → ℕ → Bool → Bool
row_complete zero i j q rq n complete = complete
row_complete (suc left) i j q rq n complete = row_complete left i (j + 1) q rq n (
    if not (q_is_empty i j rq n)
    then false
    else if not (q_is_empty i j q n)
    then false
    else complete)

unfoldable pub rows_complete : ℕ → ℕ → Memory Packet → Memory Packet → ℕ → Bool → Bool
rows_complete zero i q rq n complete = complete
rows_complete (suc left) i q rq n complete =
    rows_complete left (i + 1) q rq n (row_complete n i 0 q rq n complete)

unfoldable pub computation_complete : Memory Packet → Memory Packet → ℕ → Bool
computation_complete q rq n = rows_complete n 0 q rq n true
