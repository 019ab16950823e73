-- ===== src/Queue.antt =====
-- kernels/VM.cl "Queue Functions": the n * n packet queues between compute units, all in one
-- buffer. The first n * n packets hold for each queue its head and tail index and whether the
-- last operation was a read or a write; behind them each queue has MAX_BYTECODE_SZ packets.
-- `n_id` is the compute unit whose queues they are, `q_id` the one at the other end.
pub mod Layout
pub mod Ring
pub mod Window
pub mod Spec
pub mod Fifo
pub mod Frame
pub mod Size
pub mod Carries
pub mod Transfer
use ocl_gprm.Base.{
  ℕ, ◌+◌, ◌-◌, ◌*◌, ◌/◌, ◌%◌, ◌^◌, Bool, true, false, ◌&&◌, Option, none, some, ◌==◌, ltb,
  if◌then◌else◌, u16, Memory, store,
}
use ocl_gprm.Macros.{read, write, max_bytecode_sz}
use ocl_gprm.Packet.{Packet}

-- `as_ushort2` and `as_uint`: the first short is the low half of the word.
abbrev pub as_uint : ℕ → ℕ → ℕ
as_uint first second = u16 first + u16 second * 2 ^ 16

unfoldable pub q_get_head_index : ℕ → ℕ → Memory Packet → ℕ → ℕ
q_get_head_index n_id q_id q n = u16 (q (n_id * n + q_id)).x

unfoldable pub q_get_tail_index : ℕ → ℕ → Memory Packet → ℕ → ℕ
q_get_tail_index n_id q_id q n = u16 ((q (n_id * n + q_id)).x / 2 ^ 16)

unfoldable pub q_set_head_index : ℕ → ℕ → ℕ → Memory Packet → ℕ → Memory Packet
unfolding q_get_tail_index
q_set_head_index index n_id q_id q n =
    let p = q (n_id * n + q_id) in
    store q (n_id * n + q_id) (record p { x = as_uint index (q_get_tail_index n_id q_id q n) })

unfoldable pub q_set_tail_index : ℕ → ℕ → ℕ → Memory Packet → ℕ → Memory Packet
unfolding q_get_head_index
q_set_tail_index index n_id q_id q n =
    let p = q (n_id * n + q_id) in
    store q (n_id * n + q_id) (record p { x = as_uint (q_get_head_index n_id q_id q n) index })

unfoldable pub q_set_last_op : ℕ → ℕ → ℕ → Memory Packet → ℕ → Memory Packet
q_set_last_op type n_id q_id q n =
    let p = q (n_id * n + q_id) in store q (n_id * n + q_id) (record p { y = type })

unfoldable pub q_last_op_is_read : ℕ → ℕ → Memory Packet → ℕ → Bool
q_last_op_is_read n_id q_id q n = (q (n_id * n + q_id)).y == read

unfoldable pub q_last_op_is_write : ℕ → ℕ → Memory Packet → ℕ → Bool
q_last_op_is_write n_id q_id q n = (q (n_id * n + q_id)).y == write

unfoldable pub q_is_empty : ℕ → ℕ → Memory Packet → ℕ → Bool
unfolding q_get_head_index q_get_tail_index q_last_op_is_read
q_is_empty n_id q_id q n =
    q_get_head_index n_id q_id q n == q_get_tail_index n_id q_id q n
    && q_last_op_is_read n_id q_id q n

unfoldable pub q_is_full : ℕ → ℕ → Memory Packet → ℕ → Bool
unfolding q_get_head_index q_get_tail_index q_last_op_is_write
q_is_full n_id q_id q n =
    q_get_head_index n_id q_id q n == q_get_tail_index n_id q_id q n
    && q_last_op_is_write n_id q_id q n

-- The indices are 16-bit numbers, so only `MAX_BYTECODE_SZ - head` could wrap; `Ring.IsValid`
-- excludes that.
unfoldable pub q_size : ℕ → ℕ → Memory Packet → ℕ → ℕ
unfolding q_is_empty q_is_full q_get_head_index q_get_tail_index
q_size n_id q_id q n =
    let head = q_get_head_index n_id q_id q n in
    let tail = q_get_tail_index n_id q_id q n in
    if q_is_full n_id q_id q n
    then max_bytecode_sz
    else if q_is_empty n_id q_id q n
    then 0
    else if ltb head tail
    then tail - head
    else (max_bytecode_sz + 2 ^ 32 - head) % 2 ^ 32

-- Where a queue keeps the packet with a ring index.
abbrev pub slot : ℕ → ℕ → ℕ → ℕ → ℕ
slot n_id q_id n index = n * n + n_id * n * max_bytecode_sz + q_id * max_bytecode_sz + index

-- The packet and the buffer after the read, or `none` for a return of false.
unfoldable pub q_read : ℕ → ℕ → Memory Packet → ℕ → Option (Packet × Memory Packet)
unfolding q_is_empty q_get_head_index
q_read n_id q_id q n =
    let index = q_get_head_index n_id q_id q n in
    let result = q (slot n_id q_id n index) in
    let q1 = q_set_head_index ((index + 1) % max_bytecode_sz) n_id q_id q n in
    let q2 = q_set_last_op read n_id q_id q1 n in
    if q_is_empty n_id q_id q n then none else some (result, q2)

-- The value returned, and the buffer afterwards.
unfoldable pub q_write : Packet → ℕ → ℕ → Memory Packet → ℕ → Bool × Memory Packet
unfolding q_is_full q_get_tail_index
q_write value n_id q_id q n =
    let index = q_get_tail_index n_id q_id q n in
    let q1 = store q (slot n_id q_id n index) value in
    let q2 = q_set_tail_index ((index + 1) % max_bytecode_sz) n_id q_id q1 n in
    let q3 = q_set_last_op write n_id q_id q2 n in
    if q_is_full n_id q_id q n then (false, q) else (true, q3)
