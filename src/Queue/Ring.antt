-- ===== src/Queue/Ring.antt =====
-- A queue as a ring of MAX_BYTECODE_SZ packets: its invariant, and the effect of a read and a
-- write on the buffer.
use ocl_gprm.Base.{
  ℕ, ◌+◌, ◌-◌, ◌*◌, ◌/◌, ◌%◌, ◌^◌, ◌<◌, ◌≡◌, ◌≢◌, arith, true, false, none, some, ◌==◌,
  if◌then◌else◌, u16, Memory, store,
}
use ocl_gprm.Macros.{read, write, max_bytecode_sz}
use ocl_gprm.Packet.{Packet}
use ocl_gprm.Queue.{
  as_uint, slot, q_get_head_index, q_get_tail_index, q_set_head_index, q_set_tail_index,
  q_set_last_op, q_is_empty, q_is_full, q_read, q_write,
}
use ocl_gprm.Queue.Layout.{header-ne-slot}

-- Both indices lie in the ring, and the last operation is a read or a write.
pub record IsValid (n_id q_id : ℕ) (q : Memory Packet) (n : ℕ) : Type 0 where
  pub head_in : q_get_head_index n_id q_id q n < max_bytecode_sz
  pub tail_in : q_get_tail_index n_id q_id q n < max_bytecode_sz
  pub last_op : (q (n_id * n + q_id)).y < 2

-- How many packets a ring holds between two indices.
unfoldable pub count : ℕ → ℕ → ℕ → ℕ
count head tail op =
    if head == tail
    then (if op == write then max_bytecode_sz else 0)
    else (tail + max_bytecode_sz - head) % max_bytecode_sz

-- The buffer differs from `q` in one header and at most one slot.
pub record Updated (header slot : ℕ) (x y : ℕ) (v : Packet) (q q' : Memory Packet) : Type 0 where
  pub at_header : q' header ≡ record { x = x; y = y }
  pub at_slot : q' slot ≡ v
  pub elsewhere : (j : ℕ) → header ≢ j → slot ≢ j → q' j ≡ q j

module _ (a b : ℕ) (q : Memory Packet) (n : ℕ) (ha : a < n) (hb : b < n) where
  pub q_write-Updated :
      (v : Packet)
      → q_is_full a b q n ≡ false
      → Updated
          (a * n + b)
          (slot a b n (q_get_tail_index a b q n))
          (as_uint (q_get_head_index a b q n) ((q_get_tail_index a b q n + 1) % max_bytecode_sz))
          write
          v
          q
          (q_write v a b q n).1
  unfolding q_write q_set_tail_index q_set_last_op q_get_tail_index q_get_head_index store
  q_write-Updated v h =
      let t = q_get_tail_index a b q n in
      let ne = header-ne-slot n a b ha hb a b t in
      record {
        at_header = ground (arith, ne);
        at_slot = ground (arith, ne);
        elsewhere = λ j p r. ground (arith, ne);
      }

module _ (a b : ℕ) (q : Memory Packet) (n : ℕ) where
  -- The packet at the head, and the buffer after a successful read.
  abbrev pub read_packet : Packet
  read_packet = q (slot a b n (q_get_head_index a b q n))

  pub read_buffer : Memory Packet
  unfolding q_set_last_op q_set_head_index
  read_buffer =
      q_set_last_op read a b
        (q_set_head_index ((q_get_head_index a b q n + 1) % max_bytecode_sz) a b q n) n

  pub q_write-full : (v : Packet) → q_is_full a b q n ≡ true → q_write v a b q n ≡ (false, q)
  unfolding q_write
  q_write-full v h = rw h

  pub q_write-room : (v : Packet) → q_is_full a b q n ≡ false → (q_write v a b q n).0 ≡ true
  unfolding q_write
  q_write-room v h = rw h

  pub q_read-some : q_is_empty a b q n ≡ false → q_read a b q n ≡ some (read_packet, read_buffer)
  unfolding q_read read_buffer
  q_read-some h = rw h

  pub q_read-none : q_is_empty a b q n ≡ true → q_read a b q n ≡ none
  unfolding q_read
  q_read-none h = rw h

module _ (a b : ℕ) (q : Memory Packet) (n : ℕ) (ha : a < n) (hb : b < n) where
  pub read_buffer-Updated :
      Updated
        (a * n + b)
        (slot a b n (q_get_head_index a b q n))
        (as_uint ((q_get_head_index a b q n + 1) % max_bytecode_sz) (q_get_tail_index a b q n))
        read
        (read_packet a b q n)
        q
        (read_buffer a b q n)
  unfolding read_buffer q_get_tail_index q_get_head_index store
  read_buffer-Updated =
      let h = q_get_head_index a b q n in
      let ne = header-ne-slot n a b ha hb a b h in
      record {
        at_header = ground (arith, ne);
        at_slot = ground (arith, ne);
        elsewhere = λ j p r. ground (arith, ne);
      }

  -- A read changes nothing but the header.
  pub read_buffer_other : (j : ℕ) → a * n + b ≢ j → read_buffer a b q n j ≡ q j
  unfolding read_buffer store
  read_buffer_other j ne = ground arith

-- What the header of an updated queue reads.
module _ (a b n : ℕ) {s x y : ℕ} {v : Packet} {q q' : Memory Packet}
    (u : Updated (a * n + b) s x y v q q') where
  pub head-Updated : q_get_head_index a b q' n ≡ u16 x
  unfolding q_get_head_index
  head-Updated = ground (arith, u.at_header)

  pub tail-Updated : q_get_tail_index a b q' n ≡ u16 (x / 2 ^ 16)
  unfolding q_get_tail_index
  tail-Updated = ground (arith, u.at_header)

  pub last_op-Updated : (q' (a * n + b)).y ≡ y
  last_op-Updated = ground (arith, u.at_header)
