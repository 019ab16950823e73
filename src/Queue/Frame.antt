-- ===== src/Queue/Frame.antt =====
-- An operation on one queue leaves all others alone.
use ocl_gprm.Base.Grid.{index-ne, pair_cases}
use mathlib.Core.Path.{subst}
use mathlib.Core.Option.{some-injective}
use ocl_gprm.Base.{
  ℕ, ◌+◌, ◌*◌, ◌<◌, ◌≡◌, ◌≢◌, ◌⊎◌, inl, inr, refl, sym, ◌∙◌, Memory, Bool-cases, some,
}
use ocl_gprm.Macros.{max_bytecode_sz}
use ocl_gprm.Packet.{Packet}
use ocl_gprm.Queue.{
  slot, q_get_head_index, q_get_tail_index, q_write, q_is_full, q_read, q_is_empty,
}
use ocl_gprm.Queue.Layout.{slot-ne, header-ne-slot}
use ocl_gprm.Queue.Ring.{
  IsValid, Updated, q_write-Updated, q_write-full, read_packet, read_buffer, q_read-some,
  q_read-none, read_buffer-Updated,
}
use ocl_gprm.Queue.Fifo.{q_write_refines, read-IsValid}
use ocl_gprm.Queue.Window.{base, contents, window_ext}

-- Everything that is read of a queue.
record Same (c d n : ℕ) (q q' : Memory Packet) : Type 0 where
  header : q' (c * n + d) ≡ q (c * n + d)
  slots : (i : ℕ) → i < max_bytecode_sz → q' (base c d n + i) ≡ q (base c d n + i)

module _ (c d n : ℕ) {q q' : Memory Packet} (s : Same c d n q q') where
  same-head : q_get_head_index c d q' n ≡ q_get_head_index c d q n
  unfolding q_get_head_index
  same-head = rw s.header

  same-tail : q_get_tail_index c d q' n ≡ q_get_tail_index c d q n
  unfolding q_get_tail_index
  same-tail = rw s.header

  same-IsValid : IsValid c d q n → IsValid c d q' n
  same-IsValid v = record {
    head_in = rw same-head v.head_in;
    tail_in = rw same-tail v.tail_in;
    last_op = rw s.header v.last_op;
  }

  same-contents : q_get_head_index c d q n < max_bytecode_sz → contents c d q' n ≡ contents c d q n
  same-contents h = rw (same-head, same-tail, s.header) (window_ext q q' (base c d n) _ _ h s.slots)

module _ (a b c d n : ℕ) (ha : a < n) (hb : b < n) (hc : c < n) (hd : d < n)
    (other : (a ≢ c) ⊎ (b ≢ d)) where
  Updated-Same :
      (i : ℕ) {x y : ℕ} {v : Packet} {q q' : Memory Packet}
      → i < max_bytecode_sz
      → Updated (a * n + b) (slot a b n i) x y v q q'
      → Same c d n q q'
  Updated-Same i hi u = record {
    header =
        u.elsewhere (c * n + d) (index-ne n a b c d hb hd other)
          (λ e. header-ne-slot n c d hc hd a b i (sym e));
    slots = λ j hj.
        u.elsewhere (base c d n + j) (header-ne-slot n a b ha hb c d j)
          (slot-ne n a b c d i j hb hd other hi hj);
  }

  module _ (q : Memory Packet) (ok : IsValid a b q n) (ok' : IsValid c d q n) where
    write-Same : (v : Packet) → Same c d n q (q_write v a b q n).1
    write-Same v = elim (Bool-cases (q_is_full a b q n)) [
      | inl full ↦ rw (q_write-full a b q n v full) (record { header = refl; slots = λ i hi. refl })
      | inr room ↦ Updated-Same _ ok.tail_in (q_write-Updated a b q n ha hb v room)
    ]

    read-Same : Same c d n q (read_buffer a b q n)
    read-Same = Updated-Same _ ok.head_in (read_buffer-Updated a b q n ha hb)

    -- A write to one valid queue between two compute units leaves the packets of every other valid
    -- queue as they were, and that queue valid.
    pub q_write_frame :
        (v : Packet)
        → (contents c d (q_write v a b q n).1 n ≡ contents c d q n)
          × IsValid c d (q_write v a b q n).1 n
    q_write_frame v =
        (same-contents c d n (write-Same v) ok'.head_in, same-IsValid c d n (write-Same v) ok')

    -- A read of one valid queue leaves the packets of every other valid queue as they were, and that
    -- queue valid.
    pub read_buffer_frame :
        (contents c d (read_buffer a b q n) n ≡ contents c d q n)
        × IsValid c d (read_buffer a b q n) n
    read_buffer_frame =
        (same-contents c d n read-Same ok'.head_in, same-IsValid c d n read-Same ok')

    -- A read of one valid queue between two compute units that returns a packet leaves the packets
    -- of every other valid queue as they were, and that queue valid.
    pub q_read_frame :
        (p : Packet) (q' : Memory Packet)
        → q_read a b q n ≡ some (p, q')
        → (contents c d q' n ≡ contents c d q n) × IsValid c d q' n
    q_read_frame p q' e = elim (Bool-cases (q_is_empty a b q n)) [
      | inl none_left ↦ let none_read = q_read-none a b q n none_left in cc
      | inr some_left ↦
          subst
            (λ (r : Packet × Memory Packet).
              (contents c d r.1 n ≡ contents c d q n) × IsValid c d r.1 n)
            (some-injective (read_packet a b q n, read_buffer a b q n) (p, q')
              (sym (q_read-some a b q n some_left) ∙ e))
            read_buffer_frame
    ]

-- All queues of a buffer for `n` compute units.
abbrev pub AllValid : Memory Packet → ℕ → Type 0
AllValid q n = (a b : ℕ) → a < n → b < n → IsValid a b q n

-- A write between two compute units keeps every queue of the buffer valid, where all are.
pub q_write-AllValid :
    (v : Packet) (a b : ℕ) (q : Memory Packet) (n : ℕ)
    → a < n
    → b < n
    → AllValid q n
    → AllValid (q_write v a b q n).1 n
q_write-AllValid v a b q n ha hb ok c d hc hd = elim (pair_cases a b c d) [
  | inl (p, r) ↦ rw (sym p, sym r) (q_write_refines a b q n ha hb (ok a b ha hb) v).1
  | inr ne ↦ (q_write_frame a b c d n ha hb hc hd ne q (ok a b ha hb) (ok c d hc hd) v).1
]

-- A read keeps every queue of the buffer valid.
pub read_buffer-AllValid :
    (a b : ℕ) (q : Memory Packet) (n : ℕ)
    → a < n
    → b < n
    → AllValid q n
    → AllValid (read_buffer a b q n) n
read_buffer-AllValid a b q n ha hb ok c d hc hd = elim (pair_cases a b c d) [
  | inl (p, r) ↦ rw (sym p, sym r) (read-IsValid a b q n ha hb (ok a b ha hb))
  | inr ne ↦ (read_buffer_frame a b c d n ha hb hc hd ne q (ok a b ha hb) (ok c d hc hd)).1
]
