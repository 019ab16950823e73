-- ===== src/Queue/Fifo.antt =====
-- Each queue of the buffer is a first-in first-out queue of at most MAX_BYTECODE_SZ packets.
use ocl_gprm.Base.{
  ℕ, suc, ◌+◌, ◌*◌, ◌%◌, ◌<◌, ◌≡◌, ◌≢◌, refl, arith, Bool, false, none, some, Memory, List, [], ◌∷◌,
  ◌++◌, ap, ap₂, ◌∙◌, sym, Bool-cases, inl, inr, ◌⊎◌,
}
use ocl_gprm.Macros.{read, write, max_bytecode_sz}
use ocl_gprm.Packet.{Packet}
use ocl_gprm.Queue.{
  as_uint, slot, q_get_head_index, q_get_tail_index, q_is_empty, q_is_full, q_read, q_write,
}
use ocl_gprm.Queue.Spec.{push, pop, push-full, push-room}
use ocl_gprm.Queue.Layout.{header-ne-slot}
use ocl_gprm.Queue.Window.{
  base, window, contents, size, length-window, window_ext, window_snoc, size-full, size-not_full,
  size-empty, size-not_empty, count_write, count_read,
}
use ocl_gprm.Queue.Ring.{
  IsValid, Updated, count, q_write-Updated, read_buffer-Updated, read_buffer_other, read_packet,
  read_buffer, q_read-some, q_read-none, q_write-full, q_write-room, head-Updated, tail-Updated,
  last_op-Updated,
}

module _ (a b : ℕ) (q : Memory Packet) (n : ℕ) (ha : a < n) (hb : b < n)
    (ok : IsValid a b q n) where
  slot-ne-header : (i : ℕ) → a * n + b ≢ base a b n + i
  slot-ne-header i = header-ne-slot n a b ha hb a b i

  module _ (v : Packet) (room : q_is_full a b q n ≡ false) where
    abbrev written : Memory Packet
    written = (q_write v a b q n).1

    written-Updated :
        Updated
          (a * n + b)
          (slot a b n (q_get_tail_index a b q n))
          (as_uint (q_get_head_index a b q n) ((q_get_tail_index a b q n + 1) % max_bytecode_sz))
          write
          v
          q
          written
    written-Updated = q_write-Updated a b q n ha hb v room

    write-head : q_get_head_index a b written n ≡ q_get_head_index a b q n
    write-head = omega (arith, head-Updated a b n written-Updated, ok.head_in)

    write-tail : q_get_tail_index a b written n ≡ (q_get_tail_index a b q n + 1) % max_bytecode_sz
    write-tail = omega (arith, tail-Updated a b n written-Updated, ok.head_in)

    write-op : (written (a * n + b)).y ≡ write
    write-op = last_op-Updated a b n written-Updated

    write-IsValid : IsValid a b written n
    write-IsValid = omega (arith, write-head, write-tail, ok.head_in, write-op)

    write-contents : contents a b written n ≡ contents a b q n ++ (v ∷ [])
    write-contents =
        let grown =
          count_write _ _ _ ok.head_in ok.tail_in ok.last_op (size-not_full a b q n ok room) in
        ap₂ (window written (base a b n)) {v = suc (size a b q n)} write-head
          (rw (write-head, write-tail, write-op) grown.0)
        ∙ window_snoc q written (base a b n) (q_get_head_index a b q n) (size a b q n)
            (q_get_tail_index a b q n) v ok.head_in (size-not_full a b q n ok room) grown.1
            written-Updated.at_slot
            (λ i hi ne. written-Updated.elsewhere (base a b n + i) (slot-ne-header i) (omega arith))

  abbrev taken : Memory Packet
  taken = read_buffer a b q n

  taken-Updated :
      Updated
        (a * n + b)
        (slot a b n (q_get_head_index a b q n))
        (as_uint ((q_get_head_index a b q n + 1) % max_bytecode_sz) (q_get_tail_index a b q n))
        read
        (read_packet a b q n)
        q
        taken
  taken-Updated = read_buffer-Updated a b q n ha hb

  read-head : q_get_head_index a b taken n ≡ (q_get_head_index a b q n + 1) % max_bytecode_sz
  read-head = omega (arith, head-Updated a b n taken-Updated, ok.tail_in)

  read-tail : q_get_tail_index a b taken n ≡ q_get_tail_index a b q n
  read-tail = omega (arith, tail-Updated a b n taken-Updated, ok.tail_in)

  read-op : (taken (a * n + b)).y ≡ read
  read-op = last_op-Updated a b n taken-Updated

  pub read-IsValid : IsValid a b taken n
  read-IsValid = omega (arith, read-head, read-tail, read-op, ok.tail_in)

  pub read-contents :
      q_is_empty a b q n ≡ false → contents a b q n ≡ read_packet a b q n ∷ contents a b taken n
  read-contents some_left =
      let shrunk =
        count_read _ _ _ ok.head_in ok.tail_in ok.last_op (size-not_empty a b q n ok some_left) in
      ap (window q (base a b n) (q_get_head_index a b q n)) shrunk
      ∙ ap (λ l. read_packet a b q n ∷ l) (sym rest)
    where
      rest :
          contents a b taken n
          ≡ window q (base a b n) ((q_get_head_index a b q n + 1) % max_bytecode_sz) (
              count
                ((q_get_head_index a b q n + 1) % max_bytecode_sz)
                (q_get_tail_index a b q n)
                read)
      rest =
          rw (read-head, read-tail, read-op)
            (window_ext q taken (base a b n) _ _ (omega arith)
              (λ i hi. read_buffer_other a b q n ha hb (base a b n + i) (slot-ne-header i)))

  -- On a valid ring between two compute units, `q_write` does what `push` does to the queue's
  -- packets, returns the same, and keeps the ring valid.
  pub q_write_refines :
      (v : Packet)
      → let (done, q') = q_write v a b q n in
        ((done, contents a b q' n) ≡ push v (contents a b q n)) × IsValid a b q' n
  q_write_refines v = elim (Bool-cases (q_is_full a b q n)) [
    | inl full ↦
        rw
          (
            q_write-full a b q n v full,
            push-full v (contents a b q n) (length-window q _ _ _ ∙ size-full a b q n ok full),
          )
          (refl, ok)
    | inr room ↦ (
      ap₂ {C = Bool × List Packet} (λ done l. (done, l)) (q_write-room a b q n v room)
            (write-contents v room)
          ∙ sym (
              push-room v (contents a b q n) (
                omega (
                  arith,
                  length-window q (base a b n) (q_get_head_index a b q n) (size a b q n),
                  size-not_full a b q n ok room,
                ))),
      write-IsValid v room,
    )
  ]

  -- On a valid ring between two compute units, `q_read` either fails where the queue is empty, or it
  -- returns the oldest packet and leaves the others, as `pop` does, in a valid ring.
  pub q_read_refines :
      ((q_read a b q n ≡ none) × (pop (contents a b q n) ≡ none))
      ⊎ ((p : Packet) × (q' : Memory Packet) × (q_read a b q n ≡ some (p, q'))
          × (pop (contents a b q n) ≡ some (p, contents a b q' n))
          × IsValid a b q' n)
  unfolding pop
  q_read_refines = elim (Bool-cases (q_is_empty a b q n)) [
    | inl none_left ↦ inl (q_read-none a b q n none_left, rw (size-empty a b q n ok none_left))
    | inr some_left ↦ inr (
      read_packet a b q n,
      taken,
      q_read-some a b q n some_left,
      rw (read-contents some_left),
      read-IsValid,
    )
  ]
