-- ===== src/Queue/Transfer/Laws.antt =====
-- A transfer empties a compute unit's transfer queues into the real queues of their destinations.
use native.Mathlib.Decide.{ℕ_discrete}
use ocl_gprm.Base.{
  ℕ, zero, suc, ◌+◌, ◌≤◌, ◌<◌, ◌≡◌, ◌≢◌, ◌⊎◌, inl, inr, refl, sym, ap, ap₂, ◌∙◌, arith, Memory, [],
  true, false, Bool-cases, some, length,
}
use ocl_gprm.Macros.{max_bytecode_sz}
use ocl_gprm.Packet.{Packet}
use ocl_gprm.Queue.{q_write, q_is_empty}
use ocl_gprm.Queue.Spec.{push_all}
use ocl_gprm.Queue.Ring.{read_packet, read_buffer, q_read-some, q_read-none}
use ocl_gprm.Queue.Window.{contents, size, size-le, size-empty, length-window}
use ocl_gprm.Queue.Fifo.{q_write_refines, read-contents}
use ocl_gprm.Queue.Frame.{
  AllValid, q_write_frame, read_buffer_frame, q_write-AllValid, read_buffer-AllValid,
}
use ocl_gprm.Queue.Transfer.{transfer_queue, transfer_from, q_transfer}

-- The queue `(g, i)` of `rq` has been emptied into the queue `(i, g)` of `q`, and all other queues
-- are as they were.
pub record Emptied (g i n : ℕ) (rq q rq' q' : Memory Packet) : Type 0 where
  pub valid_rq : AllValid rq' n
  pub valid_q : AllValid q' n
  pub emptied : contents g i rq' n ≡ []
  pub pushed : contents i g q' n ≡ push_all (contents g i rq n) (contents i g q n)
  pub other_rq :
      (c d : ℕ) → c < n → d < n → (g ≢ c) ⊎ (i ≢ d) → contents c d rq' n ≡ contents c d rq n
  pub other_q : (c d : ℕ) → c < n → d < n → (i ≢ c) ⊎ (g ≢ d) → contents c d q' n ≡ contents c d q n

module _ (g i n : ℕ) (hg : g < n) (hi : i < n) where
  pub contents-empty :
      (q : Memory Packet) → AllValid q n → q_is_empty g i q n ≡ true → contents g i q n ≡ []
  contents-empty q ok h = rw (size-empty g i q n (ok g i hg hi) h)

  pub size-read :
      (q : Memory Packet)
      → AllValid q n
      → q_is_empty g i q n ≡ false
      → size g i q n ≡ suc (size g i (read_buffer g i q n) n)
  size-read q ok h =
      sym (length-window q _ _ _)
      ∙ ap length (read-contents g i q n hg hi (ok g i hg hi) h)
      ∙ ap suc (length-window (read_buffer g i q n) _ _ _)

  -- Reading one packet and writing it on, and then doing the rest.
  Emptied-step :
      (rq q : Memory Packet) {rq' q' : Memory Packet}
      → AllValid rq n
      → AllValid q n
      → q_is_empty g i rq n ≡ false
      → Emptied g i n (read_buffer g i rq n) (q_write (read_packet g i rq n) i g q n).1 rq' q'
      → Emptied g i n rq q rq' q'
  Emptied-step rq q ok_rq ok_q h rest = record {
    valid_rq = rest.valid_rq;
    valid_q = rest.valid_q;
    emptied = rest.emptied;
    pushed =
        rest.pushed
        ∙ ap (push_all (contents g i (read_buffer g i rq n) n)) (
            ap (λ r. r.1) (q_write_refines i g q n hi hg (ok_q i g hi hg) (read_packet g i rq n)).0)
        ∙ ap (λ l. push_all l (contents i g q n))
            (sym (read-contents g i rq n hg hi (ok_rq g i hg hi) h));
    other_rq = λ c d hc hd ne.
        rest.other_rq c d hc hd ne
        ∙ (read_buffer_frame g i c d n hg hi hc hd ne rq (ok_rq g i hg hi) (ok_rq c d hc hd)).0;
    other_q = λ c d hc hd ne.
        rest.other_q c d hc hd ne
        ∙ (q_write_frame i g c d n hi hg hc hd ne q (ok_q i g hi hg) (ok_q c d hc hd)
            (read_packet g i rq n)).0;
  }

  -- With more fuel than the queue has packets, the inner loop ends and has emptied the queue.
  transfer_queue-Emptied :
      (fuel : ℕ) (rq q : Memory Packet)
      → AllValid rq n
      → AllValid q n
      → size g i rq n < fuel
      → (rq' : Memory Packet) × (q' : Memory Packet) × (transfer_queue fuel g i rq q n
          ≡ some (rq', q'))
        × Emptied g i n rq q rq' q'
  unfolding transfer_queue
  transfer_queue-Emptied zero rq q ok_rq ok_q h = absurd (omega arith)
  transfer_queue-Emptied (suc fuel) rq q ok_rq ok_q h = elim (Bool-cases (q_is_empty g i rq n)) [
    | inl e ↦ (
      rq,
      q,
      rw (q_read-none g i rq n e, transfer_queue),
      record {
        valid_rq = ok_rq;
        valid_q = ok_q;
        emptied = contents-empty rq ok_rq e;
        pushed = rw (contents-empty rq ok_rq e);
        other_rq = λ c d hc hd ne. refl;
        other_q = λ c d hc hd ne. refl;
      },
    )
    | inr e ↦
        let (rq', q', eq, rest) =
          transfer_queue-Emptied fuel (read_buffer g i rq n)
            (q_write (read_packet g i rq n) i g q n).1 (read_buffer-AllValid g i rq n hg hi ok_rq)
            (q_write-AllValid (read_packet g i rq n) i g q n hi hg ok_q)
            (omega (arith, size-read rq ok_rq e)) in
        (
          rq',
          q',
          rw (q_read-some g i rq n e, transfer_queue) eq,
          Emptied-step rq q ok_rq ok_q e rest,
        )
  ]

-- The queues `(g, i)` of `rq` with `k ≤ i` have been emptied into the queues `(i, g)` of `q`, and
-- all other queues are as they were.
pub record Moved (g k n : ℕ) (rq q rq' q' : Memory Packet) : Type 0 where
  pub valid_rq : AllValid rq' n
  pub valid_q : AllValid q' n
  pub emptied : (i : ℕ) → k ≤ i → i < n → contents g i rq' n ≡ []
  pub pushed :
      (i : ℕ) → k ≤ i → i < n → contents i g q' n ≡ push_all (contents g i rq n) (contents i g q n)
  pub other_rq :
      (c d : ℕ) → c < n → d < n → (g ≢ c) ⊎ (d < k) → contents c d rq' n ≡ contents c d rq n
  pub other_q : (c d : ℕ) → c < n → d < n → (g ≢ d) ⊎ (c < k) → contents c d q' n ≡ contents c d q n

weaken : {P : Type 0} {k d : ℕ} → P ⊎ (d < k) → P ⊎ (d < k + 1)
weaken (inl p) = inl p
weaken (inr h) = inr (omega arith)

apart : {P : Type 0} {k d : ℕ} → P ⊎ (d < k) → P ⊎ (k ≢ d)
apart (inl p) = inl p
apart (inr h) = inr (omega arith)

flipped : {P Q : Type 0} → P ⊎ Q → Q ⊎ P
flipped (inl p) = inr p
flipped (inr h) = inl h

module _ (g n : ℕ) (hg : g < n) where
  Moved-step :
      (i : ℕ) {rq q rq1 q1 rq' q' : Memory Packet}
      → i < n
      → Emptied g i n rq q rq1 q1
      → Moved g (i + 1) n rq1 q1 rq' q'
      → Moved g i n rq q rq' q'
  Moved-step i hi e rest = record {
    valid_rq = rest.valid_rq;
    valid_q = rest.valid_q;
    emptied = λ j p hj. elim (ℕ_discrete i j) [
      | yes r ↦ rw (sym r) (rest.other_rq g i hg hi (inr (omega arith)) ∙ e.emptied)
      | no r ↦ rest.emptied j (omega arith) hj
    ];
    pushed = λ j p hj. elim (ℕ_discrete i j) [
      | yes r ↦ rw (sym r) (rest.other_q i g hi hg (inr (omega arith)) ∙ e.pushed)
      | no r ↦
          rest.pushed j (omega arith) hj
          ∙ ap₂ push_all (e.other_rq g j hg hj (inr r)) (e.other_q j g hj hg (inl r))
    ];
    other_rq =
        λ c d hc hd ne. rest.other_rq c d hc hd (weaken ne) ∙ e.other_rq c d hc hd (apart ne);
    other_q = λ c d hc hd ne.
        rest.other_q c d hc hd (weaken ne) ∙ e.other_q c d hc hd (flipped (apart ne));
  }

  transfer_from-Moved :
      (left i : ℕ) (rq q : Memory Packet)
      → i + left ≡ n
      → AllValid rq n
      → AllValid q n
      → (rq' : Memory Packet) × (q' : Memory Packet) × (transfer_from left g i rq q n
          ≡ some (rq', q'))
        × Moved g i n rq q rq' q'
  unfolding transfer_from
  transfer_from-Moved zero i rq q e ok_rq ok_q = (
    rq,
    q,
    refl,
    record {
      valid_rq = ok_rq;
      valid_q = ok_q;
      emptied = λ j p hj. absurd (omega arith);
      pushed = λ j p hj. absurd (omega arith);
      other_rq = λ c d hc hd ne. refl;
      other_q = λ c d hc hd ne. refl;
    },
  )
  transfer_from-Moved (suc left) i rq q e ok_rq ok_q =
      let hi : i < n = omega arith in
      let (rq1, q1, eq1, first) =
        transfer_queue-Emptied g i n hg hi (suc max_bytecode_sz) rq q ok_rq ok_q
          (omega (arith, size-le g i rq n (ok_rq g i hg hi))) in
      let (rq', q', eq, rest) =
        transfer_from-Moved left (i + 1) rq1 q1 (omega arith) first.valid_rq first.valid_q in
      (rq', q', rw (eq1, transfer_from) eq, Moved-step i hi first rest)

  -- Where all queues are valid, `q_transfer` of compute unit `g` returns. It empties all transfer
  -- queues of `g`, pushes their packets in order to the queues that their destinations have for `g`,
  -- where those packets are lost for which there is no room, changes no other queue, and keeps all
  -- queues valid.
  pub q_transfer-Moved :
      (rq q : Memory Packet)
      → AllValid rq n
      → AllValid q n
      → (rq' : Memory Packet) × (q' : Memory Packet) × (q_transfer g rq q n ≡ some (rq', q'))
        × Moved g 0 n rq q rq' q'
  unfolding q_transfer
  q_transfer-Moved rq q ok_rq ok_q = transfer_from-Moved n 0 rq q (omega arith) ok_rq ok_q
