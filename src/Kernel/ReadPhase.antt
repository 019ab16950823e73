-- ===== src/Kernel/ReadPhase.antt =====
-- A launch in state READ: one work-item reads and parses every packet of its unit's queues.
use native.Mathlib.Decide.{ℕ_discrete}
use mathlib.Core.Path.{subst}
use ocl_gprm.Queue.Fifo.{read-contents}
use ocl_gprm.Base.{
  All, ℕ, zero, suc, ◌+◌, ◌≤◌, ◌<◌, ◌≡◌, ◌≢◌, ◌⊎◌, true, refl, sym, ap, ap₂, ◌∙◌, arith, some,
  Memory, [], length, Bool-cases, inl, inr,
}
use ocl_gprm.Macros.{max_bytecode_sz}
use ocl_gprm.WorkItem.{WorkItem}
use ocl_gprm.Packet.{Packet}
use ocl_gprm.Queue.{q_is_empty}
use ocl_gprm.Queue.Ring.{read_packet, read_buffer, q_read-some, q_read-none}
use ocl_gprm.Queue.Window.{contents, size, size-le, length-window}
use ocl_gprm.Queue.Frame.{AllValid, read_buffer_frame, read_buffer-AllValid}
use ocl_gprm.Queue.Transfer.Laws.{contents-empty, size-read}
use ocl_gprm.Kernel.{Global, Buffers, read_queue, read_from, vm_read}
use ocl_gprm.Subtask.Table.Stack.{available, IsStack}
use ocl_gprm.Kernel.Progress.{Has, IsInside, parse_in_step-returns}

-- The queue `(a, i)` has been read, and no other.
pub record Drained (a i n : ℕ) (q q' : Memory Packet) : Type 0 where
  pub valid : AllValid q' n
  pub drained : contents a i q' n ≡ []
  pub others : (c d : ℕ) → c < n → d < n → (a ≢ c) ⊎ (i ≢ d) → contents c d q' n ≡ contents c d q n

module _ (a i n : ℕ) (ha : a < n) (hi : i < n) (q : Memory Packet) (ok : AllValid q n) where
  pub Drained-none : q_is_empty a i q n ≡ true → Drained a i n q q
  Drained-none e = record {
    valid = ok;
    drained = contents-empty a i n ha hi q ok e;
    others = λ c d hc hd ne. refl;
  }

  -- One packet has been read, and then the rest.
  pub Drained-step :
      {q' : Memory Packet} → Drained a i n (read_buffer a i q n) q' → Drained a i n q q'
  Drained-step rest = record {
    valid = rest.valid;
    drained = rest.drained;
    others = λ c d hc hd ne.
        rest.others c d hc hd ne
        ∙ (read_buffer_frame a i c d n ha hi hc hd ne q (ok a i ha hi) (ok c d hc hd)).0;
  }

-- How many packets wait in the `left` queues of unit `a` from `i` on.
abbrev pub waiting : ℕ → ℕ → ℕ → Memory Packet → ℕ → ℕ
waiting a zero i q n = 0
waiting a (suc left) i q n = length (contents a i q n) + waiting a left (i + 1) q n

module _ (w : WorkItem) (n : ℕ) (c_store : Memory ℕ) (ha : w.group_id < n)
    (alone : w.local_size ≡ 1) where
  -- With more fuel than the queue has packets and a record for each of them, the inner loop ends
  -- and has emptied the queue.
  read_queue-Drained :
      (fuel i : ℕ) (q : Memory Packet) (g : Global) (k : ℕ)
      → i < n
      → AllValid q n
      → size w.group_id i q n < fuel
      → All (IsInside c_store) (contents w.group_id i q n)
      → Has (size w.group_id i q n + k) g.table
      → (q' : Memory Packet) × (g' : Global) × (read_queue fuel w i n c_store q g ≡ some (q', g'))
        × Drained w.group_id i n q q'
        × Has k g'.table
  unfolding read_queue
  read_queue-Drained zero i q g k hi ok h inside has = absurd (omega arith)
  read_queue-Drained (suc fuel) i q g k hi ok h inside has =
      elim (Bool-cases (q_is_empty w.group_id i q n)) [
        | inl e ↦ (
          q,
          g,
          rw (q_read-none w.group_id i q n e, read_queue),
          Drained-none w.group_id i n ha hi q ok e,
          record { stack = has.stack; left = omega (arith, has.left) },
        )
        | inr e ↦
            let q1 = read_buffer w.group_id i q n in
            let p = read_packet w.group_id i q n in
            let shrunk = size-read w.group_id i n ha hi q ok e in
            let enough : Has (suc (size w.group_id i q1 n + k)) g.table = record {
              stack = has.stack;
              left = omega (arith, has.left, shrunk);
            } in
            let (now, later) =
              subst (All (IsInside c_store))
                (read-contents w.group_id i q n ha hi (ok w.group_id i ha hi) e) inside in
            let (g1, parsed, has1) =
              parse_in_step-returns w p n c_store g (size w.group_id i q1 n + k) alone now enough in
            let (q', g', eq, rest, has') =
              read_queue-Drained fuel i q1 g1 k hi (read_buffer-AllValid w.group_id i q n ha hi ok)
                (omega (arith, shrunk)) later has1 in
            (
              q',
              g',
              rw (q_read-some w.group_id i q n e, parsed, read_queue) eq,
              Drained-step w.group_id i n ha hi q ok rest,
              has',
            )
      ]

-- The queues `(a, j)` with `k ≤ j` have been read, and no other.
pub record ReadOut (a k n : ℕ) (q q' : Memory Packet) : Type 0 where
  pub valid : AllValid q' n
  pub drained : (j : ℕ) → k ≤ j → j < n → contents a j q' n ≡ []
  pub others : (c d : ℕ) → c < n → d < n → (a ≢ c) ⊎ (d < k) → contents c d q' n ≡ contents c d q n

pub waiting-same :
    (a n left i : ℕ) (q q' : Memory Packet)
    → ((j : ℕ) → i ≤ j → j < i + left → contents a j q' n ≡ contents a j q n)
    → waiting a left i q' n ≡ waiting a left i q n
waiting-same a n zero i q q' same = refl
waiting-same a n (suc left) i q q' same =
    ap₂ ◌+◌ (ap length (same i (omega arith) (omega arith)))
      (waiting-same a n left (i + 1) q q' (λ j p r. same j (omega arith) (omega arith)))

pub ReadOut-step :
    (a i n : ℕ) {q q1 q' : Memory Packet}
    → a < n
    → i < n
    → Drained a i n q q1
    → ReadOut a (i + 1) n q1 q'
    → ReadOut a i n q q'
ReadOut-step a i n ha hi first rest = record {
  valid = rest.valid;
  drained = λ j p hj. elim (ℕ_discrete i j) [
    | yes e ↦ rw (sym e) (rest.others a i ha hi (inr (omega arith)) ∙ first.drained)
    | no e ↦ rest.drained j (omega arith) hj
  ];
  others = λ c d hc hd ne. elim ne [
    | inl x ↦ rest.others c d hc hd (inl x) ∙ first.others c d hc hd (inl x)
    | inr x ↦ rest.others c d hc hd (inr (omega arith)) ∙ first.others c d hc hd (inr (omega arith))
  ];
}

pub ReadOut-none : (a k n : ℕ) (q : Memory Packet) → n ≤ k → AllValid q n → ReadOut a k n q q
ReadOut-none a k n q h ok = record {
  valid = ok;
  drained = λ j p hj. absurd (omega arith);
  others = λ c d hc hd ne. refl;
}

module _ (w : WorkItem) (n : ℕ) (c_store : Memory ℕ) (ha : w.group_id < n)
    (alone : w.local_size ≡ 1) where
  read_from-ReadOut :
      (left i : ℕ) (q : Memory Packet) (g : Global) (k : ℕ)
      → i + left ≡ n
      → AllValid q n
      → ((j : ℕ) → i ≤ j → j < n → All (IsInside c_store) (contents w.group_id j q n))
      → Has (waiting w.group_id left i q n + k) g.table
      → (q' : Memory Packet) × (g' : Global) × (read_from left w i n c_store q g ≡ some (q', g'))
        × ReadOut w.group_id i n q q'
        × Has k g'.table
  unfolding read_from
  read_from-ReadOut zero i q g k e ok inside has = (
    q,
    g,
    refl,
    ReadOut-none w.group_id i n q (omega arith) ok,
    record { stack = has.stack; left = omega (arith, has.left) },
  )
  read_from-ReadOut (suc left) i q g k e ok inside has =
      let a = w.group_id in
      let hi : i < n = omega arith in
      let length-size : length (contents a i q n) ≡ size a i q n = length-window q _ _ _ in
      let enough : Has (size a i q n + (waiting a left (i + 1) q n + k)) g.table = record {
        stack = has.stack;
        left = omega (arith, has.left, length-size);
      } in
      let (q1, g1, eq1, first, has1) =
        read_queue-Drained w n c_store ha alone (suc max_bytecode_sz) i q g
          (waiting a left (i + 1) q n + k) hi ok (omega (arith, size-le a i q n (ok a i ha hi)))
          (inside i (omega arith) hi) enough in
      let same : waiting a left (i + 1) q1 n ≡ waiting a left (i + 1) q n =
        waiting-same a n left (i + 1) q q1
          (λ j p r. first.others a j ha (omega arith) (inr (omega arith))) in
      let (q', g', eq, rest, has') =
        read_from-ReadOut left (i + 1) q1 g1 k (omega arith) first.valid
          (λ j p hj.
            subst (All (IsInside c_store)) (sym (first.others a j ha hj (inr (omega arith))))
              (inside j (omega arith) hj))
          (record { stack = has1.stack; left = omega (arith, has1.left, same) }) in
      (q', g', rw (eq1, read_from) eq, ReadOut-step a i n ha hi first rest, has')

  -- A launch in state READ of the only work-item of compute unit `g` returns, where all queues are valid,
  -- the stack pointer of the unit's table is inside the stack, and at least as many records are
  -- available as packets wait for the unit. The unit's queues are empty afterwards, no other queue
  -- has changed, all are valid, the stack pointer is still inside, and the state is the same.
  pub vm_read-returns :
      (b : Buffers)
      → AllValid b.q n
      → ((j : ℕ) → j < n → All (IsInside c_store) (contents w.group_id j b.q n))
      → IsStack b.global.table
      → waiting w.group_id n 0 b.q n ≤ length (available b.global.table)
      → (b' : Buffers) × (vm_read w n c_store b ≡ some b')
        × (b'.state ≡ b.state)
        × IsStack b'.global.table
        × ReadOut w.group_id 0 n b.q b'.q
  unfolding vm_read
  vm_read-returns b ok inside stack enough =
      let (q, g, eq, out, has) =
        read_from-ReadOut n 0 b.q b.global 0 (omega arith) ok (λ j p hj. inside j hj)
          (record { stack = stack; left = omega arith }) in
      (record b { q = q; global = g }, rw (eq, vm_read), refl, has.stack, out)
