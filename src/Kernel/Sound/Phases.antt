-- ===== src/Kernel/Sound/Phases.antt =====
-- A work-item of a launch keeps the packets and the table of its unit sound.
use ocl_gprm.Base.{
  ℕ, zero, suc, ◌+◌, ◌≤◌, ◌<◌, inl, inr, arith, Bool-cases, if-both, ◌==◌, some, Ensures,
  Ensures-then, Memory,
}
use ocl_gprm.Macros.{max_bytecode_sz}
use ocl_gprm.WorkItem.{WorkItem}
use ocl_gprm.Packet.{Packet}
use ocl_gprm.Queue.{q_is_empty}
use ocl_gprm.Queue.Ring.{read_packet, read_buffer, q_read-some, q_read-none}
use ocl_gprm.Queue.Carries.{Carries, split-Carries, read_buffer-Carries, Moved-Carries}
use ocl_gprm.Queue.Transfer.Laws.{q_transfer-Moved}
use ocl_gprm.Kernel.{
  State, complete, reading, writing, Global, Buffers, parse_in_step, read_queue, read_from,
  vm_write, vm_read, in_state, vm,
}
use ocl_gprm.Kernel.Sound.{IsAnswerable, IsSound}
use ocl_gprm.Kernel.Sound.Handling.{parse_in_step-IsSound}

-- Both buffers and the table of a unit.
pub record IsSafe (n : ℕ) (c_store : Memory ℕ) (b : Buffers) : Type 0 where
  pub q : Carries (IsAnswerable n c_store) b.q n
  pub unit : IsSound n c_store b.global

module _ (w : WorkItem) (n : ℕ) (c_store : Memory ℕ) (hg : w.group_id < n) (few : n ≤ 256) where
  abbrev SafeRead : Memory Packet × Global → Type 0
  SafeRead r = Carries (IsAnswerable n c_store) r.0 n × IsSound n c_store r.1

  read_queue-SafeRead :
      (fuel i : ℕ) (q : Memory Packet) (g : Global)
      → i < n
      → Carries (IsAnswerable n c_store) q n
      → IsSound n c_store g
      → Ensures SafeRead (read_queue fuel w i n c_store q g)
  unfolding read_queue
  read_queue-SafeRead zero i q g hi ok s = tt
  read_queue-SafeRead (suc fuel) i q g hi ok s = elim (Bool-cases (q_is_empty w.group_id i q n)) [
    | inl e ↦ rw (q_read-none w.group_id i q n e, read_queue) (ok, s)
    | inr e ↦
        let p = read_packet w.group_id i q n in
        let q1 = read_buffer w.group_id i q n in
        let (from, _) = split-Carries (IsAnswerable n c_store) n w.group_id i q hg hi ok e in
        rw (q_read-some w.group_id i q n e, read_queue)
          (Ensures-then (IsSound n c_store) SafeRead (parse_in_step w p n c_store g)
            (λ g'. read_queue fuel w i n c_store q1 g')
            (parse_in_step-IsSound w n c_store hg few p g s from)
            (λ g' s'.
              read_queue-SafeRead fuel i q1 g' hi
                (read_buffer-Carries (IsAnswerable n c_store) n w.group_id i q hg hi ok e) s'))
  ]

  read_from-SafeRead :
      (left i : ℕ) (q : Memory Packet) (g : Global)
      → i + left ≤ n
      → Carries (IsAnswerable n c_store) q n
      → IsSound n c_store g
      → Ensures SafeRead (read_from left w i n c_store q g)
  unfolding read_from
  read_from-SafeRead zero i q g hi ok s = (ok, s)
  read_from-SafeRead (suc left) i q g hi ok s =
      Ensures-then SafeRead SafeRead (read_queue (suc max_bytecode_sz) w i n c_store q g)
        (λ (r : Memory Packet × Global). read_from left w (i + 1) n c_store r.0 r.1)
        (read_queue-SafeRead (suc max_bytecode_sz) i q g (omega arith) ok s)
        (λ r safe. read_from-SafeRead left (i + 1) r.0 r.1 (omega arith) safe.0 safe.1)

  vm_read-IsSafe :
      (b : Buffers) → IsSafe n c_store b → Ensures (IsSafe n c_store) (vm_read w n c_store b)
  unfolding vm_read
  vm_read-IsSafe b safe =
      Ensures-then SafeRead (IsSafe n c_store) (read_from n w 0 n c_store b.q b.global)
        (λ (r : Memory Packet × Global). some (record b { q = r.0; global = r.1 }))
        (read_from-SafeRead n 0 b.q b.global (omega arith) safe.q safe.unit)
        (λ r ok. record { q = ok.0; unit = ok.1 })

  vm_write-IsSafe : (b : Buffers) → IsSafe n c_store b → Ensures (IsSafe n c_store) (vm_write w n b)
  unfolding vm_write
  vm_write-IsSafe b safe =
      let (rq, q, e, moved) =
        q_transfer-Moved w.group_id n hg b.global.rq b.q safe.unit.rq.valid safe.q.valid in
      let (ok_rq, ok_q) =
        Moved-Carries (IsAnswerable n c_store) n w.group_id hg safe.unit.rq safe.q moved in
      rw (e, vm_write) (record { q = ok_q; unit = record { rq = ok_rq; table = safe.unit.table } })

  in_state-IsSafe :
      (s : State) (b : Buffers)
      → IsSafe n c_store b
      → Ensures (IsSafe n c_store) (in_state s w n c_store b)
  in_state-IsSafe complete b safe = safe
  in_state-IsSafe reading b safe = vm_read-IsSafe b safe
  in_state-IsSafe writing b safe =
      if-both (Ensures (IsSafe n c_store)) (w.local_id == 0) (vm_write-IsSafe b safe) safe

  -- The kernel.
  pub vm-IsSafe : (b : Buffers) → IsSafe n c_store b → Ensures (IsSafe n c_store) (vm w n c_store b)
  unfolding vm
  vm-IsSafe b safe = in_state-IsSafe b.state b safe
