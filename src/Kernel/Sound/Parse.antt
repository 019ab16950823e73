-- ===== src/Kernel/Sound/Parse.antt =====
-- Parsing a packet sends packets to compute units only, and leaves a sound table.
use ocl_gprm.Symbol.Mask
use ocl_gprm.Base.{
  ℕ, zero, suc, ◌+◌, ◌*◌, ◌≤◌, ◌<◌, inl, inr, arith, ◌==◌, if-both, Ensures, Ensures-if, u32,
  Memory,
}
use ocl_gprm.Macros.{max_bytecode_sz, reference, data_packet}
use ocl_gprm.WorkItem.{WorkItem}
use ocl_gprm.Packet.{Packet, pkt_create}
use ocl_gprm.Packet.Fields.{pkt_create-fields}
use ocl_gprm.Symbol.{symbol_get_kind, symbol_get_address, symbol_is_quoted}
use ocl_gprm.Queue.Carries.{Carries, q_write-Carries}
use ocl_gprm.Subtask.Table.{SubtaskTable}
use ocl_gprm.Subtask.Table.Stack.{IsStack, subt_pop_refines}
use ocl_gprm.Kernel.Parse.{destination, parse_arg, parse_args, parse_subtask}
use ocl_gprm.Kernel.Parse.Requests.{destination-lt}
use ocl_gprm.Kernel.Sound.{IsAnswerable}

module _ (w : WorkItem) (n : ℕ) (c_store : Memory ℕ) (hg : w.group_id < n) (few : n ≤ 256) where
  request-IsAnswerable :
      (arg_pos i address : ℕ)
      → IsAnswerable n c_store (pkt_create w.uninit reference w.group_id arg_pos i address)
  request-IsAnswerable arg_pos i address h =
      let fields = pkt_create-fields w.uninit reference w.group_id arg_pos i address in
      inl (omega (arith, fields.1))

  pub result-IsAnswerable :
      (pos addr result : ℕ)
      → IsAnswerable n c_store (pkt_create w.uninit data_packet w.group_id pos addr result)
  result-IsAnswerable pos addr result h =
      let fields = pkt_create-fields w.uninit data_packet w.group_id pos addr result in
      absurd (omega (arith, fields.0))

  parse_arg-Carries :
      (i arg_pos symbol : ℕ) (rq : Memory Packet) (t : SubtaskTable)
      → Carries (IsAnswerable n c_store) rq n
      → Carries (IsAnswerable n c_store) (parse_arg w i n arg_pos symbol rq t).0 n
  unfolding parse_arg
  parse_arg-Carries i arg_pos symbol rq t ok =
      let P = λ (r : Memory Packet × SubtaskTable). Carries (IsAnswerable n c_store) r.0 n in
      let sent =
        q_write-Carries (IsAnswerable n c_store) n _ w.group_id (destination symbol n) rq hg
          (destination-lt n symbol (omega arith))
          (request-IsAnswerable arg_pos i (symbol_get_address symbol)) ok in
      if-both P (symbol_get_kind symbol == Mask.k_r) (if-both P (symbol_is_quoted symbol) ok sent)
        (if-both P (symbol_get_kind symbol == Mask.k_b) ok ok)

  parse_args-Carries :
      (left i address arg_pos : ℕ) (rq : Memory Packet) (t : SubtaskTable)
      → Carries (IsAnswerable n c_store) rq n
      → Carries (IsAnswerable n c_store) (parse_args left w i n c_store address arg_pos rq t).0 n
  unfolding parse_args
  parse_args-Carries zero i address arg_pos rq t ok = ok
  parse_args-Carries (suc left) i address arg_pos rq t ok =
      parse_args-Carries left i address (arg_pos + 1) _ _ (
        parse_arg-Carries i arg_pos (c_store (u32 (address * max_bytecode_sz + arg_pos + 1))) rq t
          ok)

  module _ (source arg_pos subtask address : ℕ) (rq : Memory Packet) (t : SubtaskTable)
      (ok : Carries (IsAnswerable n c_store) rq n) (stack : IsStack t) where
    pub parse_subtask-Carries :
        Ensures
          (λ r. Carries (IsAnswerable n c_store) r.1 n)
          (parse_subtask w source arg_pos subtask address n c_store rq t)
    unfolding parse_subtask
    parse_subtask-Carries = elim (subt_pop_refines t stack) [
      | inl (nothing, failed) ↦ rw (failed, parse_subtask) tt
      | inr (i, s, popped, _, _, _) ↦
          rw (popped, parse_subtask)
            (Ensures-if (λ r. Carries (IsAnswerable n c_store) r.1 n) _
              (parse_args-Carries _ i address 0 rq _ ok))
    ]
