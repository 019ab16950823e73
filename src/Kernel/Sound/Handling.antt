-- ===== src/Kernel/Sound/Handling.antt =====
-- Handling a packet keeps the packets and the table of a compute unit sound.
use mathlib.Core.Path.{subst}
use native.Mathlib.Decide.{ℕ_discrete}
use ocl_gprm.Symbol.Mask
use ocl_gprm.Base.{
  ℕ, ◌+◌, ◌≤◌, ◌<◌, ◌≡◌, ◌⊎◌, inl, inr, sym, ap, arith, Bool, false, Bool-cases, ◌==◌, ==_of_ne,
  if◌then◌else◌, if-both, Ensures, Ensures-some, Ensures-then, u16, u32, Memory, store_self,
  store_ne,
}
use ocl_gprm.Macros.{reference, data_packet, return_address}
use ocl_gprm.WorkItem.{WorkItem}
use ocl_gprm.Packet.{
  Packet, pkt_get_type, pkt_get_source, pkt_get_arg_pos, pkt_get_sub, pkt_get_payload,
}
use ocl_gprm.Queue.Carries.{Carries, q_write-Carries}
use ocl_gprm.Subtask.Table.{
  SubtaskTable, subt_cleanup, subt_store_symbol, subt_is_ready, subt_get_rec, store_symbol,
}
use ocl_gprm.Subtask.Table.Stack.{IsStack, subt_push_refines}
use ocl_gprm.Subtask.Record.{
  SubtaskRecord, subt_rec_get_return_as_pos, subt_rec_get_return_as_addr, subt_rec_set_arg,
  subt_rec_set_arg_status, subt_rec_set_nargs_absent,
}
use ocl_gprm.Service.{service_compute}
use ocl_gprm.Kernel.Parse.Laws.{given_count, code_symbol}
use ocl_gprm.Kernel.Parse.Created.{Created, parse_subtask-Created}
use ocl_gprm.Kernel.{
  Global, send_result, parse_reference, parse_data, parse_pkt, barrier, parse_in_step,
}
use ocl_gprm.Kernel.Sound.{IsWaiting, IsAnswerable, IsReturn, IsReturning, IsSound}
use ocl_gprm.Kernel.Sound.Parse.{result-IsAnswerable, parse_subtask-Carries}

module _ (n : ℕ) where
  subt_cleanup-IsReturning :
      (i : ℕ) (t : SubtaskTable) → IsReturning n t → IsReturning n (subt_cleanup i t)
  unfolding subt_cleanup
  subt_cleanup-IsReturning i t h = elim (subt_push_refines t h.stack i) [
    | inl (full, e) ↦ subst (λ (r : Bool × SubtaskTable). IsReturning n r.1) (sym e) h
    | inr (t', e, left, same, stack) ↦
        subst (λ (r : Bool × SubtaskTable). IsReturning n r.1) (sym e)
          (record {
            stack = stack;
            returns =
                subst (λ (m : Memory SubtaskRecord). (i : ℕ) → IsReturn n (m i).return_to)
                  (sym same) h.returns;
          })
  ]

  pub subt_store_symbol-IsReturning :
      (symbol arg_pos i : ℕ) (t : SubtaskTable)
      → IsReturning n t
      → IsReturning n (subt_store_symbol symbol arg_pos i t)
  unfolding subt_store_symbol store_symbol subt_rec_set_arg subt_rec_set_arg_status
      subt_rec_set_nargs_absent
  subt_store_symbol-IsReturning symbol arg_pos i t h = record {
    stack = h.stack;
    returns = λ j. elim (ℕ_discrete i j) [
      | yes e ↦
          rw (sym e, store_self t.recs i (store_symbol symbol arg_pos (t.recs i))) (h.returns i)
      | no ne ↦ rw (store_ne t.recs i j (store_symbol symbol arg_pos (t.recs i)) ne) (h.returns j)
    ];
  }

  Created-IsReturning :
      (c_store : Memory ℕ) (source arg_pos subtask address i : ℕ) (t t' : SubtaskTable)
      → n ≤ 256
      → IsReturn n source
      → IsReturning n t
      → IsStack t'
      → Created c_store source arg_pos subtask address i t.recs t'
      → IsReturning n t'
  Created-IsReturning c_store source arg_pos subtask address i t t' few known h stack new = record {
    stack = stack;
    returns = λ j. elim (ℕ_discrete i j) [
      | yes e ↦ rw (sym e, new.return_to) (kept known)
      | no ne ↦ rw (new.others j ne) (h.returns j)
    ];
  }
    where
      kept : IsReturn n source → IsReturn n (u16 source)
      kept (inl lt) = inl (omega arith)
      kept (inr e) = inr (omega arith)

-- Whether a record that `Created` describes has to wait.
pub Created-waits :
    (c_store : Memory ℕ) (source arg_pos subtask address i : ℕ) (before : Memory SubtaskRecord)
    (t' : SubtaskTable)
    → IsWaiting c_store address
    → Created c_store source arg_pos subtask address i before t'
    → subt_is_ready i t' ≡ false
unfolding subt_is_ready
Created-waits c_store source arg_pos subtask address i before t' waiting new =
    ==_of_ne (t'.recs i).nargs_absent 0 (λ e. omega (
      arith,
      e,
      new.absent,
      ap (given_count (code_symbol c_store address) 0) new.count,
      new.count,
      waiting,
    ))

module _ (w : WorkItem) (n : ℕ) (c_store : Memory ℕ) (hg : w.group_id < n) (few : n ≤ 256) where
  send_result-IsSound :
      (return_to pos addr result i : ℕ) (g : Global)
      → return_to < n
      → IsSound n c_store g
      → IsSound n c_store (send_result w n return_to pos addr result i g)
  unfolding send_result
  send_result-IsSound return_to pos addr result i g h s =
      let freed = subt_cleanup-IsReturning n i g.table s.table in
      record {
        rq =
            q_write-Carries (IsAnswerable n c_store) n _ w.group_id return_to g.rq hg h
              (result-IsAnswerable w n c_store hg few pos addr (u32 result)) s.rq;
        table = freed;
      }

  IsSound-mem :
      (g : Global) (mem : Memory ℕ)
      → IsSound n c_store g
      → IsSound n c_store (record g { mem = mem })
  IsSound-mem g mem s = record { rq = s.rq; table = s.table }

  module _ (p : Packet) (g : Global) (s : IsSound n c_store g) where
    parse_data-IsSound : IsSound n c_store (parse_data w p n g)
    unfolding parse_data
    parse_data-IsSound =
        let i = pkt_get_sub p in
        let symbol = Mask.symbol_kp_zero + pkt_get_payload p in
        let t1 = subt_store_symbol symbol (pkt_get_arg_pos p) i g.table in
        let rec = subt_get_rec i t1 in
        let stored = subt_store_symbol-IsReturning n symbol (pkt_get_arg_pos p) i g.table s.table in
        let g1 : Global = record g { table = t1 } in
        let g2 : Global = record g1 { mem = (service_compute w rec g.mem).1 } in
        let s1 : IsSound n c_store g1 = record { rq = s.rq; table = stored } in
        let s2 = IsSound-mem g1 (service_compute w rec g.mem).1 s1 in
        let answer =
          send_result w n rec.return_to (subt_rec_get_return_as_pos rec)
            (subt_rec_get_return_as_addr rec) (service_compute w rec g.mem).0 i g2 in
        let own : IsSound n c_store (if rec.return_to == return_address then g2 else answer) =
          elim (stored.returns i) [
            | inl lt ↦ if-both (IsSound n c_store) (rec.return_to == return_address) s2 (
                send_result-IsSound rec.return_to (subt_rec_get_return_as_pos rec)
                  (subt_rec_get_return_as_addr rec) (service_compute w rec g.mem).0 i g2 lt s2)
            | inr e ↦ rw e s2
          ] in
        if-both (IsSound n c_store) (subt_is_ready i t1)
          (if-both (IsSound n c_store) (w.local_id == 0) own s2) s1

    -- The state after a subtask has been made: the answer is sent at once where it is ready.
    answered :
        (from : (pkt_get_source p < n)
          ⊎ ((pkt_get_source p ≡ return_address) × IsWaiting c_store (pkt_get_payload p)))
        (i : ℕ) (rq : Memory Packet) (t : SubtaskTable)
        → Carries (IsAnswerable n c_store) rq n
        → IsStack t
        → Created c_store
            (pkt_get_source p)
            (pkt_get_arg_pos p)
            (pkt_get_sub p)
            (pkt_get_payload p)
            i
            g.table.recs
            t
        → let g1 : Global = record { rq = rq; table = t; mem = g.mem } in
          let computed = service_compute w (subt_get_rec i t) g.mem in
          let g2 : Global = record g1 { mem = computed.1 } in
          IsSound n c_store (
            if subt_is_ready i t
            then (if w.local_id == 0
                then send_result w n
                    (pkt_get_source p)
                    (pkt_get_arg_pos p)
                    (pkt_get_sub p)
                    computed.0
                    i
                    g2
                else g2)
            else g1)
    answered from i rq t carries stack new =
        let known : IsReturn n (pkt_get_source p) = elim from [
          | inl lt ↦ inl lt
          | inr (e, _) ↦ inr e
        ] in
        let table =
          Created-IsReturning n c_store (pkt_get_source p) (pkt_get_arg_pos p) (pkt_get_sub p)
            (pkt_get_payload p) i g.table t few known s.table stack new in
        let g1 : Global = record { rq = rq; table = t; mem = g.mem } in
        let computed = service_compute w (subt_get_rec i t) g.mem in
        let s1 : IsSound n c_store g1 = record { rq = carries; table = table } in
        let s2 = IsSound-mem g1 computed.1 s1 in
        elim from [
          | inl lt ↦
              if-both (IsSound n c_store) (subt_is_ready i t)
                (if-both (IsSound n c_store) (w.local_id == 0)
                  (send_result-IsSound (pkt_get_source p) (pkt_get_arg_pos p) (pkt_get_sub p)
                    computed.0 i (record g1 { mem = computed.1 }) lt s2)
                  s2)
                s1
          | inr (_, waiting) ↦
              rw
                (Created-waits c_store (pkt_get_source p) (pkt_get_arg_pos p) (pkt_get_sub p)
                  (pkt_get_payload p) i g.table.recs t waiting new)
                s1
        ]

    parse_reference-IsSound :
        pkt_get_type p ≡ reference
        → IsAnswerable n c_store p
        → Ensures (IsSound n c_store) (parse_reference w p n c_store g)
    unfolding parse_reference
    parse_reference-IsSound type from =
        let ok = from type in
        elim (parse_subtask-Created w (pkt_get_source p) (pkt_get_arg_pos p) (pkt_get_sub p)
          (pkt_get_payload p) n c_store g.rq g.table s.table.stack) [
            | inl (nothing, waits) ↦ rw (waits, parse_reference) tt
            | inr (i, rq, t, e, left, stack, _, new) ↦
                let carries =
                  Ensures-some (λ r. Carries (IsAnswerable n c_store) r.1 n)
                    (parse_subtask-Carries w n c_store hg few (pkt_get_source p) (pkt_get_arg_pos p)
                      (pkt_get_sub p) (pkt_get_payload p) g.rq g.table s.rq s.table.stack)
                    e in
                rw (e, parse_reference) (answered ok i rq t carries stack new)
          ]

    -- Handling a packet.
    pub parse_pkt-IsSound :
        IsAnswerable n c_store p → Ensures (IsSound n c_store) (parse_pkt w p n c_store g)
    unfolding parse_pkt
    parse_pkt-IsSound from = elim (Bool-cases (pkt_get_type p == reference)) [
      | inl e ↦ rw e (parse_reference-IsSound (ground arith) from)
      | inr e ↦ rw e (
          if-both (Ensures (IsSound n c_store)) (pkt_get_type p == data_packet) parse_data-IsSound
            s)
    ]

    -- And the barrier behind it.
    pub parse_in_step-IsSound :
        IsAnswerable n c_store p → Ensures (IsSound n c_store) (parse_in_step w p n c_store g)
    unfolding parse_in_step
    parse_in_step-IsSound from =
        Ensures-then (IsSound n c_store) (IsSound n c_store) (parse_pkt w p n c_store g)
          (λ g'. barrier w g') (parse_pkt-IsSound from)
          (λ g' s'. if-both (Ensures (IsSound n c_store)) (w.local_size == 1) s' tt)
