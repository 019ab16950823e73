-- ===== src/Kernel/Progress.antt =====
-- One packet: `parse_pkt` returns while a record is available, and takes at most one.
use mathlib.Core.Path.{subst}
use ocl_gprm.Symbol.Mask
use ocl_gprm.Base.{
  ℕ, suc, ◌+◌, ◌*◌, ◌<◌, u32, refl, ◌≤◌, ◌≡◌, sym, ap, arith, Bool, some, ◌==◌, if◌then◌else◌,
  if-both, Memory, length, Bool-cases, inl, inr,
}
use ocl_gprm.Macros.{return_address, reference, data_packet, max_bytecode_sz}
use ocl_gprm.WorkItem.{WorkItem}
use ocl_gprm.Symbol.{symbol_get_nargs}
use ocl_gprm.Packet.{
  Packet, pkt_get_type, pkt_get_source, pkt_get_arg_pos, pkt_get_sub, pkt_get_payload,
}
use ocl_gprm.Subtask.Table.{
  SubtaskTable, subt_cleanup, subt_store_symbol, subt_is_ready, subt_get_rec,
}
use ocl_gprm.Subtask.Table.Stack.{available, IsStack, subt_push_refines}
use ocl_gprm.Subtask.Record.{
  subt_rec_get_return_to, subt_rec_get_return_as_pos, subt_rec_get_return_as_addr,
}
use ocl_gprm.Service.{service_compute}
use ocl_gprm.Kernel.Parse.Created.{parse_subtask-Created}
use ocl_gprm.Kernel.{Global, send_result, parse_reference, parse_data, parse_pkt, parse_in_step}

-- The stack of `t` is in order, and at least `k` records are available.
pub record Has (k : ℕ) (t : SubtaskTable) : Type 0 where
  pub stack : IsStack t
  pub left : k ≤ length (available t)

subt_cleanup-Has : (k i : ℕ) (t : SubtaskTable) → Has k t → Has k (subt_cleanup i t)
unfolding subt_cleanup
subt_cleanup-Has k i t h = elim (subt_push_refines t h.stack i) [
  | inl (full, e) ↦ subst (λ (r : Bool × SubtaskTable). Has k r.1) (sym e) h
  | inr (t', e, left, same, stack) ↦
      subst (λ (r : Bool × SubtaskTable). Has k r.1) (sym e)
        (record { stack = stack; left = rw left (omega (arith, h.left)) })
]

send_result-Has :
    (w : WorkItem) (n return_to pos addr result i : ℕ) (g : Global) (k : ℕ)
    → Has k g.table
    → Has k (send_result w n return_to pos addr result i g).table
unfolding send_result
send_result-Has w n return_to pos addr result i g k h = subt_cleanup-Has k i g.table h

parse_data-Has :
    (w : WorkItem) (p : Packet) (n : ℕ) (g : Global) (k : ℕ)
    → Has k g.table
    → Has k (parse_data w p n g).table
unfolding parse_data subt_store_symbol
parse_data-Has w p n g k h =
    let i = pkt_get_sub p in
    let t1 =
      subt_store_symbol (Mask.symbol_kp_zero + pkt_get_payload p) (pkt_get_arg_pos p) i g.table in
    let rec = subt_get_rec i t1 in
    let (result, mem) = service_compute w rec g.mem in
    let g2 = record g { table = t1; mem = mem } in
    let stored : Has k t1 = record { stack = h.stack; left = h.left } in
    let sent =
      send_result-Has w n (subt_rec_get_return_to rec) (subt_rec_get_return_as_pos rec)
        (subt_rec_get_return_as_addr rec) result i g2 k stored in
    let P : Global → Type 0 = λ (g' : Global). Has k g'.table in
    if-both P (subt_is_ready i t1)
      (if-both P (w.local_id == 0)
        (if-both P (subt_rec_get_return_to rec == return_address) stored sent) stored)
      stored

-- The code that a reference packet asks for has no more arguments than a record.
abbrev pub HasRoom : Memory ℕ → Packet → Type 0
HasRoom c_store p =
    symbol_get_nargs (c_store (u32 (pkt_get_payload p * max_bytecode_sz))) < max_bytecode_sz

-- A packet that does not ask for code with more arguments than a record has room for.
abbrev pub IsInside : Memory ℕ → Packet → Type 0
IsInside c_store p = pkt_get_type p ≡ reference → HasRoom c_store p

-- `case REFERENCE` returns while a record is available, and takes one.
parse_reference-Has :
    (w : WorkItem) (p : Packet) (n : ℕ) (c_store : Memory ℕ) (g : Global) (k : ℕ)
    → HasRoom c_store p
    → Has (suc k) g.table
    → (g' : Global) × (parse_reference w p n c_store g ≡ some g') × Has k g'.table
unfolding parse_reference
parse_reference-Has w p n c_store g k room h =
    elim (parse_subtask-Created w (pkt_get_source p) (pkt_get_arg_pos p) (pkt_get_sub p)
      (pkt_get_payload p) n c_store g.rq g.table h.stack) [
        | inl (inl nothing, _) ↦ absurd (omega (arith, h.left, ap length nothing))
        | inl (inr more, _) ↦ absurd (omega (arith, more, room))
        | inr (i, rq, t, e, left, stack, _, _) ↦
            let g1 = record g { rq = rq; table = t } in
            let (result, mem) = service_compute w (subt_get_rec i t) g1.mem in
            let g2 = record g1 { mem = mem } in
            let taken : Has k t = record {
              stack = stack;
              left = omega (arith, h.left, ap length left);
            } in
            let sent =
              send_result w n (pkt_get_source p) (pkt_get_arg_pos p) (pkt_get_sub p) result i g2 in
            (
              (if subt_is_ready i t then (if w.local_id == 0 then sent else g2) else g1),
              rw (e, parse_reference),
              if-both (λ (g' : Global). Has k g'.table) (subt_is_ready i t)
                  (if-both (λ (g' : Global). Has k g'.table) (w.local_id == 0)
                    (send_result-Has w n (pkt_get_source p) (pkt_get_arg_pos p) (pkt_get_sub p)
                      result i g2 k taken)
                    taken)
                  taken,
            )
      ]

Has-less : (k : ℕ) (t : SubtaskTable) → Has (suc k) t → Has k t
Has-less k t h = record { stack = h.stack; left = omega (arith, h.left) }

-- Where the stack pointer is inside the stack and at least `k + 1` records are available,
-- `parse_pkt` returns on every such packet, and at least `k` are available afterwards.
parse_pkt-returns :
    (w : WorkItem) (p : Packet) (n : ℕ) (c_store : Memory ℕ) (g : Global) (k : ℕ)
    → IsInside c_store p
    → Has (suc k) g.table
    → (g' : Global) × (parse_pkt w p n c_store g ≡ some g') × Has k g'.table
unfolding parse_pkt
parse_pkt-returns w p n c_store g k inside h = elim (Bool-cases (pkt_get_type p == reference)) [
  | inl e ↦ rw e (parse_reference-Has w p n c_store g k (inside (ground arith)) h)
  | inr e ↦ elim (Bool-cases (pkt_get_type p == data_packet)) [
    | inl f ↦ (parse_data w p n g, rw (e, f), parse_data-Has w p n g k (Has-less k g.table h))
    | inr f ↦ (g, rw (e, f), Has-less k g.table h)
  ]
]

-- So does a round of the loop of a work-item that has its group for itself.
pub parse_in_step-returns :
    (w : WorkItem) (p : Packet) (n : ℕ) (c_store : Memory ℕ) (g : Global) (k : ℕ)
    → w.local_size ≡ 1
    → IsInside c_store p
    → Has (suc k) g.table
    → (g' : Global) × (parse_in_step w p n c_store g ≡ some g') × Has k g'.table
unfolding parse_in_step
parse_in_step-returns w p n c_store g k alone inside h =
    let (g', e, has) = parse_pkt-returns w p n c_store g k inside h in
    (g', rw (e, alone, parse_in_step) refl, has)
