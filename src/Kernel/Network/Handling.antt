-- ===== src/Kernel/Network/Handling.antt =====
-- kernels/VM.cl `parse_pkt`, beside `handle` on the network.
use mathlib.Core.Path.{subst}
use ocl_gprm.Symbol.Mask
use ocl_gprm.Base.{
  ℕ, ◌+◌, ◌≤◌, ◌<◌, ◌≡◌, inl, inr, refl, ap, arith, true, false, Bool-cases, ◌==◌, Ensures, Agree,
  Agree-then, Agree-Ensures, Agree-if, ap₂, Memory, Bool, some, none, if◌then◌else◌, ltb, ◌-◌, ◌*◌,
  u32,
}
use ocl_gprm.Macros.{reference, data_packet, return_address, max_bytecode_sz}
use ocl_gprm.Symbol.{symbol_get_nargs}
use ocl_gprm.WorkItem.{WorkItem}
use ocl_gprm.Packet.{
  Packet, pkt_get_type, pkt_get_source, pkt_get_arg_pos, pkt_get_sub, pkt_get_payload,
}
use ocl_gprm.Subtask.Record.{
  sts_pending, subt_rec_get_return_as_addr, subt_rec_get_return_as_pos, subt_rec_set_subt_status,
}
use ocl_gprm.Subtask.Table.{
  SubtaskTable, update_rec, subt_get_rec, subt_store_symbol, subt_is_ready,
}
use ocl_gprm.Subtask.Table.Stack.{subt_pop_refines}
use ocl_gprm.Kernel.Parse.{parse_subtask}
use ocl_gprm.Kernel.Parse.Requests.{parse_args-HasSent}
use ocl_gprm.Kernel.{Global, parse_reference, parse_data, parse_pkt, barrier, parse_in_step}
use ocl_gprm.Kernel.Sound.{IsAnswerable, IsSound}
use ocl_gprm.Kernel.Sound.Handling.{subt_store_symbol-IsReturning, Created-waits, parse_pkt-IsSound}
use ocl_gprm.Kernel.Parse.Created.{parse_subtask-Created}
use ocl_gprm.Kernel.Network.{
  Packets, Own, create, finish, handle_reference, handle_data, handle, handle_in_step,
}
use ocl_gprm.Kernel.Network.Shows.{Shows, HasSent-Shows}
use ocl_gprm.Kernel.Network.Follows.{
  Follows, parse_args-table, seen, seen-Follows, concluded, finish-Follows,
}

module _ (w : WorkItem) (n : ℕ) (c_store : Memory ℕ) (hg : w.group_id < n) (g : Global)
    (net : Packets) (s : IsSound n c_store g) (shown : Shows n g.rq net) where
  abbrev Made : ℕ × Memory Packet × SubtaskTable → ℕ × Own → Type 0
  Made r r' = (r.0 ≡ r'.0) × Follows n (record { rq = r.1; table = r.2; mem = g.mem }) r'.1

  create-Agree :
      (p : Packet)
      → Agree Made
          (parse_subtask w
            (pkt_get_source p)
            (pkt_get_arg_pos p)
            (pkt_get_sub p)
            (pkt_get_payload p)
            n
            c_store
            g.rq
            g.table)
          (create w p n c_store (seen g net))
  unfolding parse_subtask create
  create-Agree p = elim (subt_pop_refines g.table s.table.stack) [
    | inl (nothing, failed) ↦ rw (failed, parse_subtask, create) tt
    | inr (i, t, popped, _, _, _) ↦
        rw (popped, parse_subtask, create)
          (Agree-if Made
            (ltb (max_bytecode_sz - 1)
              (symbol_get_nargs (c_store (u32 (pkt_get_payload p * max_bytecode_sz)))))
            _ _
            (
              refl,
              record {
                sent = HasSent-Shows w n hg _ shown (
                    parse_args-HasSent w i n hg c_store (pkt_get_payload p) _ 0 g.rq _ shown.valid);
                table =
                    ap (update_rec i (λ r. subt_rec_set_subt_status r sts_pending))
                      (parse_args-table _ w i n c_store (pkt_get_payload p) 0 g.rq _);
                mem = refl;
              },
            ))
  ]

  parse_data-Follows : (p : Packet) → Follows n (parse_data w p n g) (handle_data w p (seen g net))
  unfolding parse_data handle_data
  parse_data-Follows p =
      let i = pkt_get_sub p in
      let symbol = Mask.symbol_kp_zero + pkt_get_payload p in
      let t1 = subt_store_symbol symbol (pkt_get_arg_pos p) i g.table in
      let rec = subt_get_rec i t1 in
      let stored = subt_store_symbol-IsReturning n symbol (pkt_get_arg_pos p) i g.table s.table in
      finish-Follows w n hg rec.return_to (subt_rec_get_return_as_pos rec)
        (subt_rec_get_return_as_addr rec) i (rec.return_to == return_address)
        (record g { table = t1 }) net
        (λ ready loud. elim (stored.returns i) [
          | inl lt ↦ lt
          | inr e ↦ absurd (ground (arith, e, loud))
        ])
        shown

  module _ (p : Packet) (type : pkt_get_type p ≡ reference) (from : IsAnswerable n c_store p) where
    -- A new subtask that is ready at once is a unit's.
    abbrev HasUnit : ℕ × Memory Packet × SubtaskTable → Type 0
    HasUnit r = subt_is_ready r.0 r.2 ≡ true → pkt_get_source p < n

    parse_subtask-HasUnit : Ensures HasUnit (
        parse_subtask w
          (pkt_get_source p)
          (pkt_get_arg_pos p)
          (pkt_get_sub p)
          (pkt_get_payload p)
          n
          c_store
          g.rq
          g.table)
    parse_subtask-HasUnit =
        elim (parse_subtask-Created w (pkt_get_source p) (pkt_get_arg_pos p) (pkt_get_sub p)
          (pkt_get_payload p) n c_store g.rq g.table s.table.stack) [
            | inl (nothing, waits) ↦ rw waits tt
            | inr (i, rq, t, e, left, stack, _, new) ↦ rw e (λ ready. elim (from type) [
              | inl lt ↦ lt
              | inr (_, waiting) ↦
                  let waits =
                    Created-waits c_store (pkt_get_source p) (pkt_get_arg_pos p) (pkt_get_sub p)
                      (pkt_get_payload p) i g.table.recs t waiting new in
                  cc
            ])
          ]

    parse_reference-Agree :
        Agree
          (Follows n)
          (parse_reference w p n c_store g)
          (handle_reference w p n c_store (seen g net))
    unfolding parse_reference handle_reference
    parse_reference-Agree =
        Agree-then (λ r r'. HasUnit r × Made r r') (Follows n) _ _ _ _
          (Agree-Ensures HasUnit Made _ _ parse_subtask-HasUnit (create-Agree p))
          (λ r r' h.
            let g1 : Global = record { rq = r.1; table = r.2; mem = g.mem } in
            subst
              (λ (o : ℕ × Own).
                Follows n
                  (concluded w n (pkt_get_source p) (pkt_get_arg_pos p) (pkt_get_sub p) r.0 false
                    g1)
                  (finish w (pkt_get_source p) (pkt_get_arg_pos p) (pkt_get_sub p) o.0 false o.1))
              (ap₂ {C = ℕ × Own} (λ a b. (a, b)) h.1.0 (seen-Follows n h.1.1))
              (finish-Follows w n hg (pkt_get_source p) (pkt_get_arg_pos p) (pkt_get_sub p) r.0
                false g1 r'.1.sent (λ ready _. h.0 ready) h.1.1.sent))

  -- Handling a packet.
  parse_pkt-seen :
      (p : Packet)
      → IsAnswerable n c_store p
      → Agree (Follows n) (parse_pkt w p n c_store g) (handle w p n c_store (seen g net))
  unfolding parse_pkt handle
  parse_pkt-seen p from = elim (Bool-cases (pkt_get_type p == reference)) [
    | inl e ↦ rw e (parse_reference-Agree p (ground arith) from)
    | inr e ↦ rw e (elim (Bool-cases (pkt_get_type p == data_packet)) [
      | inl d ↦ rw d (parse_data-Follows p)
      | inr d ↦ rw d (record { sent = shown; table = refl; mem = refl })
    ])
  ]

module _ (w : WorkItem) (n : ℕ) (c_store : Memory ℕ) (hg : w.group_id < n) (few : n ≤ 256) where
  abbrev pub Tracks : Global → Own → Type 0
  Tracks g own = IsSound n c_store g × Follows n g own

  -- Handling an answerable packet.
  pub parse_pkt-Agree :
      (p : Packet) (g : Global) (own : Own)
      → IsAnswerable n c_store p
      → Tracks g own
      → Agree Tracks (parse_pkt w p n c_store g) (handle w p n c_store own)
  parse_pkt-Agree p g own from t =
      Agree-Ensures (IsSound n c_store) (Follows n) _ _
        (parse_pkt-IsSound w n c_store hg few p g t.0 from)
        (subst (λ o. Agree (Follows n) (parse_pkt w p n c_store g) (handle w p n c_store o))
          (seen-Follows n t.1) (parse_pkt-seen w n c_store hg g own.sent t.0 t.1.sent p from))

  -- And the barrier behind it.
  pub parse_in_step-Agree :
      (p : Packet) (g : Global) (own : Own)
      → IsAnswerable n c_store p
      → Tracks g own
      → Agree Tracks (parse_in_step w p n c_store g) (handle_in_step w p n c_store own)
  unfolding parse_in_step handle_in_step
  parse_in_step-Agree p g own from t =
      Agree-then Tracks Tracks (parse_pkt w p n c_store g) (handle w p n c_store own)
        (λ g'. barrier w g') (λ own'. barrier w own') (parse_pkt-Agree p g own from t)
        (λ g' own' t'. waited (w.local_size == 1) g' own' t')
    where
      waited :
          (b : Bool) (g' : Global) (own' : Own)
          → Tracks g' own'
          → Agree Tracks (if b then some g' else none) (if b then some own' else none)
      waited true g' own' t' = t'
      waited false g' own' t' = tt
