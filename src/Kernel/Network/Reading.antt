-- ===== src/Kernel/Network/Reading.antt =====
-- The loops of kernels/VM.cl `vm` over its queues, beside all that has arrived on the network.
use mathlib.Core.Path.{subst}
use ocl_gprm.Base.{
  ℕ, zero, suc, ◌+◌, ◌≤◌, ◌<◌, ◌≡◌, inl, inr, refl, sym, ◌∙◌, arith, Bool-cases, Agree, Agree-then,
  Agree-weaken, chain_assoc, Memory, none, some, List, [], ◌∷◌, ◌++◌,
}
use ocl_gprm.Macros.{max_bytecode_sz}
use ocl_gprm.WorkItem.{WorkItem}
use ocl_gprm.Packet.{Packet}
use ocl_gprm.Queue.{q_is_empty}
use ocl_gprm.Queue.Ring.{read_packet, read_buffer, q_read-some, q_read-none}
use ocl_gprm.Queue.Window.{contents, size, size-le}
use ocl_gprm.Queue.Fifo.{read-contents}
use ocl_gprm.Queue.Carries.{Carries, split-Carries, read_buffer-Carries}
use ocl_gprm.Queue.Transfer.Laws.{contents-empty, size-read}
use ocl_gprm.Kernel.{Global, parse_in_step, read_queue, read_from}
use ocl_gprm.Kernel.ReadPhase.{
  Drained, ReadOut, ReadOut-step, ReadOut-none, Drained-step, Drained-none,
}
use ocl_gprm.Kernel.Sound.{IsAnswerable}
use ocl_gprm.Kernel.Network.{Packets, Own, handle_in_step, handle_all, arrived}
use ocl_gprm.Kernel.Network.Handling.{Tracks, parse_in_step-Agree}

module _ (w : WorkItem) (n : ℕ) (c_store : Memory ℕ) where
  -- One list of packets after another.
  handle_all-append :
      (ps us : List Packet) (own : Own)
      → handle_all w n c_store (ps ++ us) own ≡ (elim (handle_all w n c_store ps own) [
        | none ↦ none
        | some own' ↦ handle_all w n c_store us own'
      ])
  unfolding handle_all
  handle_all-append [] us own = refl
  handle_all-append (p ∷ ps) us own =
      chain_assoc (handle_in_step w p n c_store own) _ _ _ (λ own'. handle_all-append ps us own')

module _ (w : WorkItem) (n : ℕ) (c_store : Memory ℕ) (hg : w.group_id < n) (few : n ≤ 256) where
  abbrev pub After : (Memory Packet → Type 0) → Memory Packet × Global → Own → Type 0
  After P r own = P r.0 × Carries (IsAnswerable n c_store) r.0 n × Tracks w n c_store hg few r.1 own

  -- With more fuel than the queue has packets, the loop over a queue handles them all in order.
  read_queue-Agree :
      (fuel i : ℕ) (q : Memory Packet) (g : Global) (own : Own)
      → i < n
      → Carries (IsAnswerable n c_store) q n
      → size w.group_id i q n < fuel
      → Tracks w n c_store hg few g own
      → Agree
          (After (Drained w.group_id i n q))
          (read_queue fuel w i n c_store q g)
          (handle_all w n c_store (contents w.group_id i q n) own)
  unfolding read_queue handle_all
  read_queue-Agree zero i q g own hi ok h t = absurd (omega arith)
  read_queue-Agree (suc fuel) i q g own hi ok h t =
      elim (Bool-cases (q_is_empty w.group_id i q n)) [
        | inl e ↦
            rw
              (
                q_read-none w.group_id i q n e,
                contents-empty w.group_id i n hg hi q ok.valid e,
                read_queue,
                handle_all,
              )
              (Drained-none w.group_id i n hg hi q ok.valid e, ok, t)
        | inr e ↦
            let a = w.group_id in
            let q1 = read_buffer a i q n in
            let (from, _) = split-Carries (IsAnswerable n c_store) n a i q hg hi ok e in
            rw
              (
                q_read-some a i q n e,
                read-contents a i q n hg hi (ok.valid a i hg hi) e,
                read_queue,
                handle_all,
              )
              (Agree-then (Tracks w n c_store hg few) (After (Drained a i n q))
                (parse_in_step w (read_packet a i q n) n c_store g) _ _ _
                (parse_in_step-Agree w n c_store hg few (read_packet a i q n) g own from t)
                (λ g' own' t'.
                  Agree-weaken (After (Drained a i n q1)) (After (Drained a i n q)) _ _
                    (λ r o after. (Drained-step a i n hg hi q ok.valid after.0, after.1, after.2))
                    (read_queue-Agree fuel i q1 g' own' hi
                      (read_buffer-Carries (IsAnswerable n c_store) n a i q hg hi ok e)
                      (omega (arith, size-read a i n hg hi q ok.valid e)) t')))
      ]

  pub read_from-Agree :
      (left i : ℕ) (q : Memory Packet) (g : Global) (own : Own) (net : Packets)
      → i + left ≡ n
      → Carries (IsAnswerable n c_store) q n
      → ((j : ℕ) → i ≤ j → j < n → contents w.group_id j q n ≡ net w.group_id j)
      → Tracks w n c_store hg few g own
      → Agree
          (After (ReadOut w.group_id i n q))
          (read_from left w i n c_store q g)
          (handle_all w n c_store (arrived w.group_id left i net) own)
  unfolding read_from handle_all
  read_from-Agree zero i q g own net e ok shown t =
      (ReadOut-none w.group_id i n q (omega arith) ok.valid, ok, t)
  read_from-Agree (suc left) i q g own net e ok shown t =
      let a = w.group_id in
      let hi : i < n = omega arith in
      subst (Agree (After (ReadOut a i n q)) (read_from (suc left) w i n c_store q g))
        (sym (handle_all-append w n c_store (net a i) (arrived a left (i + 1) net) own))
        (Agree-then (After (Drained a i n q)) (After (ReadOut a i n q)) _ _ _ _
          (subst
            (λ l.
              Agree (After (Drained a i n q)) (read_queue (suc max_bytecode_sz) w i n c_store q g)
                (handle_all w n c_store l own))
            (shown i (omega arith) hi)
            (read_queue-Agree (suc max_bytecode_sz) i q g own hi ok
              (omega (arith, size-le a i q n (ok.valid a i hg hi))) t))
          (λ r own' after.
            Agree-weaken (After (ReadOut a (i + 1) n r.0)) (After (ReadOut a i n q)) _ _
              (λ r' o rest. (ReadOut-step a i n hg hi after.0 rest.0, rest.1, rest.2))
              (read_from-Agree left (i + 1) r.0 r.1 own' net (omega arith) after.1
                (λ j p hj. after.0.others a j hg hj (inr (omega arith)) ∙ shown j (omega arith) hj)
                after.2)))
