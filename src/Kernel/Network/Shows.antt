-- ===== src/Kernel/Network/Shows.antt =====
-- Ring buffers, and the lists of packets that they hold.
use native.Mathlib.Decide.{ℕ_discrete}
use ocl_gprm.Base.{ℕ, ◌<◌, ◌≡◌, sym, ap, ap₂, ◌∙◌, arith, inl, ==_self, ==_of_ne, Memory, List}
use ocl_gprm.WorkItem.{WorkItem}
use ocl_gprm.Packet.{Packet}
use ocl_gprm.Queue.{q_write}
use ocl_gprm.Queue.Spec.{push_all}
use ocl_gprm.Queue.Window.{contents}
use ocl_gprm.Queue.Frame.{AllValid}
use ocl_gprm.Queue.Transfer.Laws.{Moved}
use ocl_gprm.Kernel.ReadPhase.{ReadOut}
use ocl_gprm.Kernel.Parse.Requests.{HasSent, q_write-HasSent}
use ocl_gprm.Kernel.Network.{Packets, deliver, only_to, without, receive}

-- Every ring between two of the `n` units is valid and holds what the network has there.
pub record Shows (n : ℕ) (q : Memory Packet) (net : Packets) : Type 0 where
  pub valid : AllValid q n
  pub holds : (a b : ℕ) → a < n → b < n → contents a b q n ≡ net a b

module _ (w : WorkItem) (n : ℕ) (hg : w.group_id < n) where
  pub HasSent-Shows :
      (out : ℕ → List Packet) {rq rq' : Memory Packet} {net : Packets}
      → Shows n rq net
      → HasSent w.group_id n out rq rq'
      → Shows n rq' (deliver w.group_id out net)
  HasSent-Shows out {rq} {rq'} {net} s h = record {
    valid = h.valid;
    holds = λ c b hc hb. elim (ℕ_discrete w.group_id c) [
      | yes e ↦
          rw (sym e, ==_self w.group_id)
            (h.own b hb ∙ ap (push_all (out b)) (s.holds w.group_id b hg hb))
      | no ne ↦ rw (==_of_ne w.group_id c ne) (h.others c b hc hb ne ∙ s.holds c b hc hb)
    ];
  }

  pub q_write-Shows :
      (to : ℕ) (p : Packet) {rq : Memory Packet} {net : Packets}
      → to < n
      → Shows n rq net
      → Shows n (q_write p w.group_id to rq n).1 (deliver w.group_id (only_to to p) net)
  q_write-Shows to p {rq} ht s =
      HasSent-Shows (only_to to p) s (q_write-HasSent w 0 n hg p to rq ht s.valid)

  -- All that a unit has received is read.
  pub ReadOut-Shows :
      {q q' : Memory Packet} {net : Packets}
      → Shows n q net
      → ReadOut w.group_id 0 n q q'
      → Shows n q' (without w.group_id net)
  ReadOut-Shows s out = record {
    valid = out.valid;
    holds = λ c b hc hb. elim (ℕ_discrete w.group_id c) [
      | yes e ↦ rw (sym e, ==_self w.group_id) (out.drained b (omega arith) hb)
      | no ne ↦ rw (==_of_ne w.group_id c ne) (out.others c b hc hb (inl ne) ∙ s.holds c b hc hb)
    ];
  }

  -- All that a unit has sent is received.
  pub Moved-Shows :
      {rq q rq' q' : Memory Packet} {sent received : Packets}
      → Shows n rq sent
      → Shows n q received
      → Moved w.group_id 0 n rq q rq' q'
      → Shows n rq' (without w.group_id sent) × Shows n q' (receive w.group_id sent received)
  Moved-Shows {rq} {q} {rq'} {q'} {sent} {received} s r m = (
    record {
      valid = m.valid_rq;
      holds = λ c b hc hb. elim (ℕ_discrete w.group_id c) [
        | yes e ↦ rw (sym e, ==_self w.group_id) (m.emptied b (omega arith) hb)
        | no ne ↦ rw (==_of_ne w.group_id c ne) (m.other_rq c b hc hb (inl ne) ∙ s.holds c b hc hb)
      ];
    },
    record {
      valid = m.valid_q;
      holds = λ c b hc hb. elim (ℕ_discrete w.group_id b) [
        | yes e ↦
            rw (sym e, ==_self w.group_id)
              (m.pushed c (omega arith) hc
                ∙ ap₂ push_all (s.holds w.group_id c hg hc) (r.holds c w.group_id hc hg))
        | no ne ↦ rw (==_of_ne w.group_id b ne) (m.other_q c b hc hb (inl ne) ∙ r.holds c b hc hb)
      ];
    },
  )
