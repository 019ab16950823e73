-- ===== src/Host/Loop/Order.antt =====
-- The order in which the work-items of a launch run, in state WRITE.
use mathlib.Core.List.{Perm}
use mathlib.Core.Path.{subst}
use ocl_gprm.Base.{ℕ, ◌<◌, ◌≡◌, inl, inr, sym, ◌∙◌, some, Ensures, Ensures-some, Memory, List}
use ocl_gprm.WorkItem.{WorkItem}
use ocl_gprm.Packet.{Packet}
use ocl_gprm.Queue.Window.{contents}
use ocl_gprm.Queue.Frame.{AllValid}
use ocl_gprm.Kernel.{writing}
use ocl_gprm.Kernel.Launch.{Device, launch}
use ocl_gprm.Kernel.Launch.Quiet.{IsQuiet, launch-IsQuiet}
use ocl_gprm.Kernel.Launch.Write.{Written, launch-Written, HasFirst}
use ocl_gprm.Kernel.Launch.Delivery.{NoPacket}
use ocl_gprm.Host.Loop.{nd_range}
use ocl_gprm.Host.Loop.Items.{nd_range-AllUnits, nd_range-HasFirst}

-- All queues of both buffers hold the same packets.
abbrev pub SamePackets : ℕ → Device → Device → Type 0
SamePackets n d d' =
    (a b : ℕ)
    → a < n
    → b < n
    → (contents a b d.q n ≡ contents a b d'.q n) × (contents a b d.rq n ≡ contents a b d'.rq n)

module _ (n nth : ℕ) (c_store : Memory ℕ) (d : Device) (some_unit : 0 < n) (some_thread : 0 < nth)
    (ok_rq : AllValid d.rq n) (ok_q : AllValid d.q n) (start : d.state ≡ writing) where
  -- What a launch of all work-items has done, in any order.
  pub all-Written :
      (uninit : ℕ → ℕ → Packet) (ws : List WorkItem) {d' : Device}
      → Perm ws (nd_range n nth uninit)
      → launch ws n c_store d ≡ some d'
      → Written n (λ g. g < n) d d'
  all-Written uninit ws order e =
      let (d1, e1, w) =
        launch-Written n ws c_store d (nd_range-AllUnits n nth uninit ws order) ok_rq ok_q start in
      let s =
        Ensures-some (Written n (λ g. HasFirst g ws) d)
          (subst (Ensures (Written n (λ g. HasFirst g ws) d)) (sym e1) w) e in
      record {
        valid_rq = s.valid_rq;
        valid_q = s.valid_q;
        done = λ g h p. s.done g h (nd_range-HasFirst n nth uninit ws order some_thread g h);
        any = s.any;
        state = elim s.state [
          | inl (going, left) ↦
              inl
                (going, λ g h p. left g h (nd_range-HasFirst n nth uninit ws order some_thread g h))
          | inr ended ↦ inr ended
        ];
      }

  Written-SamePackets :
      {d1 d2 : Device}
      → Written n (λ g. g < n) d d1
      → Written n (λ g. g < n) d d2
      → SamePackets n d1 d2
  Written-SamePackets s t a b ha hb = (
    (s.done b hb hb a ha).1 ∙ sym ((t.done b hb hb a ha).1),
    (s.done a ha ha b hb).0 ∙ sym ((t.done a ha ha b hb).0),
  )

  SamePackets-NoPacket : (d1 d2 : Device) → SamePackets n d1 d2 → NoPacket n d2 → NoPacket n d1
  SamePackets-NoPacket d1 d2 same none_left a b ha hb =
      ((same a b ha hb).0 ∙ (none_left a b ha hb).0, (same a b ha hb).1 ∙ (none_left a b ha hb).1)

  quiet : (ws : List WorkItem) {d' : Device} → launch ws n c_store d ≡ some d' → IsQuiet d d'
  quiet ws e =
      Ensures-some (IsQuiet d) (launch-IsQuiet n c_store ws d (λ at. let f = sym start ∙ at in cc))
        e

  -- For at least one compute unit of at least one thread, two launches in state WRITE of all work-
  -- items from the same device with all queues valid, in whatever orders they run, leave the same
  -- packets in every queue of both buffers, the same state, the same tables and the same data.
  pub launch-SamePackets :
      (uninit uninit' : ℕ → ℕ → Packet) (ws ws' : List WorkItem) {d1 d2 : Device}
      → Perm ws (nd_range n nth uninit)
      → Perm ws' (nd_range n nth uninit')
      → launch ws n c_store d ≡ some d1
      → launch ws' n c_store d ≡ some d2
      → SamePackets n d1 d2
        × (d1.state ≡ d2.state)
        × (d1.subtask_list ≡ d2.subtask_list)
        × (d1.mem ≡ d2.mem)
  launch-SamePackets uninit uninit' ws ws' {d1} {d2} order order' e e' =
      let s = all-Written uninit ws order e in
      let t = all-Written uninit' ws' order' e' in
      (
        Written-SamePackets s t,
        elim s.state [
          | inl (going, left) ↦ elim t.state [
            | inl (going', _) ↦ going ∙ sym going'
            | inr (_, none_left) ↦ absurd (
                left 0 some_unit some_unit
                  (SamePackets-NoPacket d1 d2 (Written-SamePackets s t) none_left))
          ]
          | inr (ended, none_left) ↦ elim t.state [
            | inl (_, left) ↦ absurd (
                left 0 some_unit some_unit
                  (SamePackets-NoPacket d2 d1 (Written-SamePackets t s) none_left))
            | inr (ended', _) ↦ ended ∙ sym ended'
          ]
        ],
        (quiet ws e).subtask_list ∙ sym ((quiet ws' e').subtask_list),
        (quiet ws e).mem ∙ sym ((quiet ws' e').mem),
      )
