-- ===== src/Host/Loop/Lossless.antt =====
-- The loop of src/VM.cpp `main`: in which queues there are packets between two launches.
use mathlib.Core.List.{Perm}
use mathlib.Core.Logic.{◌≢◌}
use ocl_gprm.Kernel.Launch.Item.{IsReading, launch-IsReading}
use ocl_gprm.Base.{
  ℕ, ◌≤◌, ◌<◌, ◌≡◌, inl, inr, refl, sym, ap, ◌∙◌, arith, Agree-some, Ensures-some, Memory, some,
  List, [],
}
use ocl_gprm.WorkItem.{WorkItem}
use ocl_gprm.Packet.{Packet}
use ocl_gprm.Queue.Spec.{push_all, push_all-room}
use ocl_gprm.Queue.Window.{contents, length-window, size-le}
use ocl_gprm.Kernel.{State, complete, reading, writing}
use ocl_gprm.Kernel.Launch.{Device, launch}
use ocl_gprm.Kernel.Launch.Write.{launch-Written}
use ocl_gprm.Kernel.Sound.Device.{IsConsistent}
use ocl_gprm.Kernel.Network.{turns}
use ocl_gprm.Kernel.Network.Launching.{Mirrors, shown, shown-Mirrors, launch-Refines}
use ocl_gprm.Kernel.Network.Read.{Cleared, turns-Cleared}
use ocl_gprm.Host.Setup.{toggle_state}
use ocl_gprm.Host.Loop.{nd_range, toggled, Reach, start, round}
use ocl_gprm.Host.Loop.Items.{nd_range-AllUnits, nd_range-HasFirst}
use ocl_gprm.Host.Loop.Order.{all-Written}
use ocl_gprm.Host.Loop.Laws.{Reach-IsConsistent, HasFirst-HasItem}

then_writing : (s : State) → s ≡ reading → toggle_state s ≡ writing
unfolding toggle_state
then_writing s at = ap toggle_state {y = reading} at

then_reading : (s : State) → s ≡ writing → toggle_state s ≡ reading
unfolding toggle_state
then_reading s at = ap toggle_state {y = writing} at

abbrev pub NothingReceived : ℕ → Device → Type 0
NothingReceived n d = (a b : ℕ) → a < n → b < n → contents a b d.q n ≡ []

abbrev pub NothingSent : ℕ → Device → Type 0
NothingSent n d = (a b : ℕ) → a < n → b < n → contents a b d.rq n ≡ []

module _ (n nth : ℕ) (c_store : Memory ℕ) (few : n ≤ 256) (some_thread : 0 < nth) where
  -- A launch in state READ that returns has left nothing.
  launch-NothingReceived :
      (uninit : ℕ → ℕ → Packet) (ws : List WorkItem) {d d' : Device}
      → Perm ws (nd_range n nth uninit)
      → IsConsistent n c_store d
      → d.state ≡ reading
      → launch ws n c_store d ≡ some d'
      → NothingReceived n d'
  launch-NothingReceived uninit ws {d} order ok at e a b ha hb =
      let (s', e', same) =
        Agree-some (λ d' s'. IsConsistent n c_store d' × Mirrors n d' s')
          (turns ws n c_store (shown n d))
          (launch-Refines n c_store few ws d (shown n d) (nd_range-AllUnits n nth uninit ws order)
            ok (shown-Mirrors n c_store d ok))
          e in
      let cleared =
        Ensures-some (Cleared _ (shown n d)) (turns-Cleared n c_store ws (shown n d) at) e' in
      same.1.received.holds a b ha hb
      ∙ cleared.done a
          (HasFirst-HasItem a ws (nd_range-HasFirst n nth uninit ws order some_thread a ha)) b

  Reach-NothingReceived :
      {first d : Device}
      → IsConsistent n c_store first
      → first.state ≡ reading
      → Reach n nth c_store first d
      → d.state ≢ reading
      → NothingReceived n d
  Reach-NothingReceived ok begin start e = absurd (e begin)
  Reach-NothingReceived ok begin (round {d} {d'} uninit ws r going order l) e =
      by_state d.state refl
    where
      before : IsConsistent n c_store d
      before = Reach-IsConsistent n nth c_store few ok r

      by_state : (s : State) → d.state ≡ s → NothingReceived n (toggled d')
      by_state complete at a b ha hb = absurd (going at)
      by_state reading at a b ha hb = launch-NothingReceived uninit ws order before at l a b ha hb
      by_state writing at a b ha hb =
          let written =
            all-Written n nth c_store d (omega arith) some_thread before.rq.valid before.q.valid at
              uninit ws order l in
          elim written.state [
            | inl (still, _) ↦ absurd (e (then_reading d'.state still))
            | inr (_, none_left) ↦ (none_left a b ha hb).0
          ]

  -- A launch in state WRITE that returns has left nothing in the transfer queues.
  launch-NothingSent :
      (uninit : ℕ → ℕ → Packet) (ws : List WorkItem) {d d' : Device}
      → Perm ws (nd_range n nth uninit)
      → IsConsistent n c_store d
      → d.state ≡ writing
      → launch ws n c_store d ≡ some d'
      → NothingSent n d'
  launch-NothingSent uninit ws {d} order ok at e a b ha hb =
      let written =
        all-Written n nth c_store d (omega arith) some_thread ok.rq.valid ok.q.valid at uninit ws
          order e in
      (written.done a ha ha b hb).0

  Reach-NothingSent :
      {first d : Device}
      → IsConsistent n c_store first
      → NothingSent n first
      → Reach n nth c_store first d
      → d.state ≢ writing
      → NothingSent n d
  Reach-NothingSent ok unsent start e = unsent
  Reach-NothingSent ok unsent (round {d} {d'} uninit ws r going order l) e = by_state d.state refl
    where
      by_state : (s : State) → d.state ≡ s → NothingSent n (toggled d')
      by_state complete at = absurd (going at)
      by_state reading at = absurd (
          e (then_writing d'.state (Ensures-some IsReading (launch-IsReading n c_store ws d at) l)))
      by_state writing at =
          launch-NothingSent uninit ws order (Reach-IsConsistent n nth c_store few ok r) at l

  -- For at most 256 compute units of at least one thread each, from a consistent device in state
  -- READ with empty transfer queues: on every device that the launches reach, with all work-items in
  -- whatever order each time, all transfer queues are empty unless the state is WRITE, and all other
  -- queues are empty unless it is READ.
  pub Reach-Phases :
      {first d : Device}
      → IsConsistent n c_store first
      → first.state ≡ reading
      → NothingSent n first
      → Reach n nth c_store first d
      → (d.state ≢ writing → NothingSent n d) × (d.state ≢ reading → NothingReceived n d)
  Reach-Phases ok begin unsent r = (Reach-NothingSent ok unsent r, Reach-NothingReceived ok begin r)

  module _ {first d : Device} (ok : IsConsistent n c_store first) (begin : first.state ≡ reading)
      (r : Reach n nth c_store first d) (at : d.state ≡ writing) (uninit : ℕ → ℕ → Packet)
      (ws : List WorkItem) (order : Perm ws (nd_range n nth uninit)) where
    before : IsConsistent n c_store d
    before = Reach-IsConsistent n nth c_store few ok r

    -- For at most 256 compute units of at least one thread each, from a consistent device in state
    -- READ, on whatever device in state WRITE the launches reach, with all work-items in whatever
    -- order each time: the next launch returns and loses no packet. Each unit's queue from another
    -- unit, or from itself, then holds exactly the packets that were in that unit's transfer queue
    -- to it, in the same order, and all transfer queues are empty.
    pub Reach-Lossless :
        (d' : Device) × (launch ws n c_store d ≡ some d')
        × ((a b : ℕ)
            → a < n
            → b < n
            → (contents b a d'.q n ≡ contents a b d.rq n) × (contents a b d'.rq n ≡ []))
    Reach-Lossless =
        let (d', e, w) =
          launch-Written n ws c_store d (nd_range-AllUnits n nth uninit ws order) before.rq.valid
            before.q.valid at in
        (
          d',
          e,
          λ a b ha hb.
              let (emptied, pushed) =
                w.done a ha (nd_range-HasFirst n nth uninit ws order some_thread a ha) b hb in
              (pushed ∙ all_received a b ha hb, emptied),
        )
      where
        not_reading : d.state ≢ reading
        not_reading still = let f : reading ≡ writing = sym still ∙ at in cc

        all_received :
            (a b : ℕ)
            → a < n
            → b < n
            → push_all (contents a b d.rq n) (contents b a d.q n) ≡ contents a b d.rq n
        all_received a b ha hb = rw (Reach-NothingReceived ok begin r not_reading b a hb ha) (
            push_all-room (contents a b d.rq n) [] (
              omega
                (arith, length-window d.rq _ _ _, size-le a b d.rq n (before.rq.valid a b ha hb))))
