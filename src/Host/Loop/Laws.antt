-- ===== src/Host/Loop/Laws.antt =====
-- Every device that the loop of launches can reach.
use mathlib.Core.Path.{subst}
use mathlib.Core.List.{Perm}
use ocl_gprm.Base.{
  ℕ, ◌≤◌, ◌<◌, ◌≡◌, ◌≢◌, ◌⊎◌, ◌↔◌, inl, inr, refl, sym, ap, ◌∙◌, some, Ensures, Ensures-some,
  Memory, All, List, [], ◌∷◌, length,
}
use ocl_gprm.WorkItem.{WorkItem}
use ocl_gprm.Packet.{Packet}
use ocl_gprm.Kernel.{State, complete, reading, writing}
use ocl_gprm.Kernel.ReadPhase.{waiting}
use ocl_gprm.Kernel.Progress.{IsInside}
use ocl_gprm.Queue.Window.{contents}
use ocl_gprm.Subtask.Table.Stack.{available}
use ocl_gprm.Kernel.Launch.{Device, launch}
use ocl_gprm.Kernel.Launch.Write.{Written, launch-Written, launch-complete_iff, HasFirst}
use ocl_gprm.Kernel.Launch.Item.{IsReading, launch-IsReading}
use ocl_gprm.Kernel.Launch.Read.{Emptied, IsReadable, HasItem, launch-HasRead}
use ocl_gprm.Kernel.Launch.Delivery.{NoPacket}
use ocl_gprm.Kernel.Sound.Device.{IsConsistent, launch-IsConsistent}
use ocl_gprm.Host.Setup.{toggle_state}
use ocl_gprm.Host.Loop.{nd_range, toggled, Reach, start, round}
use ocl_gprm.Host.Loop.Items.{nd_range-AllUnits, nd_range-AllAlone, nd_range-HasFirst}

toggled-reading : (s : State) → s ≡ reading → toggle_state s ≡ complete → ⊥
unfolding toggle_state
toggled-reading s at e = let f : writing ≡ complete = ap toggle_state (sym at) ∙ e in cc

toggled-writing : (s : State) → s ≡ writing → toggle_state s ≡ complete → ⊥
unfolding toggle_state
toggled-writing s at e = let f : reading ≡ complete = ap toggle_state (sym at) ∙ e in cc

-- The first thread of a unit is one of its threads.
pub HasFirst-HasItem : (g : ℕ) (ws : List WorkItem) → HasFirst g ws → HasItem g ws
HasFirst-HasItem g [] h = h
HasFirst-HasItem g (w ∷ ws) (inl h) = inl h.0
HasFirst-HasItem g (w ∷ ws) (inr h) = inr (HasFirst-HasItem g ws h)

module _ (n nth : ℕ) (c_store : Memory ℕ) (few : n ≤ 256) where
  -- Consistency is an invariant of the loop.
  pub Reach-IsConsistent :
      {first d : Device}
      → IsConsistent n c_store first
      → Reach n nth c_store first d
      → IsConsistent n c_store d
  Reach-IsConsistent ok start = ok
  Reach-IsConsistent ok (round {d} {d'} uninit ws r going order e) =
      let before = Reach-IsConsistent ok r in
      let after =
        Ensures-some (IsConsistent n c_store)
          (launch-IsConsistent n c_store few ws d (nd_range-AllUnits n nth uninit ws order) before)
          e in
      record { q = after.q; rq = after.rq; tables = after.tables }

  -- For at most 256 compute units, from a consistent device whose state is not COMPLETE, with all
  -- work-items of each launch in whatever order: when a device with the state COMPLETE is reached,
  -- no queue of either buffer has a packet.
  pub Reach-NoPacket :
      {first d : Device}
      → IsConsistent n c_store first
      → first.state ≢ complete
      → Reach n nth c_store first d
      → d.state ≡ complete
      → NoPacket n d
  Reach-NoPacket ok not_yet start e = absurd (not_yet e)
  Reach-NoPacket ok not_yet (round {d} {d'} uninit ws r going order l) e = by_state d.state refl
    where
      before : IsConsistent n c_store d
      before = Reach-IsConsistent ok r

      by_state : (s : State) → d.state ≡ s → NoPacket n (toggled d')
      by_state complete at = absurd (going at)
      by_state reading at = absurd (
          toggled-reading d'.state (Ensures-some IsReading (launch-IsReading n c_store ws d at) l)
            e)
      by_state writing at =
          let (d1, l1, w) =
            launch-Written n ws c_store d (nd_range-AllUnits n nth uninit ws order) before.rq.valid
              before.q.valid at in
          let written =
            Ensures-some (Written n (λ g. HasFirst g ws) d)
              (subst (Ensures (Written n (λ g. HasFirst g ws) d)) (sym l1) w) l in
          elim written.state [
            | inl (still, _) ↦ absurd (toggled-writing d'.state still e)
            | inr (_, none_left) ↦ none_left
          ]

  module _ {first d : Device} (ok : IsConsistent n c_store first) (r : Reach n nth c_store first d)
      (uninit : ℕ → ℕ → Packet) (ws : List WorkItem) (order : Perm ws (nd_range n nth uninit)) where
    -- For at least 1 and at most 256 compute units of at least one thread each, on whatever device,
    -- not yet COMPLETE, the launches have reached from a consistent one, and with all work-items one
    -- after another in any order: if in state READ each unit has one thread and no more packets
    -- waiting than records available, and no reference packet asks for code of more than 31
    -- arguments, the next launch returns; in state READ it leaves no packet for any unit, and in
    -- state WRITE the state is COMPLETE afterwards exactly when there was no packet in any queue of
    -- either buffer before.
    pub Reach-progress :
        0 < n
        → 0 < nth
        → d.state ≢ complete
        → (d.state ≡ reading
            → (nth ≡ 1)
              × ((g : ℕ) → g < n → waiting g n 0 d.q n ≤ length (available (d.subtask_list g)))
              × ((g j : ℕ) → g < n → j < n → All (IsInside c_store) (contents g j d.q n)))
        → (d' : Device) × (launch ws n c_store d ≡ some d')
          × (((d.state ≡ reading) × ((g : ℕ) → g < n → Emptied n g d'))
              ⊎ ((d.state ≡ writing) × ((d'.state ≡ complete) ↔ NoPacket n d)))
    Reach-progress some_unit some_thread going enough = by_state d.state refl
      where
        before : IsConsistent n c_store d
        before = Reach-IsConsistent ok r

        by_state :
            (s : State)
            → d.state ≡ s
            → (d' : Device) × (launch ws n c_store d ≡ some d')
              × (((d.state ≡ reading) × ((g : ℕ) → g < n → Emptied n g d'))
                  ⊎ ((d.state ≡ writing) × ((d'.state ≡ complete) ↔ NoPacket n d)))
        by_state complete at = absurd (going at)
        by_state reading at =
            let readable : IsReadable n c_store d = record {
              valid = before.q.valid;
              state = at;
              stack = λ g h. (before.tables g h).stack;
              enough = (enough at).1;
              inside = (enough at).2;
            } in
            let (d', l, done) =
              launch-HasRead n c_store ws d (nd_range-AllUnits n nth uninit ws order)
                (nd_range-AllAlone n nth uninit ws order (enough at).0) readable in
            (
              d',
              l,
              inl (
                at,
                λ g h. done.done g h (
                    HasFirst-HasItem g ws
                      (nd_range-HasFirst n nth uninit ws order some_thread g h)),
              ),
            )
        by_state writing at =
            let (d', l, iff) =
              launch-complete_iff n ws c_store d some_unit (nd_range-AllUnits n nth uninit ws order)
                (nd_range-HasFirst n nth uninit ws order some_thread) before.rq.valid before.q.valid
                at in
            (d', l, inr (at, iff))
