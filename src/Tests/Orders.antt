-- ===== src/Tests/Orders.antt =====
-- Launches in state WRITE, and the orders in which they run.
use mathlib.Core.List.{Perm}
use mathlib.Core.List.Perm
use ocl_gprm.Base.{◌≡◌, ◌≢◌, inl, refl, ap, arith, some, List, [], ◌∷◌}
use ocl_gprm.Queue.{q_get_head_index, q_get_tail_index}
use ocl_gprm.Queue.Ring.{count}
use ocl_gprm.Kernel.{complete, writing}
use ocl_gprm.Kernel.Launch.{Device, launch}
use ocl_gprm.Kernel.Launch.Delivery.{NoPacket}
use ocl_gprm.Kernel.Sound.Device.{IsConsistent}
use ocl_gprm.Host.Setup.{pkt_base_init, toggle_state}
use ocl_gprm.Host.Loop.{nd_range, toggled, start, round}
use ocl_gprm.Kernel.Launch.Write.{launch-complete_iff}
use ocl_gprm.Host.Loop.Items.{nd_range-AllUnits, nd_range-HasFirst}
use ocl_gprm.Tests.Launches.{waiting_table, one_each_q, one_each_q-AllValid}
use ocl_gprm.WorkItem.{WorkItem}
use ocl_gprm.Host.Loop.{work_item, threads, groups}
use ocl_gprm.Host.Loop.Order.{SamePackets, launch-SamePackets}
use ocl_gprm.Host.Loop.Laws.{Reach-NoPacket}
use ocl_gprm.Tests.Programs.{empty_store}
use ocl_gprm.Tests.Loops.{no_values}

-- No packet anywhere, and all units about to write.
abbrev idle : Device
idle = record {
  q = λ i. pkt_base_init;
  rq = λ i. pkt_base_init;
  state = writing;
  subtask_list = λ i. waiting_table;
  mem = empty_store;
}

idle-NoPacket : NoPacket 2 idle
unfolding q_get_head_index q_get_tail_index count
idle-NoPacket a b ha hb = (refl, refl)

idle-IsConsistent : IsConsistent 2 empty_store idle
unfolding q_get_head_index q_get_tail_index count
idle-IsConsistent = record {
  q = record {
    valid =
        λ a b ha hb. record { head_in = omega arith; tail_in = omega arith; last_op = omega arith };
    packets = λ a b ha hb. tt;
  };
  rq = record {
    valid =
        λ a b ha hb. record { head_in = omega arith; tail_in = omega arith; last_op = omega arith };
    packets = λ a b ha hb. tt;
  };
  tables = λ g h. record { stack = (omega arith, omega arith); returns = λ i. inl (omega arith) };
}

last_launch :
    (d' : Device) × (launch (nd_range 2 2 no_values) 2 empty_store idle ≡ some d')
    × (d'.state ≡ complete)
last_launch =
    let order = Perm.refl (nd_range 2 2 no_values) in
    let (d', e, iff) =
      launch-complete_iff 2 (nd_range 2 2 no_values) empty_store idle (omega arith)
        (nd_range-AllUnits 2 2 no_values (nd_range 2 2 no_values) order)
        (nd_range-HasFirst 2 2 no_values (nd_range 2 2 no_values) order (omega arith))
        idle-IsConsistent.rq.valid idle-IsConsistent.q.valid refl in
    (d', e, iff.1 idle-NoPacket)

Reach-NoPacket_example : NoPacket 2 (toggled (last_launch.0))
unfolding toggle_state
Reach-NoPacket_example =
    Reach-NoPacket 2 2 empty_store (omega arith) idle-IsConsistent going
      (round no_values (nd_range 2 2 no_values) start going (Perm.refl (nd_range 2 2 no_values))
        (last_launch.1))
      (ap toggle_state (last_launch.2))
  where
    going : writing ≢ complete
    going e = cc

-- The first two work-items the other way round.
abbrev other_order : List WorkItem
other_order =
    work_item 2 2 no_values 0 1
    ∷ work_item 2 2 no_values 0 0
    ∷ work_item 2 2 no_values 1 0
    ∷ work_item 2 2 no_values 1 1
    ∷ []

other_order-Perm : Perm other_order (nd_range 2 2 no_values)
unfolding threads groups
other_order-Perm =
    Perm.swap (work_item 2 2 no_values 0 0) (work_item 2 2 no_values 0 1)
      (work_item 2 2 no_values 1 0 ∷ work_item 2 2 no_values 1 1 ∷ [])

-- A packet in every transfer queue.
abbrev full_handed : Device
full_handed = record idle { rq = one_each_q }

sent_by :
    (ws : List WorkItem)
    → Perm ws (nd_range 2 2 no_values)
    → (d' : Device) × (launch ws 2 empty_store full_handed ≡ some d')
sent_by ws order =
    let (d', e, _) =
      launch-complete_iff 2 ws empty_store full_handed (omega arith)
        (nd_range-AllUnits 2 2 no_values ws order)
        (nd_range-HasFirst 2 2 no_values ws order (omega arith)) one_each_q-AllValid
        idle-IsConsistent.q.valid refl in
    (d', e)

launch-SamePackets_example :
    let d1 = (sent_by (nd_range 2 2 no_values) (Perm.refl (nd_range 2 2 no_values))).0 in
    let d2 = (sent_by other_order other_order-Perm).0 in
    SamePackets 2 d1 d2
    × (d1.state ≡ d2.state)
    × (d1.subtask_list ≡ d2.subtask_list)
    × (d1.mem ≡ d2.mem)
launch-SamePackets_example =
    launch-SamePackets 2 2 empty_store full_handed (omega arith) (omega arith) one_each_q-AllValid
      idle-IsConsistent.q.valid refl no_values no_values (nd_range 2 2 no_values) other_order
      (Perm.refl (nd_range 2 2 no_values)) other_order-Perm
      ((sent_by (nd_range 2 2 no_values) (Perm.refl (nd_range 2 2 no_values))).1)
      ((sent_by other_order other_order-Perm).1)
