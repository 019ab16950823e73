-- ===== src/Kernel/Network/Launching.antt =====
-- Launches of kernels/VM.cl `vm`, beside the turns of their work-items on the network.
use mathlib.Core.Path.{subst}
use ocl_gprm.Base.{
  ℕ, ◌≤◌, ◌<◌, ◌≡◌, refl, ap, ap₂, ◌∙◌, arith, Bool, true, false, ◌==◌, if◌then◌else◌, Agree,
  Agree-then, Agree-map, Agree-Ensures, Memory, store, some, List, [], ◌∷◌,
}
use ocl_gprm.WorkItem.{WorkItem}
use ocl_gprm.Queue.Window.{contents}
use ocl_gprm.Queue.Transfer.Laws.{q_transfer-Moved}
use ocl_gprm.Kernel.{State, complete, reading, writing, Buffers, vm, vm_read, vm_write, in_state}
use ocl_gprm.Kernel.Launch.{Device, view, put_back, run_item, launch}
use ocl_gprm.Kernel.Launch.Item.{store_same}
use ocl_gprm.Kernel.Launch.Write.{AllUnits}
use ocl_gprm.Kernel.Sound.Device.{IsConsistent, run_item-IsConsistent}
use ocl_gprm.Kernel.Network.{Own, Network, read_unit, write_unit, turn_in, turn, turns}
use ocl_gprm.Kernel.Network.Shows.{Shows, ReadOut-Shows, Moved-Shows}
use ocl_gprm.Kernel.Network.Reading.{After, read_from-Agree}
use ocl_gprm.Kernel.Network.Quiet.{computation_complete-Shows}

-- Between the `n` units the rings of both buffers are valid and hold what is on the network, and the
-- rest of the device is the network's.
pub record Mirrors (n : ℕ) (d : Device) (s : Network) : Type 0 where
  pub received : Shows n d.q s.received
  pub sent : Shows n d.rq s.sent
  pub state : d.state ≡ s.state
  pub tables : d.subtask_list ≡ s.tables
  pub mem : d.mem ≡ s.mem

-- What a consistent device shows.
abbrev pub shown : ℕ → Device → Network
shown n d = record {
  received = λ a b. contents a b d.q n;
  sent = λ a b. contents a b d.rq n;
  state = d.state;
  tables = d.subtask_list;
  mem = d.mem;
}

pub shown-Mirrors :
    (n : ℕ) (c_store : Memory ℕ) (d : Device) → IsConsistent n c_store d → Mirrors n d (shown n d)
shown-Mirrors n c_store d ok = record {
  received = record { valid = ok.q.valid; holds = λ a b ha hb. refl };
  sent = record { valid = ok.rq.valid; holds = λ a b ha hb. refl };
  state = refl;
  tables = refl;
  mem = refl;
}

module _ (w : WorkItem) (n : ℕ) (c_store : Memory ℕ) (hg : w.group_id < n) (few : n ≤ 256)
    (d : Device) (s : Network) (ok : IsConsistent n c_store d) (m : Mirrors n d s) where
  abbrev Leaves : Buffers → Network → Type 0
  Leaves b s' = Mirrors n (put_back w d b) s'

  unchanged : Leaves (view w d) s
  unchanged = record {
    received = m.received;
    sent = m.sent;
    state = m.state;
    tables = store_same d.subtask_list w.group_id ∙ m.tables;
    mem = m.mem;
  }

  vm_read-Agree : Agree Leaves (vm_read w n c_store (view w d)) (read_unit w n c_store s)
  unfolding vm_read read_unit
  vm_read-Agree =
      let own : Own = record { sent = s.sent; table = s.tables w.group_id; mem = s.mem } in
      Agree-then (After w n c_store hg few _) Leaves _ _ _ _
        (read_from-Agree w n c_store hg few n 0 d.q (view w d).global own s.received (omega arith)
          ok.q (λ j p hj. m.received.holds w.group_id j hg hj)
          (
            record { rq = ok.rq; table = ok.tables w.group_id hg },
            record { sent = m.sent; table = ap (λ t. t w.group_id) m.tables; mem = m.mem },
          ))
        (λ r own' after. record {
          received = ReadOut-Shows w n hg m.received after.0;
          sent = after.2.1.sent;
          state = m.state;
          tables = ap₂ (λ t v. store t w.group_id v) m.tables after.2.1.table;
          mem = after.2.1.mem;
        })

  vm_write-Agree : Agree Leaves (vm_write w n (view w d)) (some (write_unit w n s))
  unfolding vm_write write_unit
  vm_write-Agree =
      let (rq, q, e, moved) = q_transfer-Moved w.group_id n hg d.rq d.q ok.rq.valid ok.q.valid in
      let (sent, received) = Moved-Shows w n hg m.sent m.received moved in
      rw (e, vm_write)
        (record {
          received = received;
          sent = sent;
          state =
              ap₂ (λ b x. if b then complete else x) (computation_complete-Shows n received sent)
                m.state;
          tables = store_same d.subtask_list w.group_id ∙ m.tables;
          mem = m.mem;
        })

  writing-Agree :
      (b : Bool)
      → Agree Leaves
          (if b then vm_write w n (view w d) else some (view w d))
          (some (if b then write_unit w n s else s))
  writing-Agree true = vm_write-Agree
  writing-Agree false = unchanged

  in_state-Agree :
      (now : State) → Agree Leaves (in_state now w n c_store (view w d)) (turn_in now w n c_store s)
  in_state-Agree complete = unchanged
  in_state-Agree reading = vm_read-Agree
  in_state-Agree writing = writing-Agree (w.local_id == 0)

  run_item-Agree : Agree (Mirrors n) (run_item w n c_store d) (turn w n c_store s)
  unfolding run_item vm turn
  run_item-Agree = Agree-map (Mirrors n) _ _ (put_back w d) (
      subst (λ now. Agree Leaves (vm w n c_store (view w d)) (turn_in now w n c_store s)) m.state
        (in_state-Agree d.state))

module _ (n : ℕ) (c_store : Memory ℕ) (few : n ≤ 256) where
  abbrev pub Refines : Device → Network → Type 0
  Refines d s = IsConsistent n c_store d × Mirrors n d s

  -- For at most 256 compute units, a launch by work-items of these units, from a consistent device
  -- (all queues valid; every reference packet from a unit, or from the host and then its code waits
  -- for an argument; every stack pointer inside its stack; every record answering to a unit or to
  -- the host) whose queues hold what a network of lists of packets holds, and which otherwise is the
  -- network's: the launch returns exactly if the turns of the same work-items, one after another, on
  -- the network end, and then the device is consistent and shows the network again. A turn in state
  -- READ handles one after another all packets that have arrived for the unit; it does not end where
  -- no record is available, where code has more arguments than the 31 a record has room for, or
  -- where a packet has been handled by a work-item that is not the only one of its group and so
  -- waits at the barrier. In state WRITE the first work-item of a unit moves all that the unit has
  -- sent behind what its receivers have, as far as there is room, and the state is COMPLETE once no
  -- packet is left.
  pub launch-Refines :
      (ws : List WorkItem) (d : Device) (s : Network)
      → AllUnits n ws
      → IsConsistent n c_store d
      → Mirrors n d s
      → Agree
          (λ d' s'. IsConsistent n c_store d' × Mirrors n d' s')
          (launch ws n c_store d)
          (turns ws n c_store s)
  unfolding launch turns
  launch-Refines [] d s units ok m = (ok, m)
  launch-Refines (w ∷ ws) d s units ok m =
      Agree-then Refines Refines _ _ _ _
        (Agree-Ensures (IsConsistent n c_store) (Mirrors n) _ _
          (run_item-IsConsistent n c_store few w d units.0 ok)
          (run_item-Agree w n c_store units.0 few d s ok m))
        (λ d' s' h. launch-Refines ws d' s' units.1 h.0 h.1)
