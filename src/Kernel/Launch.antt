-- ===== src/Kernel/Launch.antt =====
-- kernels/VM.cl `vm`, run by all work-items of a launch, one after the other in any order.
pub mod Item
pub mod Quiet
pub mod Delivery
pub mod Write
pub mod Read
use ocl_gprm.Base.{ℕ, Option, none, some, Memory, store, List, [], ◌∷◌}
use ocl_gprm.WorkItem.{WorkItem}
use ocl_gprm.Packet.{Packet}
use ocl_gprm.Subtask.Table.{SubtaskTable}
use ocl_gprm.Kernel.{State, Global, Buffers, vm}

-- What the kernel's arguments point to, without the code store, which no work-item changes.
pub record Device : Type 0 where
  pub q : Memory Packet
  pub rq : Memory Packet
  pub state : State
  pub subtask_list : Memory SubtaskTable
  pub mem : Memory ℕ

-- A work-item sees the table of its own group.
abbrev pub view : WorkItem → Device → Buffers
view w d = record {
  q = d.q;
  state = d.state;
  global = record { rq = d.rq; table = d.subtask_list w.group_id; mem = d.mem };
}

abbrev pub put_back : WorkItem → Device → Buffers → Device
put_back w d b = record {
  q = b.q;
  rq = b.global.rq;
  state = b.state;
  subtask_list = store d.subtask_list w.group_id b.global.table;
  mem = b.global.mem;
}

unfoldable pub run_item : WorkItem → ℕ → Memory ℕ → Device → Option Device
run_item w n c_store d = elim (vm w n c_store (view w d)) [
  | none ↦ none
  | some b ↦ some (put_back w d b)
]

unfoldable pub launch : List WorkItem → ℕ → Memory ℕ → Device → Option Device
launch [] n c_store d = some d
launch (w ∷ ws) n c_store d = elim (run_item w n c_store d) [
  | none ↦ none
  | some d' ↦ launch ws n c_store d'
]
