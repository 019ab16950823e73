-- ===== src/Host/Loop.antt =====
-- src/VM.cpp `main`, from the buffers on the device to the end of the launches: the work-items of a
-- launch, and which devices the loop can reach.
pub mod Items
pub mod Start
pub mod Laws
pub mod Program
pub mod Order
pub mod Lossless
pub mod Bisimulation
use mathlib.Core.List.{Perm}
use ocl_gprm.Base.{ℕ, zero, suc, ◌+◌, ◌*◌, ◌≡◌, ◌≢◌, some, Memory, List, [], ◌∷◌, ◌++◌}
use ocl_gprm.WorkItem.{WorkItem}
use ocl_gprm.Packet.{Packet}
use ocl_gprm.Kernel.{complete}
use ocl_gprm.Kernel.Launch.{Device, launch}
use ocl_gprm.Host.Main.{Prepared}
use ocl_gprm.Host.Setup.{toggle_state}

-- `enqueueWriteBuffer` for every buffer; `user_data` is the user's.
abbrev pub upload : Prepared → Memory ℕ → Device
upload p user_data = record {
  q = p.queues;
  rq = p.read_queues;
  state = p.state;
  subtask_list = p.subtask_tables;
  mem = user_data;
}

-- `cl::NDRange global(nServices*NTH), local(NTH)`: the work-item of a group, by its number there, and
-- `left` threads of a group from `thread` on, and of `left` groups from `group` on. The memory of the
-- work-items' own variables is unknown.
abbrev pub work_item : ℕ → ℕ → (ℕ → ℕ → Packet) → ℕ → ℕ → WorkItem
work_item n nth uninit group thread = record {
  group_id = group;
  num_groups = n;
  local_id = thread;
  local_size = nth;
  global_id = nth * group + thread;
  nth = nth;
  uninit = uninit group thread;
}

unfoldable pub threads : ℕ → ℕ → ℕ → (ℕ → ℕ → Packet) → ℕ → ℕ → List WorkItem
threads zero n nth uninit group thread = []
threads (suc left) n nth uninit group thread =
    work_item n nth uninit group thread ∷ threads left n nth uninit group (thread + 1)

unfoldable pub groups : ℕ → ℕ → ℕ → (ℕ → ℕ → Packet) → ℕ → List WorkItem
groups zero n nth uninit group = []
groups (suc left) n nth uninit group =
    threads nth n nth uninit group 0 ++ groups left n nth uninit (group + 1)

abbrev pub nd_range : ℕ → ℕ → (ℕ → ℕ → Packet) → List WorkItem
nd_range n nth uninit = groups n n nth uninit 0

-- `toggleState`, on the device's state.
abbrev pub toggled : Device → Device
toggled d = record d { state = toggle_state d.state }

-- The devices that rounds of `while (*state != COMPLETE)` reach from the one before the first launch,
-- where in each round all work-items run in some order, and return.
pub data Reach (n nth : ℕ) (c_store : Memory ℕ) (first : Device) : Device → Type 0 where
  start : Reach n nth c_store first first
  round :
      {d d' : Device} (uninit : ℕ → ℕ → Packet) (ws : List WorkItem)
      → Reach n nth c_store first d
      → d.state ≢ complete
      → Perm ws (nd_range n nth uninit)
      → launch ws n c_store d ≡ some d'
      → Reach n nth c_store first (toggled d')
