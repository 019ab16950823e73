-- ===== src/Kernel/Launch/Quiet.antt =====
-- A launch that does not read leaves the tables and the data as they are.
use ocl_gprm.Base.{
  ℕ, ◌≡◌, ◌≢◌, refl, ap, ◌∙◌, ◌==◌, if◌then◌else◌, if-both, some, Ensures, Ensures-then,
  Ensures-any, Ensures-weaken, Memory, store, List, [], ◌∷◌,
}
use ocl_gprm.WorkItem.{WorkItem}
use ocl_gprm.Packet.{Packet}
use ocl_gprm.Queue.Transfer.{q_transfer, computation_complete}
use ocl_gprm.Kernel.{State, complete, reading, writing, Buffers, vm_write, in_state, vm}
use ocl_gprm.Kernel.Launch.{Device, view, put_back, run_item, launch}
use ocl_gprm.Kernel.Launch.Item.{store_same}

record Untouched (b b' : Buffers) : Type 0 where
  table : b'.global.table ≡ b.global.table
  mem : b'.global.mem ≡ b.global.mem
  state : b'.state ≢ reading

-- The tables and the data are the same, and nothing is going to be read.
pub record IsQuiet (d d' : Device) : Type 0 where
  pub subtask_list : d'.subtask_list ≡ d.subtask_list
  pub mem : d'.mem ≡ d.mem
  pub state : d'.state ≢ reading

module _ (n : ℕ) (c_store : Memory ℕ) where
  vm_write-Untouched :
      (w : WorkItem) (b : Buffers) → b.state ≢ reading → Ensures (Untouched b) (vm_write w n b)
  unfolding vm_write
  vm_write-Untouched w b going =
      Ensures-then (λ _. Unit {0}) (Untouched b) (q_transfer w.group_id b.global.rq b.q n)
        (λ (r : Memory Packet × Memory Packet). some (record {
          q = r.1;
          state = if computation_complete r.1 r.0 n then complete else b.state;
          global = record b.global { rq = r.0 };
        }))
        (Ensures-any (q_transfer w.group_id b.global.rq b.q n))
        (λ r h. record {
          table = refl;
          mem = refl;
          state = if-both (λ s. s ≢ reading) (computation_complete r.1 r.0 n) (λ e. cc) going;
        })

  in_state-Untouched :
      (s : State) (w : WorkItem) (b : Buffers)
      → s ≢ reading
      → b.state ≢ reading
      → Ensures (Untouched b) (in_state s w n c_store b)
  in_state-Untouched complete w b h going = record { table = refl; mem = refl; state = going }
  in_state-Untouched reading w b h going = absurd (h refl)
  in_state-Untouched writing w b h going =
      if-both (Ensures (Untouched b)) (w.local_id == 0) (vm_write-Untouched w b going)
        (record { table = refl; mem = refl; state = going })

  run_item-IsQuiet :
      (w : WorkItem) (d : Device) → d.state ≢ reading → Ensures (IsQuiet d) (run_item w n c_store d)
  unfolding run_item vm
  run_item-IsQuiet w d going =
      Ensures-then (Untouched (view w d)) (IsQuiet d) (vm w n c_store (view w d))
        (λ b. some (put_back w d b)) (in_state-Untouched d.state w (view w d) going going)
        (λ b same. record {
          subtask_list =
              ap (store d.subtask_list w.group_id) same.table
              ∙ store_same d.subtask_list w.group_id;
          mem = same.mem;
          state = same.state;
        })

  -- A launch by any work-items.
  pub launch-IsQuiet :
      (ws : List WorkItem) (d : Device)
      → d.state ≢ reading
      → Ensures (IsQuiet d) (launch ws n c_store d)
  unfolding launch
  launch-IsQuiet [] d going = record { subtask_list = refl; mem = refl; state = going }
  launch-IsQuiet (w ∷ ws) d going =
      Ensures-then (IsQuiet d) (IsQuiet d) (run_item w n c_store d) (λ d'. launch ws n c_store d')
        (run_item-IsQuiet w d going)
        (λ d1 s.
          Ensures-weaken (IsQuiet d1) (IsQuiet d) (launch ws n c_store d1)
            (λ d' t. record {
              subtask_list = t.subtask_list ∙ s.subtask_list;
              mem = t.mem ∙ s.mem;
              state = t.state;
            })
            (launch-IsQuiet ws d1 s.state))
