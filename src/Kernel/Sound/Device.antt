-- ===== src/Kernel/Sound/Device.antt =====
-- A launch keeps all packets and all tables sound.
use mathlib.Core.Path.{subst}
use native.Mathlib.Decide.{ℕ_discrete}
use ocl_gprm.Base.{
  ℕ, ◌≤◌, ◌<◌, sym, some, Ensures, Ensures-then, Memory, store_self, store_ne, List, [], ◌∷◌,
}
use ocl_gprm.WorkItem.{WorkItem}
use ocl_gprm.Queue.Carries.{Carries}
use ocl_gprm.Kernel.{Buffers, vm}
use ocl_gprm.Kernel.Launch.{Device, view, put_back, run_item, launch}
use ocl_gprm.Kernel.Launch.Write.{AllUnits}
use ocl_gprm.Kernel.Sound.{IsAnswerable, IsReturning}
use ocl_gprm.Kernel.Sound.Phases.{IsSafe, vm-IsSafe}

-- All queues are valid, each reference packet in them can be answered, and the tables of the `n` units
-- keep their stack pointers inside and answer to units or to the host.
pub record IsConsistent (n : ℕ) (c_store : Memory ℕ) (d : Device) : Type 0 where
  pub q : Carries (IsAnswerable n c_store) d.q n
  pub rq : Carries (IsAnswerable n c_store) d.rq n
  pub tables : (g : ℕ) → g < n → IsReturning n (d.subtask_list g)

module _ (n : ℕ) (c_store : Memory ℕ) (few : n ≤ 256) where
  view-IsSafe :
      (w : WorkItem) (d : Device)
      → w.group_id < n
      → IsConsistent n c_store d
      → IsSafe n c_store (view w d)
  view-IsSafe w d hg ok = record {
    q = ok.q;
    unit = record { rq = ok.rq; table = ok.tables w.group_id hg };
  }

  put_back-IsConsistent :
      (w : WorkItem) (d : Device) (b : Buffers)
      → IsConsistent n c_store d
      → IsSafe n c_store b
      → IsConsistent n c_store (put_back w d b)
  put_back-IsConsistent w d b ok safe = record {
    q = safe.q;
    rq = safe.unit.rq;
    tables = λ g h. elim (ℕ_discrete w.group_id g) [
      | yes e ↦
          subst (λ i. IsReturning n ((put_back w d b).subtask_list i)) e
            (subst (IsReturning n) (sym (store_self d.subtask_list w.group_id b.global.table))
              safe.unit.table)
      | no ne ↦
          subst (IsReturning n) (sym (store_ne d.subtask_list w.group_id g b.global.table ne))
            (ok.tables g h)
    ];
  }

  pub run_item-IsConsistent :
      (w : WorkItem) (d : Device)
      → w.group_id < n
      → IsConsistent n c_store d
      → Ensures (IsConsistent n c_store) (run_item w n c_store d)
  unfolding run_item
  run_item-IsConsistent w d hg ok =
      Ensures-then (IsSafe n c_store) (IsConsistent n c_store) (vm w n c_store (view w d))
        (λ b. some (put_back w d b))
        (vm-IsSafe w n c_store hg few (view w d) (view-IsSafe w d hg ok))
        (λ b safe. put_back-IsConsistent w d b ok safe)

  -- A launch by work-items of the units, in any order.
  pub launch-IsConsistent :
      (ws : List WorkItem) (d : Device)
      → AllUnits n ws
      → IsConsistent n c_store d
      → Ensures (IsConsistent n c_store) (launch ws n c_store d)
  unfolding launch
  launch-IsConsistent [] d units ok = ok
  launch-IsConsistent (w ∷ ws) d units ok =
      Ensures-then (IsConsistent n c_store) (IsConsistent n c_store) (run_item w n c_store d)
        (λ d'. launch ws n c_store d') (run_item-IsConsistent w d units.0 ok)
        (λ d' ok'. launch-IsConsistent ws d' units.1 ok')
