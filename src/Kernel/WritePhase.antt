-- ===== src/Kernel/WritePhase.antt =====
-- A launch in state WRITE: the first work-item of each unit moves the unit's packets.
use ocl_gprm.Base.{ℕ, ◌<◌, ◌≡◌, refl, some, if◌then◌else◌}
use ocl_gprm.WorkItem.{WorkItem}
use ocl_gprm.Queue.Frame.{AllValid}
use ocl_gprm.Queue.Transfer.{computation_complete}
use ocl_gprm.Queue.Transfer.Laws.{Moved, q_transfer-Moved}
use ocl_gprm.Kernel.{Buffers, complete, vm_write}

module _ (w : WorkItem) (n : ℕ) (ha : w.group_id < n) where
  -- A launch in state WRITE of compute unit `g`, where all queues of both buffers are valid,
  -- returns. It has emptied the transfer queues of `g` into the queues of their destinations; the
  -- state is COMPLETE if `computation_complete` then finds no packet, and else the same; the table
  -- and the data are the same.
  pub vm_write-returns :
      (b : Buffers)
      → AllValid b.global.rq n
      → AllValid b.q n
      → (b' : Buffers) × (vm_write w n b ≡ some b')
        × Moved w.group_id 0 n b.global.rq b.q b'.global.rq b'.q
        × (b'.state ≡ (if computation_complete b'.q b'.global.rq n then complete else b.state))
        × (b'.global.table ≡ b.global.table)
        × (b'.global.mem ≡ b.global.mem)
  unfolding vm_write
  vm_write-returns b ok_rq ok_q =
      let (rq, q, e, moved) = q_transfer-Moved w.group_id n ha b.global.rq b.q ok_rq ok_q in
      (
        record {
          q = q;
          state = if computation_complete q rq n then complete else b.state;
          global = record b.global { rq = rq };
        },
        rw (e, vm_write),
        moved,
        refl,
        refl,
        refl,
      )
