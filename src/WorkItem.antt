-- ===== src/WorkItem.antt =====
-- What the OpenCL runtime and the build tell a work-item: the built-in functions get_group_id(0)
-- and so on, and the build option NTH. `uninit` is what an uninitialised `packet` variable holds.
use ocl_gprm.Base.{ℕ}
use ocl_gprm.Packet.{Packet}

pub record WorkItem : Type 0 where
  pub group_id : ℕ
  pub num_groups : ℕ
  pub local_id : ℕ
  pub local_size : ℕ
  pub global_id : ℕ
  pub nth : ℕ
  pub uninit : Packet
