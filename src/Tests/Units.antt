-- ===== src/Tests/Units.antt =====
-- A launch in state READ by two compute units of one thread.
use ocl_gprm.Base.{ℕ, ◌^◌, List, [], ◌∷◌}
use ocl_gprm.WorkItem.{WorkItem}
use ocl_gprm.Kernel.{writing}
use ocl_gprm.Kernel.Launch.{Device}
use ocl_gprm.Kernel.{reading}
use ocl_gprm.Tests.Launches.{one_each_q, waiting_table}
use ocl_gprm.Host.Setup.{pkt_base_init}

abbrev unit : ℕ → WorkItem
unit group = record {
  group_id = group;
  num_groups = 2;
  local_id = 0;
  local_size = 1;
  global_id = group;
  nth = 1;
  uninit = pkt_base_init;
}

abbrev units : List WorkItem
units = unit 1 ∷ unit 0 ∷ []

-- Every transfer queue with one packet, and every real queue empty.
abbrev sending : Device
sending = record {
  q = λ i. pkt_base_init;
  rq = λ i. record { x = 2 ^ 16; y = 1 };
  state = writing;
  subtask_list = λ i. record {
    recs = λ j. record {
      service_id = 0;
      code_addr = 0;
      args = λ k. 0;
      arg_status = λ k. 0;
      nargs = 0;
      subt_status = 0;
      nargs_absent = 0;
      return_to = 0;
      return_as = 0;
    };
    av_recs = λ j. 0;
  };
  mem = λ i. 0;
}

-- Every real queue with one packet, and a table that waits at each unit.
abbrev receiving : Device
receiving = record sending { q = one_each_q; state = reading; subtask_list = λ i. waiting_table }
