-- ===== src/Tests/Launches.antt =====
-- Tables and queues for launches of the kernel on two compute units.
use ocl_gprm.Base.{◌-◌, ◌^◌, length, ◌≡◌, arith, Memory, ◌==◌, if◌then◌else◌}
use ocl_gprm.Packet.{Packet}
use ocl_gprm.Queue.{q_get_head_index, q_get_tail_index}
use ocl_gprm.Queue.Frame.{AllValid}
use ocl_gprm.Subtask.Record.{SubtaskRecord}
use ocl_gprm.Subtask.Table.{SubtaskTable}
use ocl_gprm.Subtask.Table.Stack.{available, length-entries}

-- A subtask that waits for its one argument, asked for by compute unit 1.
abbrev waiting_record : SubtaskRecord
waiting_record = record {
  service_id = 0;
  code_addr = 1;
  args = λ k. 0;
  arg_status = λ k. 2;
  nargs = 1;
  subt_status = 1;
  nargs_absent = 1;
  return_to = 1;
  return_as = 3;
}

abbrev pub waiting_table : SubtaskTable
waiting_table = record { recs = λ i. waiting_record; av_recs = λ i. if i == 0 then 1 else i - 1 }

-- Every queue with a packet.
abbrev pub one_each_q : Memory Packet
one_each_q i = record { x = 2 ^ 16; y = 1 }

pub one_each_q-AllValid : AllValid one_each_q 2
unfolding q_get_head_index q_get_tail_index
one_each_q-AllValid a b ha hb = record {
  head_in = omega arith;
  tail_in = omega arith;
  last_op = omega arith;
}

pub all_available : length (available waiting_table) ≡ 1023
all_available = length-entries waiting_table.av_recs 1 1023
