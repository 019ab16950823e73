-- ===== src/Tests/Objects.antt =====
-- An object of the class, on a device that counts what is written to it and launched on it.
use ocl_gprm.Base.{ℕ, ◌+◌, ◌≡◌, refl, arith, some, Memory, []}
use ocl_gprm.Kernel.{State, complete, reading}
use ocl_gprm.Host.Setup.{pkt_base_init, toggle_state}
use ocl_gprm.Host.Main
use ocl_gprm.Host.Runs.{Ocl, one_run, runs, run_count, last_state, write_arrays}
use ocl_gprm.Host.Gprm.{OclGprm, run}
use ocl_gprm.Host.Gprm.Again.{run-again}

abbrev counting : Ocl ℕ
counting = record {
  write_read_queues = λ size queues d. d + 100;
  write_code_store = λ size words d. d + 100;
  write_tables = λ n tables d. d + 100;
  write_data = λ size data_p d. d + 100;
  write_queues = λ size queues d. d + 100;
  launch = λ d state. (d + 1, complete);
  read_data = λ offset size d words. words;
}

abbrev object : State → OclGprm
object state = record {
  queues = λ i. pkt_base_init;
  read_queues = λ i. pkt_base_init;
  state = state;
  code_store = λ i. 0;
  subtask_tables = λ i. record {
    recs = λ j. record {
      service_id = 0;
      code_addr = 0;
      args = λ k. 0;
      arg_status = λ k. 0;
      nargs = 0;
      subt_status = 0;
      nargs_absent = 0;
      return_to = 0;
      return_as = 0;
    };
    av_recs = λ j. 0;
  };
  data_p = [];
  data_size = 513;
  regs = λ i. 0;
}

abbrev words : Memory ℕ
words i = i

run_first : run counting words 2 1 2 (object reading) 0 ≡ some (words, object complete, 501)
unfolding run runs one_run run_count last_state write_arrays Main.run toggle_state
run_first = refl

run-again_example :
    run counting words 2 1 2 (object complete) 501 ≡ some (words, object complete, 1001)
unfolding write_arrays
run-again_example =
    run-again counting 1 2 (omega arith) 2 1 (object reading) (object complete) words words words 0
      501 501 run_first
