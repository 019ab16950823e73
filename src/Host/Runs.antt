-- ===== src/Host/Runs.antt =====
-- src/VM.cpp and src/VM_with_OclWrapper.cc `main`, "Run the kernel on NDRange until completion": the
-- NRUNS runs of a program. The OpenCL runtime is a parameter, with one function for each call.
use ocl_gprm.Base.{ℕ, zero, suc, ◌*◌, ltb, if◌then◌else◌, Option, none, some, Memory}
use ocl_gprm.Macros.{code_store_size, max_bytecode_sz}
use ocl_gprm.Packet.{Packet}
use ocl_gprm.Subtask.Table.{SubtaskTable}
use ocl_gprm.Host.Setup.{q_buf_size}
use ocl_gprm.Kernel.{State, reading, complete}
use ocl_gprm.Host.Main.{run}

-- `D` is what is on the device. Sizes are in bytes, for the tables in tables; `read_data` reads `size`
-- bytes from byte `offset` on into an array that holds other words before. `launch` is a launch that
-- starts with the state that the host has written to the device last, with the state that
-- `toggleState` reads back.
pub record Ocl (D : Type 0) : Type 0 where
  pub write_read_queues : ℕ → Memory Packet → D → D
  pub write_code_store : ℕ → Memory ℕ → D → D
  pub write_tables : ℕ → Memory SubtaskTable → D → D
  pub write_data : ℕ → Memory ℕ → D → D
  pub write_queues : ℕ → Memory Packet → D → D
  pub launch : D → State → D × State
  pub read_data : ℕ → ℕ → D → Memory ℕ → Memory ℕ

-- `sizeof(cl_uint)` and `sizeof(packet)`
abbrev pub sizeof_uint : ℕ
sizeof_uint = 4

abbrev pub sizeof_packet : ℕ
sizeof_packet = 8

-- `#if NRUNS > 1`: how often the loop runs, and `*state` behind it.
unfoldable pub run_count : ℕ → ℕ
run_count n_runs = if ltb 1 n_runs then n_runs else 1

unfoldable pub last_state : ℕ → State
last_state n_runs = if ltb 1 n_runs then reading else complete

module _ {D : Type 0} (ocl : Ocl D) where
  -- What is written once, before the first run. A word of bytecode has the size of a packet.
  unfoldable pub write_arrays : ℕ → Memory Packet → Memory ℕ → Memory SubtaskTable → D → D
  write_arrays n_services read_queues code_store subtask_tables device =
      let d1 = ocl.write_read_queues (q_buf_size n_services * sizeof_packet) read_queues device in
      let d2 =
        ocl.write_code_store (code_store_size * max_bytecode_sz * sizeof_packet) code_store d1 in
      ocl.write_tables n_services subtask_tables d2

module _ {D : Type 0} (ocl : Ocl D) (fuel q_buf_size : ℕ) (queues : Memory Packet) where
  -- One run, from the host's `*state` up to the state COMPLETE.
  unfoldable pub one_run : State → ℕ → Memory ℕ → D → Option D
  one_run state data_size data_p device =
      let d1 = ocl.write_data (data_size * sizeof_uint) data_p device in
      let d2 = ocl.write_queues (q_buf_size * sizeof_packet) queues d1 in
      run fuel ocl.launch d2 state

  -- Without USE_SUBBUFFER the whole data buffer is read back, and the next run starts with it. Every
  -- run but the first starts with `*state = READ`.
  unfoldable pub runs : ℕ → State → ℕ → Memory ℕ → D → Option (Memory ℕ × D)
  runs zero state data_size data_p device = some (data_p, device)
  runs (suc left) state data_size data_p device = elim (one_run state data_size data_p device) [
    | none ↦ none
    | some device' ↦
        let data_p' = ocl.read_data 0 (data_size * sizeof_uint) device' data_p in
        runs left reading data_size data_p' device'
  ]

  -- With USE_SUBBUFFER the result alone is read back, and every run starts with the same data.
  unfoldable pub runs_sub : ℕ → State → ℕ → ℕ → Memory ℕ → Memory ℕ → D → Option (Memory ℕ × D)
  runs_sub zero state m_size data_size data_p m_c device = some (m_c, device)
  runs_sub (suc left) state m_size data_size data_p m_c device =
      elim (one_run state data_size data_p device) [
        | none ↦ none
        | some device' ↦
            let m_c' = ocl.read_data (data_p 3 * sizeof_uint) (m_size * sizeof_uint) device' m_c in
            runs_sub left reading m_size data_size data_p m_c' device'
      ]
