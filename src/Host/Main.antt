-- ===== src/Host/Main.antt =====
-- src/VM.cpp `main`: everything that the first launch needs, and the launches. A launch of the kernel
-- is a parameter: from what is on the device and the state it makes both anew.
pub mod Laws
use ocl_gprm.Macros.{code_store_size, max_bytecode_sz}
use ocl_gprm.Base.{
  u64, ltb, Bool, ◌-◌, ◌*◌, ◌%◌, ◌^◌, ℕ, zero, suc, ◌+◌, Option, none, some, Memory, store, List,
  if◌then◌else◌, true, false,
}
use ocl_gprm.Packet.{Packet}
use ocl_gprm.Subtask.Table.{SubtaskTable}
use ocl_gprm.Kernel.{State, complete, reading, writing}
use ocl_gprm.Host.Stream.{read_bytecode}
use ocl_gprm.Host.Packets.{words2packets}
use ocl_gprm.Host.CodeStore.{populate_code_store}
use ocl_gprm.Host.Setup.{init_queues, init_read_queues, q_buf_size, create_subtask, toggle_state}

-- The arrays of `main`.
pub record Prepared : Type 0 where
  pub queues : Memory Packet
  pub read_queues : Memory Packet
  pub state : State
  pub code_store : Memory ℕ
  pub subtask_tables : Memory SubtaskTable

-- NARGS
abbrev pub n_args : ℕ
n_args = 3

-- `validateArguments`: whether the program goes on. Otherwise it says how to call it, and ends.
unfoldable pub validate_arguments : ℕ → Bool
validate_arguments argc = if ltb argc n_args then false else true

-- `for (uint ii=0;ii<nServices;ii++)`, with `left` rounds to go
unfoldable pub create_tables : ℕ → ℕ → Memory SubtaskTable → Memory SubtaskTable
create_tables zero ii tables = tables
create_tables (suc left) ii tables =
    create_tables left (ii + 1) (store tables ii (create_subtask (tables ii)))

-- What `main` does with the packets before it calls OpenCL, with `fresh` for what `new` returns.
unfoldable pub prepare_arrays : ℕ → List (List ℕ) → Prepared → Prepared
prepare_arrays n_services packets fresh =
    let (root_address, code_store) = populate_code_store packets fresh.code_store in
    record {
      queues = init_queues n_services root_address fresh.queues;
      read_queues = init_read_queues n_services fresh.read_queues;
      state = reading;
      code_store = code_store;
      subtask_tables = create_tables n_services 0 fresh.subtask_tables;
    }

-- And what it does before. `none` where reading the program runs off its end, and where `nQueues` or
-- `qBufSize` is too large for an int, for which `main` has no test.
unfoldable pub prepare : ℕ → Option (List ℕ) → Prepared → Option Prepared
prepare n_services bytecode_file fresh =
    if ltb (2 ^ 31 - 1) (q_buf_size n_services) then none else elim (read_bytecode bytecode_file) [
      | none ↦ none
      | some bytecode_words ↦ elim (words2packets bytecode_words) [
        | none ↦ none
        | some packets ↦ some (prepare_arrays n_services packets fresh)
      ]
    ]

-- `while (*state != COMPLETE)`, with fuel and without what OCLDBG prints
unfoldable pub run : {D : Type 0} → ℕ → (D → State → D × State) → D → State → Option D
run zero launch device state = none
run (suc fuel) launch device complete = some device
run (suc fuel) launch device reading =
    let (device', state') = launch device reading in run fuel launch device' (toggle_state state')
run (suc fuel) launch device writing =
    let (device', state') = launch device writing in run fuel launch device' (toggle_state state')

-- Subtraction of `unsigned long`.
abbrev pub sub_u64 : ℕ → ℕ → ℕ
sub_u64 a b = u64 (a + 2 ^ 64 - u64 b)

-- The test before "ERROR: NOT ENOUGH MEMORY", with the size of a SubtaskTable as the compiler lays it
-- out. `sizeof` is unsigned, and makes the whole difference so.
unfoldable pub not_enough_memory : ℕ → ℕ → ℕ → ℕ → Bool
not_enough_memory sizeof_subtask_table max_global_alloc n_services data_size =
    let left1 = sub_u64 max_global_alloc (2 * q_buf_size n_services * 8) in
    let left2 = sub_u64 left1 4 in
    let left3 = sub_u64 left2 (code_store_size * max_bytecode_sz * 8) in
    let left4 = sub_u64 left3 (sizeof_subtask_table * n_services) in ltb (sub_u64 left4 data_size) 0
