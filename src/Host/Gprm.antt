-- ===== src/Host/Gprm.antt =====
-- src/OclGPRM.cc and include/OclGPRM.h: the host program as a class. The words `regs` and `data`,
-- which the class uses and does not declare, are a member here and an argument.
pub mod Laws
pub mod Again
pub mod Methods
use mathlib.Core.Option
use ocl_gprm.Base.{
  ℕ, zero, suc, ◌+◌, ◌*◌, ◌/◌, ◌%◌, ◌^◌, u32, Option, none, some, Memory, store, List, [], ◌∷◌,
  ◌++◌, length,
}
use ocl_gprm.Macros.{buffer_ptr_file_sz, register_file_sz}
use ocl_gprm.Packet.{Packet}
use ocl_gprm.Subtask.Table.{SubtaskTable}
use ocl_gprm.Kernel.{State}
use ocl_gprm.Host.Setup.{q_buf_size}
use ocl_gprm.Host.Packets.{take_words}
use ocl_gprm.Host.Main.{Prepared, prepare}
use ocl_gprm.Host.Runs.{Ocl, runs, run_count, last_state, sizeof_uint, write_arrays}
use ocl_gprm.Host.Wrapper.{choose_units}

pub record OclGprm : Type 0 where
  pub queues : Memory Packet
  pub read_queues : Memory Packet
  pub state : State
  pub code_store : Memory ℕ
  pub subtask_tables : Memory SubtaskTable
  pub data_p : List ℕ
  pub data_size : ℕ
  pub regs : Memory ℕ

-- `std::vector<unsigned int>(n, value)`
abbrev pub vector : ℕ → ℕ → List ℕ
vector zero value = []
vector (suc n) value = value ∷ vector n value

-- The members once the arrays are prepared, with `regs` as it happens to be. The arguments of
-- `std::vector` say no words of value 513.
unfoldable pub members : Memory ℕ → Prepared → OclGprm
members regs p = record {
  queues = p.queues;
  read_queues = p.read_queues;
  state = p.state;
  code_store = p.code_store;
  subtask_tables = p.subtask_tables;
  data_p = vector 0 (1 + buffer_ptr_file_sz + register_file_sz);
  data_size = 1 + buffer_ptr_file_sz + register_file_sz;
  regs = regs;
}

-- The constructor, with `fresh` for what `new` returns.
unfoldable pub construct : ℕ → ℕ → Option (List ℕ) → Prepared → Memory ℕ → Option OclGprm
construct n_groups max_compute_units bytecode_file fresh regs =
    Option.map (members regs)
      (prepare (choose_units n_groups max_compute_units) bytecode_file fresh)

-- What a member function that C++ may stop ends with: a value, the exception `std::out_of_range`, or
-- nothing that the language defines.
pub data Outcome {ℓ} (A : Type ℓ) : Type ℓ where
  finished : A → Outcome A
  out_of_range undefined : Outcome A

-- `data_p->at(pos)`
unfoldable pub vector_at : List ℕ → ℕ → Outcome ℕ
vector_at [] pos = out_of_range
vector_at (x ∷ xs) zero = finished x
vector_at (x ∷ xs) (suc pos) = vector_at xs pos

-- `insert(begin() + pos, ...)`, which must not lie behind the end
unfoldable pub vector_insert : ℕ → List ℕ → List ℕ → Outcome (List ℕ)
vector_insert zero new xs = finished (new ++ xs)
vector_insert (suc pos) new [] = undefined
vector_insert (suc pos) new (x ∷ xs) = elim (vector_insert pos new xs) [
  | finished ys ↦ finished (x ∷ ys)
  | out_of_range ↦ out_of_range
  | undefined ↦ undefined
]

-- `allocateBuffer`, which returns nothing although it says so
unfoldable pub allocate_buffer : ℕ → ℕ → OclGprm → OclGprm
allocate_buffer pos bufsize g =
    let wsize = bufsize / sizeof_uint in
    let data_p = g.data_p ++ vector wsize 0 in
    record g { regs = store g.regs pos wsize; data_p = data_p; data_size = u32 (length data_p) }

-- `writeBuffer`, from the words behind `buf`. `bufv.assign(buf,buf+wsize)` takes a `void*`, which C++
-- refuses: it is read as the `wsize` words from there on.
unfoldable pub write_buffer : ℕ → List ℕ → ℕ → OclGprm → Outcome (ℕ × OclGprm)
write_buffer pos buf bufsize g = elim (take_words (bufsize / sizeof_uint) buf) [
  | none ↦ undefined
  | some (bufv, _) ↦ elim (vector_at g.data_p pos) [
    | out_of_range ↦ out_of_range
    | undefined ↦ undefined
    | finished at ↦ elim (vector_insert at bufv g.data_p) [
      | out_of_range ↦ out_of_range
      | undefined ↦ undefined
      | finished data_p ↦ finished (u32 (length data_p), record g { data_p = data_p })
    ]
  ]
]

module _ {D : Type 0} (ocl : Ocl D) (data_words : Memory ℕ) where
  -- `run`, for NRUNS runs: the data words, the object and what is on the device afterwards. It uses
  -- `qBufSize`, which the class does not declare either: it is what it is in the constructor, for the
  -- services of the argument.
  unfoldable pub run : ℕ → ℕ → ℕ → OclGprm → D → Option (Memory ℕ × OclGprm × D)
  run fuel n_runs n_services g device =
      Option.map (λ (r : Memory ℕ × D). (r.0, record g { state = last_state n_runs }, r.1))
        (runs ocl fuel (q_buf_size n_services) g.queues (run_count n_runs) g.state g.data_size
          data_words
          (write_arrays ocl n_services g.read_queues g.code_store g.subtask_tables device))

  -- `readBuffer`, into an array that `new` returns
  unfoldable pub read_buffer : ℕ → ℕ → D → Memory ℕ → Memory ℕ
  read_buffer pos bufsize device rbuf =
      ocl.read_data (data_words (pos + 1) * sizeof_uint) bufsize device rbuf
