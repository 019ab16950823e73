-- ===== src/Tests/Programs.antt =====
-- A program of a code packet for address 1 and a reference packet to it.
use ocl_gprm.Base.{
  ℕ, ◌%◌, ◌<◌, store, ◌+◌, ◌-◌, ◌*◌, ◌^◌, ◌≡◌, inl, refl, arith, some, List, [], ◌∷◌, ◌++◌, length,
  Memory,
}
use mathlib.Core.Option
use ocl_gprm.Base.{ltb, u32, ap, false}
use ocl_gprm.Host.Wrapper.{choose_units}
use ocl_gprm.Host.Gprm.{OclGprm, vector, members, construct, finished, out_of_range, write_buffer}
use ocl_gprm.Host.Gprm.Laws.{allocate_all, write_buffer-allocated}
use ocl_gprm.Macros.{max_bytecode_sz}
use ocl_gprm.Kernel.{reading}
use ocl_gprm.Host.Setup.{pkt_base_init}
use ocl_gprm.Host.Main.{Prepared, prepare, not_enough_memory}
use ocl_gprm.Host.Main.Laws.{Ready, prepare-Ready}
use ocl_gprm.Base.{if◌then◌else◌}
use ocl_gprm.Host.Stream.RoundTrip.{IsWords}
use ocl_gprm.Host.UserData.{populate_matmult, populate_example_4}
use ocl_gprm.Host.UserData.Laws.{populate_matmult-layout}
use ocl_gprm.Host.Stream.{read_bytecode}
use ocl_gprm.Host.Stream.RoundTrip.{file, read_bytecode-file}
use ocl_gprm.Host.Packets.{words2packets}
use ocl_gprm.Host.Packets.RoundTrip.{Source, body, all_words, words2packets-body}
use ocl_gprm.Host.CodeStore.{populate_code_store}
use ocl_gprm.Host.CodeStore.Laws.{Holds, Packed, packed_words, address_of}
use ocl_gprm.Host.CodeStore.Program.{packed, populate_code_store-Holds}

read_bytecode-file_example :
    read_bytecode (some (file (1 ∷ 2 ^ 63 ∷ []))) ≡ some ((1 ∷ 2 ^ 63 ∷ []) ++ (2 ^ 64 - 1) ∷ [])
read_bytecode-file_example = read_bytecode-file (1 ∷ 2 ^ 63 ∷ []) (omega arith, (omega arith, tt))

abbrev pub sources : List Source
sources =
    record { type = 0x0200; low = 5; second = 0; third = 2 ^ 32; payload = 11 ∷ 12 ∷ [] }
    ∷ record { type = 0x0300; low = 0; second = 0; third = 2 ^ 32; payload = [] }
    ∷ []

words2packets-body_example :
    words2packets ((length sources * 2 ^ 48 + 9) ∷ (body sources ++ 7 ∷ []))
    ≡ some (all_words sources)
words2packets-body_example =
    words2packets-body sources 9 (7 ∷ []) (omega arith)
      ((omega arith, omega arith, omega arith), ((omega arith, omega arith, omega arith), tt))
      (omega arith)

abbrev code_packet : Packed
code_packet = record { first = 2 * 2 ^ 56; second = 0; third = 2 ^ 32; payload = 11 ∷ 12 ∷ [] }

abbrev reference_packet : Packed
reference_packet = record { first = 3 * 2 ^ 56; second = 0; third = 2 ^ 32; payload = [] }

abbrev pub empty_store : Memory ℕ
empty_store i = 0

populate_code_store-Holds_example :
    Holds
      (populate_code_store
        ([] ++ packed_words code_packet ∷ packed (reference_packet ∷ []))
        empty_store).1
      (address_of code_packet * max_bytecode_sz)
      code_packet.payload
populate_code_store-Holds_example =
    populate_code_store-Holds [] code_packet (reference_packet ∷ []) empty_store refl (omega arith)
      (inl (omega arith), tt)

abbrev no_random : ℕ → ℕ
no_random k = 100 + k

populate_matmult-layout_example :
    let (size, mem) = populate_matmult no_random 2 empty_store in
    (mem 0 ≡ 4)
    × (mem 1 ≡ 512)
    × (mem 2 ≡ 512 + 2 * 2)
    × (mem 3 ≡ 512 + 2 * (2 * 2))
    × (mem 4 ≡ 2)
    × (mem 5 ≡ 512 + 3 * (2 * 2))
    × (size ≡ 513 + 3 * (2 * 2))
    × ((i : ℕ) → i < 2 * (2 * 2) → mem (512 + i) ≡ no_random i % 64)
populate_matmult-layout_example = populate_matmult-layout no_random 2 empty_store (omega arith)

-- For EX = 4 the pointer to the last matrix, the scratch pointer and the size.
example_4_overruns :
    let (size, mem) = populate_example_4 empty_store in (mem 6 ≡ 528) × (mem 7 ≡ 532) × (size ≡ 529)
unfolding populate_example_4 store
example_4_overruns = (refl, refl, refl)

abbrev pub fresh_arrays : Prepared
fresh_arrays = record {
  queues = λ i. pkt_base_init;
  read_queues = λ i. pkt_base_init;
  state = reading;
  code_store = empty_store;
  subtask_tables = λ i. record {
    recs = λ j. record {
      service_id = 0;
      code_addr = 0;
      args = λ k. 0;
      arg_status = λ k. 0;
      nargs = 0;
      subt_status = 0;
      nargs_absent = 0;
      return_to = 0;
      return_as = 0;
    };
    av_recs = λ j. 0;
  };
}

pub sources-IsWords : IsWords ((length sources * 2 ^ 48 + 9) ∷ body sources)
sources-IsWords = (
  omega arith,
  (
    omega arith,
    (
      omega arith,
      (omega arith, (omega arith, (omega arith, (omega arith, (omega arith, (omega arith, tt)))))),
    ),
  ),
)

prepare-Ready_example :
    (p : Prepared) × (prepare 2
        (some (file ((length sources * 2 ^ 48 + 9) ∷ body sources)))
        fresh_arrays
      ≡ some p)
    × Ready 2 (all_words sources) fresh_arrays p
prepare-Ready_example =
    prepare-Ready 2 sources 9 fresh_arrays (omega arith) (omega arith) (omega arith)
      ((omega arith, omega arith, omega arith), ((omega arith, omega arith, omega arith), tt))
      (omega arith) sources-IsWords

-- What the constructor of the class makes of the program.
constructed :
    (g : OclGprm) × (construct 2 8
        (some (file ((length sources * 2 ^ 48 + 9) ∷ body sources)))
        fresh_arrays
        empty_store
      ≡ some g)
unfolding construct choose_units
constructed =
    let (p, e, _) =
      prepare-Ready 2 sources 9 fresh_arrays (omega arith) (omega arith) (omega arith)
        ((omega arith, omega arith, omega arith), ((omega arith, omega arith, omega arith), tt))
        (omega arith) sources-IsWords in
    (members empty_store p, ap (Option.map (members empty_store)) e)

write_buffer-allocated_example :
    let g' = allocate_all ((0, 8) ∷ (1, 4) ∷ []) constructed.0 in
    let data_p = (6 ∷ 7 ∷ []) ++ vector 3 0 in
    write_buffer 1 ((6 ∷ 7 ∷ []) ++ 8 ∷ []) 8 g' ≡ (
      if ltb 1 3
      then finished (u32 (length data_p), record g' { data_p = data_p })
      else out_of_range)
write_buffer-allocated_example =
    write_buffer-allocated 2 8 (some (file ((length sources * 2 ^ 48 + 9) ∷ body sources)))
      fresh_arrays empty_store constructed.0 ((0, 8) ∷ (1, 4) ∷ []) 1 8 (6 ∷ 7 ∷ []) (8 ∷ [])
      constructed.1 refl

-- A device of 1024 bytes for queues, code and tables of more than 64 kilobytes.
memory_not_missed : not_enough_memory 10000 1024 2 529 ≡ false
unfolding not_enough_memory
memory_not_missed = refl
