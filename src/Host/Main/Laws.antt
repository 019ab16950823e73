-- ===== src/Host/Main/Laws.antt =====
-- From a program file to the arrays of the first launch.
use native.Mathlib.Nat.{mul-le-mul_right}
use native.Mathlib.Decide.{ℕ_discrete}
use ocl_gprm.Base.{
  ℕ, zero, suc, ◌+◌, ◌-◌, ◌*◌, ◌^◌, ◌≤◌, ◌<◌, ◌≡◌, ◌≢◌, ◌⊎◌, refl, ap, ◌∙◌, arith, some, Memory,
  store_self, store_ne, false, ltb, List, [], ◌∷◌, length,
}
use ocl_gprm.Subtask.Table.{SubtaskTable}
use ocl_gprm.Subtask.Table.Stack.{IsStack}
use ocl_gprm.Subtask.Table.Alloc.{Allocated}
use ocl_gprm.Queue.Frame.{AllValid}
use ocl_gprm.Queue.Ring.{IsValid}
use ocl_gprm.Queue.Window.{contents}
use ocl_gprm.Kernel.{reading}
use ocl_gprm.Host.Stream.RoundTrip.{file, IsWords, read_bytecode-file}
use ocl_gprm.Host.Packets.RoundTrip.{Source, AllSources, body, all_words, words2packets-body}
use ocl_gprm.Host.CodeStore.{populate_code_store}
use ocl_gprm.Host.Setup.{create_subtask, q_buf_size}
use ocl_gprm.Host.Setup.Laws.{
  root_packet, init_queues-root, create_subtask-Allocated, init_read_queues-empty,
  create_subtask-recs,
}
use ocl_gprm.Host.Main.{Prepared, create_tables, prepare, prepare_arrays}

create_tables-below :
    (left i : ℕ) (tables : Memory SubtaskTable) (j : ℕ)
    → j < i
    → create_tables left i tables j ≡ tables j
unfolding create_tables
create_tables-below zero i tables j h = refl
create_tables-below (suc left) i tables j h =
    create_tables-below left (i + 1) _ j (omega arith) ∙ store_ne tables i j _ (omega arith)

pub create_tables-inside :
    (left i : ℕ) (tables : Memory SubtaskTable) (j : ℕ)
    → i ≤ j
    → j < i + left
    → create_tables left i tables j ≡ create_subtask (tables j)
unfolding create_tables
create_tables-inside zero i tables j p r = absurd (omega arith)
create_tables-inside (suc left) i tables j p r = elim (ℕ_discrete j i) [
  | yes e ↦ rw e (create_tables-below left (i + 1) _ i (omega arith) ∙ store_self tables i _)
  | no ne ↦
      create_tables-inside left (i + 1) _ j (omega arith) (omega arith)
      ∙ ap create_subtask (store_ne tables i j _ (omega arith))
]

-- The arrays are ready for the program with these packets.
pub record Ready (n : ℕ) (packets : List (List ℕ)) (fresh p : Prepared) : Type 0 where
  pub valid : AllValid p.queues n
  pub root :
      contents 0 0 p.queues n ≡ root_packet (populate_code_store packets fresh.code_store).0 ∷ []
  pub others : (a b : ℕ) → a < n → b < n → (a ≢ 0) ⊎ (b ≢ 0) → contents a b p.queues n ≡ []
  pub sent :
      (a b : ℕ) → a < n → b < n → IsValid a b p.read_queues n × (contents a b p.read_queues n ≡ [])
  pub code : p.code_store ≡ (populate_code_store packets fresh.code_store).1
  pub start : p.state ≡ reading
  pub tables : (i : ℕ) → i < n → IsStack (p.subtask_tables i) × Allocated [] (p.subtask_tables i)
  pub records : (i : ℕ) → i < n → (p.subtask_tables i).recs ≡ (fresh.subtask_tables i).recs

-- For up to 8066 compute units the size of a queue buffer fits an int.
q_buf_size-small : (n : ℕ) → n ≤ 8066 → q_buf_size n < 2 ^ 31
q_buf_size-small n h =
    let squared : n * n ≤ 8066 * n = grind (arith, mul-le-mul_right n h) in omega (arith, squared)

-- For at least one and at most 8066 compute units, so that the size of a queue buffer fits an int,
-- `main` reads the file of a program of at most 65535 packets, each with a payload below 65536 words
-- and all words of 64 bits, to its end. Then every queue is valid, the queue from unit 0 to itself
-- holds the packet for the root address that the program's packets give, all other queues and all
-- transfer queues are empty, the code store is what the packets make it, the state is READ, and in
-- the table of each unit every record is available exactly once and holds what it held.
pub prepare-Ready :
    (n : ℕ) (ss : List Source) (low : ℕ) (fresh : Prepared)
    → 0 < n
    → n ≤ 8066
    → length ss < 2 ^ 16
    → AllSources ss
    → low < 2 ^ 48
    → IsWords ((length ss * 2 ^ 48 + low) ∷ body ss)
    → (p : Prepared) × (prepare n (some (file ((length ss * 2 ^ 48 + low) ∷ body ss))) fresh
        ≡ some p)
      × Ready n (all_words ss) fresh p
unfolding prepare prepare_arrays
prepare-Ready n ss low fresh some_unit units few ok h words =
    let loaded = populate_code_store (all_words ss) fresh.code_store in
    let fits : ltb (2 ^ 31 - 1) (q_buf_size n) ≡ false =
      let small = q_buf_size-small n units in ground arith in
    let read = read_bytecode-file ((length ss * 2 ^ 48 + low) ∷ body ss) words in
    let split = words2packets-body ss low ((2 ^ 64 - 1) ∷ []) few ok h in
    let first = init_queues-root n loaded.0 fresh.queues some_unit in
    (
      prepare_arrays n (all_words ss) fresh,
      rw (fits, read, split, prepare) refl,
      record {
        valid = first.0;
        root = first.1;
        others = first.2;
        sent = init_read_queues-empty n fresh.read_queues;
        code = refl;
        start = refl;
        tables = λ i hi.
            rw (create_tables-inside n 0 fresh.subtask_tables i (omega arith) (omega arith))
              (create_subtask-Allocated (fresh.subtask_tables i));
        records = λ i hi.
            rw (create_tables-inside n 0 fresh.subtask_tables i (omega arith) (omega arith))
              (create_subtask-recs (fresh.subtask_tables i));
      },
    )
