-- ===== src/Host/UserData.antt =====
-- src/UserData.cpp `populateData`, for EX = 1, 2, 4 and 5: the data buffer before the first launch. Its
-- first word is the number of pointers, which follow; behind the pointer file and the register file
-- come the users' buffers. `rand` is the C library's generator: its `k`-th call since `srand(1)`
-- returns `rand k`. `fresh` is what `new` returns.
pub mod Laws
use ocl_gprm.Base.{ℕ, zero, suc, ◌+◌, ◌-◌, ◌*◌, ◌%◌, ◌^◌, u32, Memory, store}
use ocl_gprm.Macros.{buffer_ptr_file_sz, register_file_sz}

-- `randomNumber`, with what `rand()` returns
abbrev pub random_number : ℕ → ℕ → ℕ
random_number r max = r % (max + 1)

-- `for (uint i = ...; i < ...; i++) data[i] = rand() % 64;`, with `left` rounds to go
unfoldable pub fill_random : (ℕ → ℕ) → ℕ → ℕ → ℕ → Memory ℕ → Memory ℕ
fill_random rand zero k i mem = mem
fill_random rand (suc left) k i mem =
    fill_random rand left (k + 1) (i + 1) (store mem i (rand k % 64))

-- EX = 2, the size of the buffer and the buffer. The pointers that bound the loops stand below the
-- words that the loops write.
unfoldable pub populate_matmult : (ℕ → ℕ) → ℕ → Memory ℕ → ℕ × Memory ℕ
populate_matmult rand dim fresh =
    let buffers_size = u32 (3 * dim * dim) in
    let data_size = u32 (1 + buffer_ptr_file_sz + register_file_sz + buffers_size) in
    let n_io_regs : ℕ = 4 in
    let d0 = store fresh 0 n_io_regs in
    let d1 = store d0 1 (buffer_ptr_file_sz + register_file_sz) in
    let d2 = store d1 2 (u32 (d1 1 + dim * dim)) in
    let d3 = store d2 3 (u32 (d2 2 + dim * dim)) in
    let d4 = store d3 4 dim in
    let d5 = store d4 (n_io_regs + 1) (u32 (d4 3 + dim * dim)) in
    let d6 = fill_random rand (d5 2 - d5 1) 0 (d5 1) d5 in
    let d7 = fill_random rand (d5 3 - d5 2) (d5 2 - d5 1) (d5 2) d6 in (data_size, d7)

-- EX = 4: two input matrices of two rows, and room for results
unfoldable pub populate_example_4 : Memory ℕ → ℕ × Memory ℕ
populate_example_4 fresh =
    let dim : ℕ = 2 in
    let buffers_size = 4 * dim * dim in
    let data_size = 1 + buffer_ptr_file_sz + register_file_sz + buffers_size in
    let n_io_regs : ℕ = 6 in
    let d0 = store fresh 0 n_io_regs in
    let d1 = store d0 1 (buffer_ptr_file_sz + register_file_sz) in
    let d2 = store d1 2 (u32 (d1 1 + dim * dim)) in
    let d3 = store d2 3 (u32 (d2 2 + dim * dim)) in
    let d4 = store d3 4 (u32 (d3 3 + dim * dim)) in
    let d5 = store d4 5 dim in
    let d6 = store d5 6 (u32 (d5 4 + dim * dim)) in
    let d7 = store d6 (n_io_regs + 1) (u32 (d6 6 + dim * dim)) in
    let a1 = store d7 (d7 1) 1 in
    let a2 = store a1 (a1 1 + 1) 2 in
    let a3 = store a2 (a2 1 + 2) (2 ^ 32 - 3) in
    let a4 = store a3 (a3 1 + 3) 11 in
    let b1 = store a4 (a4 2) (2 ^ 32 - 2) in
    let b2 = store b1 (b1 2 + 1) 4 in
    let b3 = store b2 (b2 2 + 2) 7 in let b4 = store b3 (b3 2 + 3) 1 in (data_size, b4)

-- The loop of EX = 5, four words a round, with `left` rounds to go. The pointer data[1] stands below
-- the words that it writes.
unfoldable pub clear_reports : ℕ → ℕ → ℕ → Memory ℕ → Memory ℕ
clear_reports zero first ii mem = mem
clear_reports (suc left) first ii mem =
    let d1 = store mem (first + ii) 0 in
    let d2 = store d1 (first + ii + 1) 0 in
    let d3 = store d2 (first + ii + 2) 0 in
    let d4 = store d3 (first + ii + 3) 0 in clear_reports left first (ii + 4) d4

-- EX = 5: four words for each work-item to report to; `nth` is the build option NTH
unfoldable pub populate_reports : ℕ → ℕ → Memory ℕ → ℕ × Memory ℕ
populate_reports n_services nth fresh =
    let buffers_size = u32 (n_services * nth * 4) in
    let data_size = u32 (1 + buffer_ptr_file_sz + register_file_sz + buffers_size) in
    let n_io_regs : ℕ = 1 in
    let d0 = store fresh 0 n_io_regs in
    let d1 = store d0 1 (buffer_ptr_file_sz + register_file_sz) in
    let d2 = store d1 (n_io_regs + 1) (u32 (d1 1 + u32 (n_services * nth * 4))) in
    (data_size, clear_reports (n_services * nth) (d2 1) 0 d2)

-- `for (uint i = ...; i < ...; i++) data[i] = randomNumber(10);`, with `left` rounds to go
unfoldable pub fill_numbers : (ℕ → ℕ) → ℕ → ℕ → ℕ → Memory ℕ → Memory ℕ
fill_numbers rand zero k i mem = mem
fill_numbers rand (suc left) k i mem =
    fill_numbers rand left (k + 1) (i + 1) (store mem i (random_number (rand k) 10))

-- EX = 1: the pointer to the scratch memory, and the buffer, which the caller has allocated
unfoldable pub populate_example_1 : (ℕ → ℕ) → Memory ℕ → ℕ × Memory ℕ
populate_example_1 rand data_p =
    let dim : ℕ = 128 in
    let n_io_regs : ℕ = 3 in
    let d0 = store data_p 0 n_io_regs in
    let d1 = store d0 1 (buffer_ptr_file_sz + register_file_sz) in
    let d2 = store d1 2 (u32 (d1 1 + dim * dim)) in
    let d3 = store d2 3 (u32 (d2 2 + dim * dim)) in
    let d4 = store d3 (n_io_regs + 1) (u32 (d3 3 + dim * dim)) in
    let d5 = fill_numbers rand (d4 2 - d4 1) 0 (d4 1) d4 in
    let d6 = fill_numbers rand (d5 3 - d5 2) (d4 2 - d4 1) (d5 2) d5 in (d6 (n_io_regs + 1), d6)
