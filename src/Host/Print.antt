-- ===== src/Host/Print.antt =====
-- src/VM.cpp `main`: what it prints of the data buffer at its end, for SELECT == 4 and 5. A line is the
-- list of the numbers on it. `data_p` is the host's array: with USE_SUBBUFFER, which src/VM.cpp defines,
-- it is not read back from the device, and holds what `populateData` has left there.
use ocl_gprm.Base.{
  ℕ, zero, suc, ◌+◌, ◌-◌, ◌*◌, ◌/◌, ◌^◌, u32, ltb, if◌then◌else◌, Memory, List, [], ◌∷◌,
}

-- The loop of SELECT == 5 from `ii` on, with `left` rounds to go.
unfoldable pub node_lines : ℕ → ℕ → Memory ℕ → List (List ℕ)
node_lines zero ii data_p = []
node_lines (suc left) ii data_p =
    (ii / 4
      ∷ data_p (u32 (data_p 1 + ii))
      ∷ data_p (u32 (data_p 1 + ii + 1))
      ∷ data_p (u32 (data_p 1 + ii + 2))
      ∷ data_p (u32 (data_p 1 + ii + 3))
      ∷ [])
    ∷ node_lines left (ii + 4) data_p

-- The bound of the loop is a multiple of 4, however it wraps round.
unfoldable pub print_nodes : ℕ → ℕ → Memory ℕ → List (List ℕ)
print_nodes n_services nth data_p = node_lines (u32 (4 * n_services * nth) / 4) 0 data_p

-- An `int`: `pos n` is n, and `negsuc n` is - 1 - n.
pub data ℤ : Type 0 where
  pos : ℕ → ℤ
  negsuc : ℕ → ℤ

-- `(int)`
unfoldable pub to_int : ℕ → ℤ
to_int word = if ltb word (2 ^ 31) then pos word else negsuc (2 ^ 32 - 1 - word)

-- SELECT == 4
unfoldable pub print_matrix : Memory ℕ → List (List ℤ)
print_matrix data_p =
    (to_int (data_p (data_p 6)) ∷ to_int (data_p (u32 (data_p 6 + 1))) ∷ [])
    ∷ (to_int (data_p (u32 (data_p 6 + 2))) ∷ to_int (data_p (u32 (data_p 6 + 3))) ∷ [])
    ∷ []
