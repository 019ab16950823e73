-- ===== src/Kernel/Sound.antt =====
-- What has to hold of the packets and tables so that every packet is sent to a compute unit that
-- there is.
pub mod Parse
pub mod Handling
pub mod Phases
pub mod Device
use ocl_gprm.Base.{ℕ, ◌+◌, ◌*◌, ◌%◌, ◌^◌, ◌<◌, ◌≡◌, ◌⊎◌, u32, Memory}
use ocl_gprm.Macros.{max_bytecode_sz, reference, return_address}
use ocl_gprm.Packet.{Packet, pkt_get_type, pkt_get_source, pkt_get_payload}
use ocl_gprm.Symbol.{symbol_get_nargs}
use ocl_gprm.Queue.Carries.{Carries}
use ocl_gprm.Subtask.Table.{SubtaskTable}
use ocl_gprm.Subtask.Table.Stack.{IsStack}
use ocl_gprm.Kernel.Parse.Laws.{given_count, code_symbol}
use ocl_gprm.Kernel.{Global}

-- The code at an address has an argument that is not given in the code.
abbrev pub IsWaiting : Memory ℕ → ℕ → Type 0
IsWaiting c_store address =
    let nargs = symbol_get_nargs (c_store (u32 (address * max_bytecode_sz))) in
    given_count (code_symbol c_store address) 0 nargs < nargs

-- A reference packet comes from a compute unit; or it is the host's, and its code has to wait for an
-- argument, so that the DATA branch of `parse_pkt` finds that there is nobody to answer.
abbrev pub IsAnswerable : ℕ → Memory ℕ → Packet → Type 0
IsAnswerable n c_store p =
    pkt_get_type p ≡ reference
    → (pkt_get_source p < n)
      ⊎ ((pkt_get_source p ≡ return_address) × IsWaiting c_store (pkt_get_payload p))

abbrev pub IsReturn : ℕ → ℕ → Type 0
IsReturn n unit = (unit < n) ⊎ (unit ≡ return_address)

-- A table that keeps its stack pointer inside the stack, and all of whose records answer to a unit, or to
-- the host.
pub record IsReturning (n : ℕ) (t : SubtaskTable) : Type 0 where
  pub stack : IsStack t
  pub returns : (i : ℕ) → IsReturn n (t.recs i).return_to

pub record IsSound (n : ℕ) (c_store : Memory ℕ) (g : Global) : Type 0 where
  pub rq : Carries (IsAnswerable n c_store) g.rq n
  pub table : IsReturning n g.table
