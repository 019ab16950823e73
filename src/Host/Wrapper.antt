-- ===== src/Host/Wrapper.antt =====
-- src/VM_with_OclWrapper.cc `main`, SELECT == 2 and REF != 0: the host program over the OclWrapper
-- library, which is not part of the repository. What it shares with src/VM.cpp are the same lines.
pub mod Functions
use ocl_gprm.Base.{ℕ, ◌*◌, Option, none, some, ◌==◌, if◌then◌else◌, Memory, List}
use ocl_gprm.Host.Setup.{q_buf_size}
use ocl_gprm.Host.Main.{Prepared, prepare}
use ocl_gprm.Host.Runs.{Ocl, run_count, runs_sub, write_arrays}
use ocl_gprm.Host.Check.{check}

-- NGROUPS work-groups, or as many as the device has compute units.
unfoldable pub choose_units : ℕ → ℕ → ℕ
choose_units n_groups max_compute_units = if n_groups == 0 then max_compute_units else n_groups

-- What `new` returns for each array.
pub record FreshArrays : Type 0 where
  pub prepared : Prepared
  pub m_c : Memory ℕ
  pub m_arow : Memory ℕ
  pub m_cref : Memory ℕ

-- The counts of right and of wrong elements that `main` reports. `populate_data` is the function of
-- src/UserData.cpp that the build selects.
unfoldable pub main :
    {D : Type 0}
    → Ocl D
    → ℕ
    → ℕ
    → ℕ
    → ℕ
    → ℕ
    → (ℕ → ℕ × Memory ℕ)
    → Option (List ℕ)
    → FreshArrays
    → D
    → Option (ℕ × ℕ)
main ocl fuel n_runs n_groups max_compute_units width populate_data bytecode_file fresh device =
    let n_services = choose_units n_groups max_compute_units in
    elim (prepare n_services bytecode_file fresh.prepared) [
      | none ↦ none
      | some p ↦
          let (data_size, data_p) = populate_data n_services in
          let device' =
            write_arrays ocl n_services p.read_queues p.code_store p.subtask_tables device in
          elim (runs_sub ocl fuel (q_buf_size n_services) p.queues (run_count n_runs) p.state
            (width * width) data_size data_p fresh.m_c device') [
              | none ↦ none
              | some (m_c, _) ↦ some (check width data_p m_c fresh.m_arow fresh.m_cref)
            ]
    ]
