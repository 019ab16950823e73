-- ===== src/Host/Gprm/Again.antt =====
-- Calling `run` more than once.
use mathlib.Core.Option
use ocl_gprm.Base.{
  ℕ, suc, ◌*◌, ◌≤◌, ◌≡◌, refl, sym, ap, ◌∙◌, arith, ltb, false, Option, none, some, Memory,
}
use ocl_gprm.Kernel.{State, complete}
use ocl_gprm.Host.Setup.{q_buf_size}
use ocl_gprm.Host.Main
use ocl_gprm.Host.Runs.{
  Ocl, one_run, runs, run_count, last_state, sizeof_packet, sizeof_uint, write_arrays,
}
use ocl_gprm.Host.Gprm.{OclGprm, run}

module _ {D : Type 0} (ocl : Ocl D) (n_runs n_services : ℕ) (once : n_runs ≤ 1) where
  not_more : ltb 1 n_runs ≡ false
  not_more = ground arith

  run-complete :
      (fuel : ℕ) (g : OclGprm) (data_words : Memory ℕ) (device : D)
      → g.state ≡ complete
      → let set_up =
          write_arrays ocl n_services g.read_queues g.code_store g.subtask_tables device in
        let written =
          ocl.write_queues
            (q_buf_size n_services * sizeof_packet)
            g.queues
            (ocl.write_data (g.data_size * sizeof_uint) data_words set_up) in
        run ocl data_words (suc fuel) n_runs n_services g device
        ≡ some (ocl.read_data 0 (g.data_size * sizeof_uint) written data_words, g, written)
  unfolding run runs one_run run_count last_state Main.run
  run-complete fuel g data_words device e =
      let once_only : run_count n_runs ≡ 1 = rw (not_more, run_count) refl in
      let ends : last_state n_runs ≡ complete = rw (not_more, last_state) refl in
      rw (once_only, ends, e, run) refl

  abbrev state_of : Option (Memory ℕ × OclGprm × D) → State
  state_of none = complete
  state_of (some r) = r.1.state

  run-state :
      (g : OclGprm) (o : Option (Memory ℕ × D))
      → state_of
          (Option.map (λ (r : Memory ℕ × D). (r.0, record g { state = last_state n_runs }, r.1)) o)
        ≡ complete
  unfolding last_state
  run-state g none = refl
  run-state g (some r) = rw (not_more) refl

  -- Where NRUNS is at most 1, once `run` of an object has returned, the next call launches no
  -- kernel: it returns with the device as the arrays, the data and the queues were written to it,
  -- and with what is then read back.
  pub run-again :
      (fuel fuel' : ℕ) (g g' : OclGprm) (data_words data_words' again : Memory ℕ)
      (device device' device1 : D)
      → run ocl data_words fuel n_runs n_services g device ≡ some (data_words', g', device')
      → let set_up =
          write_arrays ocl n_services g'.read_queues g'.code_store g'.subtask_tables device1 in
        let written =
          ocl.write_queues
            (q_buf_size n_services * sizeof_packet)
            g'.queues
            (ocl.write_data (g'.data_size * sizeof_uint) again set_up) in
        run ocl again (suc fuel') n_runs n_services g' device1
        ≡ some (ocl.read_data 0 (g'.data_size * sizeof_uint) written again, g', written)
  unfolding run
  run-again fuel fuel' g g' data_words data_words' again device device' device1 e =
      run-complete fuel' g' again device1 (
        sym (ap state_of e)
        ∙ run-state g (
            runs ocl fuel (q_buf_size n_services) g.queues (run_count n_runs) g.state g.data_size
              data_words
              (write_arrays ocl n_services g.read_queues g.code_store g.subtask_tables device)))
