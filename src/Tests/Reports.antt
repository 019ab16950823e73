-- ===== src/Tests/Reports.antt =====
-- What work-items report, and what `main` prints.
use ocl_gprm.Base.{ℕ, ◌+◌, ◌*◌, ◌^◌, ◌≤◌, ◌<◌, ◌≡◌, inr, refl, arith, ◌∷◌}
use ocl_gprm.Base.{◌-◌, [], ◌==◌, if◌then◌else◌}
use ocl_gprm.Host.Print.{print_matrix, pos, negsuc, to_int}
use ocl_gprm.Service.{report}
use ocl_gprm.Service.Report.{part, IsReported, report-bounds}
use ocl_gprm.Host.UserData.{populate_reports}
use ocl_gprm.Tests.Matrices.{counting, work_item}

report-bounds_example :
    let (size, data_p) = populate_reports 2 2 counting in
    let at = data_p 1 + 4 * part (work_item 1 0) 1 in
    (512 ≤ at)
    × (at + 4 < size)
    × IsReported (work_item 1 0) 1 at counting (report (work_item 1 0) counting (data_p 1) 1)
    × ((k : ℕ) → at ≤ k → k < at + 4 → report (work_item 1 1) counting (data_p 1) 1 k ≡ counting k)
report-bounds_example =
    report-bounds 2 1 1 (work_item 1 0) (work_item 1 1) counting counting (omega arith)
      (omega arith) (omega arith) (omega arith) (omega arith) refl (inr (omega arith))

-- The largest word prints as - 1.
negative_printed :
    print_matrix (λ i. if i == 6 then 10 else if i == 12 then 2 ^ 32 - 1 else i)
    ≡ (pos 10 ∷ pos 11 ∷ []) ∷ (negsuc 0 ∷ pos 13 ∷ []) ∷ []
unfolding print_matrix to_int
negative_printed = refl
