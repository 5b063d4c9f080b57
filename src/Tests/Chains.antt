-- ===== src/Tests/Chains.antt =====
-- Chains of reports.
use ovl.Base.{ℕ, some, List, [], ◌∷◌, ◌≡◌, refl, arith}
use ovl.Base.Floats.{whole_floats}
use ovl.Validation.Finding.{has_errors}
use ovl.Validation.Report.{Report as ValidationReport}
use ovl.Validation.Cascade.{DistinctTimes, revalidate, is_invalidated}
use ovl.Validation.Cascade.Agreement.{revalidate-evaluate_continuity}
use ovl.Validation.Cascade.Order.{revalidate-perm}
use mathlib.Core.List.{Permᴰ}
use ovl.Validation.Precheck.{merge, evaluate_continuity}
use ovl.Domain.Report.{Report}
use ovl.Domain.State.{State}
use ovl.Vessel.Cascade.{run_cascade}
use ovl.Vessel.Cascade.Settled.{run_cascade_settles}
use ovl.Tests.{arrival, config, report, filled_in, stable_slice}

abbrev chain : List (ValidationReport ℕ)
chain = arrival "a" 5 ∷ arrival "b" 7 ∷ []

merged_times : DistinctTimes (merge (arrival "c" 6) chain)
unfolding merge
merged_times = ((ground arith, (ground arith, tt)), ((ground arith, tt), (tt, tt)))

revalidate-evaluate_continuity_example :
    is_invalidated
      (revalidate ⦃fl = whole_floats⦄ stable_slice (merge (arrival "c" 6) chain) (some config))
      "c"
    ≡ has_errors (evaluate_continuity ⦃fl = whole_floats⦄ (arrival "c" 6) chain (some config))
revalidate-evaluate_continuity_example =
    revalidate-evaluate_continuity ⦃fl = whole_floats⦄ stable_slice (arrival "c" 6) chain
      (some config) merged_times

-- Another report at the time of the first.
abbrev same_time : Report ℕ
same_time = record (report State.submitted filled_in) { report_id = "s" }

run_cascade_settles_example :
    run_cascade ⦃fl = whole_floats⦄ stable_slice config 900
      (run_cascade ⦃fl = whole_floats⦄ stable_slice config 800
        (report State.submitted filled_in ∷ same_time ∷ [])).0
    ≡ (
      (run_cascade ⦃fl = whole_floats⦄ stable_slice config 800
          (report State.submitted filled_in ∷ same_time ∷ [])).0,
      [],
    )
run_cascade_settles_example =
    run_cascade_settles ⦃fl = whole_floats⦄ stable_slice config 800 900
      (report State.submitted filled_in ∷ same_time ∷ [])

times : DistinctTimes chain
times = ((ground arith, tt), (tt, tt))

revalidate-perm_example :
    revalidate ⦃fl = whole_floats⦄ stable_slice chain (some config)
    ≡ revalidate ⦃fl = whole_floats⦄ stable_slice (arrival "b" 7 ∷ arrival "a" 5 ∷ []) (some config)
revalidate-perm_example =
    revalidate-perm ⦃fl = whole_floats⦄ stable_slice stable_slice (some config) chain
      (arrival "b" 7 ∷ arrival "a" 5 ∷ []) ∣ Permᴰ.swap refl refl ∣₁ times
