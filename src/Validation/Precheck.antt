-- ===== src/Validation/Precheck.antt =====
-- pkg/validation/precheck.go: the continuity findings of one report against the committed chain.
use ovl.Base.{not, Option, none, some, List, [], ◌∷◌, ◌++◌, keep, str_eq, if◌then◌else◌}
use ovl.Base.Floats.{Floats}
use ovl.Validation.Finding.{Findings}
use ovl.Validation.Report.{Report}
use ovl.Validation.Config.{Config}
use ovl.Validation.Continuity.{
  findings_at, evaluate_time_chain, evaluate_rob_continuity, evaluate_event_ordering,
  evaluate_timestamp_uniqueness,
}
use ovl.Validation.Cascade.{sort_stable, or_default}

module _ {F : Type 0} where
  -- `merged` before it is sorted: `r` in place of its own earlier version.
  unfoldable pub merge : Report F → List (Report F) → List (Report F)
  merge r chain = keep (λ other. not (str_eq other.report_id r.report_id)) chain ++ r ∷ []

module _ {F : Type 0} ⦃fl : Floats F⦄ where
  -- The loop that finds `r` and its predecessor.
  unfoldable pub neighbour_findings :
      Report F → Config F → Option (Report F) → List (Report F) → Findings
  neighbour_findings r cfg prev [] = []
  neighbour_findings r cfg prev (x ∷ xs) =
      let rest = neighbour_findings r cfg (some x) xs in
      if str_eq x.report_id r.report_id
      then evaluate_time_chain r prev cfg ++ evaluate_rob_continuity r prev cfg
      else rest

  unfoldable pub continuity_of : Report F → Config F → List (Report F) → Findings
  continuity_of r cfg merged =
      neighbour_findings r cfg none merged
      ++ (findings_at r.report_id (evaluate_event_ordering merged cfg)
          ++ findings_at r.report_id (evaluate_timestamp_uniqueness merged cfg))

  -- `EvaluateContinuity`
  unfoldable pub evaluate_continuity : Report F → List (Report F) → Option (Config F) → Findings
  unfolding continuity_of merge sort_stable
  evaluate_continuity r chain cfg = continuity_of r (or_default cfg) (sort_stable (merge r chain))
