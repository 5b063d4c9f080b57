-- ===== src/Vessel/Cascade.antt =====
-- `runCascade` of vessel/httpapi/reports.go over the latest versions of one schema's reports, with the
-- audit events that it appends. The queueing for the office is in `cascade_report` of the handlers.
pub mod Settled
use ovl.Base.{
  ℕ, String, Bool, true, false, not, ◌&&◌, ◌||◌, Option, none, some, List, [], ◌∷◌, ◌++◌, keep, map,
  if◌then◌else◌,
}
use ovl.Base.Floats.{Floats}
use ovl.Validation.Report.{Report as ValidationReport}
use ovl.Validation.Config.{Config}
use ovl.Validation.Cascade.{CascadeResult, rules_at, SortSlice, revalidate}
use ovl.Domain.State.{in_chain}
use ovl.Domain.Event.{Event}
use ovl.Domain.Report.{Report, to_validation}
use ovl.Domain.Lifecycle.{invalidate}
use ovl.Vessel.Handlers.{already_recorded}

module _ {F : Type 0} where
  -- The body of the loop, for a committed report and the rules recorded for it.
  unfoldable pub flag_report : ℕ → Report F → List String → Report F × List (Event F)
  flag_report at r [] = (r, [])
  flag_report at r (rule ∷ rules) =
      if already_recorded r (rule ∷ rules)
      then (r, [])
      else ((invalidate r (rule ∷ rules) at).0, (invalidate r (rule ∷ rules) at).1 ∷ [])

  unfoldable pub visit : ℕ → CascadeResult → Report F → Report F × List (Event F)
  unfolding flag_report
  visit at result r =
      if in_chain r.state
      then flag_report at r (rules_at r.report_id result.invalidated)
      else (r, [])

  unfoldable pub visit_all : ℕ → CascadeResult → List (Report F) → List (Report F) × List (Event F)
  visit_all at result [] = ([], [])
  visit_all at result (r ∷ rs) =
      let (r', es) = visit at result r in
      let (rs', es') = visit_all at result rs in (r' ∷ rs', es ++ es')

  -- `ListCommittedChain`, as the rules read it, on one version of each report: the source takes the
  -- highest committed one.
  unfoldable pub committed_chain : List (Report F) → List (ValidationReport F)
  committed_chain [] = []
  committed_chain (r ∷ rs) =
      let rest = committed_chain rs in if in_chain r.state then to_validation r ∷ rest else rest

module _ {F : Type 0} ⦃fl : Floats F⦄ where
  -- `runCascade`
  unfoldable pub run_cascade :
      SortSlice F → Config F → ℕ → List (Report F) → List (Report F) × List (Event F)
  run_cascade slice cfg at reports =
      visit_all at (revalidate slice (committed_chain reports) (some cfg)) reports
