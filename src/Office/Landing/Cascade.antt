-- ===== src/Office/Landing/Cascade.antt =====
-- office/syncservice/cascade.go: the cascade after a report version has landed. A result of `none`
-- is an error.
use ovl.Base.{
  ℕ, String, Bool, true, false, ◌&&◌, Option, none, some, List, [], ◌∷◌, keep, map, str_eq,
  if◌then◌else◌,
}
use ovl.Base.Dict.{lookup}
use ovl.Base.Floats.{Floats}
use ovl.Base.Faults.{Budget, spend}
use ovl.Validation.Config.{Config, default_config, log_abstract_config}
use ovl.Validation.Cascade.{CascadeResult, SortSlice, rules_at, revalidate}
use ovl.Domain.State.{in_chain, is_invalidated_state}
use ovl.Domain.Report.{Report, to_validation}
use ovl.Domain.Message.{InvalidationNotice}
use ovl.Domain.Lifecycle.{invalidate}
use ovl.Office.Severities.{effective_severities}
use ovl.Office.Landing.{
  OfficeDb, office_side, list_chain, update_report_version_state, append_report_audit_event,
  insert_invalidation_notice, get_latest_invalidation_notice,
}

-- `stringsEqual`
unfoldable pub strings_equal : List String → List String → Bool
strings_equal [] [] = true
strings_equal (a ∷ xs) (b ∷ ys) = str_eq a b && strings_equal xs ys
strings_equal _ _ = false

same_rules : List String → Option InvalidationNotice → Bool
same_rules rules none = false
same_rules rules (some n) = strings_equal n.broken_rules rules

module _ {F : Type 0} where
  -- The three writes of a newly broken report, each with an early return.
  unfoldable pub persist_invalidation :
      String → ℕ → Report F → List String → OfficeDb F → Budget → OfficeDb F × Option Budget
  persist_invalidation vessel_id now r rules db budget =
      let result = invalidate r rules now in
      let db1 = update_report_version_state db vessel_id r.report_id r.version_no result.0.state in
      let db2 = append_report_audit_event db1 vessel_id result.1 now office_side in
      let db3 = insert_invalidation_notice db2 vessel_id r.report_id r.version_no rules now in
      elim (spend budget) [
        | none ↦ (db, none)
        | some b1 ↦ elim (spend b1) [
          | none ↦ (db1, none)
          | some b2 ↦ elim (spend b2) [ none ↦ (db2, none) | some b3 ↦ (db3, some b3) ]
        ]
      ]

  -- The body of the loop, for a report and the rules recorded for it.
  unfoldable pub flag_report :
      String → ℕ → Report F → List String → OfficeDb F → Budget → OfficeDb F × Option Budget
  unfolding persist_invalidation same_rules
  flag_report vessel_id now r [] db budget = (db, some budget)
  flag_report vessel_id now r (rule ∷ rules) db budget =
      let previous = get_latest_invalidation_notice db vessel_id r.report_id r.version_no in
      if is_invalidated_state r.state
      then elim (spend budget) [
        | none ↦ (db, none)
        | some b ↦
            if same_rules (rule ∷ rules) previous
            then (db, some b)
            else persist_invalidation vessel_id now r (rule ∷ rules) db b
      ]
      else persist_invalidation vessel_id now r (rule ∷ rules) db budget

  unfoldable pub flag_reports :
      String
      → ℕ
      → CascadeResult
      → List (Report F)
      → OfficeDb F
      → Budget
      → OfficeDb F × Option Budget
  flag_reports vessel_id now result [] db budget = (db, some budget)
  flag_reports vessel_id now result (r ∷ rs) db budget =
      let step = flag_report vessel_id now r (rules_at r.report_id result.invalidated) db budget in
      elim step.1 [ none ↦ (step.0, none) | some b ↦ flag_reports vessel_id now result rs step.0 b ]

-- The three reads before the loop: the chain, the vessel, the severities.
reads : Budget → Option Budget
reads budget = elim (spend budget) [
  | none ↦ none
  | some b ↦ elim (spend b) [ none ↦ none | some b' ↦ spend b' ]
]

module _ {F : Type 0} ⦃fl : Floats F⦄ where
  -- `ValidationConfigFor`
  unfoldable pub validation_config_for : String → Config F
  validation_config_for schema_name =
      if str_eq schema_name "log-abstract" then log_abstract_config else default_config

  -- `ValidationConfigForVessel`
  unfoldable pub validation_config_for_vessel :
      OfficeDb F → String → String → List String → Config F
  unfolding validation_config_for
  validation_config_for_vessel db schema_name vessel_id groups =
      record (validation_config_for schema_name) {
        severities = effective_severities db.severities vessel_id groups;
      }

  unfoldable pub after_reads :
      SortSlice F
      → String
      → String
      → ℕ
      → OfficeDb F
      → Option (List String)
      → Option Budget
      → OfficeDb F × Option Budget
  after_reads slice vessel_id schema_name now db none budget = (db, none)
  after_reads slice vessel_id schema_name now db (some groups) none = (db, none)
  after_reads slice vessel_id schema_name now db (some groups) (some budget) =
      let chain = keep (λ (r : Report F). in_chain r.state) (list_chain db vessel_id schema_name) in
      let cfg = validation_config_for_vessel db schema_name vessel_id groups in
      flag_reports vessel_id now (revalidate slice (map to_validation chain) (some cfg)) chain db
        budget

  -- `runCascade`
  unfoldable pub run_cascade :
      SortSlice F → String → String → ℕ → OfficeDb F → Budget → OfficeDb F × Option Budget
  unfolding after_reads reads
  run_cascade slice vessel_id schema_name now db budget =
      after_reads slice vessel_id schema_name now db (lookup vessel_id db.groups) (reads budget)
