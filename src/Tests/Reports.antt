-- ===== src/Tests/Reports.antt =====
-- One report and its handlers.
use ovl.Base.{ℕ, String, true, false, not, ◌&&◌, none, some, List, [], ◌∷◌, ◌≡◌, refl, any}
use ovl.Base.Floats.{whole_floats}
use ovl.Base.Dict.{lookup}
use ovl.Validation.Report.{Value, num, is_empty, float, string}
use ovl.Validation.Policy.{state_for_event}
use ovl.Validation.FieldRules.{evaluate_field_rules}
use ovl.Domain.State.{State, in_chain}
use ovl.Domain.Report.{save_section}
use ovl.Domain.Report.Save.{is_none, is_null, save_section_panics}
use ovl.Domain.Lifecycle.{mark_ready, submit}
use ovl.Vessel.Handlers.{
  Desk, handle_check_report, handle_submit_report, evaluate_report, log_option,
  apply_invalidation_notice,
}
use ovl.Vessel.Handlers.Actions.{Action, save, check, press_submit, remark, cascade, act, run}
use ovl.Vessel.Handlers.Committed.{vet_all, PassedBy, committed_fields_checked}
use ovl.Vessel.Handlers.Frozen.{Frozen, committed-Frozen, notice_locks_draft}
use ovl.Vessel.Handlers.Diagram.{Legal, act-Legal}
use ovl.Validation.FieldRules.{check_field_format}
use ovl.Validation.Regulatory.{ghg_relevant}
use ovl.Base.Text.{trim_space}
use ovl.Validation.Plausibility.{
  evaluate_plausibility_rules, evaluate_time_bucket_sum, evaluate_implied_speed,
  evaluate_no_distance_stationary, evaluate_consumption_scheme_exclusivity,
  evaluate_position_required, position_missing,
}
use ovl.Validation.Precheck.{evaluate_continuity, merge, neighbour_findings}
use ovl.Validation.Cascade.{sort_stable}
use ovl.Validation.Continuity.{
  evaluate_time_chain, evaluate_rob_continuity, evaluate_event_ordering,
  evaluate_timestamp_uniqueness, by_minute,
}
use ovl.Domain.Lifecycle.{count_findings}
use ovl.Domain.Report.{to_validation}
use ovl.Tests.{report, desk, context, filled_in}

-- A health check and a submit.
abbrev check_and_submit : List (Action ℕ)
check_and_submit = check 200 context ∷ press_submit 300 true "master" ∷ []

committed :
    in_chain (run ⦃fl = whole_floats⦄ check_and_submit (desk State.draft)).report.state ≡ true
unfolding run act handle_check_report handle_submit_report in_chain mark_ready submit
    evaluate_report evaluate_field_rules lookup is_empty state_for_event log_option
    check_field_format ghg_relevant trim_space evaluate_plausibility_rules evaluate_time_bucket_sum
    evaluate_implied_speed evaluate_no_distance_stationary evaluate_consumption_scheme_exclusivity
    evaluate_position_required position_missing evaluate_continuity merge sort_stable
    evaluate_time_chain evaluate_rob_continuity evaluate_event_ordering
    evaluate_timestamp_uniqueness count_findings to_validation float string neighbour_findings
    by_minute
committed = refl

committed_fields_checked_example :
    PassedBy ⦃fl = whole_floats⦄
      (vet_all ⦃fl = whole_floats⦄ check_and_submit (desk State.draft) none)
      (run ⦃fl = whole_floats⦄ check_and_submit (desk State.draft)).report.fields
committed_fields_checked_example =
    committed_fields_checked ⦃fl = whole_floats⦄ (desk State.draft) check_and_submit refl
      (tt, (tt, tt)) committed

-- A save, a remark and a cascade.
abbrev later_actions : List (Action ℕ)
later_actions =
    save 400 false "voyage" (("Distance", num 99) ∷ []) "mate"
    ∷ remark ("Distance" ∷ []) "office" 500
    ∷ cascade ("continuity.timeChain" ∷ []) 600
    ∷ []

committed-Frozen_example :
    Frozen ⦃fl = whole_floats⦄
      (desk State.submitted).report
      (run ⦃fl = whole_floats⦄ later_actions (desk State.submitted)).report
unfolding in_chain
committed-Frozen_example =
    committed-Frozen ⦃fl = whole_floats⦄ later_actions (desk State.submitted) refl refl

notice_locks_draft_example :
    Frozen ⦃fl = whole_floats⦄
      (desk State.draft).report
      (run ⦃fl = whole_floats⦄ later_actions (
        apply_invalidation_notice ⦃fl = whole_floats⦄
          (desk State.draft)
          ("continuity.timeChain" ∷ [])
          350)).report
notice_locks_draft_example =
    notice_locks_draft ⦃fl = whole_floats⦄ (desk State.draft) ("continuity.timeChain" ∷ []) 350
      later_actions refl refl

act-Legal_example :
    Legal
      (press_submit 300 true "master")
      (desk State.ready).report
      (act ⦃fl = whole_floats⦄ (press_submit 300 true "master") (desk State.ready)).report
act-Legal_example =
    act-Legal ⦃fl = whole_floats⦄ (press_submit 300 true "master") (desk State.ready)

abbrev invalidated_desk : Desk ℕ
invalidated_desk = record (desk State.draft) {
  report = record (report State.invalidated filled_in) {
    invalidated_from = some State.synced;
    invalidated_rules = "continuity.timeChain" ∷ [];
  };
}

save_section_panics_example :
    is_none (
      save_section ⦃fl = whole_floats⦄
        (report State.draft none)
        400
        "voyage"
        (("Distance", num 12) ∷ [])
        "mate")
    ≡ (is_none (report State.draft none).fields
        && any {A = String × Value ℕ} (λ c. not (is_null c.1)) (("Distance", num 12) ∷ []))
save_section_panics_example =
    save_section_panics ⦃fl = whole_floats⦄ (report State.draft none) 400 "voyage"
      (("Distance", num 12) ∷ []) "mate"
