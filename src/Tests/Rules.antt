-- ===== src/Tests/Rules.antt =====
-- The rules on one report.
use ovl.Base.{any, ℕ, true, false, none, some, [], ◌∷◌, ◌≡◌, refl, All}
use ovl.Base.Floats.{whole_floats}
use ovl.Base.Dict.{lookup}
use ovl.Validation.Finding.{Severity, has_errors}
use ovl.Validation.Report.{Report, num, text, is_empty}
use ovl.Base.Text.{trim_space}
use ovl.Validation.Regulatory.{ghg_relevant, mrv, dcs}
use ovl.Validation.Regulatory.Readiness.{evaluate_regulatory_readiness}
use ovl.Validation.Regulatory.Readiness.Exact.{expected, readiness_exact}
use ovl.Validation.Policy.{FieldPolicyState, state_for_event}
use ovl.Validation.FieldRules.{evaluate_field_rules, check_field_format}
use ovl.Validation.FieldRules.Mandatory.{
  is_mandatory, state_on, evaluate_field_rules_filled, schema_mandatory_filled,
  hidden_fields_ignored,
}
use ovl.Validation.Plausibility.{evaluate_plausibility_rules}
use ovl.Validation.Plausibility.Severities.{
  places, with_severities, both_schemes_block, severities_only,
}
use ovl.FieldProject.Accepted.{type_error, unprojectable, evaluate_field_rules-project}
use ovl.Tests.{schema, config, arrival}

no_errors :
    has_errors (evaluate_field_rules ⦃fl = whole_floats⦄ (arrival "a" 5) schema [] []) ≡ false
unfolding evaluate_field_rules lookup is_empty state_for_event check_field_format ghg_relevant
    trim_space
no_errors = refl

evaluate_field_rules_filled_example :
    All
      (λ f.
        is_mandatory (state_on ⦃fl = whole_floats⦄ (arrival "a" 5) [] [] f) ≡ true
        → is_empty (arrival "a" 5) f.name ≡ false)
      schema.fields
evaluate_field_rules_filled_example =
    evaluate_field_rules_filled ⦃fl = whole_floats⦄ (arrival "a" 5) schema [] [] no_errors

schema_mandatory_filled_example :
    All (λ f. f.schema_mandatory ≡ true → is_empty (arrival "a" 5) f.name ≡ false) schema.fields
schema_mandatory_filled_example =
    schema_mandatory_filled ⦃fl = whole_floats⦄ (arrival "a" 5) schema [] [] no_errors

abbrev remarked : Report ℕ
remarked = record (arrival "a" 5) {
  fields = some (("Distance", num 12) ∷ ("Remarks", text "calm") ∷ []);
}

hidden_fields_ignored_example :
    evaluate_field_rules ⦃fl = whole_floats⦄
      (arrival "a" 5)
      schema
      (("Remarks", FieldPolicyState.hidden) ∷ [])
      []
    ≡ evaluate_field_rules ⦃fl = whole_floats⦄ remarked schema
        (("Remarks", FieldPolicyState.hidden) ∷ [])
        []
unfolding lookup state_for_event
hidden_fields_ignored_example =
    hidden_fields_ignored ⦃fl = whole_floats⦄ (arrival "a" 5) remarked schema
      (("Remarks", FieldPolicyState.hidden) ∷ []) [] refl (λ h. refl, (λ h. cc, tt))

abbrev both_schemes : Report ℕ
both_schemes = record (arrival "a" 5) {
  fields = some (("ME_Consumption_HFO", num 3) ∷ ("BDN_Number", text "B1") ∷ []);
}

both_schemes_block_example :
    has_errors (
      evaluate_plausibility_rules ⦃fl = whole_floats⦄ both_schemes
        (some (
          with_severities config
            (("plausibility.consumptionSchemeExclusivity", Severity.info) ∷ [])))
        none)
    ≡ true
unfolding is_empty lookup
both_schemes_block_example =
    both_schemes_block ⦃fl = whole_floats⦄ both_schemes config
      (("plausibility.consumptionSchemeExclusivity", Severity.info) ∷ []) none refl refl

severities_only_example :
    places (
      evaluate_plausibility_rules ⦃fl = whole_floats⦄ both_schemes
        (some (with_severities config (("plausibility.impliedSpeed", Severity.error) ∷ [])))
        none)
    ≡ places (
        evaluate_plausibility_rules ⦃fl = whole_floats⦄ both_schemes
          (some (with_severities config []))
          none)
severities_only_example =
    severities_only ⦃fl = whole_floats⦄ both_schemes config
      (("plausibility.impliedSpeed", Severity.error) ∷ []) [] none

readiness_exact_example :
    evaluate_regulatory_readiness both_schemes schema.fields (mrv ∷ dcs ∷ []) [] []
    ≡ expected both_schemes schema.fields [] [] (mrv ∷ dcs ∷ [])
readiness_exact_example = readiness_exact both_schemes schema.fields (mrv ∷ dcs ∷ []) [] []

evaluate_field_rules-project_example :
    any type_error (evaluate_field_rules ⦃fl = whole_floats⦄ (arrival "a" 5) schema [] [])
    ≡ any
        (λ f.
          unprojectable ⦃fl = whole_floats⦄
            (arrival "a" 5)
            f
            (state_on ⦃fl = whole_floats⦄ (arrival "a" 5) [] [] f))
        schema.fields
evaluate_field_rules-project_example =
    evaluate_field_rules-project ⦃fl = whole_floats⦄ (arrival "a" 5) schema [] []
