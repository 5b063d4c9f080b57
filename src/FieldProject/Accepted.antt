-- ===== src/FieldProject/Accepted.antt =====
-- Which fields of a report can be projected.
use ovl.Base.{
  Bool, true, false, not, ◌&&◌, ◌||◌, Option, none, some, List, [], ◌∷◌, any, any-append, str_eq,
  ap₂, ◌∙◌, refl, ◌≡◌, arith, Bool-cases, inl, inr,
}
use ovl.Base.Floats.{Floats}
use ovl.Schema.{Field, FieldType, Schema}
use ovl.Validation.Finding.{Finding}
use ovl.Validation.Report.{Value, Report, get_field, is_empty}
use ovl.Validation.Policy.{FieldPolicyState, FieldPolicy, FieldEvents, is_hidden}
use ovl.Validation.FieldRules.{
  rule_field_type, check_field_format, field_findings, missing_finding, evaluate_fields,
  evaluate_field_rules,
}
use ovl.Validation.FieldRules.Mandatory.{state_on}
use ovl.FieldProject.{project}

abbrev pub is_error : {A : Type 0} → Option A → Bool
is_error none = true
is_error (some a) = false

abbrev pub is_known : FieldType → Bool
is_known (FieldType.unknown t) = false
is_known _ = true

abbrev pub is_null : {F : Type 0} → Value F → Bool
is_null Value.null = true
is_null _ = false

abbrev pub type_error : Finding → Bool
type_error f = str_eq f.rule_id rule_field_type

module _ {F : Type 0} ⦃fl : Floats F⦄ where
  -- The field has a value that does not project.
  abbrev pub fails : Field → Option (Value F) → Bool
  fails f none = false
  fails f (some v) = is_error (project f v)

  -- The field, in that state, is shown and filled in, its type is known, and it does not project.
  abbrev pub unprojectable : Report F → Field → FieldPolicyState → Bool
  unprojectable r f state =
      not (is_hidden state)
      && (not (is_empty r f.name) && (is_known f.type && fails f (get_field r.fields f.name)))

  check_field_format-fails :
      (r : Report F) (f : Field)
      → is_empty r f.name ≡ false
      → any type_error (check_field_format r f)
        ≡ (is_known f.type && fails f (get_field r.fields f.name))
  unfolding project check_field_format is_empty
  check_field_format-fails r f e = ground (arith, e)

  field_findings-unprojectable :
      (r : Report F) (f : Field) (state : FieldPolicyState)
      → any type_error (field_findings r f state) ≡ unprojectable r f state
  unfolding field_findings missing_finding
  field_findings-unprojectable r f FieldPolicyState.hidden = refl
  field_findings-unprojectable r f state = elim (Bool-cases (is_empty r f.name)) [
    | inl e ↦ rw e (ground arith)
    | inr e ↦ rw e (ground (arith, check_field_format-fails r f e))
  ]

  evaluate_fields-unprojectable :
      (r : Report F) (fs : List Field) (policy : FieldPolicy) (events : FieldEvents)
      → any type_error (evaluate_fields r fs policy events)
        ≡ any (λ f. unprojectable r f (state_on r policy events f)) fs
  unfolding evaluate_fields
  evaluate_fields-unprojectable r [] policy events = refl
  evaluate_fields-unprojectable r (f ∷ fs) policy events =
      any-append type_error (field_findings r f (state_on r policy events f))
        (evaluate_fields r fs policy events)
      ∙ ap₂ ◌||◌ (field_findings-unprojectable r f (state_on r policy events f))
          (evaluate_fields-unprojectable r fs policy events)

  -- The field rules report a wrong type in a report exactly where some field of the schema that is not
  -- hidden on the report's event, not empty and of a known type has a value that does not project.
  pub evaluate_field_rules-project :
      (r : Report F) (s : Schema) (policy : FieldPolicy) (events : FieldEvents)
      → any type_error (evaluate_field_rules r s policy events)
        ≡ any (λ f. unprojectable r f (state_on r policy events f)) s.fields
  unfolding evaluate_field_rules
  evaluate_field_rules-project r s policy events =
      evaluate_fields-unprojectable r s.fields policy events
