-- ===== src/Validation/FieldRules.antt =====
-- pkg/validation/fieldrules.go: the findings of one report against its schema and the field policy.
pub mod Mandatory
use ovl.Base.Text.{byte_len}
use ovl.Base.{
  ℕ, String, Bool, true, false, Option, none, some, List, [], ◌∷◌, ◌++◌, ltb, if◌then◌else◌,
}
use ovl.Base.Floats.{Floats}
use ovl.Schema
use ovl.Schema.{FieldType, Field, Schema}
use ovl.Validation.Finding.{Severity, error, warning, Finding, Findings}
use ovl.Validation.Report.{Value, num, text, bool, get_field, Report, is_empty}
use ovl.Validation.Policy.{
  FieldPolicyState, hidden, company_mandatory, schema_mandatory, recommended, FieldPolicy,
  FieldEvents, state_for_event,
}
use ovl.Validation.TimeParse.{Layout, date_layout, time_layout, date_time_layout, parse}

abbrev pub rule_field_required : String
rule_field_required = "field.required"

abbrev pub rule_field_type : String
rule_field_type = "field.type"

abbrev pub rule_field_max_length : String
rule_field_max_length = "field.maxLength"

abbrev pub rule_field_format : String
rule_field_format = "field.format"

abbrev pub finding_of : String → Severity → String → Finding
finding_of rule sev name = record { rule_id = rule; severity = sev; field = name }

abbrev too_long : Option ℕ → ℕ → Bool
too_long none n = false
too_long (some max) n = ltb max n

abbrev parsed : Option ℕ → String → Findings
parsed (some t) name = []
parsed none name = finding_of rule_field_format error name ∷ []

-- The `switch` on the state of a field that is empty.
unfoldable pub missing_finding : FieldPolicyState → String → Findings
missing_finding schema_mandatory name = finding_of rule_field_required error name ∷ []
missing_finding company_mandatory name = finding_of rule_field_required error name ∷ []
missing_finding recommended name = finding_of rule_field_required warning name ∷ []
missing_finding _ name = []

module _ {F : Type 0} ⦃fl : Floats F⦄ where
  check_text : Field → Option (Value F) → Findings
  check_text f (some (text s)) =
      if too_long f.max_length (byte_len s)
      then finding_of rule_field_max_length error f.name ∷ []
      else []
  check_text f _ = finding_of rule_field_type error f.name ∷ []

  check_whole : Field → Option (Value F) → Findings
  check_whole f (some (num n)) =
      if fl.eq n (fl.trunc n) then [] else finding_of rule_field_format error f.name ∷ []
  check_whole f _ = finding_of rule_field_type error f.name ∷ []

  check_decimal : Field → Option (Value F) → Findings
  check_decimal f (some (num n)) = []
  check_decimal f _ = finding_of rule_field_type error f.name ∷ []

  check_boolean : Field → Option (Value F) → Findings
  check_boolean f (some (bool b)) = []
  check_boolean f _ = finding_of rule_field_type error f.name ∷ []

  check_time : Layout → Field → Option (Value F) → Findings
  check_time layout f (some (text s)) = parsed (parse layout s) f.name
  check_time layout f _ = finding_of rule_field_type error f.name ∷ []

  check_value : FieldType → Field → Option (Value F) → Findings
  check_value FieldType.text f v = check_text f v
  check_value FieldType.enum f v = check_text f v
  check_value FieldType.whole_number f v = check_whole f v
  check_value FieldType.decimal f v = check_decimal f v
  check_value FieldType.boolean f v = check_boolean f v
  check_value FieldType.date f v = check_time date_layout f v
  check_value FieldType.time f v = check_time time_layout f v
  check_value FieldType.date_time f v = check_time date_time_layout f v
  check_value (FieldType.unknown t) f v = []

  -- `checkFieldFormat`
  unfoldable pub check_field_format : Report F → Field → Findings
  unfolding check_text check_whole check_decimal check_boolean check_time check_value
  check_field_format r f = check_value f.type f (get_field r.fields f.name)

  -- The body of the loop, on the state that the policy gives the field.
  unfoldable pub field_findings : Report F → Field → FieldPolicyState → Findings
  field_findings r f hidden = []
  field_findings r f state =
      if is_empty r f.name then missing_finding state f.name else check_field_format r f

  unfoldable pub evaluate_fields : Report F → List Field → FieldPolicy → FieldEvents → Findings
  unfolding field_findings missing_finding
  evaluate_fields r [] policy events = []
  evaluate_fields r (f ∷ fs) policy events =
      field_findings r f
        (state_for_event policy f.name f.schema_mandatory f.relevance events r.event_type)
      ++ evaluate_fields r fs policy events

  -- `EvaluateFieldRules`
  unfoldable pub evaluate_field_rules : Report F → Schema → FieldPolicy → FieldEvents → Findings
  unfolding evaluate_fields
  evaluate_field_rules r s policy events = evaluate_fields r s.fields policy events
