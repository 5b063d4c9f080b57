-- ===== src/Validation/FieldRules/Mandatory.antt =====
-- What a report without errors has filled in, and what hidden fields cannot do.
use ovl.Base.{
  Bool, true, false, List, [], ◌∷◌, ◌++◌, ◌≡◌, refl, ap, ap₂, ◌∙◌, arith, any-append, or_false_inv,
  All,
}
use ovl.Base.Floats.{Floats}
use ovl.Schema.{Field, Schema}
use ovl.Validation.Finding.{has_errors}
use ovl.Validation.Report.{get_field, Report, is_empty}
use ovl.Validation.Policy.{FieldPolicyState, FieldPolicy, FieldEvents, state_for_event, is_hidden}
use ovl.Validation.FieldRules.{
  field_findings, missing_finding, check_field_format, evaluate_fields, evaluate_field_rules,
}

abbrev pub is_mandatory : FieldPolicyState → Bool
is_mandatory FieldPolicyState.schema_mandatory = true
is_mandatory FieldPolicyState.company_mandatory = true
is_mandatory _ = false

module _ {F : Type 0} ⦃fl : Floats F⦄ where
  -- The state that the policy gives a field on this report's event.
  abbrev pub state_on : Report F → FieldPolicy → FieldEvents → Field → FieldPolicyState
  state_on r policy events f =
      state_for_event policy f.name f.schema_mandatory f.relevance events r.event_type

  filled_field :
      (r : Report F) (f : Field) (s : FieldPolicyState)
      → has_errors (field_findings r f s) ≡ false
      → is_mandatory s ≡ true
      → is_empty r f.name ≡ false
  unfolding field_findings missing_finding
  filled_field r f FieldPolicyState.hidden h m = cc
  filled_field r f s h m = ground arith

  filled_fields :
      (r : Report F) (fs : List Field) (policy : FieldPolicy) (events : FieldEvents)
      → has_errors (evaluate_fields r fs policy events) ≡ false
      → All (λ f. is_mandatory (state_on r policy events f) ≡ true → is_empty r f.name ≡ false) fs
  unfolding evaluate_fields
  filled_fields r [] policy events h = tt
  filled_fields r (f ∷ fs) policy events h =
      let parts =
        or_false_inv (has_errors (field_findings r f (state_on r policy events f)))
          (has_errors (evaluate_fields r fs policy events)) (rw (← any-append) h) in
      (
        filled_field r f (state_on r policy events f) parts.0,
        filled_fields r fs policy events parts.1,
      )

  -- Where the field rules find no error, every field that is mandatory on the report's event, by the
  -- schema or by the company's policy, is filled in.
  pub evaluate_field_rules_filled :
      (r : Report F) (s : Schema) (policy : FieldPolicy) (events : FieldEvents)
      → has_errors (evaluate_field_rules r s policy events) ≡ false
      → All
          (λ f. is_mandatory (state_on r policy events f) ≡ true → is_empty r f.name ≡ false)
          s.fields
  unfolding evaluate_field_rules
  evaluate_field_rules_filled r s policy events h = filled_fields r s.fields policy events h

  state_of_mandatory :
      (r : Report F) (policy : FieldPolicy) (events : FieldEvents) (f : Field)
      → f.schema_mandatory ≡ true
      → is_mandatory (state_on r policy events f) ≡ true
  unfolding state_for_event
  state_of_mandatory r policy events f h = rw (h, state_for_event)

  schema_filled :
      (r : Report F) (fs : List Field) (policy : FieldPolicy) (events : FieldEvents)
      → All (λ f. is_mandatory (state_on r policy events f) ≡ true → is_empty r f.name ≡ false) fs
      → All (λ f. f.schema_mandatory ≡ true → is_empty r f.name ≡ false) fs
  schema_filled r [] policy events h = tt
  schema_filled r (f ∷ fs) policy events h =
      (λ m. h.0 (state_of_mandatory r policy events f m), schema_filled r fs policy events h.1)

  -- Whatever the company's policy and its event lists say, a report without errors has every field that
  -- the schema makes mandatory.
  pub schema_mandatory_filled :
      (r : Report F) (s : Schema) (policy : FieldPolicy) (events : FieldEvents)
      → has_errors (evaluate_field_rules r s policy events) ≡ false
      → All (λ f. f.schema_mandatory ≡ true → is_empty r f.name ≡ false) s.fields
  schema_mandatory_filled r s policy events h =
      schema_filled r s.fields policy events (evaluate_field_rules_filled r s policy events h)

  same_findings :
      (r r' : Report F) (f : Field) (s : FieldPolicyState)
      → (is_hidden s ≡ false → get_field r.fields f.name ≡ get_field r'.fields f.name)
      → field_findings r f s ≡ field_findings r' f s
  unfolding field_findings is_empty check_field_format
  same_findings r r' f FieldPolicyState.hidden h = refl
  same_findings r r' f s h = rw (h refl)

  same_fields :
      (r r' : Report F) (fs : List Field) (policy : FieldPolicy) (events : FieldEvents)
      → r.event_type ≡ r'.event_type
      → All
          (λ f.
            is_hidden (state_on r policy events f) ≡ false
            → get_field r.fields f.name ≡ get_field r'.fields f.name)
          fs
      → evaluate_fields r fs policy events ≡ evaluate_fields r' fs policy events
  unfolding evaluate_fields
  same_fields r r' [] policy events e h = refl
  same_fields r r' (f ∷ fs) policy events e h =
      ap₂ ◌++◌
        (same_findings r r' f (state_on r policy events f) h.0
          ∙ ap
              (λ t.
                field_findings r' f
                  (state_for_event policy f.name f.schema_mandatory f.relevance events t))
              e)
        (same_fields r r' fs policy events e h.1)

  -- A hidden field has no effect: two reports of one event type that agree on the fields which are not
  -- hidden have the same findings.
  pub hidden_fields_ignored :
      (r r' : Report F) (s : Schema) (policy : FieldPolicy) (events : FieldEvents)
      → r.event_type ≡ r'.event_type
      → All
          (λ f.
            is_hidden (state_on r policy events f) ≡ false
            → get_field r.fields f.name ≡ get_field r'.fields f.name)
          s.fields
      → evaluate_field_rules r s policy events ≡ evaluate_field_rules r' s policy events
  unfolding evaluate_field_rules
  hidden_fields_ignored r r' s policy events e h = same_fields r r' s.fields policy events e h
