-- ===== src/Validation/Regulatory/Readiness.antt =====
-- `EvaluateRegulatoryReadiness` of pkg/validation/regulatory.go. The map of missing fields by profile
-- is kept as the sequence of its appends.
pub mod Exact
use ovl.Base.{
  String, Bool, true, false, ◌&&◌, ◌||◌, ◌++◌, not, List, [], ◌∷◌, any, keep, map, if◌then◌else◌,
}
use ovl.Schema.{Field}
use ovl.Validation.Report.{Report, is_empty}
use ovl.Validation.Policy.{FieldPolicy, FieldEvents, state_for_event, is_hidden}
use ovl.Validation.Regulatory.{
  RegulatoryProfile, profile_eq, RelevanceRequirement, requirement_none, requirement_needed,
  requirement_informational, Requirement, profile_relevance,
}

pub record ProfileReadiness : Type 0 where
  pub profile : RegulatoryProfile
  pub missing_fields : List String

abbrev no_fields : List String → Bool
no_fields [] = true
no_fields (x ∷ xs) = false

-- `Ready`
unfoldable pub ready : ProfileReadiness → Bool
ready p = no_fields p.missing_fields

pub record Missing : Type 0 where
  pub profile : RegulatoryProfile
  pub field : String

-- `seenByProfile` and `missingByProfile`.
pub record Progress : Type 0 where
  pub seen : List RegulatoryProfile
  pub missing : List Missing

abbrev pub is_none : RelevanceRequirement → Bool
is_none requirement_none = true
is_none requirement_needed = false
is_none requirement_informational = false

abbrev pub is_needed : RelevanceRequirement → Bool
is_needed requirement_needed = true
is_needed requirement_none = false
is_needed requirement_informational = false

abbrev pub has_profile : List RegulatoryProfile → RegulatoryProfile → Bool
has_profile ps p = any (λ q. profile_eq q p) ps

-- The body of the inner loop, on one profile that the field is relevant to.
abbrev pub note_one : List RegulatoryProfile → Bool → String → Requirement → Progress → Progress
note_one enabled empty name r acc =
    if is_none r.level || not (has_profile enabled r.profile) then acc else record {
      seen = r.profile ∷ acc.seen;
      missing =
          if is_needed r.level && empty
          then acc.missing ++ (record { profile = r.profile; field = name } ∷ [])
          else acc.missing;
    }

-- The inner loop.
note : List RegulatoryProfile → Bool → String → List Requirement → Progress → Progress
note enabled empty name [] acc = acc
note enabled empty name (r ∷ rs) acc =
    note enabled empty name rs (note_one enabled empty name r acc)

module _ {F : Type 0} where
  -- The outer loop, over the fields of the schema.
  survey :
      Report F
      → List RegulatoryProfile
      → FieldPolicy
      → FieldEvents
      → List Field
      → Progress
      → Progress
  survey r enabled policy events [] acc = acc
  survey r enabled policy events (f ∷ fs) acc = survey r enabled policy events fs (
      if is_hidden
        (state_for_event policy f.name f.schema_mandatory f.relevance events r.event_type)
      then acc
      else note enabled (is_empty r f.name) f.name (profile_relevance f.relevance) acc)

-- `missingByProfile[p]`
abbrev pub missing_of : RegulatoryProfile → List Missing → List String
missing_of p [] = []
missing_of p (m ∷ ms) =
    let rest = missing_of p ms in if profile_eq m.profile p then m.field ∷ rest else rest

report_profiles : Progress → List RegulatoryProfile → List ProfileReadiness
report_profiles acc [] = []
report_profiles acc (p ∷ ps) =
    let rest = report_profiles acc ps in
    if has_profile acc.seen p
    then record { profile = p; missing_fields = missing_of p acc.missing } ∷ rest
    else rest

module _ {F : Type 0} where
  -- `EvaluateRegulatoryReadiness`
  unfoldable pub evaluate_regulatory_readiness :
      Report F
      → List Field
      → List RegulatoryProfile
      → FieldPolicy
      → FieldEvents
      → List ProfileReadiness
  unfolding survey note report_profiles
  evaluate_regulatory_readiness r fields enabled policy events =
      report_profiles (survey r enabled policy events fields (record { seen = []; missing = [] }))
        enabled
