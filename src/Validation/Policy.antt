-- ===== src/Validation/Policy.antt =====
-- pkg/validation/policy.go: the state that a company's policy gives a field, and on which events.
use ovl.Base.{
  String, Bool, true, false, ◌||◌, Option, none, some, List, [], ◌∷◌, any, str_eq, if◌then◌else◌,
}
use ovl.Base.Dict.{Dict, lookup}
use ovl.Validation.Regulatory.{ghg_relevant}

pub data FieldPolicyState : Type 0 where
  hidden optional recommended company_mandatory schema_mandatory : FieldPolicyState
  unknown : String → FieldPolicyState

abbrev pub FieldPolicy : Type 0
FieldPolicy = Dict FieldPolicyState

abbrev pub FieldEvents : Type 0
FieldEvents = Dict (List String)

abbrev listed_or_default : Option FieldPolicyState → Bool → FieldPolicyState
listed_or_default (some s) relevant = s
listed_or_default none relevant = if relevant then recommended else optional

-- `StateFor`
unfoldable pub state_for : FieldPolicy → String → Bool → String → FieldPolicyState
state_for p name mandatory relevance =
    if mandatory
    then schema_mandatory
    else listed_or_default (lookup name p) (ghg_relevant relevance)

abbrev pub all_events : String
all_events = "*"

abbrev covers : Option (List String) → String → Bool
covers none event_type = true
covers (some []) event_type = true
covers (some (e ∷ es)) event_type =
    any (λ ev. str_eq ev all_events || str_eq ev event_type) (e ∷ es)

-- `AppliesTo`: an empty event type skips the gate.
unfoldable pub applies_to : FieldEvents → String → String → Bool
applies_to events name event_type =
    if str_eq event_type "" then true else covers (lookup name events) event_type

-- `StateForEvent`
unfoldable pub state_for_event :
    FieldPolicy → String → Bool → String → FieldEvents → String → FieldPolicyState
unfolding state_for applies_to
state_for_event p name mandatory relevance events event_type =
    if mandatory
    then schema_mandatory
    else if applies_to events name event_type
    then state_for p name mandatory relevance
    else hidden

abbrev pub is_hidden : FieldPolicyState → Bool
is_hidden hidden = true
is_hidden _ = false
