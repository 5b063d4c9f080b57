-- ===== src/Office/FieldPolicy.antt =====
-- office/fieldpolicy/policy.go: the policies and prefill classes that the company gives the fields of a
-- schema, and what they come to on one vessel. A Go map that is only ranged over is the list of its
-- keys.
pub mod Strictest
pub mod Precedence
pub mod Whole
use ovl.Base.{
  ℕ, suc, String, Bool, true, false, not, ◌&&◌, ◌||◌, Option, none, some, List, [], ◌∷◌, ◌++◌, ltb,
  any, str_eq, contains, if◌then◌else◌,
}
use ovl.Base.Dict.{Dict, lookup, put, delete, keys}
use ovl.Validation.Policy.{FieldPolicyState, FieldPolicy, FieldEvents, all_events}
use ovl.Office.Scope.{ScopeType, Scope, ScopeError, validate, covers_vessel}

-- `unknown` is any other text.
pub data PrefillClass : Type 0 where
  no_prefill carry_forward computed ghost : PrefillClass
  unknown : String → PrefillClass

pub record SchemaFieldPolicy : Type 0 where
  pub scope : Scope
  pub schema_name : String
  pub schema_version : String
  pub policy : FieldPolicy
  pub events : FieldEvents
  pub prefill : Dict PrefillClass

-- `newUnchecked`
unfoldable pub new_unchecked : Scope → String → String → SchemaFieldPolicy
new_unchecked scope schema_name schema_version = record {
  scope = scope;
  schema_name = schema_name;
  schema_version = schema_version;
  policy = [];
  events = [];
  prefill = [];
}

pub data PolicyError : Type 0 where
  schema_mandatory_immutable unknown_state unknown_event unknown_class : PolicyError
  bad_scope : ScopeError → PolicyError

pub data Result (A : Type 0) : Type 0 where
  ok : A → Result A
  failed : PolicyError → Result A

new_if_valid : Option ScopeError → SchemaFieldPolicy → Result SchemaFieldPolicy
new_if_valid none p = ok p
new_if_valid (some e) p = failed (bad_scope e)

-- `New`
unfoldable pub new : Scope → String → String → Result SchemaFieldPolicy
unfolding new_if_valid
new scope schema_name schema_version =
    new_if_valid (validate scope) (new_unchecked scope schema_name schema_version)

-- `SetPolicy`; the policy after the call, and the error.
unfoldable pub set_policy :
    SchemaFieldPolicy → String → FieldPolicyState → Bool → SchemaFieldPolicy × Option PolicyError
set_policy p name FieldPolicyState.schema_mandatory mandatory = (p, some schema_mandatory_immutable)
set_policy p name (FieldPolicyState.unknown s) mandatory =
    (p, some (if mandatory then schema_mandatory_immutable else unknown_state))
set_policy p name state mandatory =
    if mandatory
    then (p, some schema_mandatory_immutable)
    else (record p { policy = put name state p.policy }, none)

abbrev is_unknown_event : Option (List String) → String → Bool
is_unknown_event none ev = false
is_unknown_event (some valid) ev = not (contains valid ev)

-- The loop of `SetEvents`: what the first event that ends it does.
pub data Scan : Type 0 where
  every_event bad_event no_end : Scan

unfoldable pub scan_events : List String → Option (List String) → Scan
scan_events [] valid = no_end
scan_events (ev ∷ evs) valid =
    let rest = scan_events evs valid in
    if str_eq ev all_events
    then every_event
    else if is_unknown_event valid ev
    then bad_event
    else rest

narrow : SchemaFieldPolicy → String → List String → Scan → SchemaFieldPolicy × Option PolicyError
narrow p name events every_event = (record p { events = delete name p.events }, none)
narrow p name events bad_event = (p, some unknown_event)
narrow p name [] no_end = (record p { events = delete name p.events }, none)
narrow p name (e ∷ es) no_end = (record p { events = put name (e ∷ es) p.events }, none)

-- `SetEvents`; `none` for the valid events is the nil map.
unfoldable pub set_events :
    SchemaFieldPolicy
    → String
    → List String
    → Option (List String)
    → SchemaFieldPolicy × Option PolicyError
unfolding narrow
set_events p name events valid = narrow p name events (scan_events events valid)

-- `SetPrefillClass`
unfoldable pub set_prefill_class :
    SchemaFieldPolicy → String → PrefillClass → SchemaFieldPolicy × Option PolicyError
set_prefill_class p name (PrefillClass.unknown c) = (p, some unknown_class)
set_prefill_class p name no_prefill = (record p { prefill = delete name p.prefill }, none)
set_prefill_class p name class = (record p { prefill = put name class p.prefill }, none)

abbrev class_or_none : Option PrefillClass → PrefillClass
class_or_none none = no_prefill
class_or_none (some c) = c

-- `PrefillFor`
unfoldable pub prefill_for : SchemaFieldPolicy → String → PrefillClass
prefill_for p name = class_or_none (lookup name p.prefill)

abbrev pub is_there : {A : Type 0} → Option A → Bool
is_there none = false
is_there (some a) = true

-- `hasRule` on an assignment, and on a pointer that may be nil.
abbrev pub sets_rule : String → SchemaFieldPolicy → Bool
sets_rule name a = is_there (lookup name a.policy) || is_there (lookup name a.events)

abbrev pub has_rule : Option SchemaFieldPolicy → String → Bool
has_rule none name = false
has_rule (some a) name = sets_rule name a

-- `policyStateRank`, plus one: an events-only rule ranks below every state.
abbrev pub policy_state_rank : FieldPolicyState → ℕ
policy_state_rank FieldPolicyState.hidden = 0
policy_state_rank FieldPolicyState.optional = 1
policy_state_rank FieldPolicyState.recommended = 2
policy_state_rank FieldPolicyState.company_mandatory = 3
policy_state_rank _ = 1

abbrev pub rank_of : Option FieldPolicyState → ℕ
rank_of none = 0
rank_of (some s) = suc (policy_state_rank s)

abbrev stricter_rule :
    String → Option (SchemaFieldPolicy × ℕ) → SchemaFieldPolicy → Option (SchemaFieldPolicy × ℕ)
stricter_rule name none a = some (a, rank_of (lookup name a.policy))
stricter_rule name (some (w, best)) a =
    if ltb best (rank_of (lookup name a.policy))
    then some (a, rank_of (lookup name a.policy))
    else some (w, best)

strictest_loop :
    String
    → List SchemaFieldPolicy
    → Option (SchemaFieldPolicy × ℕ)
    → Option (SchemaFieldPolicy × ℕ)
strictest_loop name [] winner = winner
strictest_loop name (a ∷ as') winner =
    strictest_loop name as' (if sets_rule name a then stricter_rule name winner a else winner)

abbrev without_rank : Option (SchemaFieldPolicy × ℕ) → Option SchemaFieldPolicy
without_rank none = none
without_rank (some (a, rank)) = some a

-- `strictestGroupRule`
unfoldable pub strictest_group_rule : List SchemaFieldPolicy → String → Option SchemaFieldPolicy
unfolding strictest_loop
strictest_group_rule groups name = without_rank (strictest_loop name groups none)

abbrev pub first_of : {A : Type 0} → Option A → Option A → Option A
first_of (some a) b = some a
first_of none b = b

-- `vesselA`, `fleetA` and `groupAs`.
pub record Covering : Type 0 where
  pub own : Option SchemaFieldPolicy
  pub fleet : Option SchemaFieldPolicy
  pub groups : List SchemaFieldPolicy

-- `winningRule`
unfoldable pub winning_rule : Covering → String → Option SchemaFieldPolicy
winning_rule c name =
    if has_rule c.own name
    then c.own
    else first_of (strictest_group_rule c.groups name)
        (if has_rule c.fleet name then c.fleet else none)

abbrev prefill_in : Option SchemaFieldPolicy → String → Option PrefillClass
prefill_in none name = none
prefill_in (some a) name = lookup name a.prefill

-- `firstGroupPrefill`
unfoldable pub first_group_prefill : List SchemaFieldPolicy → String → Option PrefillClass
first_group_prefill [] name = none
first_group_prefill (a ∷ as') name = first_of (lookup name a.prefill) (first_group_prefill as' name)

abbrev pub collect_one : String → List String → Covering → SchemaFieldPolicy → Covering
collect_one vessel_id vessel_groups c a = elim a.scope.type [
  | ScopeType.vessel ↦ if str_eq a.scope.key vessel_id then record c { own = some a } else c
  | ScopeType.fleet ↦ record c { fleet = some a }
  | ScopeType.group ↦
      if covers_vessel a.scope vessel_id vessel_groups
      then record c { groups = c.groups ++ a ∷ [] }
      else c
  | ScopeType.unknown t ↦ c
]

-- The first loop of `EffectiveFieldPolicy`.
unfoldable pub collect :
    String → List String → String → String → List SchemaFieldPolicy → Covering → Covering
collect vessel_id vessel_groups schema_name schema_version [] c = c
collect vessel_id vessel_groups schema_name schema_version (a ∷ as') c =
    collect vessel_id vessel_groups schema_name schema_version as' (
      if str_eq a.schema_name schema_name && str_eq a.schema_version schema_version
      then collect_one vessel_id vessel_groups c a
      else c)

abbrev one_or_none : {A : Type 0} → Option A → List A
one_or_none none = []
one_or_none (some a) = a ∷ []

-- `allOf`
unfoldable pub all_of : Covering → List SchemaFieldPolicy
all_of c = one_or_none c.own ++ (one_or_none c.fleet ++ c.groups)

-- The keys of a set, extended by further keys.
add_names : List String → List String → List String
add_names names [] = names
add_names names (k ∷ ks) = add_names (if contains names k then names else names ++ k ∷ []) ks

-- `fieldNames` and `prefillNames`, from what is there before.
unfoldable pub field_names : List String → List SchemaFieldPolicy → List String
unfolding add_names
field_names names [] = names
field_names names (a ∷ as') =
    field_names (add_names (add_names names (keys a.policy)) (keys a.events)) as'

unfoldable pub prefill_names : List String → List SchemaFieldPolicy → List String
unfolding add_names
prefill_names names [] = names
prefill_names names (a ∷ as') = prefill_names (add_names names (keys a.prefill)) as'

abbrev pub put_some : {A : Type 0} → String → Option A → Dict A → Dict A
put_some k none d = d
put_some k (some v) d = put k v d

-- `takeRule`
unfoldable pub take_rule : SchemaFieldPolicy → Option SchemaFieldPolicy → String → SchemaFieldPolicy
take_rule p none name = p
take_rule p (some from) name = record p {
  policy = put_some name (lookup name from.policy) p.policy;
  events = put_some name (lookup name from.events) p.events;
}

take_rules : Covering → List String → SchemaFieldPolicy → SchemaFieldPolicy
take_rules c [] p = p
take_rules c (name ∷ names) p = take_rules c names (take_rule p (winning_rule c name) name)

take_prefills : Covering → List String → SchemaFieldPolicy → SchemaFieldPolicy
take_prefills c [] p = p
take_prefills c (name ∷ names) p = take_prefills c names (record p {
  prefill =
      put_some name
        (first_of (prefill_in c.own name)
          (first_of (first_group_prefill c.groups name) (prefill_in c.fleet name)))
        p.prefill;
})

-- `EffectiveFieldPolicy`, on the assignments that cover the vessel.
resolve_policy : Covering → String → String → String → SchemaFieldPolicy
resolve_policy c vessel_id schema_name schema_version =
    take_prefills c (prefill_names [] (all_of c)) (
      take_rules c (field_names [] (all_of c)) (
        new_unchecked (record { type = ScopeType.vessel; key = vessel_id }) schema_name
          schema_version))

unfoldable pub effective_field_policy :
    List SchemaFieldPolicy → String → List String → String → String → SchemaFieldPolicy
unfolding resolve_policy take_rules take_prefills
effective_field_policy assignments vessel_id vessel_groups schema_name schema_version =
    resolve_policy
      (collect vessel_id vessel_groups schema_name schema_version assignments
        (record { own = none; fleet = none; groups = [] }))
      vessel_id schema_name schema_version
