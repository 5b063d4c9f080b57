-- ===== src/Office/Severities.antt =====
-- office/compliance/rulesev.go: the severities that the company sets for the rules it may override.
pub mod Assigned
pub mod Resolved
use ovl.Base.{
  String, Bool, true, false, not, ◌&&◌, Option, none, some, List, [], ◌∷◌, ◌++◌, ℕ, ltb, str_eq,
  contains, if◌then◌else◌,
}
use ovl.Base.Dict.{Dict, lookup, put}
use ovl.Validation.Finding.{Severity}
use ovl.Validation.Plausibility.{
  rule_time_bucket_sum, rule_implied_speed, rule_no_distance_stationary, rule_position_required,
  rule_position_consistency, rule_consumption_scheme_exclusive,
}
use ovl.Validation.Continuity.{
  rule_time_chain, rule_rob_continuity, rule_event_ordering, rule_timestamp_uniqueness,
}
use ovl.Office.Scope.{ScopeType, Scope, covers_vessel}

abbrev pub overridable_rule_ids : List String
overridable_rule_ids =
    rule_time_bucket_sum ∷ rule_implied_speed ∷ rule_no_distance_stationary ∷ rule_position_required
    ∷ rule_position_consistency ∷ rule_time_chain ∷ rule_rob_continuity ∷ rule_event_ordering
    ∷ rule_timestamp_uniqueness ∷ []

abbrev pub hard_rule_ids : List String
hard_rule_ids = rule_consumption_scheme_exclusive ∷ []

pub record RuleSeverityAssignment : Type 0 where
  pub scope : Scope
  pub severities : Dict Severity

pub data SeverityError : Type 0 where
  hard_rule_locked unknown_rule unknown_severity : SeverityError

abbrev is_known : Severity → Bool
is_known (Severity.unknown s) = false
is_known _ = true

-- `SetSeverity`; the time of the update is left out.
unfoldable pub set_severity :
    RuleSeverityAssignment → String → Severity → RuleSeverityAssignment × Option SeverityError
set_severity a rule_id severity =
    if contains hard_rule_ids rule_id
    then (a, some hard_rule_locked)
    else if not (contains overridable_rule_ids rule_id)
    then (a, some unknown_rule)
    else if is_known severity
    then (record a { severities = put rule_id severity a.severities }, none)
    else (a, some unknown_severity)

-- `severityRank`
abbrev pub severity_rank : Severity → ℕ
severity_rank Severity.error = 0
severity_rank Severity.warning = 1
severity_rank _ = 2

-- What the first loop collects: the vessel's own assignment, the fleet's, and the groups'.
pub record Covering : Type 0 where
  pub own : Option RuleSeverityAssignment
  pub fleet : Option RuleSeverityAssignment
  pub groups : List RuleSeverityAssignment

abbrev pub collect_one : String → List String → Covering → RuleSeverityAssignment → Covering
collect_one vessel_id vessel_groups c a = elim a.scope.type [
  | ScopeType.vessel ↦ if str_eq a.scope.key vessel_id then record c { own = some a } else c
  | ScopeType.fleet ↦ record c { fleet = some a }
  | ScopeType.group ↦
      if covers_vessel a.scope vessel_id vessel_groups
      then record c { groups = c.groups ++ a ∷ [] }
      else c
  | ScopeType.unknown t ↦ c
]

unfoldable pub collect : String → List String → List RuleSeverityAssignment → Covering → Covering
collect vessel_id vessel_groups [] c = c
collect vessel_id vessel_groups (a ∷ as') c =
    collect vessel_id vessel_groups as' (collect_one vessel_id vessel_groups c a)

abbrev stricter : Option Severity → Severity → Option Severity
stricter none sev = some sev
stricter (some s) sev = if ltb (severity_rank sev) (severity_rank s) then some sev else some s

abbrev strictest_so_far : Option Severity → Option Severity → Option Severity
strictest_so_far strictest none = strictest
strictest_so_far strictest (some sev) = stricter strictest sev

strictest_loop : List RuleSeverityAssignment → String → Option Severity → Option Severity
strictest_loop [] rule_id strictest = strictest
strictest_loop (a ∷ as') rule_id strictest =
    strictest_loop as' rule_id (strictest_so_far strictest (lookup rule_id a.severities))

-- `strictestGroupSeverity`
unfoldable pub strictest_group_severity : List RuleSeverityAssignment → String → Option Severity
unfolding strictest_loop
strictest_group_severity groups rule_id = strictest_loop groups rule_id none

abbrev pub severity_in : Option RuleSeverityAssignment → String → Option Severity
severity_in none rule_id = none
severity_in (some a) rule_id = lookup rule_id a.severities

abbrev pub first_of : {A : Type 0} → Option A → Option A → Option A
first_of (some a) b = some a
first_of none b = b

abbrev put_some : {A : Type 0} → String → Option A → Dict A → Dict A
put_some k none d = d
put_some k (some v) d = put k v d

resolve_rules : Covering → List String → Dict Severity → Dict Severity
resolve_rules c [] result = result
resolve_rules c (rule_id ∷ rule_ids) result = resolve_rules c rule_ids (
    put_some rule_id
      (first_of (severity_in c.own rule_id)
        (first_of (strictest_group_severity c.groups rule_id) (severity_in c.fleet rule_id)))
      result)

-- `EffectiveSeverities`
unfoldable pub effective_severities :
    List RuleSeverityAssignment → String → List String → Dict Severity
unfolding resolve_rules
effective_severities assignments vessel_id vessel_groups =
    resolve_rules
      (collect vessel_id vessel_groups assignments
        (record { own = none; fleet = none; groups = [] }))
      overridable_rule_ids []
