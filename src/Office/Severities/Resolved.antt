-- ===== src/Office/Severities/Resolved.antt =====
-- Which severity a vessel gets for a rule.
use ovl.Base.{
  SomeOf, String, Bool, true, false, Option, none, some, List, [], ◌∷◌, leb, str_eq, eq_iff,
  contains, keep, ◌≡◌, refl, sym, ap, ◌∙◌, arith, if◌then◌else◌, All, Bool-cases, inl, inr, ◌⊎◌,
}
use ovl.Base.Dict.{Dict, lookup, lookup-put}
use ovl.Validation.Finding.{Severity}
use ovl.Office.Scope.Named.{names_vessel, names_fleet, names_group, last_or}
use ovl.Office.Severities.Assigned.{
  may_be_set, may_be_set-overridable, own_assignment, fleet_assignment, group_assignments,
}
use ovl.Office.Severities.{
  RuleSeverityAssignment, overridable_rule_ids, severity_rank, Covering, collect, strictest_so_far,
  strictest_loop, strictest_group_severity, severity_in, first_of, put_some, resolve_rules,
  effective_severities,
}

abbrev pub is_some : {A : Type 0} → Option A → Bool
is_some none = false
is_some (some a) = true

-- The severity in `o` is at least as strict as `s`.
abbrev pub at_least : Option Severity → Severity → Bool
at_least none s = false
at_least (some t) s = leb (severity_rank t) (severity_rank s)

abbrev pub bounded_by : Option Severity → Option Severity → Bool
bounded_by o none = true
bounded_by o (some s) = at_least o s

bounded_trans :
    (o p q : Option Severity)
    → bounded_by o p ≡ true
    → bounded_by p q ≡ true
    → bounded_by o q ≡ true
bounded_trans o p q h k = ground arith

strictest_step :
    (o p : Option Severity)
    → (bounded_by (strictest_so_far o p) o ≡ true) × (bounded_by (strictest_so_far o p) p ≡ true)
strictest_step o p = ground arith

loop_bounded :
    (as' : List RuleSeverityAssignment) (rule_id : String) (o : Option Severity)
    → (bounded_by (strictest_loop as' rule_id o) o ≡ true)
      × All
          (λ a. bounded_by (strictest_loop as' rule_id o) (lookup rule_id a.severities) ≡ true)
          as'
unfolding strictest_loop
loop_bounded [] rule_id o = (ground arith, tt)
loop_bounded (a ∷ as') rule_id o =
    let o₁ = strictest_so_far o (lookup rule_id a.severities) in
    let rest = loop_bounded as' rule_id o₁ in
    let step = strictest_step o (lookup rule_id a.severities) in
    (
      bounded_trans (strictest_loop as' rule_id o₁) o₁ o rest.0 step.0,
      (
        bounded_trans (strictest_loop as' rule_id o₁) o₁ (lookup rule_id a.severities) rest.0
            step.1,
        rest.1,
      ),
    )

step_source : (o p : Option Severity) → (strictest_so_far o p ≡ o) ⊎ (p ≡ strictest_so_far o p)
step_source o p = ground arith

loop_source :
    (as' : List RuleSeverityAssignment) (rule_id : String) (o : Option Severity)
    → (strictest_loop as' rule_id o ≡ o)
      ⊎ SomeOf (λ a. lookup rule_id a.severities ≡ strictest_loop as' rule_id o) as'
unfolding strictest_loop
loop_source [] rule_id o = inl refl
loop_source (a ∷ as') rule_id o =
    elim (loop_source as' rule_id (strictest_so_far o (lookup rule_id a.severities))) [
      | inr h ↦ inr (inr h)
      | inl h ↦ elim (step_source o (lookup rule_id a.severities)) [
        | inl k ↦ inl (h ∙ k)
        | inr k ↦ inr (inl (k ∙ sym h))
      ]
    ]

-- Among the groups, the strictest severity set for a rule wins: it is at least as strict as each one
-- that a group sets, and some group sets it, unless none does.
pub strictest_group_severity_lem :
    (groups : List RuleSeverityAssignment) (rule_id : String)
    → All
        (λ a.
          bounded_by (strictest_group_severity groups rule_id) (lookup rule_id a.severities) ≡ true)
        groups
      × ((strictest_group_severity groups rule_id ≡ none)
          ⊎ SomeOf
              (λ a. lookup rule_id a.severities ≡ strictest_group_severity groups rule_id)
              groups)
unfolding strictest_group_severity
strictest_group_severity_lem groups rule_id =
    ((loop_bounded groups rule_id none).1, loop_source groups rule_id none)

abbrev pub or_else : {A : Type 0} → Option A → Option A → Option A
or_else (some a) b = some a
or_else none b = b

-- The severity that the vessel's own assignment gives, else the groups', else the fleet's.
abbrev pub resolved : Covering → String → Option Severity
resolved c rule_id =
    first_of (severity_in c.own rule_id)
      (first_of (strictest_group_severity c.groups rule_id) (severity_in c.fleet rule_id))

-- What the assignment, if there is one, sets.
abbrev pub set_by : Option RuleSeverityAssignment → String → Option Severity
set_by none rule_id = none
set_by (some a) rule_id = lookup rule_id a.severities

resolved-set :
    (c : Covering) (rule_id : String)
    → resolved c rule_id
      ≡ or_else
          (set_by c.own rule_id)
          (or_else (strictest_group_severity c.groups rule_id) (set_by c.fleet rule_id))
resolved-set c rule_id = ground arith

or_else-none :
    (b : Bool) (o : Option Severity)
    → (if b then or_else o none else none) ≡ (if b then o else none)
or_else-none b o = ground arith

lookup-put_some :
    (k j : String) (o : Option Severity) (d : Dict Severity)
    → lookup j (put_some k o d) ≡ (if str_eq k j then or_else o (lookup j d) else lookup j d)
lookup-put_some k j none d = ground arith
lookup-put_some k j (some v) d = ground (arith, lookup-put k j v d)

resolve_rules_lem :
    (c : Covering) (rule_ids : List String) (j : String) (result : Dict Severity)
    → lookup j (resolve_rules c rule_ids result)
      ≡ (if contains rule_ids j then or_else (resolved c j) (lookup j result) else lookup j result)
unfolding resolve_rules
resolve_rules_lem c [] j result = refl
resolve_rules_lem c (r ∷ rs) j result = elim (Bool-cases (str_eq r j)) [
  | inl e ↦ ground (
    arith,
    resolve_rules_lem c rs j (put_some r (resolved c r) result),
    lookup-put_some r j (resolved c r) result,
    ap (resolved c) ((eq_iff r j).0 e),
  )
  | inr e ↦ ground (
    arith,
    resolve_rules_lem c rs j (put_some r (resolved c r) result),
    lookup-put_some r j (resolved c r) result,
  )
]

-- A rule of the plausibility and continuity checks, the hard one apart, gets the severity that the
-- vessel's own assignment sets for it, the last one with the vessel's identifier; where that sets none,
-- the strictest that the assignments of the vessel's groups set; else the fleet's. Every other rule,
-- the hard one among them, gets none, whatever the assignments hold.
pub effective_severities-resolved :
    (assignments : List RuleSeverityAssignment) (vessel_id : String) (vessel_groups : List String)
    (rule_id : String)
    → let own = last_or none (keep (λ a. names_vessel vessel_id a.scope) assignments) in
      let fleet = last_or none (keep (λ a. names_fleet a.scope) assignments) in
      let groups = keep (λ a. names_group vessel_groups a.scope) assignments in
      lookup rule_id (effective_severities assignments vessel_id vessel_groups) ≡ (
        if may_be_set rule_id
        then or_else
            (set_by own rule_id)
            (or_else (strictest_group_severity groups rule_id) (set_by fleet rule_id))
        else none)
unfolding effective_severities lookup
effective_severities-resolved assignments vessel_id vessel_groups rule_id =
    let empty : Covering = record { own = none; fleet = none; groups = [] } in
    let c = collect vessel_id vessel_groups assignments empty in
    resolve_rules_lem c overridable_rule_ids rule_id []
    ∙ or_else-none (contains overridable_rule_ids rule_id) (resolved c rule_id)
    ∙ rw
        (
          ← own_assignment vessel_id vessel_groups assignments empty,
          ← fleet_assignment vessel_id vessel_groups assignments empty,
          ← group_assignments vessel_id vessel_groups assignments empty,
          ← may_be_set-overridable rule_id,
        )
        (ap (λ o. if contains overridable_rule_ids rule_id then o else none)
          (resolved-set c rule_id))
