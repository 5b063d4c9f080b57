-- ===== src/Office/Severities/Assigned.antt =====
-- Which assignments the code collects for a vessel, and which rules may be set.
use ovl.Base.{
  String, Bool, some, List, [], ◌∷◌, str_eq, eq_iff, contains, keep, append_nil, not, ◌&&◌, ◌++◌,
  ◌≡◌, refl, sym, ap, ◌∙◌, arith, if◌then◌else◌, Bool-cases, inl, inr,
}
use ovl.Validation.Plausibility.{
  rule_time_bucket_sum, rule_implied_speed, rule_no_distance_stationary, rule_position_required,
  rule_position_consistency, rule_consumption_scheme_exclusive,
}
use ovl.Validation.Continuity.{
  rule_time_chain, rule_rob_continuity, rule_event_ordering, rule_timestamp_uniqueness,
}
use ovl.Office.Scope.{covers_vessel}
use ovl.Office.Scope.Named.{
  names_vessel, names_fleet, names_group, last_or, last_or-keep, append-keep,
}
use ovl.Office.Severities.{
  collect_one, RuleSeverityAssignment, overridable_rule_ids, Covering, collect,
}

-- The rules of the plausibility and the continuity checks.
abbrev pub engine_rules : List String
engine_rules =
    rule_time_bucket_sum ∷ rule_implied_speed ∷ rule_no_distance_stationary ∷ rule_position_required
    ∷ rule_position_consistency ∷ rule_consumption_scheme_exclusive ∷ rule_time_chain
    ∷ rule_rob_continuity ∷ rule_event_ordering ∷ rule_timestamp_uniqueness ∷ []

-- Every rule of the checks but the hard one.
abbrev pub may_be_set : String → Bool
may_be_set rule_id =
    contains engine_rules rule_id && not (str_eq rule_consumption_scheme_exclusive rule_id)

pub may_be_set-overridable :
    (rule_id : String) → contains overridable_rule_ids rule_id ≡ may_be_set rule_id
may_be_set-overridable rule_id =
    elim (Bool-cases (str_eq rule_consumption_scheme_exclusive rule_id)) [
      | inl t ↦
          let same = (eq_iff rule_consumption_scheme_exclusive rule_id).0 t in
          ap (contains overridable_rule_ids) (sym same) ∙ ap may_be_set same
      | inr f ↦ ground (arith, f)
    ]

one_own :
    (v : String) (gs : List String) (c : Covering) (a : RuleSeverityAssignment)
    → (collect_one v gs c a).own ≡ (if names_vessel v a.scope then some a else c.own)
one_own v gs c a = ground arith

one_fleet :
    (v : String) (gs : List String) (c : Covering) (a : RuleSeverityAssignment)
    → (collect_one v gs c a).fleet ≡ (if names_fleet a.scope then some a else c.fleet)
one_fleet v gs c a = ground arith

pub own_assignment :
    (v : String) (gs : List String) (as' : List RuleSeverityAssignment) (c : Covering)
    → (collect v gs as' c).own ≡ last_or c.own (keep (λ a. names_vessel v a.scope) as')
unfolding collect last_or
own_assignment v gs [] c = refl
own_assignment v gs (a ∷ as') c =
    own_assignment v gs as' (collect_one v gs c a)
    ∙ ap (λ o. last_or o (keep (λ x. names_vessel v x.scope) as')) (one_own v gs c a)
    ∙ last_or-keep (λ x. names_vessel v x.scope) c.own a as'

pub fleet_assignment :
    (v : String) (gs : List String) (as' : List RuleSeverityAssignment) (c : Covering)
    → (collect v gs as' c).fleet ≡ last_or c.fleet (keep (λ a. names_fleet a.scope) as')
unfolding collect last_or
fleet_assignment v gs [] c = refl
fleet_assignment v gs (a ∷ as') c =
    fleet_assignment v gs as' (collect_one v gs c a)
    ∙ ap (λ o. last_or o (keep (λ x. names_fleet x.scope) as')) (one_fleet v gs c a)
    ∙ last_or-keep (λ x. names_fleet x.scope) c.fleet a as'

one_group :
    (v : String) (gs : List String) (c : Covering) (a : RuleSeverityAssignment)
    → (collect_one v gs c a).groups
      ≡ (if names_group gs a.scope then c.groups ++ a ∷ [] else c.groups)
unfolding covers_vessel
one_group v gs c a = ground arith

pub group_assignments :
    (v : String) (gs : List String) (as' : List RuleSeverityAssignment) (c : Covering)
    → (collect v gs as' c).groups ≡ c.groups ++ keep (λ a. names_group gs a.scope) as'
unfolding collect
group_assignments v gs [] c = sym (append_nil c.groups)
group_assignments v gs (a ∷ as') c =
    group_assignments v gs as' (collect_one v gs c a)
    ∙ ap (λ l. l ++ keep (λ x. names_group gs x.scope) as') (one_group v gs c a)
    ∙ append-keep (λ x. names_group gs x.scope) c.groups a as'
