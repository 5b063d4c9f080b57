-- ===== src/Office/FieldPolicy/Precedence.antt =====
-- Which assignment a vessel takes a field's rule from.
use ovl.Base.{
  String, Bool, ◌||◌, ◌&&◌, Option, none, some, List, [], ◌∷◌, ◌++◌, keep, str_eq, append_nil,
  if◌then◌else◌, ◌≡◌, refl, sym, ap, ◌∙◌, arith, is_some,
}
use ovl.Base.Dict.{lookup}
use ovl.Office.Scope.{covers_vessel}
use ovl.Office.Scope.Named.{
  names_vessel, names_fleet, names_group, last_or, last_or-keep, append-keep,
}
use ovl.Office.FieldPolicy.{
  SchemaFieldPolicy, strictest_group_rule, Covering, winning_rule, collect, collect_one,
}

-- An assignment for the version of the schema.
abbrev pub of_schema : String → String → SchemaFieldPolicy → Bool
of_schema name version a = str_eq a.schema_name name && str_eq a.schema_version version

abbrev or_else : {A : Type 0} → Option A → Option A → Option A
or_else (some a) b = some a
or_else none b = b

-- The assignment, where it says something of the field's state or events.
abbrev pub with_rule : String → Option SchemaFieldPolicy → Option SchemaFieldPolicy
with_rule name none = none
with_rule name (some a) =
    if is_some (lookup name a.policy) || is_some (lookup name a.events) then some a else none

-- The last assignment with the vessel's identifier, where it has a rule for the field; else the
-- strictest of its groups' assignments; else the last one for the fleet, where that has a rule.
abbrev pub rule_source :
    List SchemaFieldPolicy
    → String
    → List String
    → String
    → String
    → String
    → Option SchemaFieldPolicy
rule_source assignments vessel_id vessel_groups schema_name schema_version name =
    let of = of_schema schema_name schema_version in
    let own = last_or none (keep (λ a. of a && names_vessel vessel_id a.scope) assignments) in
    let fleet = last_or none (keep (λ a. of a && names_fleet a.scope) assignments) in
    let groups = keep (λ a. of a && names_group vessel_groups a.scope) assignments in
    or_else (with_rule name own) (or_else (strictest_group_rule groups name) (with_rule name fleet))

winning_rule-source :
    (c : Covering) (name : String)
    → winning_rule c name
      ≡ or_else
          (with_rule name c.own)
          (or_else (strictest_group_rule c.groups name) (with_rule name c.fleet))
unfolding winning_rule
winning_rule-source c name = ground arith

module _ (v : String) (gs : List String) (n w : String) where
  of_own : SchemaFieldPolicy → Bool
  of_own a = of_schema n w a && names_vessel v a.scope

  of_fleet : SchemaFieldPolicy → Bool
  of_fleet a = of_schema n w a && names_fleet a.scope

  of_group : SchemaFieldPolicy → Bool
  of_group a = of_schema n w a && names_group gs a.scope

  step : Covering → SchemaFieldPolicy → Covering
  step c a = if of_schema n w a then collect_one v gs c a else c

  one_own :
      (c : Covering) (a : SchemaFieldPolicy) → (step c a).own ≡ (if of_own a then some a else c.own)
  unfolding step of_own
  one_own c a = ground arith

  one_fleet :
      (c : Covering) (a : SchemaFieldPolicy)
      → (step c a).fleet ≡ (if of_fleet a then some a else c.fleet)
  unfolding step of_fleet
  one_fleet c a = ground arith

  one_group :
      (c : Covering) (a : SchemaFieldPolicy)
      → (step c a).groups ≡ (if of_group a then c.groups ++ a ∷ [] else c.groups)
  unfolding step of_group covers_vessel
  one_group c a = ground arith

  own_assignment :
      (as' : List SchemaFieldPolicy) (c : Covering)
      → (collect v gs n w as' c).own ≡ last_or c.own (keep of_own as')
  unfolding collect last_or step
  own_assignment [] c = refl
  own_assignment (a ∷ as') c =
      own_assignment as' (step c a)
      ∙ ap (λ o. last_or o (keep of_own as')) (one_own c a)
      ∙ last_or-keep of_own c.own a as'

  fleet_assignment :
      (as' : List SchemaFieldPolicy) (c : Covering)
      → (collect v gs n w as' c).fleet ≡ last_or c.fleet (keep of_fleet as')
  unfolding collect last_or step
  fleet_assignment [] c = refl
  fleet_assignment (a ∷ as') c =
      fleet_assignment as' (step c a)
      ∙ ap (λ o. last_or o (keep of_fleet as')) (one_fleet c a)
      ∙ last_or-keep of_fleet c.fleet a as'

  group_assignments :
      (as' : List SchemaFieldPolicy) (c : Covering)
      → (collect v gs n w as' c).groups ≡ c.groups ++ keep of_group as'
  unfolding collect step
  group_assignments [] c = sym (append_nil c.groups)
  group_assignments (a ∷ as') c =
      group_assignments as' (step c a)
      ∙ ap (λ l. l ++ keep of_group as') (one_group c a)
      ∙ append-keep of_group c.groups a as'

  -- What the code's loop and choice come to.
  pub winning_rule-rule_source :
      (assignments : List SchemaFieldPolicy) (name : String)
      → winning_rule
          (collect v gs n w assignments (record { own = none; fleet = none; groups = [] }))
          name
        ≡ rule_source assignments v gs n w name
  unfolding of_own of_fleet of_group
  winning_rule-rule_source assignments name =
      let empty : Covering = record { own = none; fleet = none; groups = [] } in
      rw
        (
          ← own_assignment assignments empty,
          ← fleet_assignment assignments empty,
          ← group_assignments assignments empty,
        )
        (winning_rule-source (collect v gs n w assignments empty) name)
