-- ===== src/Office/FieldPolicy/Whole.antt =====
-- A field's state and its events in the resolved policy.
use ovl.Base.{
  ℕ, String, false, ◌||◌, Option, none, some, List, [], ◌∷◌, ◌++◌, any, str_eq, eq_iff, contains,
  if◌then◌else◌, ◌≡◌, refl, sym, ap, ◌∙◌, arith, Bool-cases, or_false_inv, inl, inr,
}
use ovl.Base.Dict.{Dict, lookup, keys, lookup-put}
use ovl.Office.Scope.{ScopeType}
use ovl.Office.FieldPolicy.{
  SchemaFieldPolicy, new_unchecked, is_there, sets_rule, strictest_group_rule, strictest_loop,
  Covering, winning_rule, collect, all_of, add_names, field_names, prefill_names, put_some,
  take_rule, take_rules, take_prefills, resolve_policy, effective_field_policy,
}
use ovl.Office.FieldPolicy.Precedence.{rule_source, winning_rule-rule_source}
use ovl.Validation.Policy.{FieldPolicyState}

-- What an assignment, if there is one, says of a field.
abbrev pub state_in : Option SchemaFieldPolicy → String → Option FieldPolicyState
state_in none name = none
state_in (some a) name = lookup name a.policy

abbrev pub events_in : Option SchemaFieldPolicy → String → Option (List String)
events_in none name = none
events_in (some a) name = lookup name a.events

abbrev or_else : {A : Type 0} → Option A → Option A → Option A
or_else (some a) b = some a
or_else none b = b

lookup-put_some :
    {A : Type 0} (k j : String) (o : Option A) (d : Dict A)
    → lookup j (put_some k o d) ≡ (if str_eq k j then or_else o (lookup j d) else lookup j d)
lookup-put_some k j none d = ground arith
lookup-put_some k j (some v) d = ground (arith, lookup-put k j v d)

state_taken :
    (w : Option SchemaFieldPolicy) (m n : String) (p : SchemaFieldPolicy)
    → lookup n (take_rule p w m).policy
      ≡ (if str_eq m n then or_else (state_in w m) (lookup n p.policy) else lookup n p.policy)
unfolding take_rule
state_taken none m n p = ground arith
state_taken (some a) m n p = lookup-put_some m n (lookup m a.policy) p.policy

events_taken :
    (w : Option SchemaFieldPolicy) (m n : String) (p : SchemaFieldPolicy)
    → lookup n (take_rule p w m).events
      ≡ (if str_eq m n then or_else (events_in w m) (lookup n p.events) else lookup n p.events)
unfolding take_rule
events_taken none m n p = ground arith
events_taken (some a) m n p = lookup-put_some m n (lookup m a.events) p.events

states_taken :
    (c : Covering) (names : List String) (n : String) (p : SchemaFieldPolicy)
    → lookup n (take_rules c names p).policy ≡ (
        if contains names n
        then or_else (state_in (winning_rule c n) n) (lookup n p.policy)
        else lookup n p.policy)
unfolding take_rules
states_taken c [] n p = refl
states_taken c (m ∷ ms) n p =
    let p₁ = take_rule p (winning_rule c m) m in
    elim (Bool-cases (str_eq m n)) [
      | inl e ↦ ground (
        arith,
        states_taken c ms n p₁,
        state_taken (winning_rule c m) m n p,
        ap (λ k. state_in (winning_rule c k) k) ((eq_iff m n).0 e),
      )
      | inr e ↦ ground (arith, states_taken c ms n p₁, state_taken (winning_rule c m) m n p)
    ]

all_events_taken :
    (c : Covering) (names : List String) (n : String) (p : SchemaFieldPolicy)
    → lookup n (take_rules c names p).events ≡ (
        if contains names n
        then or_else (events_in (winning_rule c n) n) (lookup n p.events)
        else lookup n p.events)
unfolding take_rules
all_events_taken c [] n p = refl
all_events_taken c (m ∷ ms) n p =
    let p₁ = take_rule p (winning_rule c m) m in
    elim (Bool-cases (str_eq m n)) [
      | inl e ↦ ground (
        arith,
        all_events_taken c ms n p₁,
        events_taken (winning_rule c m) m n p,
        ap (λ k. events_in (winning_rule c k) k) ((eq_iff m n).0 e),
      )
      | inr e ↦ ground (arith, all_events_taken c ms n p₁, events_taken (winning_rule c m) m n p)
    ]

prefills_keep :
    (c : Covering) (names : List String) (p : SchemaFieldPolicy)
    → ((take_prefills c names p).policy ≡ p.policy) × ((take_prefills c names p).events ≡ p.events)
unfolding take_prefills
prefills_keep c [] p = (refl, refl)
prefills_keep c (m ∷ ms) p = prefills_keep c ms _

contains-snoc :
    (names : List String) (k n : String)
    → contains (names ++ k ∷ []) n ≡ (contains names n || str_eq k n)
contains-snoc [] k n = ground arith
contains-snoc (m ∷ ms) k n = ground (arith, contains-snoc ms k n)

contains-add_names :
    (ks names : List String) (n : String)
    → contains (add_names names ks) n ≡ (contains names n || contains ks n)
unfolding add_names
contains-add_names [] names n = ground arith
contains-add_names (k ∷ ks) names n = elim (Bool-cases (contains names k)) [
  | inl e ↦
      rw (e, add_names)
        (elim (Bool-cases (str_eq k n)) [
          | inl k' ↦
              ground (arith, contains-add_names ks names n, ap (contains names) ((eq_iff k n).0 k'))
          | inr k' ↦ ground (arith, contains-add_names ks names n)
        ])
  | inr e ↦
      rw (e, add_names)
        (contains-add_names ks (names ++ k ∷ []) n ∙ ground (arith, contains-snoc names k n))
]

contains-keys : {A : Type 0} (d : Dict A) (n : String) → contains (keys d) n ≡ is_there (lookup n d)
unfolding lookup
contains-keys [] n = refl
contains-keys ((k, v) ∷ d) n = ground (arith, contains-keys d n)

contains-field_names :
    (as' : List SchemaFieldPolicy) (names : List String) (n : String)
    → contains (field_names names as') n ≡ (contains names n || any (sets_rule n) as')
unfolding field_names
contains-field_names [] names n = ground arith
contains-field_names (a ∷ as') names n =
    let names₁ = add_names names (keys a.policy) in
    ground (
      arith,
      contains-field_names as' (add_names names₁ (keys a.events)) n,
      contains-add_names (keys a.events) names₁ n,
      contains-add_names (keys a.policy) names n,
      contains-keys a.policy n,
      contains-keys a.events n,
    )

no_group_rule :
    (n : String) (as' : List SchemaFieldPolicy) (w : Option (SchemaFieldPolicy × ℕ))
    → any (sets_rule n) as' ≡ false
    → strictest_loop n as' w ≡ w
unfolding strictest_loop
no_group_rule n [] w h = refl
no_group_rule n (a ∷ as') w h = elim (Bool-cases (sets_rule n a)) [
  | inl e ↦ cc (rw e at h)
  | inr e ↦ rw (e, strictest_loop) (no_group_rule n as' w (rw e at h))
]

no_rule_of :
    (own fleet : Option SchemaFieldPolicy) (gs : List SchemaFieldPolicy) (n : String)
    → any (sets_rule n) (all_of (record { own = own; fleet = fleet; groups = gs })) ≡ false
    → winning_rule (record { own = own; fleet = fleet; groups = gs }) n ≡ none
unfolding winning_rule all_of strictest_group_rule
no_rule_of none none gs n h = rw (no_group_rule n gs none h) refl
no_rule_of (some a) none gs n h =
    let parts = or_false_inv (sets_rule n a) (any (sets_rule n) gs) h in
    rw (parts.0, no_group_rule n gs none parts.1) refl
no_rule_of none (some b) gs n h =
    let parts = or_false_inv (sets_rule n b) (any (sets_rule n) gs) h in
    rw (parts.0, no_group_rule n gs none parts.1) refl
no_rule_of (some a) (some b) gs n h =
    let parts = or_false_inv (sets_rule n a) (sets_rule n b || any (sets_rule n) gs) h in
    let more = or_false_inv (sets_rule n b) (any (sets_rule n) gs) parts.1 in
    rw (parts.0, more.0, no_group_rule n gs none more.1) refl

no_winning_rule :
    (c : Covering) (n : String) → any (sets_rule n) (all_of c) ≡ false → winning_rule c n ≡ none
no_winning_rule c n h = no_rule_of c.own c.fleet c.groups n h

or_else-none : {A : Type 0} (o : Option A) → or_else o none ≡ o
or_else-none none = refl
or_else-none (some a) = refl

resolved_rule :
    (c : Covering) (p : SchemaFieldPolicy) (name : String)
    → p.policy ≡ []
    → p.events ≡ []
    → let q = take_rules c (field_names [] (all_of c)) p in
      (lookup name q.policy ≡ state_in (winning_rule c name) name)
      × (lookup name q.events ≡ events_in (winning_rule c name) name)
unfolding lookup
resolved_rule c p name ep ee =
    let names = field_names [] (all_of c) in
    elim (Bool-cases (contains names name)) [
      | inl e ↦ (
        states_taken c names name p
            ∙ rw (e, ep) (or_else-none (state_in (winning_rule c name) name)),
        all_events_taken c names name p
            ∙ rw (e, ee) (or_else-none (events_in (winning_rule c name) name)),
      )
      | inr e ↦
          let w = no_winning_rule c name (sym (contains-field_names (all_of c) [] name) ∙ e) in
          (
            states_taken c names name p ∙ rw (e, ep, w) refl,
            all_events_taken c names name p ∙ rw (e, ee, w) refl,
          )
    ]

-- The policy of a vessel takes each field's state and events from one assignment for the version of the
-- schema: the vessel's own, the last one with its identifier, where that has a rule for the field; else
-- the strictest of its groups' rules; else the fleet's; never the state from one and the events from
-- another, and nothing where there is no rule.
pub effective_rule_whole :
    (assignments : List SchemaFieldPolicy) (vessel_id : String) (vessel_groups : List String)
    (schema_name schema_version name : String)
    → let winner =
        rule_source assignments vessel_id vessel_groups schema_name schema_version name in
      let result =
        effective_field_policy assignments vessel_id vessel_groups schema_name schema_version in
      (lookup name result.policy ≡ state_in winner name)
      × (lookup name result.events ≡ events_in winner name)
unfolding effective_field_policy resolve_policy new_unchecked
effective_rule_whole assignments vessel_id vessel_groups schema_name schema_version name =
    let c =
      collect vessel_id vessel_groups schema_name schema_version assignments
        (record { own = none; fleet = none; groups = [] }) in
    let p =
      new_unchecked (record { type = ScopeType.vessel; key = vessel_id }) schema_name
        schema_version in
    let q = take_rules c (field_names [] (all_of c)) p in
    let kept = prefills_keep c (prefill_names [] (all_of c)) q in
    let rule = resolved_rule c p name refl refl in
    let source =
      winning_rule-rule_source vessel_id vessel_groups schema_name schema_version assignments
        name in
    (
      ap (lookup name) kept.0 ∙ rule.0 ∙ ap (λ o. state_in o name) source,
      ap (lookup name) kept.1 ∙ rule.1 ∙ ap (λ o. events_in o name) source,
    )
