-- ===== src/Office/Cadence/Covers.antt =====
-- Whose rule the cadence of a vessel is.
use ovl.Base.{
  Bool, true, false, not, ◌&&◌, ◌||◌, String, Option, none, some, List, [], ◌∷◌, any, all,
  if◌then◌else◌, ◌≡◌, refl, ap, ◌∙◌, arith, or_assoc,
}
use ovl.Base.Floats.{Floats}
use ovl.Office.Scope.{covers_vessel}
use ovl.Office.Cadence.{
  CadenceRule, Rules, take_rule, take_rules, or_rule, default_cadence, effective_cadence,
}

abbrev is_some : {A : Type 0} → Option A → Bool
is_some none = false
is_some (some a) = true

abbrev passes : {A : Type 0} → (A → Bool) → Option A → Bool
passes t none = true
passes t (some a) = t a

module _ {F : Type 0} where
  abbrev pub covering : String → List String → CadenceRule F → Bool
  covering vessel_id groups r = covers_vessel r.scope vessel_id groups

  abbrev found : Rules F → Bool
  found c = is_some c.own || (is_some c.group || is_some c.fleet)

  abbrev all_pass : (CadenceRule F → Bool) → Rules F → Bool
  all_pass t c = passes t c.own && (passes t c.group && passes t c.fleet)

module _ {F : Type 0} ⦃fl : Floats F⦄ where
  take_rule-found :
      (vessel_id : String) (groups : List String) (c : Rules F) (r : CadenceRule F)
      → found (take_rule vessel_id groups c r) ≡ (found c || covering vessel_id groups r)
  unfolding covers_vessel
  take_rule-found vessel_id groups c r = ground arith

  take_rules-found :
      (vessel_id : String) (groups : List String) (rs : List (CadenceRule F)) (c : Rules F)
      → found (take_rules vessel_id groups rs c) ≡ (found c || any (covering vessel_id groups) rs)
  unfolding take_rules
  take_rules-found vessel_id groups [] c = ground arith
  take_rules-found vessel_id groups (r ∷ rs) c =
      take_rules-found vessel_id groups rs (take_rule vessel_id groups c r)
      ∙ ap (λ b. b || any (covering vessel_id groups) rs) (take_rule-found vessel_id groups c r)
      ∙ or_assoc (found c) (covering vessel_id groups r) (any (covering vessel_id groups) rs)

  take_rule-all_pass :
      (t : CadenceRule F → Bool) (vessel_id : String) (groups : List String) (c : Rules F)
      (r : CadenceRule F)
      → (not (covering vessel_id groups r) || t r) ≡ true
      → all_pass t c ≡ true
      → all_pass t (take_rule vessel_id groups c r) ≡ true
  unfolding covers_vessel
  take_rule-all_pass t vessel_id groups c r h k = ground arith

  take_rules-all_pass :
      (t : CadenceRule F → Bool) (vessel_id : String) (groups : List String)
      (rs : List (CadenceRule F)) (c : Rules F)
      → all (λ r. not (covering vessel_id groups r) || t r) rs ≡ true
      → all_pass t c ≡ true
      → all_pass t (take_rules vessel_id groups rs c) ≡ true
  unfolding take_rules
  take_rules-all_pass t vessel_id groups [] c h k = k
  take_rules-all_pass t vessel_id groups (r ∷ rs) c h k =
      take_rules-all_pass t vessel_id groups rs (take_rule vessel_id groups c r) (ground arith)
        (take_rule-all_pass t vessel_id groups c r (ground arith) k)

  chosen :
      (t : CadenceRule F → Bool) (c : Rules F) (d : CadenceRule F)
      → all_pass t c ≡ true
      → t (or_rule c.own (or_rule c.group (or_rule c.fleet d))) ≡ (if found c then true else t d)
  chosen t c d h = ground arith

  -- What all rules that cover a vessel have in common, the cadence of the vessel has too, whichever
  -- other rules there are; where no rule covers the vessel, it is the default.
  pub effective_cadence_covers :
      (t : CadenceRule F → Bool) (rules : List (CadenceRule F)) (vessel_id : String)
      (groups : List String)
      → all (λ r. not (covering vessel_id groups r) || t r) rules ≡ true
      → t (effective_cadence rules vessel_id groups)
        ≡ (if any (covering vessel_id groups) rules then true else t default_cadence)
  unfolding effective_cadence
  effective_cadence_covers t rules vessel_id groups h =
      let start : Rules F = record { own = none; group = none; fleet = none } in
      let c = take_rules vessel_id groups rules start in
      chosen t c default_cadence (take_rules-all_pass t vessel_id groups rules start h refl)
      ∙ ap (λ b. if b then true else t default_cadence)
          (take_rules-found vessel_id groups rules start)
