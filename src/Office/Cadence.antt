-- ===== src/Office/Cadence.antt =====
-- office/compliance/cadence.go: how often a vessel has to report.
pub mod Covers
use ovl.Base.{
  Bool, true, false, not, ◌&&◌, String, Option, none, some, List, [], ◌∷◌, str_eq, if◌then◌else◌,
}
use ovl.Base.Floats.{Floats}
use ovl.Office.Scope.{ScopeType, Scope, ScopeError, validate, covers_vessel}

pub record CadenceRule (F : Type 0) : Type 0 where
  pub scope : Scope
  pub min_report_interval_hours : F
  pub max_gap_hours : F

pub data CadenceError : Type 0 where
  bad_scope : ScopeError → CadenceError
  interval_not_positive gap_not_positive : CadenceError

pub data Result (A : Type 0) : Type 0 where
  ok : A → Result A
  failed : CadenceError → Result A

-- `vesselRule`, `groupRule` and `fleetRule`.
pub record Rules (F : Type 0) : Type 0 where
  pub own : Option (CadenceRule F)
  pub group : Option (CadenceRule F)
  pub fleet : Option (CadenceRule F)

module _ {F : Type 0} ⦃fl : Floats F⦄ where
  new_if_valid : Option ScopeError → Scope → F → F → Result (CadenceRule F)
  new_if_valid (some e) scope interval gap = failed (bad_scope e)
  new_if_valid none scope interval gap =
      if fl.le interval (fl.of_ℕ 0)
      then failed interval_not_positive
      else if fl.le gap (fl.of_ℕ 0)
      then failed gap_not_positive
      else ok (record { scope = scope; min_report_interval_hours = interval; max_gap_hours = gap })

  -- `NewCadenceRule`
  unfoldable pub new_cadence_rule : Scope → F → F → Result (CadenceRule F)
  unfolding new_if_valid
  new_cadence_rule scope interval gap = new_if_valid (validate scope) scope interval gap

  -- `stricterCadence`
  abbrev pub stricter_cadence : CadenceRule F → CadenceRule F → Bool
  stricter_cadence a b =
      if not (fl.eq a.max_gap_hours b.max_gap_hours)
      then fl.lt a.max_gap_hours b.max_gap_hours
      else fl.lt a.min_report_interval_hours b.min_report_interval_hours

  abbrev stricter_group : Option (CadenceRule F) → CadenceRule F → Option (CadenceRule F)
  stricter_group none r = some r
  stricter_group (some g) r = if stricter_cadence r g then some r else some g

  -- The body of the loop.
  abbrev pub take_rule : String → List String → Rules F → CadenceRule F → Rules F
  take_rule vessel_id vessel_groups c r = elim r.scope.type [
    | ScopeType.vessel ↦ if str_eq r.scope.key vessel_id then record c { own = some r } else c
    | ScopeType.fleet ↦ record c { fleet = some r }
    | ScopeType.group ↦
        if covers_vessel r.scope vessel_id vessel_groups
        then record c { group = stricter_group c.group r }
        else c
    | ScopeType.unknown t ↦ c
  ]

  unfoldable pub take_rules : String → List String → List (CadenceRule F) → Rules F → Rules F
  take_rules vessel_id vessel_groups [] c = c
  take_rules vessel_id vessel_groups (r ∷ rs) c =
      take_rules vessel_id vessel_groups rs (take_rule vessel_id vessel_groups c r)

  abbrev pub or_rule : Option (CadenceRule F) → CadenceRule F → CadenceRule F
  or_rule none r = r
  or_rule (some a) r = a

  unfoldable pub default_cadence : CadenceRule F
  default_cadence = record {
    scope = record { type = ScopeType.fleet; key = "" };
    min_report_interval_hours = fl.of_ℕ 24;
    max_gap_hours = fl.of_ℕ 12;
  }

  -- `EffectiveCadence`
  unfoldable pub effective_cadence : List (CadenceRule F) → String → List String → CadenceRule F
  effective_cadence rules vessel_id vessel_groups =
      let c =
        take_rules vessel_id vessel_groups rules
          (record { own = none; group = none; fleet = none }) in
      or_rule c.own (or_rule c.group (or_rule c.fleet default_cadence))
