-- ===== src/Validation/Plausibility.antt =====
-- pkg/validation/plausibility.go: the checks on the numbers of one report.
pub mod Severities
use ovl.Base.{
  ℕ, String, Bool, true, false, not, ◌&&◌, ◌||◌, Option, none, some, List, [], ◌∷◌, ◌++◌, any, keep,
  str_eq, if◌then◌else◌,
}
use ovl.Base.Floats.{Floats}
use ovl.Validation.Finding.{Severity, error, warning, Finding, Findings}
use ovl.Validation.Report.{Report, float, string, is_empty}
use ovl.Validation.Config.{Config, severity}
use ovl.Validation.FieldRules.{finding_of}
use ovl.Validation.Continuity.{drifts}
use ovl.Validation.Cascade.{or_default}

abbrev pub rule_time_bucket_sum : String
rule_time_bucket_sum = "plausibility.timeBucketSum"

abbrev pub rule_implied_speed : String
rule_implied_speed = "plausibility.impliedSpeed"

abbrev pub rule_no_distance_stationary : String
rule_no_distance_stationary = "plausibility.noDistanceStationary"

abbrev pub rule_consumption_scheme_exclusive : String
rule_consumption_scheme_exclusive = "plausibility.consumptionSchemeExclusivity"

abbrev pub rule_position_required : String
rule_position_required = "plausibility.positionRequired"

abbrev pub rule_position_consistency : String
rule_position_consistency = "plausibility.positionConsistency"

abbrev pub time_elapsed_fields : List String
time_elapsed_fields =
    "Time_Elapsed_Sailing" ∷ "Time_Elapsed_Anchoring" ∷ "Time_Elapsed_DP" ∷ "Time_Elapsed_Ice"
    ∷ "Time_Elapsed_Maneuvering" ∷ "Time_Elapsed_Waiting" ∷ "Time_Elapsed_Loading_Unloading"
    ∷ "Time_Elapsed_Drifting" ∷ []

-- `cfg.severity(rule, SeverityWarning)` in a finding about one field.
abbrev configured : {F : Type 0} → Config F → String → Severity → String → Finding
configured cfg rule deflt name = finding_of rule (severity cfg rule deflt) name

abbrev is_text : Option String → String → Bool
is_text none t = false
is_text (some s) t = str_eq s t

abbrev or_empty : Option String → String
or_empty none = ""
or_empty (some s) = s

abbrev pub is_some_field : List String → Bool
is_some_field [] = false
is_some_field (x ∷ xs) = true

abbrev neither : String → String → Option String → Bool
neither a b none = false
neither a b (some s) = not (str_eq s a) && not (str_eq s b)

abbrev is_there : {A : Type 0} → Option A → Bool
is_there none = false
is_there (some a) = true

module _ {F : Type 0} ⦃fl : Floats F⦄ where
  -- `sum` and `anyBucket`
  abbrev add_bucket : F × Bool → Option F → F × Bool
  add_bucket (sum, seen) none = (sum, seen)
  add_bucket (sum, seen) (some v) = (fl.add sum v, true)

  sum_buckets : Report F → List String → F × Bool → F × Bool
  sum_buckets r [] acc = acc
  sum_buckets r (name ∷ names) acc = sum_buckets r names (add_bucket acc (float r name))

  time_bucket_sum : Config F → Option F → F × Bool → Findings
  time_bucket_sum cfg none acc = []
  time_bucket_sum cfg (some tsp) (sum, false) = []
  time_bucket_sum cfg (some tsp) (sum, true) =
      if drifts sum tsp cfg.time_bucket_tolerance_hours
      then configured cfg rule_time_bucket_sum warning "Time_Since_Previous_Report" ∷ []
      else []

  -- `evaluateTimeBucketSum`
  unfoldable pub evaluate_time_bucket_sum : Report F → Config F → Findings
  unfolding sum_buckets time_bucket_sum
  evaluate_time_bucket_sum r cfg =
      time_bucket_sum cfg (float r "Time_Since_Previous_Report")
        (sum_buckets r time_elapsed_fields (fl.of_ℕ 0, false))

  implied_speed : Config F → Option F → Option F → Findings
  implied_speed cfg (some distance) (some hours) =
      if fl.le hours (fl.of_ℕ 0)
      then []
      else if fl.lt (fl.div distance hours) cfg.implied_speed_min_kn
          || fl.lt cfg.implied_speed_max_kn (fl.div distance hours)
      then configured cfg rule_implied_speed warning "Distance" ∷ []
      else []
  implied_speed cfg _ _ = []

  -- `evaluateImpliedSpeed`
  unfoldable pub evaluate_implied_speed : Report F → Config F → Findings
  unfolding implied_speed
  evaluate_implied_speed r cfg =
      implied_speed cfg (float r "Distance") (float r "Time_Elapsed_Sailing")

  abbrev anchored : Config F → Option F → Option F → Bool
  anchored cfg (some tsp) (some anchoring) =
      fl.lt (fl.of_ℕ 0) tsp && fl.le (fl.sub tsp cfg.time_bucket_tolerance_hours) anchoring
  anchored cfg _ _ = false

  no_distance_stationary : Config F → Option F → Bool → Findings
  no_distance_stationary cfg none stationary = []
  no_distance_stationary cfg (some distance) stationary =
      if fl.le distance (fl.of_ℕ 0)
      then []
      else if stationary
      then configured cfg rule_no_distance_stationary warning "Distance" ∷ []
      else []

  -- `evaluateNoDistanceStationary`
  unfoldable pub evaluate_no_distance_stationary : Report F → Config F → Findings
  unfolding no_distance_stationary
  evaluate_no_distance_stationary r cfg = no_distance_stationary cfg (float r "Distance") (
      anchored cfg (float r "Time_Since_Previous_Report") (float r "Time_Elapsed_Anchoring")
      || is_text (string r "Mode") "InPort")

  -- The loop over the BDN fields that are filled in.
  lookup_bdns : Report F → (String → Bool) → List String → Findings
  lookup_bdns r found [] = []
  lookup_bdns r found (name ∷ names) =
      let rest = lookup_bdns r found names in
      if not (str_eq (or_empty (string r name)) "") && not (found (or_empty (string r name)))
      then finding_of rule_consumption_scheme_exclusive error name ∷ rest
      else rest

  bdn_findings : Report F → Option (String → Bool) → List String → Findings
  bdn_findings r none names = []
  bdn_findings r (some found) names = lookup_bdns r found names

  -- `evaluateConsumptionSchemeExclusivity`; the severity is fixed.
  unfoldable pub evaluate_consumption_scheme_exclusivity :
      Report F → Config F → Option (String → Bool) → Findings
  unfolding lookup_bdns bdn_findings
  evaluate_consumption_scheme_exclusivity r cfg found =
      let bdn_fields = keep (λ name. not (is_empty r name)) cfg.bdn_marker_fields in
      (if any (λ name. not (is_empty r name)) cfg.fuel_type_consumption_fields
          && is_some_field bdn_fields
        then finding_of rule_consumption_scheme_exclusive error "" ∷ []
        else [])
      ++ bdn_findings r found bdn_fields

  -- A number below `low`, or above the end of its range.
  abbrev outside : (F → Bool) → Option F → Bool
  outside beyond none = false
  outside beyond (some v) = fl.lt v (fl.of_ℕ 0) || beyond v

  abbrev consistency_if : Bool → Config F → String → Findings
  consistency_if b cfg name =
      if b then configured cfg rule_position_consistency error name ∷ [] else []

  at_sea_moving : Report F → Bool
  at_sea_moving r =
      str_eq (or_empty (string r "Mode")) "AtSea" || str_eq (or_empty (string r "Mode")) "Sailing"

  unfoldable pub position_missing : Report F → Bool
  unfolding at_sea_moving
  position_missing r =
      at_sea_moving r
      && (not (is_there (float r "Latitude_Degree"))
          || not (is_there (float r "Longitude_Degree"))
          || not (is_there (string r "Latitude_North_South"))
          || not (is_there (string r "Longitude_East_West")))

  -- `evaluatePositionRequired`
  unfoldable pub evaluate_position_required : Report F → Config F → Findings
  unfolding position_missing
  evaluate_position_required r cfg =
      (if position_missing r then configured cfg rule_position_required warning "" ∷ [] else [])
      ++ (consistency_if (outside (λ v. fl.lt (fl.of_ℕ 90) v) (float r "Latitude_Degree")) cfg
            "Latitude_Degree"
          ++ (consistency_if (outside (λ v. fl.le (fl.of_ℕ 60) v) (float r "Latitude_Minutes")) cfg
                "Latitude_Minutes"
              ++ (consistency_if (neither "N" "S" (string r "Latitude_North_South")) cfg
                    "Latitude_North_South"
                  ++ (consistency_if
                        (outside (λ v. fl.lt (fl.of_ℕ 180) v) (float r "Longitude_Degree")) cfg
                        "Longitude_Degree"
                      ++ (consistency_if
                            (outside (λ v. fl.le (fl.of_ℕ 60) v) (float r "Longitude_Minutes")) cfg
                            "Longitude_Minutes"
                          ++ consistency_if (neither "E" "W" (string r "Longitude_East_West")) cfg
                              "Longitude_East_West")))))

  -- `EvaluatePlausibilityRules`
  unfoldable pub evaluate_plausibility_rules :
      Report F → Option (Config F) → Option (String → Bool) → Findings
  evaluate_plausibility_rules r cfg found =
      evaluate_time_bucket_sum r (or_default cfg)
      ++ (evaluate_implied_speed r (or_default cfg)
          ++ (evaluate_no_distance_stationary r (or_default cfg)
              ++ (evaluate_consumption_scheme_exclusivity r (or_default cfg) found
                  ++ evaluate_position_required r (or_default cfg))))
