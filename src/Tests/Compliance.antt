-- ===== src/Tests/Compliance.antt =====
-- The profiles and the cadence of a vessel.
use ovl.Base.{ℕ, Bool, true, ◌&&◌, List, [], ◌∷◌, any, ◌≡◌, refl, ◌==◌, if◌then◌else◌}
use ovl.Base.Floats.{whole_floats}
use ovl.Validation.Regulatory.{mrv, dcs, all_regulatory_profiles}
use ovl.Office.Scope.{ScopeType, Scope, covers_vessel}
use ovl.Office.Profiles.{ProfileAssignment, has, effective_profiles}
use ovl.Office.Profiles.Union.{grants, effective_profiles-union}
use ovl.Office.Cadence.{CadenceRule, effective_cadence, default_cadence}
use ovl.Office.Cadence.Covers.{covering, effective_cadence_covers}

abbrev fleet_scope : Scope
fleet_scope = record { type = ScopeType.fleet; key = "" }

abbrev tankers : Scope
tankers = record { type = ScopeType.group; key = "tankers" }

abbrev profile_assignments : List ProfileAssignment
profile_assignments =
    record { scope = fleet_scope; profiles = mrv ∷ [] }
    ∷ record { scope = tankers; profiles = dcs ∷ [] }
    ∷ []

effective_profiles-union_example :
    has (effective_profiles profile_assignments "v1" ("tankers" ∷ [])) dcs ≡ (
      any (grants "v1" ("tankers" ∷ []) dcs) profile_assignments && has all_regulatory_profiles dcs)
effective_profiles-union_example =
    effective_profiles-union profile_assignments "v1" ("tankers" ∷ []) dcs

abbrev cadences : List (CadenceRule ℕ)
cadences =
    record { scope = fleet_scope; min_report_interval_hours = 24; max_gap_hours = 8 }
    ∷ record { scope = tankers; min_report_interval_hours = 12; max_gap_hours = 8 }
    ∷ record {
      scope = record tankers { key = "ferries" };
      min_report_interval_hours = 6;
      max_gap_hours = 3;
    }
    ∷ []

abbrev eight_hours : CadenceRule ℕ → Bool
eight_hours r = r.max_gap_hours == 8

effective_cadence_covers_example :
    eight_hours (effective_cadence ⦃fl = whole_floats⦄ cadences "v1" ("tankers" ∷ [])) ≡ (
      if any (covering "v1" ("tankers" ∷ [])) cadences
      then true
      else eight_hours (default_cadence ⦃fl = whole_floats⦄))
unfolding covers_vessel
effective_cadence_covers_example =
    effective_cadence_covers ⦃fl = whole_floats⦄ eight_hours cadences "v1" ("tankers" ∷ []) refl
