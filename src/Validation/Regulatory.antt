-- ===== src/Validation/Regulatory.antt =====
-- pkg/validation/regulatory.go: which fields a regulatory profile needs. The readiness of a report is
-- in the child.
pub mod Readiness
use ovl.Base.{String, Bool, true, false, not, List, [], ◌∷◌, str_eq, if◌then◌else◌}
use ovl.Base.Text.{trim_space}

pub data RegulatoryProfile : Type 0 where
  mrv dcs cii voyage_verification : RegulatoryProfile
  unknown : String → RegulatoryProfile

abbrev pub all_regulatory_profiles : List RegulatoryProfile
all_regulatory_profiles = mrv ∷ dcs ∷ cii ∷ voyage_verification ∷ []

unfoldable pub profile_eq : RegulatoryProfile → RegulatoryProfile → Bool
profile_eq mrv mrv = true
profile_eq dcs dcs = true
profile_eq cii cii = true
profile_eq voyage_verification voyage_verification = true
profile_eq (unknown a) (unknown b) = str_eq a b
profile_eq _ _ = false

pub data RelevanceRequirement : Type 0 where
  requirement_none requirement_informational requirement_needed : RelevanceRequirement

-- The pairs of the returned map; each profile stands in it at most once.
pub record Requirement : Type 0 where
  pub profile : RegulatoryProfile
  pub level : RelevanceRequirement

abbrev needs : RegulatoryProfile → Requirement
needs p = record { profile = p; level = requirement_needed }

abbrev informs : RegulatoryProfile → Requirement
informs p = record { profile = p; level = requirement_informational }

classify : String → List Requirement
classify r =
    if str_eq r "mandatory for MRV&DCS"
    then needs mrv ∷ needs dcs ∷ []
    else if str_eq r "recommended for MRV&DCS"
    then needs mrv ∷ needs dcs ∷ []
    else if str_eq r "mandatory for MRV"
    then needs mrv ∷ []
    else if str_eq r "voluntary wrt MRV"
    then informs mrv ∷ []
    else if str_eq r "for CII correction, voluntary wrt MRV"
    then informs cii ∷ informs mrv ∷ []
    else if str_eq r "for CII correction"
    then informs cii ∷ []
    else if str_eq r "DSC only, voluntary wrt MRV"
    then needs dcs ∷ informs mrv ∷ []
    else if str_eq r "mandatory for FEUM and in case of no fuel consumption for any verification"
    then needs mrv ∷ []
    else if str_eq r "recommended for voyage level verfication schemes"
    then needs voyage_verification ∷ []
    else []

-- `profileRelevance`
unfoldable pub profile_relevance : String → List Requirement
unfolding classify
profile_relevance relevance = classify (trim_space relevance)

abbrev is_nonempty : List Requirement → Bool
is_nonempty [] = false
is_nonempty (x ∷ xs) = true

-- `GHGRelevant`
unfoldable pub ghg_relevant : String → Bool
unfolding profile_relevance
ghg_relevant relevance = is_nonempty (profile_relevance relevance)
