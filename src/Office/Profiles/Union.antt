-- ===== src/Office/Profiles/Union.antt =====
-- Which profiles are enabled for a vessel.
use ovl.Base.{
  Bool, ◌&&◌, String, List, [], ◌∷◌, any, any-append, keep, ◌≡◌, refl, ap, ◌∙◌, arith, Bool-cases,
  inl, inr,
}
use ovl.Validation.Regulatory.{RegulatoryProfile, all_regulatory_profiles, profile_eq}
use ovl.Validation.Regulatory.Readiness.Exact.{profile_eq_sound}
use ovl.Office.Scope.{covers_vessel}
use ovl.Office.Profiles.{ProfileAssignment, has, enabled, effective_profiles}

-- The assignment covers the vessel and names the profile.
abbrev pub grants : String → List String → RegulatoryProfile → ProfileAssignment → Bool
grants vessel_id vessel_groups p a =
    covers_vessel a.scope vessel_id vessel_groups && has a.profiles p

has-enabled :
    (as' : List ProfileAssignment) (vessel_id : String) (vessel_groups : List String)
    (p : RegulatoryProfile)
    → has (enabled as' vessel_id vessel_groups) p ≡ any (grants vessel_id vessel_groups p) as'
unfolding enabled
has-enabled [] vessel_id vessel_groups p = refl
has-enabled (a ∷ as') vessel_id vessel_groups p = ground (
  arith,
  has-enabled as' vessel_id vessel_groups p,
  any-append (λ q. profile_eq q p) a.profiles (enabled as' vessel_id vessel_groups),
)

has-keep :
    (t : RegulatoryProfile → Bool) (ps : List RegulatoryProfile) (p : RegulatoryProfile)
    → has (keep t ps) p ≡ (t p && has ps p)
has-keep t [] p = ground arith
has-keep t (q ∷ qs) p = elim (Bool-cases (profile_eq q p)) [
  | inl e ↦ ground (arith, has-keep t qs p, ap t (profile_eq_sound q p e))
  | inr e ↦ ground (arith, has-keep t qs p)
]

-- A profile of the vocabulary is enabled for a vessel exactly where some assignment that covers the
-- vessel names it, at whatever scope; no other profile ever is.
pub effective_profiles-union :
    (assignments : List ProfileAssignment) (vessel_id : String) (vessel_groups : List String)
    (p : RegulatoryProfile)
    → has (effective_profiles assignments vessel_id vessel_groups) p
      ≡ (any (grants vessel_id vessel_groups p) assignments && has all_regulatory_profiles p)
unfolding effective_profiles
effective_profiles-union assignments vessel_id vessel_groups p =
    has-keep (has (enabled assignments vessel_id vessel_groups)) all_regulatory_profiles p
    ∙ ap (λ b. b && has all_regulatory_profiles p)
        (has-enabled assignments vessel_id vessel_groups p)
