-- ===== src/Office/Profiles.antt =====
-- office/compliance/profiles.go: the regulatory profiles that are enabled for a vessel. A Go map from
-- profiles to true is the list of its keys.
pub mod Union
use ovl.Base.{
  Bool, true, false, not, String, Option, none, some, List, [], ◌∷◌, ◌++◌, any, keep, if◌then◌else◌,
}
use ovl.Validation.Regulatory.{RegulatoryProfile, all_regulatory_profiles, profile_eq}
use ovl.Office.Scope.{Scope, ScopeError, validate, covers_vessel}

pub record ProfileAssignment : Type 0 where
  pub scope : Scope
  pub profiles : List RegulatoryProfile

pub data ProfileError : Type 0 where
  bad_scope : ScopeError → ProfileError
  unknown_profile : RegulatoryProfile → ProfileError

pub data Result (A : Type 0) : Type 0 where
  ok : A → Result A
  failed : ProfileError → Result A

abbrev pub has : List RegulatoryProfile → RegulatoryProfile → Bool
has ps p = any (λ q. profile_eq q p) ps

-- The loop over the profiles, with `out` and the set `seen` of its elements.
normalize : Scope → List RegulatoryProfile → List RegulatoryProfile → Result ProfileAssignment
normalize scope [] out = ok (record { scope = scope; profiles = out })
normalize scope (p ∷ ps) out =
    let more = normalize scope ps (out ++ p ∷ []) in
    let same = normalize scope ps out in
    if not (has all_regulatory_profiles p)
    then failed (unknown_profile p)
    else if has out p
    then same
    else more

new_if_valid : Option ScopeError → Scope → List RegulatoryProfile → Result ProfileAssignment
new_if_valid (some e) scope profiles = failed (bad_scope e)
new_if_valid none scope profiles = normalize scope profiles []

-- `NewProfileAssignment`
unfoldable pub new_profile_assignment : Scope → List RegulatoryProfile → Result ProfileAssignment
unfolding new_if_valid normalize
new_profile_assignment scope profiles = new_if_valid (validate scope) scope profiles

-- `enabled`
unfoldable pub enabled : List ProfileAssignment → String → List String → List RegulatoryProfile
enabled [] vessel_id vessel_groups = []
enabled (a ∷ as') vessel_id vessel_groups =
    let rest = enabled as' vessel_id vessel_groups in
    if covers_vessel a.scope vessel_id vessel_groups then a.profiles ++ rest else rest

-- `EffectiveProfiles`
unfoldable pub effective_profiles :
    List ProfileAssignment → String → List String → List RegulatoryProfile
effective_profiles assignments vessel_id vessel_groups =
    keep (has (enabled assignments vessel_id vessel_groups)) all_regulatory_profiles
