-- ===== src/Validation/Regulatory/Readiness/Exact.antt =====
-- What the readiness of a report says, independently of the loops that compute it.
use ovl.Base.{
  append_nil, append_assoc, String, Bool, true, not, ◌&&◌, ◌||◌, List, [], ◌∷◌, ◌++◌, ◌≡◌, refl,
  sym, ap, ◌∙◌, arith, any, keep, All, eq_iff, eq_refl, Bool-cases, inl, inr, if◌then◌else◌,
}
use ovl.Schema.{Field}
use ovl.Validation.Report.{Report, is_empty}
use ovl.Validation.Policy.{FieldPolicy, FieldEvents, state_for_event, is_hidden}
use ovl.Validation.Regulatory.{
  RegulatoryProfile, profile_eq, Requirement, profile_relevance, classify,
}
use ovl.Validation.Regulatory.Readiness.{
  ProfileReadiness, Missing, Progress, has_profile, note_one, is_none, is_needed, note, survey,
  missing_of, report_profiles, evaluate_regulatory_readiness,
}

abbrev no_progress : Progress
no_progress = record { seen = []; missing = [] }

-- What a list of requirements says of one profile.
abbrev pub concerns : RegulatoryProfile → List Requirement → Bool
concerns p rs = any (λ q. not (is_none q.level) && profile_eq q.profile p) rs

abbrev pub requires : RegulatoryProfile → List Requirement → Bool
requires p rs = any (λ q. is_needed q.level && profile_eq q.profile p) rs

abbrev pub names : List Field → List String
names [] = []
names (f ∷ fs) = f.name ∷ names fs

module _ {F : Type 0} where
  abbrev pub visible : Report F → FieldPolicy → FieldEvents → Field → Bool
  visible r policy events f =
      not (
        is_hidden
          (state_for_event policy f.name f.schema_mandatory f.relevance events r.event_type))

  -- The field is shown on this report's event and matters to the profile.
  abbrev pub shown_for : Report F → FieldPolicy → FieldEvents → RegulatoryProfile → Field → Bool
  shown_for r policy events p f =
      visible r policy events f && concerns p (profile_relevance f.relevance)

  -- Besides, the profile needs it and it is empty.
  abbrev pub lacking : Report F → FieldPolicy → FieldEvents → RegulatoryProfile → Field → Bool
  lacking r policy events p f =
      visible r policy events f && (requires p (profile_relevance f.relevance) && is_empty r f.name)

  abbrev pub expected :
      Report F
      → List Field
      → FieldPolicy
      → FieldEvents
      → List RegulatoryProfile
      → List ProfileReadiness
  expected r fields policy events [] = []
  expected r fields policy events (p ∷ ps) =
      let rest = expected r fields policy events ps in
      if any (shown_for r policy events p) fields
      then record { profile = p; missing_fields = names (keep (lacking r policy events p) fields) }
        ∷ rest
      else rest

profile_eq_refl : (p : RegulatoryProfile) → profile_eq p p ≡ true
unfolding profile_eq
profile_eq_refl RegulatoryProfile.mrv = refl
profile_eq_refl RegulatoryProfile.dcs = refl
profile_eq_refl RegulatoryProfile.cii = refl
profile_eq_refl RegulatoryProfile.voyage_verification = refl
profile_eq_refl (RegulatoryProfile.unknown a) = eq_refl a

pub profile_eq_sound : (p q : RegulatoryProfile) → profile_eq p q ≡ true → p ≡ q
unfolding profile_eq
profile_eq_sound (RegulatoryProfile.unknown a) (RegulatoryProfile.unknown b) h =
    ap RegulatoryProfile.unknown ((eq_iff a b).0 h)
profile_eq_sound RegulatoryProfile.mrv q h = ground arith
profile_eq_sound RegulatoryProfile.dcs q h = ground arith
profile_eq_sound RegulatoryProfile.cii q h = ground arith
profile_eq_sound RegulatoryProfile.voyage_verification q h = ground arith
profile_eq_sound (RegulatoryProfile.unknown a) q h = ground arith

missing_of-append :
    (p : RegulatoryProfile) (xs ys : List Missing)
    → missing_of p (xs ++ ys) ≡ missing_of p xs ++ missing_of p ys
missing_of-append p [] ys = refl
missing_of-append p (x ∷ xs) ys = ground (arith, missing_of-append p xs ys)

-- The name, once for each requirement that needs the field for `p`, if the field is empty.
abbrev hits : RegulatoryProfile → Bool → String → List Requirement → List String
hits p empty name [] = []
hits p empty name (r ∷ rs) =
    let rest = hits p empty name rs in
    if is_needed r.level && profile_eq r.profile p && empty then name ∷ rest else rest

-- An enabled profile is enabled under every equal name.
enabled_as :
    (enabled : List RegulatoryProfile) (p q : RegulatoryProfile)
    → has_profile enabled p ≡ true
    → profile_eq q p ≡ true
    → has_profile enabled q ≡ true
enabled_as enabled p q h e = rw (profile_eq_sound q p e) h

note_one-missing :
    (enabled : List RegulatoryProfile) (empty : Bool) (name : String) (p : RegulatoryProfile)
    (r : Requirement) (acc : Progress)
    → has_profile enabled p ≡ true
    → missing_of p (note_one enabled empty name r acc).missing
      ≡ missing_of p acc.missing ++ hits p empty name (r ∷ [])
note_one-missing enabled empty name p r acc h = elim (Bool-cases (profile_eq r.profile p)) [
  | inl e ↦ ground (
    arith,
    enabled_as enabled p r.profile h e,
    append_nil (missing_of p acc.missing),
    missing_of-append p acc.missing (record { profile = r.profile; field = name } ∷ []),
  )
  | inr e ↦ ground (
    arith,
    append_nil (missing_of p acc.missing),
    missing_of-append p acc.missing (record { profile = r.profile; field = name } ∷ []),
  )
]

note_one-seen :
    (enabled : List RegulatoryProfile) (empty : Bool) (name : String) (p : RegulatoryProfile)
    (r : Requirement) (acc : Progress)
    → has_profile enabled p ≡ true
    → has_profile (note_one enabled empty name r acc).seen p
      ≡ (concerns p (r ∷ []) || has_profile acc.seen p)
note_one-seen enabled empty name p r acc h = elim (Bool-cases (profile_eq r.profile p)) [
  | inl e ↦ ground (arith, enabled_as enabled p r.profile h e)
  | inr e ↦ ground arith
]

hits-cons :
    (p : RegulatoryProfile) (empty : Bool) (name : String) (r : Requirement) (rs : List Requirement)
    → hits p empty name (r ∷ rs) ≡ hits p empty name (r ∷ []) ++ hits p empty name rs
hits-cons p empty name r rs = ground arith

note-missing :
    (enabled : List RegulatoryProfile) (empty : Bool) (name : String) (p : RegulatoryProfile)
    (rs : List Requirement) (acc : Progress)
    → has_profile enabled p ≡ true
    → missing_of p (note enabled empty name rs acc).missing
      ≡ missing_of p acc.missing ++ hits p empty name rs
unfolding note
note-missing enabled empty name p [] acc h = sym (append_nil (missing_of p acc.missing))
note-missing enabled empty name p (r ∷ rs) acc h =
    note-missing enabled empty name p rs (note_one enabled empty name r acc) h
    ∙ ap (λ t. t ++ hits p empty name rs) (note_one-missing enabled empty name p r acc h)
    ∙ append_assoc (missing_of p acc.missing) (hits p empty name (r ∷ [])) (hits p empty name rs)
    ∙ ap (λ t. missing_of p acc.missing ++ t) (sym (hits-cons p empty name r rs))

note-seen :
    (enabled : List RegulatoryProfile) (empty : Bool) (name : String) (p : RegulatoryProfile)
    (rs : List Requirement) (acc : Progress)
    → has_profile enabled p ≡ true
    → has_profile (note enabled empty name rs acc).seen p
      ≡ (concerns p rs || has_profile acc.seen p)
unfolding note
note-seen enabled empty name p [] acc h = refl
note-seen enabled empty name p (r ∷ rs) acc h = ground (
  arith,
  note-seen enabled empty name p rs (note_one enabled empty name r acc) h,
  note_one-seen enabled empty name p r acc h,
)

-- A field counts once, since a relevance names each profile at most once.
hits_once :
    (p : RegulatoryProfile) (empty : Bool) (name relevance : String)
    → hits p empty name (profile_relevance relevance)
      ≡ (if requires p (profile_relevance relevance) && empty then name ∷ [] else [])
unfolding profile_relevance classify profile_eq
hits_once p empty name relevance = ground arith

names-if :
    (b : Bool) (f : Field) (fs : List Field)
    → (if b then f.name ∷ [] else []) ++ names fs ≡ names (if b then f ∷ fs else fs)
names-if b f fs = ground arith

module _ {F : Type 0} where
  survey-missing :
      (r : Report F) (enabled : List RegulatoryProfile) (policy : FieldPolicy)
      (events : FieldEvents) (p : RegulatoryProfile) (fs : List Field) (acc : Progress)
      → has_profile enabled p ≡ true
      → missing_of p (survey r enabled policy events fs acc).missing
        ≡ missing_of p acc.missing ++ names (keep (lacking r policy events p) fs)
  unfolding survey
  survey-missing r enabled policy events p [] acc h = sym (append_nil (missing_of p acc.missing))
  survey-missing r enabled policy events p (f ∷ fs) acc h =
      let noted = note enabled (is_empty r f.name) f.name (profile_relevance f.relevance) acc in
      elim (Bool-cases (
        is_hidden
          (state_for_event policy f.name f.schema_mandatory f.relevance events r.event_type))) [
            | inl e ↦ rw (e, survey) (survey-missing r enabled policy events p fs acc h)
            | inr e ↦
                rw (e, survey)
                  (survey-missing r enabled policy events p fs noted h
                    ∙ ap (λ t. t ++ names (keep (lacking r policy events p) fs))
                        (note-missing enabled (is_empty r f.name) f.name p
                          (profile_relevance f.relevance) acc h)
                    ∙ append_assoc (missing_of p acc.missing)
                        (hits p (is_empty r f.name) f.name (profile_relevance f.relevance))
                        (names (keep (lacking r policy events p) fs))
                    ∙ ap (λ t. missing_of p acc.missing ++ t)
                        (ap (λ t. t ++ names (keep (lacking r policy events p) fs))
                            (hits_once p (is_empty r f.name) f.name f.relevance)
                          ∙ names-if
                              (requires p (profile_relevance f.relevance) && is_empty r f.name) f
                              (keep (lacking r policy events p) fs)))
          ]

  survey-seen :
      (r : Report F) (enabled : List RegulatoryProfile) (policy : FieldPolicy)
      (events : FieldEvents) (p : RegulatoryProfile) (fs : List Field) (acc : Progress)
      → has_profile enabled p ≡ true
      → has_profile (survey r enabled policy events fs acc).seen p
        ≡ (any (shown_for r policy events p) fs || has_profile acc.seen p)
  unfolding survey
  survey-seen r enabled policy events p [] acc h = refl
  survey-seen r enabled policy events p (f ∷ fs) acc h =
      let noted = note enabled (is_empty r f.name) f.name (profile_relevance f.relevance) acc in
      ground (
        arith,
        survey-seen r enabled policy events p fs acc h,
        survey-seen r enabled policy events p fs noted h,
        note-seen enabled (is_empty r f.name) f.name p (profile_relevance f.relevance) acc h,
      )

  report_profiles_lem :
      (r : Report F) (fields : List Field) (enabled ps : List RegulatoryProfile)
      (policy : FieldPolicy) (events : FieldEvents)
      → All (λ p. has_profile enabled p ≡ true) ps
      → report_profiles (survey r enabled policy events fields no_progress) ps
        ≡ expected r fields policy events ps
  unfolding report_profiles
  report_profiles_lem r fields enabled [] policy events h = refl
  report_profiles_lem r fields enabled (p ∷ ps) policy events h =
      rw
        (
          survey-seen r enabled policy events p fields no_progress h.0,
          survey-missing r enabled policy events p fields no_progress h.0,
          report_profiles_lem r fields enabled ps policy events h.1,
        )
        (ground arith)

every_enabled_more :
    (p : RegulatoryProfile) (ps qs : List RegulatoryProfile)
    → All (λ q. has_profile ps q ≡ true) qs
    → All (λ q. has_profile (p ∷ ps) q ≡ true) qs
every_enabled_more p ps [] h = tt
every_enabled_more p ps (q ∷ qs) h = (ground arith, every_enabled_more p ps qs h.1)

every_enabled : (ps : List RegulatoryProfile) → All (λ q. has_profile ps q ≡ true) ps
every_enabled [] = tt
every_enabled (p ∷ ps) =
    (ground (arith, profile_eq_refl p), every_enabled_more p ps ps (every_enabled ps))

module _ {F : Type 0} where
  -- The readiness lists, in the order of the enabled profiles, each one that a field shown on this
  -- report's event matters to; and its missing fields are, once each and in the order of the schema,
  -- those that are shown, needed for the profile, and empty.
  pub readiness_exact :
      (r : Report F) (fields : List Field) (enabled : List RegulatoryProfile) (policy : FieldPolicy)
      (events : FieldEvents)
      → evaluate_regulatory_readiness r fields enabled policy events
        ≡ expected r fields policy events enabled
  unfolding evaluate_regulatory_readiness
  readiness_exact r fields enabled policy events =
      report_profiles_lem r fields enabled enabled policy events (every_enabled enabled)
