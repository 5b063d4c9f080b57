-- ===== src/Validation/Plausibility/Severities.antt =====
-- What a configuration of severities can and cannot change in the checks of plausibility.
use ovl.Base.{
  String, Bool, true, not, Option, some, List, [], ◌∷◌, ◌++◌, ◌≡◌, refl, ap, arith, any, any-append,
  keep, Bool-cases, inl, inr, if◌then◌else◌,
}
use ovl.Base.Dict.{Dict}
use ovl.Base.Floats.{Floats}
use ovl.Validation.Finding.{Severity, Finding, Findings, has_errors, is_error}
use ovl.Validation.Report.{Report, is_empty}
use ovl.Validation.Config.{Config}
use ovl.Validation.Plausibility.{
  evaluate_plausibility_rules, evaluate_consumption_scheme_exclusivity, evaluate_time_bucket_sum,
  evaluate_implied_speed, evaluate_no_distance_stationary, evaluate_position_required,
  is_some_field,
}

kept_of_any :
    (p : String → Bool) (names : List String)
    → any p names ≡ true
    → is_some_field (keep p names) ≡ true
kept_of_any p [] h = cc
kept_of_any p (n ∷ ns) h = elim (Bool-cases (p n)) [
  | inl e ↦ rw e refl
  | inr e ↦ rw e (kept_of_any p ns (rw e at h))
]

on_right : (xs ys : Findings) → has_errors ys ≡ true → has_errors (xs ++ ys) ≡ true
on_right xs ys h = ground (arith, any-append (λ f. is_error f.severity) xs ys)

on_left : (xs ys : Findings) → has_errors xs ≡ true → has_errors (xs ++ ys) ≡ true
on_left xs ys h = ground (arith, any-append (λ f. is_error f.severity) xs ys)

error_within :
    (a b c d e : Findings) → has_errors d ≡ true → has_errors (a ++ (b ++ (c ++ (d ++ e)))) ≡ true
error_within a b c d e h =
    on_right a (b ++ (c ++ (d ++ e)))
      (on_right b (c ++ (d ++ e)) (on_right c (d ++ e) (on_left d e h)))

-- A finding without its severity.
abbrev pub place : Finding → String × String
place f = (f.rule_id, f.field)

abbrev pub places : Findings → List (String × String)
places [] = []
places (f ∷ fs) = place f ∷ places fs

places-append : (xs ys : Findings) → places (xs ++ ys) ≡ places xs ++ places ys
places-append [] ys = refl
places-append (x ∷ xs) ys = ap (λ t. place x ∷ t) (places-append xs ys)

places-if :
    (b : Bool) (xs : Findings) → places (if b then xs else []) ≡ (if b then places xs else [])
places-if b xs = ground arith

module _ {F : Type 0} where
  abbrev pub filled : Report F → String → Bool
  filled r name = not (is_empty r name)

  abbrev pub with_severities : Config F → Dict Severity → Config F
  with_severities cfg s = record cfg { severities = s }

module _ {F : Type 0} ⦃fl : Floats F⦄ where
  exclusivity_error :
      (r : Report F) (cfg : Config F) (found : Option (String → Bool))
      → any (filled r) cfg.fuel_type_consumption_fields ≡ true
      → any (filled r) cfg.bdn_marker_fields ≡ true
      → has_errors (evaluate_consumption_scheme_exclusivity r cfg found) ≡ true
  unfolding evaluate_consumption_scheme_exclusivity
  exclusivity_error r cfg found fuel bdn =
      rw (any-append, fuel, kept_of_any (filled r) cfg.bdn_marker_fields bdn) refl

  -- A report that fills a fuel-type consumption field and a BDN field of the configuration has an error,
  -- whatever severities are configured and whichever BDNs are known.
  pub both_schemes_block :
      (r : Report F) (cfg : Config F) (severities : Dict Severity) (found : Option (String → Bool))
      → any (filled r) cfg.fuel_type_consumption_fields ≡ true
      → any (filled r) cfg.bdn_marker_fields ≡ true
      → has_errors (evaluate_plausibility_rules r (some (with_severities cfg severities)) found)
        ≡ true
  unfolding evaluate_plausibility_rules
  both_schemes_block r cfg severities found fuel bdn =
      let c = with_severities cfg severities in
      error_within (evaluate_time_bucket_sum r c) (evaluate_implied_speed r c)
        (evaluate_no_distance_stationary r c) (evaluate_consumption_scheme_exclusivity r c found)
        (evaluate_position_required r c) (exclusivity_error r c found fuel bdn)

  buckets_same :
      (r : Report F) (cfg : Config F) (s : Dict Severity)
      → places (evaluate_time_bucket_sum r (with_severities cfg s))
        ≡ places (evaluate_time_bucket_sum r cfg)
  unfolding evaluate_time_bucket_sum
  buckets_same r cfg s = ground arith

  speed_same :
      (r : Report F) (cfg : Config F) (s : Dict Severity)
      → places (evaluate_implied_speed r (with_severities cfg s))
        ≡ places (evaluate_implied_speed r cfg)
  unfolding evaluate_implied_speed
  speed_same r cfg s = ground arith

  stationary_same :
      (r : Report F) (cfg : Config F) (s : Dict Severity)
      → places (evaluate_no_distance_stationary r (with_severities cfg s))
        ≡ places (evaluate_no_distance_stationary r cfg)
  unfolding evaluate_no_distance_stationary
  stationary_same r cfg s = ground arith

  position_same :
      (r : Report F) (cfg : Config F) (s : Dict Severity)
      → places (evaluate_position_required r (with_severities cfg s))
        ≡ places (evaluate_position_required r cfg)
  unfolding evaluate_position_required
  position_same r cfg s = simp (places-append, places-if)

  exclusivity_same :
      (r : Report F) (cfg : Config F) (s : Dict Severity) (found : Option (String → Bool))
      → places (evaluate_consumption_scheme_exclusivity r (with_severities cfg s) found)
        ≡ places (evaluate_consumption_scheme_exclusivity r cfg found)
  unfolding evaluate_consumption_scheme_exclusivity
  exclusivity_same r cfg s found = refl

  -- The configured severities never decide whether a finding is raised: under two tables of severities
  -- the checks of plausibility raise the same rules on the same fields, in the same order.
  pub severities_only :
      (r : Report F) (cfg : Config F) (s s' : Dict Severity) (found : Option (String → Bool))
      → places (evaluate_plausibility_rules r (some (with_severities cfg s)) found)
        ≡ places (evaluate_plausibility_rules r (some (with_severities cfg s')) found)
  unfolding evaluate_plausibility_rules
  severities_only r cfg s s' found = simp (
    places-append,
    buckets_same r cfg s,
    buckets_same r cfg s',
    speed_same r cfg s,
    speed_same r cfg s',
    stationary_same r cfg s,
    stationary_same r cfg s',
    position_same r cfg s,
    position_same r cfg s',
    exclusivity_same r cfg s found,
    exclusivity_same r cfg s' found,
  )
