-- ===== src/Validation/Cascade/Agreement.antt =====
-- The cascade after a submit beside the check before it.
use ovl.Base.{
  String, Bool, true, false, not, ◌||◌, ◌&&◌, Option, none, some, List, [], ◌∷◌, ◌++◌, ◌≡◌, ◌⊎◌,
  inl, inr, refl, arith, keep, any-append, str_eq, eq_iff, eq_refl, ltb, contains, Bool-cases,
}
use ovl.Base.Dict.{Dict, lookup, lookup-put}
use ovl.Base.Floats.{Floats}
use ovl.Validation.Finding.{Finding, Findings, has_errors, is_error}
use ovl.Validation.Report.{Report}
use ovl.Validation.Config.{Config}
use ovl.Validation.Continuity.{
  findings_at, evaluate_time_chain, evaluate_rob_continuity, evaluate_event_ordering,
  evaluate_timestamp_uniqueness,
}
use ovl.Validation.Continuity.Maps.{
  entry_errors, Balanced-event_ordering, Balanced-timestamp_uniqueness,
}
use ovl.Validation.Cascade.{
  any_rule, rules_at, record_rule, record_if, record_all, record_neighbours, revalidate_sorted,
  is_invalidated, insert_by_time, sort_stable, or_default, revalidate, SortSlice, DistinctTimes,
}
use ovl.Validation.Precheck.{merge, neighbour_findings, continuity_of, evaluate_continuity}

abbrev flag : String → Dict (List String) → Bool
flag id d = any_rule (rules_at id d)

any_rule-snoc : (xs : List String) (x : String) → any_rule (xs ++ x ∷ []) ≡ true
any_rule-snoc [] x = refl
any_rule-snoc (y ∷ ys) x = refl

any_rule_of_contains : (xs : List String) (x : String) → contains xs x ≡ true → any_rule xs ≡ true
any_rule_of_contains [] x h = cc
any_rule_of_contains (y ∷ ys) x h = refl

flag-record_rule :
    (id k rule : String) (d : Dict (List String))
    → flag id (record_rule k rule d) ≡ (str_eq k id || flag id d)
unfolding record_rule
flag-record_rule id k rule d = elim (Bool-cases (contains (rules_at k d) rule)) [
  | inl e ↦ rw e (ground (arith, eq_iff k id, any_rule_of_contains (rules_at k d) rule e))
  | inr e ↦ rw e (
      ground (
        arith,
        eq_iff k id,
        lookup-put k id (rules_at k d ++ rule ∷ []) d,
        any_rule-snoc (rules_at k d) rule,
      ))
]

flag-record_if :
    (b : Bool) (id k rule : String) (d : Dict (List String))
    → flag id (record_if b k rule d) ≡ ((str_eq k id && b) || flag id d)
flag-record_if b id k rule d = ground (arith, flag-record_rule id k rule d)

flag-record_all :
    (id rule : String) (fs : Dict Findings) (d : Dict (List String))
    → flag id (record_all rule fs d) ≡ (entry_errors id fs || flag id d)
unfolding record_all
flag-record_all id rule [] d = refl
flag-record_all id rule ((k, w) ∷ fs) d = ground (
  arith,
  flag-record_all id rule fs (record_if (has_errors w) k rule d),
  flag-record_if (has_errors w) id k rule d,
)

regroup : (s a b m f : Bool) → (m || ((s && b) || ((s && a) || f))) ≡ (((s && (a || b)) || m) || f)
regroup s a b m f = ground arith

module _ {F : Type 0} ⦃fl : Floats F⦄ (cfg : Config F) where
  abbrev pair_errors : Option (Report F) → Report F → Bool
  pair_errors prev r =
      has_errors (evaluate_time_chain r prev cfg) || has_errors (evaluate_rob_continuity r prev cfg)

  -- Some report of this id breaks a rule against its predecessor.
  abbrev errors_of : String → Option (Report F) → List (Report F) → Bool
  errors_of id prev [] = false
  errors_of id prev (x ∷ xs) =
      (str_eq x.report_id id && pair_errors prev x) || errors_of id (some x) xs

  flag-record_neighbours :
      (id : String) (prev : Option (Report F)) (xs : List (Report F)) (d : Dict (List String))
      → flag id (record_neighbours cfg prev xs d) ≡ (errors_of id prev xs || flag id d)
  unfolding record_neighbours
  flag-record_neighbours id prev [] d = refl
  flag-record_neighbours id prev (x ∷ xs) d = rw (flag-record_neighbours id (some x) xs _) (
      rw flag-record_if (
        rw flag-record_if (
          regroup (str_eq x.report_id id) (has_errors (evaluate_time_chain x prev cfg))
            (has_errors (evaluate_rob_continuity x prev cfg)) (errors_of id (some x) xs)
            (flag id d))))

  -- The flag of a report after the four rules over a sorted chain.
  flag-revalidate_sorted :
      (id : String) (xs : List (Report F))
      → is_invalidated (revalidate_sorted cfg xs) id ≡ (
          errors_of id none xs
          || (has_errors (findings_at id (evaluate_event_ordering xs cfg))
              || has_errors (findings_at id (evaluate_timestamp_uniqueness xs cfg))))
  unfolding is_invalidated revalidate_sorted lookup
  flag-revalidate_sorted id xs = rw flag-record_all (
      rw flag-record_all (
        rw flag-record_neighbours (
          rw (Balanced-event_ordering id cfg xs)
            (rw (Balanced-timestamp_uniqueness id cfg xs) (ground arith)))))

module _ {F : Type 0} where
  abbrev NoneWith : String → List (Report F) → Type 0
  NoneWith id [] = Unit
  NoneWith id (x ∷ xs) = (str_eq x.report_id id ≡ false) × NoneWith id xs

  -- `r` is the one report of its id in the list.
  abbrev Only : Report F → List (Report F) → Type 0
  Only r [] = ⊥
  Only r (x ∷ xs) =
      ((x ≡ r) × NoneWith r.report_id xs) ⊎ ((str_eq x.report_id r.report_id ≡ false) × Only r xs)

  Only-merge_from :
      (r : Report F) (chain : List (Report F))
      → Only r (keep (λ other. not (str_eq other.report_id r.report_id)) chain ++ r ∷ [])
  Only-merge_from r [] = inl (refl, tt)
  Only-merge_from r (x ∷ xs) = elim (Bool-cases (str_eq x.report_id r.report_id)) [
    | inl e ↦ rw e (Only-merge_from r xs)
    | inr e ↦ rw e (inr (e, Only-merge_from r xs))
  ]

  Only-merge : (r : Report F) (chain : List (Report F)) → Only r (merge r chain)
  unfolding merge
  Only-merge r chain = Only-merge_from r chain

  NoneWith-insert :
      (id : String) (x : Report F) (xs : List (Report F))
      → str_eq x.report_id id ≡ false
      → NoneWith id xs
      → NoneWith id (insert_by_time x xs)
  unfolding insert_by_time
  NoneWith-insert id x [] h hs = (h, tt)
  NoneWith-insert id x (y ∷ ys) h hs = elim (Bool-cases (ltb y.event_time x.event_time)) [
    | inl e ↦ rw e (hs.0, NoneWith-insert id x ys h hs.1)
    | inr e ↦ rw e (h, hs)
  ]

  NoneWith-sort :
      (id : String) (xs : List (Report F)) → NoneWith id xs → NoneWith id (sort_stable xs)
  unfolding sort_stable
  NoneWith-sort id [] h = tt
  NoneWith-sort id (x ∷ xs) h = NoneWith-insert id x (sort_stable xs) h.0 (NoneWith-sort id xs h.1)

  Only-insert_self :
      (r x : Report F) (xs : List (Report F))
      → x ≡ r
      → NoneWith r.report_id xs
      → Only r (insert_by_time x xs)
  unfolding insert_by_time
  Only-insert_self r x [] e h = inl (e, tt)
  Only-insert_self r x (y ∷ ys) e h = elim (Bool-cases (ltb y.event_time x.event_time)) [
    | inl lt ↦ rw lt (inr (h.0, Only-insert_self r x ys e h.1))
    | inr ge ↦ rw ge (inl (e, h))
  ]

  Only-insert_other :
      (r x : Report F) (xs : List (Report F))
      → str_eq x.report_id r.report_id ≡ false
      → Only r xs
      → Only r (insert_by_time x xs)
  unfolding insert_by_time
  Only-insert_other r x [] e h = absurd h
  Only-insert_other r x (y ∷ ys) e h = elim (Bool-cases (ltb y.event_time x.event_time)) [
    | inl lt ↦ rw lt (elim h [
      | inl own ↦ inl (own.0, NoneWith-insert r.report_id x ys e own.1)
      | inr rest ↦ inr (rest.0, Only-insert_other r x ys e rest.1)
    ])
    | inr ge ↦ rw ge (inr (e, h))
  ]

  Only-sort : (r : Report F) (xs : List (Report F)) → Only r xs → Only r (sort_stable xs)
  unfolding sort_stable
  Only-sort r [] h = absurd h
  Only-sort r (x ∷ xs) (inl own) =
      Only-insert_self r x (sort_stable xs) own.0 (NoneWith-sort r.report_id xs own.1)
  Only-sort r (x ∷ xs) (inr rest) =
      Only-insert_other r x (sort_stable xs) rest.0 (Only-sort r xs rest.1)

module _ {F : Type 0} ⦃fl : Floats F⦄ (cfg : Config F) where
  errors_of-NoneWith :
      (id : String) (prev : Option (Report F)) (xs : List (Report F))
      → NoneWith id xs
      → errors_of cfg id prev xs ≡ false
  errors_of-NoneWith id prev [] h = refl
  errors_of-NoneWith id prev (x ∷ xs) h = ground (arith, errors_of-NoneWith id (some x) xs h.1)

  -- The neighbour loop of the check finds the errors of the one report of that id.
  has_errors-neighbour_findings :
      (r : Report F) (prev : Option (Report F)) (xs : List (Report F))
      → Only r xs
      → has_errors (neighbour_findings r cfg prev xs) ≡ errors_of cfg r.report_id prev xs
  unfolding neighbour_findings
  has_errors-neighbour_findings r prev [] h = absurd h
  has_errors-neighbour_findings r prev (x ∷ xs) (inr rest) =
      rw (rest.0) (has_errors-neighbour_findings r (some x) xs rest.1)
  has_errors-neighbour_findings r prev (x ∷ xs) (inl own) =
      rw (own.0, eq_refl r.report_id, errors_of-NoneWith r.report_id (some r) xs own.1)
        (ground (
          arith,
          any-append (λ (f : Finding). is_error f.severity) (evaluate_time_chain r prev cfg)
              (evaluate_rob_continuity r prev cfg),
        ))

  -- Both sides read the four rules off the same sorted chain.
  agreement_sorted :
      (r : Report F) (xs : List (Report F))
      → Only r xs
      → is_invalidated (revalidate_sorted cfg xs) r.report_id ≡ has_errors (continuity_of r cfg xs)
  unfolding continuity_of
  agreement_sorted r xs h = rw (
    flag-revalidate_sorted cfg r.report_id xs,
    any-append,
    any-append,
    has_errors-neighbour_findings r none xs h,
  )

module _ {F : Type 0} ⦃fl : Floats F⦄ where
  -- Where no two reports of the chain with `r` in it have the same event time, the cascade over that
  -- chain invalidates `r` exactly when the continuity check of `r` against the committed chain, which
  -- is run before the submit, has a finding of severity error. The configuration may be absent.
  pub revalidate-evaluate_continuity :
      (slice : SortSlice F) (r : Report F) (chain : List (Report F)) (cfg : Option (Config F))
      → DistinctTimes (merge r chain)
      → is_invalidated (revalidate slice (merge r chain) cfg) r.report_id
        ≡ has_errors (evaluate_continuity r chain cfg)
  unfolding revalidate evaluate_continuity
  revalidate-evaluate_continuity slice r chain cfg h = rw (slice.sort-eq-stable (merge r chain) h) (
      agreement_sorted (or_default cfg) r (sort_stable (merge r chain))
        (Only-sort r (merge r chain) (Only-merge r chain)))
