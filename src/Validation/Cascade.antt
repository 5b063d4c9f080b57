-- ===== src/Validation/Cascade.antt =====
-- pkg/validation/cascade.go: which reports of a chain break a continuity rule as an error.
pub mod Agreement
pub mod Order
use ovl.Base.{
  ℕ, String, Bool, true, false, Option, none, some, List, [], ◌∷◌, ◌++◌, ◌≡◌, ◌≢◌, contains, ltb,
  if◌then◌else◌,
}
use ovl.Base.Dict.{Dict, lookup, put}
use ovl.Base.Floats.{Floats}
use ovl.Validation.Finding.{Findings, has_errors}
use ovl.Validation.Report.{Report}
use ovl.Validation.Config.{Config, default_config}
use ovl.Validation.Continuity.{
  rule_time_chain, rule_rob_continuity, rule_event_ordering, rule_timestamp_uniqueness,
  evaluate_time_chain, evaluate_rob_continuity, evaluate_event_ordering,
  evaluate_timestamp_uniqueness,
}

-- `Invalidated`: the broken rules of each report, in the order in which they were seen.
pub record CascadeResult : Type 0 where
  pub invalidated : Dict (List String)

abbrev pub rules_at : String → Dict (List String) → List String
rules_at id d = elim (lookup id d) [ none ↦ [] | some rules ↦ rules ]

abbrev pub any_rule : List String → Bool
any_rule [] = false
any_rule (x ∷ xs) = true

-- `IsInvalidated`
unfoldable pub is_invalidated : CascadeResult → String → Bool
is_invalidated c id = any_rule (rules_at id c.invalidated)

-- The closure `record`.
unfoldable pub record_rule : String → String → Dict (List String) → Dict (List String)
record_rule id rule d =
    if contains (rules_at id d) rule then d else put id (rules_at id d ++ rule ∷ []) d

abbrev pub record_if : Bool → String → String → Dict (List String) → Dict (List String)
record_if errors id rule d = if errors then record_rule id rule d else d

-- The loops over the maps of findings.
unfoldable pub record_all : String → Dict Findings → Dict (List String) → Dict (List String)
record_all rule [] d = d
record_all rule ((id, fs) ∷ rest) d = record_all rule rest (record_if (has_errors fs) id rule d)

module _ {F : Type 0} where
  -- Insertion sort by event time, which keeps the order of equal times: `sort.SliceStable`.
  unfoldable pub insert_by_time : Report F → List (Report F) → List (Report F)
  insert_by_time x [] = x ∷ []
  insert_by_time x (y ∷ ys) =
      if ltb y.event_time x.event_time then y ∷ insert_by_time x ys else x ∷ y ∷ ys

  unfoldable pub sort_stable : List (Report F) → List (Report F)
  unfolding insert_by_time
  sort_stable [] = []
  sort_stable (x ∷ xs) = insert_by_time x (sort_stable xs)

  abbrev pub NotAt : ℕ → List (Report F) → Type 0
  NotAt t [] = Unit
  NotAt t (x ∷ xs) = (t ≢ x.event_time) × NotAt t xs

  abbrev pub DistinctTimes : List (Report F) → Type 0
  DistinctTimes [] = Unit
  DistinctTimes (x ∷ xs) = NotAt x.event_time xs × DistinctTimes xs

-- `sort.Slice` by event time. It may order equal times in any way; where no two are equal there is
-- one sorted order, which is that of the stable sort.
pub record SortSlice (F : Type 0) : Type 0 where
  pub sort : List (Report F) → List (Report F)
  pub sort-eq-stable : (xs : List (Report F)) → DistinctTimes xs → sort xs ≡ sort_stable xs

module _ {F : Type 0} ⦃fl : Floats F⦄ where
  -- The loop over neighbours.
  unfoldable pub record_neighbours :
      Config F → Option (Report F) → List (Report F) → Dict (List String) → Dict (List String)
  record_neighbours cfg prev [] d = d
  record_neighbours cfg prev (r ∷ rs) d = record_neighbours cfg (some r) rs (
      record_if (has_errors (evaluate_rob_continuity r prev cfg)) r.report_id rule_rob_continuity
        (record_if (has_errors (evaluate_time_chain r prev cfg)) r.report_id rule_time_chain d))

  unfoldable pub revalidate_sorted : Config F → List (Report F) → CascadeResult
  revalidate_sorted cfg sorted = record {
    invalidated = record_all rule_timestamp_uniqueness (evaluate_timestamp_uniqueness sorted cfg) (
        record_all rule_event_ordering (evaluate_event_ordering sorted cfg)
          (record_neighbours cfg none sorted []));
  }

  abbrev pub or_default : Option (Config F) → Config F
  or_default none = default_config
  or_default (some cfg) = cfg

  -- `Revalidate`
  unfoldable pub revalidate : SortSlice F → List (Report F) → Option (Config F) → CascadeResult
  unfolding revalidate_sorted
  revalidate slice chain cfg = revalidate_sorted (or_default cfg) (slice.sort chain)
