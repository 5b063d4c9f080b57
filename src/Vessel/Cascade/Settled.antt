-- ===== src/Vessel/Cascade/Settled.antt =====
-- A second run of the cascade.
use ovl.Base.{ℕ, String, true, some, List, [], ◌∷◌, ◌≡◌, refl, inl, inr, arith, eq_refl, Bool-cases}
use ovl.Base.Floats.{Floats}
use ovl.Validation.Config.{Config}
use ovl.Validation.Cascade.{CascadeResult, rules_at, SortSlice, revalidate}
use ovl.Domain.State.{in_chain}
use ovl.Domain.Report.{Report, to_validation}
use ovl.Domain.Lifecycle.{invalidate}
use ovl.Vessel.Handlers.{strings_equal}
use ovl.Vessel.Cascade.{flag_report, visit, visit_all, committed_chain, run_cascade}

strings_equal_refl : (xs : List String) → strings_equal xs xs ≡ true
unfolding strings_equal
strings_equal_refl [] = refl
strings_equal_refl (x ∷ xs) = rw (eq_refl x) (strings_equal_refl xs)

module _ {F : Type 0} where
  -- One visit changes nothing that the rules read.
  visit_keeps :
      (at : ℕ) (result : CascadeResult) (r : Report F)
      → (to_validation (visit at result r).0 ≡ to_validation r)
        × (in_chain (visit at result r).0.state ≡ in_chain r.state)
  unfolding visit flag_report to_validation invalidate in_chain
  visit_keeps at result r = ground arith

  flag_twice :
      (at at' : ℕ) (r : Report F) (rules : List String)
      → flag_report at' (flag_report at r rules).0 rules ≡ ((flag_report at r rules).0, [])
  unfolding flag_report invalidate
  flag_twice at at' r [] = refl
  flag_twice at at' r (rule ∷ rules) = ground (arith, strings_equal_refl (rule ∷ rules))

  flag_keeps :
      (at : ℕ) (r : Report F) (rules : List String)
      → in_chain r.state ≡ true
      → ((flag_report at r rules).0.report_id ≡ r.report_id)
        × (in_chain (flag_report at r rules).0.state ≡ true)
  unfolding flag_report invalidate in_chain
  flag_keeps at r [] h = (refl, h)
  flag_keeps at r (rule ∷ rules) h = ground arith

  visit_twice :
      (at at' : ℕ) (result : CascadeResult) (r : Report F)
      → visit at' result (visit at result r).0 ≡ ((visit at result r).0, [])
  unfolding visit
  visit_twice at at' result r =
      let rules : List String = rules_at r.report_id result.invalidated in
      elim (Bool-cases (in_chain r.state)) [
        | inr e ↦ rw (e, e)
        | inl e ↦
            rw (e, (flag_keeps at r rules e).1, (flag_keeps at r rules e).0)
              (flag_twice at at' r rules)
      ]

  visit_all_twice :
      (at at' : ℕ) (result : CascadeResult) (rs : List (Report F))
      → visit_all at' result (visit_all at result rs).0 ≡ ((visit_all at result rs).0, [])
  unfolding visit_all
  visit_all_twice at at' result [] = refl
  visit_all_twice at at' result (r ∷ rs) =
      rw (visit_twice at at' result r, visit_all_twice at at' result rs)

  committed_chain-visit_all :
      (at : ℕ) (result : CascadeResult) (rs : List (Report F))
      → committed_chain (visit_all at result rs).0 ≡ committed_chain rs
  unfolding committed_chain visit_all
  committed_chain-visit_all at result [] = refl
  committed_chain-visit_all at result (r ∷ rs) = rw (
    (visit_keeps at result r).0,
    (visit_keeps at result r).1,
    committed_chain-visit_all at result rs,
  )

module _ {F : Type 0} ⦃fl : Floats F⦄ where
  -- A second cascade over what a cascade left, at any later time and with the same configuration,
  -- changes no report and appends no event.
  pub run_cascade_settles :
      (slice : SortSlice F) (cfg : Config F) (at at' : ℕ) (reports : List (Report F))
      → run_cascade slice cfg at' (run_cascade slice cfg at reports).0
        ≡ ((run_cascade slice cfg at reports).0, [])
  unfolding run_cascade
  run_cascade_settles slice cfg at at' reports =
      rw
        (committed_chain-visit_all at (revalidate slice (committed_chain reports) (some cfg))
          reports)
        (visit_all_twice at at' _ reports)
