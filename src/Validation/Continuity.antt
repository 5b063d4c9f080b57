-- ===== src/Validation/Continuity.antt =====
-- pkg/validation/continuity.go: the rules that span consecutive reports of a chain. The maps from a
-- report's id to its findings are association lists in the order of first insertion.
pub mod Maps
use ovl.Base.{
  ℕ, ◌/◌, ◌-◌, String, Bool, true, false, ◌&&◌, ◌||◌, not, Option, none, some, List, [], ◌∷◌, ◌++◌,
  contains, leb, ltb, if◌then◌else◌,
}
use ovl.Base.Int.{ℤ, pos, neg_ℕ, int_eq}
use ovl.Base.Dict.{Dict, lookup, put}
use ovl.Base.Floats.{Floats, hours_between}
use ovl.Validation.Finding.{Severity, error, warning, Finding, Findings}
use ovl.Validation.Report.{Report, float}
use ovl.Validation.Config.{RobSeries, AlternatingGroup, Config, severity}

abbrev pub rule_time_chain : String
rule_time_chain = "continuity.timeChain"

abbrev pub rule_rob_continuity : String
rule_rob_continuity = "continuity.robContinuity"

abbrev pub rule_event_ordering : String
rule_event_ordering = "continuity.eventOrdering"

abbrev pub rule_timestamp_uniqueness : String
rule_timestamp_uniqueness = "continuity.timestampUniqueness"

-- `out[id]`, nil where there is none.
abbrev pub findings_at : String → Dict Findings → Findings
findings_at id d = elim (lookup id d) [ none ↦ [] | some fs ↦ fs ]

-- `out[id] = append(out[id], f)`
unfoldable pub append_at : String → Finding → Dict Findings → Dict Findings
append_at id f d = put id (findings_at id d ++ f ∷ []) d

module _ {F : Type 0} ⦃fl : Floats F⦄ where
  -- math.Abs(a - b) > tolerance
  abbrev pub drifts : F → F → F → Bool
  drifts a b tolerance = fl.lt tolerance (fl.abs (fl.sub a b))

  time_chain : Report F → Report F → Config F → Option F → Findings
  time_chain r prev cfg none = []
  time_chain r prev cfg (some tsp) =
      if drifts tsp (hours_between r.event_time prev.event_time) cfg.time_chain_tolerance_hours
      then record {
        rule_id = rule_time_chain;
        severity = severity cfg rule_time_chain warning;
        field = "Time_Since_Previous_Report";
      }
        ∷ []
      else []

  -- `EvaluateTimeChain`
  unfoldable pub evaluate_time_chain : Report F → Option (Report F) → Config F → Findings
  unfolding time_chain
  evaluate_time_chain r none cfg = []
  evaluate_time_chain r (some prev) cfg =
      time_chain r prev cfg (float r "Time_Since_Previous_Report")

  abbrev pub or_zero : Option F → F
  or_zero none = fl.of_ℕ 0
  or_zero (some x) = x

  -- The inner loop: the sum of the consumption fields, a missing one counting as 0.
  unfoldable pub sum_fields : Report F → List String → F → F
  sum_fields r [] acc = acc
  sum_fields r (f ∷ fs) acc = sum_fields r fs (fl.add acc (or_zero (float r f)))

  unfoldable pub expected_rob : Report F → Config F → RobSeries → F → F
  expected_rob r cfg s prior =
      fl.add (fl.sub prior (sum_fields r s.consumption_fields (fl.of_ℕ 0)))
        (or_zero (lookup s.name cfg.bunkered_amounts))

  rob_series : Report F → Config F → RobSeries → Option F → Option F → Findings
  rob_series r cfg s (some cur) (some prior) =
      if drifts cur (expected_rob r cfg s prior) cfg.rob_tolerance_mt
      then record {
        rule_id = rule_rob_continuity;
        severity = severity cfg rule_rob_continuity warning;
        field = s.rob_field;
      }
        ∷ []
      else []
  rob_series r cfg s _ _ = []

  rob_loop : Report F → Report F → Config F → List RobSeries → Findings
  rob_loop r prev cfg [] = []
  rob_loop r prev cfg (s ∷ ss) =
      rob_series r cfg s (float r s.rob_field) (float prev s.rob_field) ++ rob_loop r prev cfg ss

  -- `EvaluateROBContinuity`
  unfoldable pub evaluate_rob_continuity : Report F → Option (Report F) → Config F → Findings
  unfolding rob_series rob_loop
  evaluate_rob_continuity r none cfg = []
  evaluate_rob_continuity r (some prev) cfg = rob_loop r prev cfg cfg.rob_series_list

-- The Unix epoch, in nanoseconds from the start of year 0: 719528 days.
abbrev unix_epoch : ℕ
unix_epoch = 62167219200000000000

-- `EventTime.Unix() / 60`: whole seconds, then a quotient that goes towards 0. `Unix` rounds down.
unfoldable pub minute_key : ℕ → ℤ
minute_key t =
    let s = t / 1000000000 in
    let e = unix_epoch / 1000000000 in if leb e s then pos ((s - e) / 60) else neg_ℕ ((e - s) / 60)

module _ {F : Type 0} where
  -- `byMinute[key] = append(byMinute[key], r)`
  add_to_group : ℤ → Report F → List (ℤ × List (Report F)) → List (ℤ × List (Report F))
  add_to_group k r [] = (k, r ∷ []) ∷ []
  add_to_group k r ((j, rs) ∷ gs) =
      if int_eq j k then (j, rs ++ r ∷ []) ∷ gs else (j, rs) ∷ add_to_group k r gs

  unfoldable pub by_minute :
      List (Report F) → List (ℤ × List (Report F)) → List (ℤ × List (Report F))
  unfolding add_to_group
  by_minute [] gs = gs
  by_minute (r ∷ rs) gs = by_minute rs (add_to_group (minute_key r.event_time) r gs)

  mark_all : Config F → List (Report F) → Dict Findings → Dict Findings
  mark_all cfg [] out = out
  mark_all cfg (r ∷ rs) out = mark_all cfg rs (
      append_at r.report_id
        (record {
          rule_id = rule_timestamp_uniqueness;
          severity = severity cfg rule_timestamp_uniqueness error;
          field = "";
        })
        out)

  mark_groups : Config F → List (ℤ × List (Report F)) → Dict Findings → Dict Findings
  mark_groups cfg [] out = out
  mark_groups cfg ((k, []) ∷ gs) out = mark_groups cfg gs out
  mark_groups cfg ((k, a ∷ []) ∷ gs) out = mark_groups cfg gs out
  mark_groups cfg ((k, a ∷ b ∷ rs) ∷ gs) out = mark_groups cfg gs (mark_all cfg (a ∷ b ∷ rs) out)

  -- `EvaluateTimestampUniqueness`
  unfoldable pub evaluate_timestamp_uniqueness : List (Report F) → Config F → Dict Findings
  unfolding mark_groups mark_all
  evaluate_timestamp_uniqueness chain cfg = mark_groups cfg (by_minute chain []) []

-- -1 is `none`.
pub data Stage : Type 0 where
  begins ends : Stage

unfoldable pub stage_of : AlternatingGroup → String → Option Stage
stage_of g event_type =
    if contains g.stage0 event_type
    then some begins
    else if contains g.stage1 event_type
    then some ends
    else none

abbrev pub same_stage : Option Stage → Stage → Bool
same_stage (some begins) begins = true
same_stage (some ends) ends = true
same_stage _ _ = false

module _ {F : Type 0} where
  -- The body of the inner loop: the stage after `r`, and the findings.
  order_step :
      Config F
      → Report F
      → Option Stage
      → Option Stage
      → Dict Findings
      → Option Stage × Dict Findings
  order_step cfg r none last out = (last, out)
  order_step cfg r (some stage) last out = (
    some stage,
    if same_stage last stage
        then append_at r.report_id
            (record {
              rule_id = rule_event_ordering;
              severity = severity cfg rule_event_ordering warning;
              field = "";
            })
            out
        else out,
  )

  order_loop :
      Config F → AlternatingGroup → List (Report F) → Option Stage → Dict Findings → Dict Findings
  order_loop cfg g [] last out = out
  order_loop cfg g (r ∷ rs) last out =
      let (last', out') = order_step cfg r (stage_of g r.event_type) last out in
      order_loop cfg g rs last' out'

  order_groups : Config F → List (Report F) → List AlternatingGroup → Dict Findings → Dict Findings
  order_groups cfg chain [] out = out
  order_groups cfg chain (g ∷ gs) out = order_groups cfg chain gs (order_loop cfg g chain none out)

  -- `EvaluateEventOrdering`
  unfoldable pub evaluate_event_ordering : List (Report F) → Config F → Dict Findings
  unfolding order_step order_loop order_groups
  evaluate_event_ordering chain cfg = order_groups cfg chain cfg.event_groups []
