-- ===== src/Domain/Lifecycle.antt =====
-- pkg/domain/lifecycle.go: the transitions of a report version. A method returns the report as it
-- leaves it, the event where it produces one, and the error where there is one.
use ovl.Base.{
  ℕ, suc, ◌+◌, String, Bool, true, false, Option, none, some, List, [], ◌∷◌, ltb, if◌then◌else◌,
}
use ovl.Validation.Finding.{Severity, Findings}
use ovl.Domain.State.{State, is_editable, is_invalidated_state}
use ovl.Domain.Event.{EventType, Detail, Event}
use ovl.Domain.Report.{Report}

pub data LifecycleError : Type 0 where
  cannot_check cannot_submit cannot_remark cannot_correct : State → LifecycleError
  health_check_failed : ℕ → LifecycleError

pub record Counts : Type 0 where
  pub errors : ℕ
  pub warnings : ℕ
  pub infos : ℕ

abbrev pub count_one : Severity → Counts → Counts
count_one Severity.error c = record c { errors = suc c.errors }
count_one Severity.warning c = record c { warnings = suc c.warnings }
count_one _ c = record c { infos = suc c.infos }

unfoldable pub count_findings : Findings → Counts
count_findings [] = record { errors = 0; warnings = 0; infos = 0 }
count_findings (f ∷ fs) = count_one f.severity (count_findings fs)

abbrev pub is_ready : State → Bool
is_ready State.ready = true
is_ready _ = false

abbrev pub is_submitted : State → Bool
is_submitted State.submitted = true
is_submitted _ = false

module _ {F : Type 0} where
  event_of : Report F → EventType → ℕ → String → Detail F → Event F
  event_of r type at actor detail = record {
    report_id = r.report_id;
    version_no = r.version_no;
    type = type;
    at = at;
    actor = actor;
    detail = detail;
  }

  -- `MarkReady`
  unfoldable pub mark_ready :
      Report F → ℕ → Findings → Report F × Option (Event F) × Option LifecycleError
  unfolding event_of count_findings
  mark_ready r now findings =
      let c = count_findings findings in
      let checked =
        event_of r EventType.health_check_result now ""
          (Detail.counts c.errors c.warnings c.infos) in
      if is_editable r.state
      then if ltb 0 c.errors
        then (
          record r { updated_at = now; state = State.draft },
          some checked,
          some (health_check_failed c.errors),
        )
        else (record r { updated_at = now; state = State.ready }, some checked, none)
      else (r, none, some (cannot_check r.state))

  -- `Submit`
  unfoldable pub submit :
      Report F → ℕ → String → Report F × Option (Event F) × Option LifecycleError
  unfolding event_of
  submit r now actor =
      if is_ready r.state
      then (
        record r {
          state = State.submitted;
          submitted_at = some now;
          submitted_by = actor;
          updated_at = now;
        },
        some (
            event_of r (if ltb 1 r.version_no then EventType.resubmitted else EventType.submitted)
              now actor Detail.empty),
        none,
      )
      else (r, none, some (cannot_submit r.state))

  -- `MarkSynced`; no event where there is nothing to record.
  unfoldable pub mark_synced : Report F → ℕ → Report F × Option (Event F)
  unfolding event_of
  mark_synced r at =
      if is_submitted r.state
      then (
        record r { state = State.synced; updated_at = at },
        some (event_of r EventType.synced at "" Detail.empty),
      )
      else (r, none)

  -- `MarkRemarked`
  unfoldable pub mark_remarked :
      Report F → List String → String → ℕ → Report F × Option (Event F) × Option LifecycleError
  unfolding event_of
  mark_remarked r fields actor at =
      if is_editable r.state then (r, none, some (cannot_remark r.state)) else (
        record r { state = State.remarked; updated_at = at },
        some (event_of r EventType.remarked at actor (Detail.fields fields)),
        none,
      )

  -- `Invalidate`
  unfoldable pub invalidate : Report F → List String → ℕ → Report F × Event F
  unfolding event_of
  invalidate r rules at =
      let from = if is_invalidated_state r.state then r.invalidated_from else some r.state in
      (
        record r {
          state = State.invalidated;
          invalidated_from = from;
          invalidated_rules = rules;
          updated_at = at;
        },
        event_of r EventType.invalidated at "" (Detail.broken rules from),
      )

  -- `NewCorrection`
  unfoldable pub new_correction :
      Report F → ℕ → String → Option (Report F) × Option (Event F) × Option LifecycleError
  unfolding event_of
  new_correction r now actor =
      if is_editable r.state then (none, none, some (cannot_correct r.state)) else (
        some (record {
          report_id = r.report_id;
          version_no = r.version_no + 1;
          schema_name = r.schema_name;
          event_type = r.event_type;
          event_time = r.event_time;
          fields = r.fields;
          state = State.draft;
          invalidated_from = none;
          invalidated_rules = [];
          created_at = now;
          created_by = actor;
          updated_at = now;
          submitted_at = none;
          submitted_by = "";
        }),
        some (
            event_of r EventType.correction_started now actor
              (Detail.next_version (r.version_no + 1))),
        none,
      )
