-- ===== src/Vessel/Handlers.antt =====
-- vessel/httpapi/reports.go: the handlers on the latest version of one report. `trail` is the audit
-- log and `outbox` the queue of the next sync, both in the order of their appends. What leaves the
-- queue on an acknowledgement is in Vessel/Sync, and here the queue keeps it. The deletion of a draft,
-- after which there is no report, is in Vessel/Store. Store failures (status 500), the session and the
-- JSON bodies are left out; a handler is given the report that the store returned.
pub mod Actions
pub mod Committed
pub mod Diagram
pub mod Frozen
pub mod Replay
pub mod Trail
use ovl.Base.{
  ℕ, String, Bool, true, false, not, ◌&&◌, ◌||◌, str_eq, Option, none, some, List, [], ◌∷◌, ◌++◌,
  ◌==◌, if◌then◌else◌,
}
use ovl.Base.Dict.{Dict}
use ovl.Base.Floats.{Floats}
use ovl.Schema.{Schema}
use ovl.Validation.Finding.{Findings}
use ovl.Validation.Report.{Value, Report as ValidationReport}
use ovl.Validation.Policy.{FieldPolicy, FieldEvents}
use ovl.Validation.Config.{Config}
use ovl.Validation.FieldRules.{evaluate_field_rules}
use ovl.Validation.Plausibility.{evaluate_plausibility_rules}
use ovl.Validation.Precheck.{evaluate_continuity}
use ovl.Domain.State.{State, is_editable, in_chain, is_invalidated_state}
use ovl.Domain.Event.{Event}
use ovl.Domain.Report.{Report, to_validation, save_section}
use ovl.Domain.Lifecycle.{
  LifecycleError, mark_ready, submit, mark_synced, mark_remarked, invalidate, new_correction,
}

pub data Status : Type 0 where
  done forbidden conflict panicked : Status

pub data Queued (F : Type 0) : Type 0 where
  report_version : String → ℕ → Queued F
  audit_event : Event F → Queued F

pub record Desk (F : Type 0) : Type 0 where
  pub report : Report F
  pub older : List (Report F)
  pub trail : List (Event F)
  pub outbox : List (Queued F)

-- What `evaluateReport` loads: the schema, the applied bundle's policy and configuration, and the
-- committed chain.
pub record Context (F : Type 0) : Type 0 where
  pub schema : Schema
  pub policy : FieldPolicy
  pub events : FieldEvents
  pub config : Config F
  pub chain : List (ValidationReport F)

-- `stringsEqual`
unfoldable pub strings_equal : List String → List String → Bool
strings_equal [] [] = true
strings_equal (a ∷ as') (b ∷ bs) = str_eq a b && strings_equal as' bs
strings_equal _ _ = false

module _ {F : Type 0} where
  append_trail : Desk F → Option (Event F) → Desk F
  append_trail d none = d
  append_trail d (some e) = record d { trail = d.trail ++ e ∷ [] }

  -- An event is appended to the trail and queued for the office.
  unfoldable pub log_event : Desk F → Event F → Desk F
  log_event d e = record d { trail = d.trail ++ e ∷ []; outbox = d.outbox ++ audit_event e ∷ [] }

  unfoldable pub log_option : Desk F → Option (Event F) → Desk F
  unfolding log_event
  log_option d none = d
  log_option d (some e) = log_event d e

abbrev pub never_sent : Option State → Bool
never_sent (some State.draft) = true
never_sent (some State.ready) = true
never_sent _ = false

-- The guard of both invalidations: already recorded with the same broken rules.
abbrev pub already_recorded : {F : Type 0} → Report F → List String → Bool
already_recorded r rules = is_invalidated_state r.state && strings_equal r.invalidated_rules rules

module _ {F : Type 0} ⦃fl : Floats F⦄ where
  -- `evaluateReport`
  unfoldable pub evaluate_report : Context F → Report F → Findings
  evaluate_report ctx r =
      evaluate_field_rules (to_validation r) ctx.schema ctx.policy ctx.events
      ++ (evaluate_plausibility_rules (to_validation r) (some ctx.config) none
          ++ evaluate_continuity (to_validation r) ctx.chain (some ctx.config))

  saved_desk : Desk F → Option (Report F × Event F) → Desk F × Status
  saved_desk d none = (d, panicked)
  saved_desk d (some (r, e)) = (log_event (record d { report = r }) e, done)

  -- `handleSaveSection`, with `loadEditableReport`; `locked` says that `lockConflict` found a lock.
  -- A panic of the handler leaves the store as it was.
  unfoldable pub handle_save_section :
      Desk F → ℕ → Bool → String → Dict (Value F) → String → Desk F × Status
  unfolding saved_desk log_event
  handle_save_section d now locked section changes user =
      if not (is_editable d.report.state)
      then (d, conflict)
      else if locked
      then (d, conflict)
      else saved_desk d (save_section d.report now section changes user)

  -- `handleCheckReport`
  unfoldable pub handle_check_report : Desk F → ℕ → Context F → Desk F × Status
  unfolding log_option
  handle_check_report d now ctx =
      if not (is_editable d.report.state)
      then (d, conflict)
      else let result = mark_ready d.report now (evaluate_report ctx d.report) in
        (log_option (record d { report = result.0 }) result.1, done)

  submitted_desk : Desk F → Report F × Option (Event F) × Option LifecycleError → Desk F × Status
  submitted_desk d (r, none, err) = (d, conflict)
  submitted_desk d (r, some e, some err) = (d, conflict)
  submitted_desk d (r, some e, none) = (
    record d {
      report = r;
      trail = d.trail ++ e ∷ [];
      outbox = d.outbox ++ (report_version r.report_id r.version_no ∷ audit_event e ∷ []);
    },
    done,
  )

  -- `handleSubmitReport`; `can_submit` is `CanSubmitReports` of the user.
  unfoldable pub handle_submit_report : Desk F → ℕ → Bool → String → Desk F × Status
  unfolding submitted_desk
  handle_submit_report d now can_submit user =
      if can_submit then submitted_desk d (submit d.report now user) else (d, forbidden)

  corrected_desk :
      Desk F → Option (Report F) × Option (Event F) × Option LifecycleError → Desk F × Status
  corrected_desk d (some next, some e, none) =
      (log_event (record d { report = next; older = d.report ∷ d.older }) e, done)
  corrected_desk d (next, e, err) = (d, conflict)

  -- `handleStartCorrection`
  unfoldable pub handle_start_correction : Desk F → ℕ → String → Desk F × Status
  unfolding corrected_desk log_event
  handle_start_correction d now user = corrected_desk d (new_correction d.report now user)

  -- `markReportSynced` of vessel/httpapi/sync.go, on the acknowledged version. The outbox
  -- row that pushOutboxBatch deletes then is not touched here.
  unfoldable pub mark_report_synced : Desk F → ℕ → Desk F
  unfolding append_trail
  mark_report_synced d at =
      let result = mark_synced d.report at in append_trail (record d { report = result.0 }) result.1

  -- One set of remarks in `applyRemarks` of vessel/store/inbox.go; an error skips the set.
  unfoldable pub apply_remark_set : Desk F → List String → String → ℕ → Desk F
  unfolding append_trail
  apply_remark_set d fields actor at =
      let result = mark_remarked d.report fields actor at in
      append_trail (record d { report = result.0 }) result.1

  -- `applyInvalidationNotice` of vessel/store/inbox.go, on the latest version.
  unfoldable pub apply_invalidation_notice : Desk F → List String → ℕ → Desk F
  unfolding append_trail
  apply_invalidation_notice d rules at =
      if already_recorded d.report rules
      then d
      else let result = invalidate d.report rules at in
        append_trail (record d { report = result.0 }) (some result.1)

  invalidated_desk : Desk F → Report F × Event F → Desk F
  invalidated_desk d (r, e) = record d {
    report = r;
    trail = d.trail ++ e ∷ [];
    outbox =
        if never_sent r.invalidated_from
        then d.outbox
        else d.outbox ++ (report_version r.report_id r.version_no ∷ audit_event e ∷ []);
  }

  -- The body of the loop of `runCascade`, for a report of the committed chain and its broken rules.
  unfoldable pub cascade_report : Desk F → List String → ℕ → Desk F
  unfolding invalidated_desk
  cascade_report d [] at = d
  cascade_report d (rule ∷ rules) at =
      if not (in_chain d.report.state) || already_recorded d.report (rule ∷ rules)
      then d
      else invalidated_desk d (invalidate d.report (rule ∷ rules) at)
