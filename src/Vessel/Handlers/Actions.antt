-- ===== src/Vessel/Handlers/Actions.antt =====
-- The requests to the handlers and the items of a sync, as actions on a report. A report that is deleted has no
-- further actions, and deleting is none of them.
use ovl.Base.{ℕ, String, Bool, List, [], ◌∷◌}
use ovl.Base.Dict.{Dict}
use ovl.Base.Floats.{Floats}
use ovl.Validation.Report.{Value}
use ovl.Vessel.Handlers.{
  Desk, Context, handle_save_section, handle_check_report, handle_submit_report,
  handle_start_correction, mark_report_synced, apply_remark_set, apply_invalidation_notice,
  cascade_report,
}

-- One request to a handler, or one item of a sync.
pub data Action (F : Type 0) : Type 0 where
  save : ℕ → Bool → String → Dict (Value F) → String → Action F
  check : ℕ → Context F → Action F
  press_submit : ℕ → Bool → String → Action F
  correct : ℕ → String → Action F
  acknowledge : ℕ → Action F
  remark : List String → String → ℕ → Action F
  cascade : List String → ℕ → Action F
  notice : List String → ℕ → Action F

module _ {F : Type 0} ⦃fl : Floats F⦄ where
  unfoldable pub act : Action F → Desk F → Desk F
  act (save now locked section changes user) d =
      (handle_save_section d now locked section changes user).0
  act (check now ctx) d = (handle_check_report d now ctx).0
  act (press_submit now can user) d = (handle_submit_report d now can user).0
  act (correct now user) d = (handle_start_correction d now user).0
  act (acknowledge at) d = mark_report_synced d at
  act (remark fields actor at) d = apply_remark_set d fields actor at
  act (cascade rules at) d = cascade_report d rules at
  act (notice rules at) d = apply_invalidation_notice d rules at

  unfoldable pub run : List (Action F) → Desk F → Desk F
  run [] d = d
  run (a ∷ as') d = run as' (act a d)
