-- ===== src/Vessel/Handlers/Diagram.antt =====
-- The states of a report: which action changes them how, and what `InvalidatedFrom` holds.
use ovl.Base.{
  ℕ, String, Bool, true, false, not, Option, none, some, List, [], ◌∷◌, ◌≡◌, ◌⊎◌, inl, inr, arith,
  refl, if◌then◌else◌, Bool-cases, Option-cases,
}
use ovl.Base.Dict.{Dict}
use ovl.Base.Floats.{Floats}
use ovl.Validation.Report.{Value}
use ovl.Domain.State.{State, is_editable, in_chain, is_invalidated_state}
use ovl.Domain.Report.{Report, demote, save_section}
use ovl.Domain.Report.Save.{save_section_cases}
use ovl.Domain.Lifecycle.{
  mark_ready, submit, mark_synced, mark_remarked, invalidate, new_correction,
}
use ovl.Vessel.Handlers.Actions.{
  Action, save, check, press_submit, correct, acknowledge, remark, cascade, notice, act,
}
use ovl.Vessel.Handlers.{
  Desk, Context, handle_save_section, handle_check_report, handle_submit_report,
  handle_start_correction, mark_report_synced, apply_remark_set, apply_invalidation_notice,
  cascade_report,
}

-- Which change of state each action may bring.
abbrev pub enters : {F : Type 0} → Action F → State → State → Bool
enters (save now locked section changes user) State.ready State.draft = true
enters (check now ctx) State.draft State.ready = true
enters (check now ctx) State.ready State.draft = true
enters (press_submit now can user) State.ready State.submitted = true
enters (correct now user) s State.draft = not (is_editable s)
enters (acknowledge at) State.submitted State.synced = true
enters (remark fields actor at) s State.remarked = not (is_editable s)
enters (cascade rules at) s State.invalidated = not (is_editable s)
enters (notice rules at) s State.invalidated = true
enters _ _ _ = false

-- What an invalidated report names: the state that it left for it.
abbrev pub origin_after : {F : Type 0} → Report F → Option State
origin_after r = if is_invalidated_state r.state then r.invalidated_from else some r.state

abbrev pub if_invalidated : State → Option State → Option State
if_invalidated s from = if is_invalidated_state s then from else none

committed_states : (s : State) → in_chain s ≡ not (is_editable s)
unfolding in_chain
committed_states s = ground arith

refl_origin :
    (s : State) (from : Option State)
    → if_invalidated s from ≡ if_invalidated s (if is_invalidated_state s then from else some s)
refl_origin s from = ground arith

module _ {F : Type 0} where
  abbrev pub Legal : Action F → Report F → Report F → Type 0
  Legal a r r' =
      ((r'.state ≡ r.state) ⊎ (enters a r.state r'.state ≡ true))
      × (if_invalidated r'.state r'.invalidated_from ≡ if_invalidated r'.state (origin_after r))

  Legal-refl : (a : Action F) (r : Report F) → Legal a r r
  Legal-refl a r = (inl refl, refl_origin r.state r.invalidated_from)

  -- A save of a draft or a ready report leaves a draft or a ready report.
  Legal-editable :
      (now : ℕ) (locked : Bool) (section : String) (changes : Dict (Value F)) (user : String)
      (r r' : Report F)
      → is_editable r.state ≡ true
      → ((r'.state ≡ r.state) ⊎ (r'.state ≡ demote r.state))
      → Legal (save now locked section changes user) r r'
  Legal-editable now locked section changes user r r' e h = ground arith

  state_cases :
      (r r' : Report F)
      → ((r'.fields ≡ r.fields) × (r'.state ≡ r.state)) ⊎ (r'.state ≡ demote r.state)
      → (r'.state ≡ r.state) ⊎ (r'.state ≡ demote r.state)
  state_cases r r' (inl h) = inl h.1
  state_cases r r' (inr h) = inr h

module _ {F : Type 0} ⦃fl : Floats F⦄ where
  Legal-check :
      (d : Desk F) (now : ℕ) (ctx : Context F)
      → Legal (check now ctx) d.report (handle_check_report d now ctx).0.report
  unfolding handle_check_report mark_ready
  Legal-check d now ctx = ground arith

  Legal-submit :
      (d : Desk F) (now : ℕ) (can : Bool) (user : String)
      → Legal (press_submit now can user) d.report (handle_submit_report d now can user).0.report
  unfolding handle_submit_report submit
  Legal-submit d now can user = ground arith

  Legal-correct :
      (d : Desk F) (now : ℕ) (user : String)
      → Legal (correct now user) d.report (handle_start_correction d now user).0.report
  unfolding handle_start_correction new_correction
  Legal-correct d now user = ground arith

  Legal-acknowledge :
      (d : Desk F) (at : ℕ) → Legal (acknowledge at) d.report (mark_report_synced d at).report
  unfolding mark_report_synced mark_synced
  Legal-acknowledge d at = ground arith

  Legal-remark :
      (d : Desk F) (fields : List String) (actor : String) (at : ℕ)
      → Legal (remark fields actor at) d.report (apply_remark_set d fields actor at).report
  unfolding apply_remark_set mark_remarked
  Legal-remark d fields actor at = ground arith

  Legal-cascade :
      (d : Desk F) (rules : List String) (at : ℕ)
      → Legal (cascade rules at) d.report (cascade_report d rules at).report
  unfolding cascade_report invalidate
  Legal-cascade d [] at = ground arith
  Legal-cascade d (rule ∷ rules) at = ground (arith, committed_states d.report.state)

  Legal-notice :
      (d : Desk F) (rules : List String) (at : ℕ)
      → Legal (notice rules at) d.report (apply_invalidation_notice d rules at).report
  unfolding apply_invalidation_notice invalidate
  Legal-notice d rules at = ground arith

  Legal-save :
      (d : Desk F) (now : ℕ) (locked : Bool) (section : String) (changes : Dict (Value F))
      (user : String)
      → Legal
          (save now locked section changes user)
          d.report
          (handle_save_section d now locked section changes user).0.report
  unfolding handle_save_section
  Legal-save d now locked section changes user = elim (Bool-cases (is_editable d.report.state)) [
    | inr e ↦
        rw (e, handle_save_section) (Legal-refl (save now locked section changes user) d.report)
    | inl e ↦ elim (Bool-cases locked) [
      | inl l ↦
          rw (e, l, handle_save_section)
            (Legal-refl (save now locked section changes user) d.report)
      | inr l ↦ elim (Option-cases (save_section d.report now section changes user)) [
        | inl w ↦
            rw (e, l, w, handle_save_section)
              (Legal-refl (save now locked section changes user) d.report)
        | inr ((r', ev), w) ↦
            rw (e, l, w, handle_save_section)
              (Legal-editable now locked section changes user d.report r' e (
                state_cases d.report r'
                  (save_section_cases d.report now section changes user r' ev w)))
      ]
    ]
  ]

  -- Every request and every sync item keeps the state of the report, or changes it as that action may:
  -- a save takes a ready report back to a draft; a check moves between draft and ready; a submit takes
  -- a ready report to submitted, and an acknowledgement a submitted one to synced; a correction takes
  -- a committed version to a draft, a remark to remarked, a cascade to invalidated; a notice takes any
  -- report to invalidated. A report that is invalidated afterwards names the state that it was in just
  -- before, or, where that is invalidated too, what it named then.
  pub act-Legal : (a : Action F) (d : Desk F) → Legal a d.report (act a d).report
  unfolding act
  act-Legal (save now locked section changes user) d = Legal-save d now locked section changes user
  act-Legal (check now ctx) d = Legal-check d now ctx
  act-Legal (press_submit now can user) d = Legal-submit d now can user
  act-Legal (correct now user) d = Legal-correct d now user
  act-Legal (acknowledge at) d = Legal-acknowledge d at
  act-Legal (remark fields actor at) d = Legal-remark d fields actor at
  act-Legal (cascade rules at) d = Legal-cascade d rules at
  act-Legal (notice rules at) d = Legal-notice d rules at

  -- The remark on an invalidated report leaves the state from before the invalidation named, though
  -- the report is not invalidated any more.
  remark_keeps_origin :
      (d : Desk F) (fields : List String) (actor : String) (at : ℕ)
      → d.report.state ≡ State.invalidated
      → ((apply_remark_set d fields actor at).report.state ≡ State.remarked)
        × ((apply_remark_set d fields actor at).report.invalidated_from ≡ d.report.invalidated_from)
        × ((apply_remark_set d fields actor at).report.invalidated_rules
            ≡ d.report.invalidated_rules)
  unfolding apply_remark_set mark_remarked
  remark_keeps_origin d fields actor at h = ground arith
