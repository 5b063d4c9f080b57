-- ===== src/Vessel/Handlers/Committed.antt =====
-- What a committed report holds.
use ovl.Base.{
  ℕ, String, Bool, true, false, ◌||◌, Option, none, some, List, [], ◌∷◌, ◌≡◌, refl, ap, ◌∙◌, ◌⊎◌,
  inl, inr, arith, ltb, Bool-cases, Option-cases, if◌then◌else◌,
}
use ovl.Base.Dict.{Dict}
use ovl.Base.Floats.{Floats}
use ovl.Validation.Finding.{Severity, Findings, has_errors, is_error}
use ovl.Validation.Report.{Value, Fields}
use ovl.Domain.State.{State, is_editable, in_chain}
use ovl.Domain.Report.{Report, save_section}
use ovl.Domain.Report.Save.{save_section_cases}
use ovl.Domain.Lifecycle.{
  Counts, count_one, count_findings, mark_ready, submit, mark_synced, mark_remarked, invalidate,
  new_correction,
}
use ovl.Vessel.Handlers.Actions.{
  Action, save, check, press_submit, correct, acknowledge, remark, cascade, notice, act, run,
}
use ovl.Vessel.Handlers.{
  Desk, Context, evaluate_report, handle_save_section, handle_check_report, handle_submit_report,
  handle_start_correction, mark_report_synced, apply_remark_set, apply_invalidation_notice,
  cascade_report,
}

count_one_errors :
    (s : Severity) (c : Counts) → ltb 0 (count_one s c).errors ≡ (is_error s || ltb 0 c.errors)
count_one_errors Severity.error c = ground arith
count_one_errors Severity.warning c = refl
count_one_errors Severity.info c = refl
count_one_errors (Severity.unknown s) c = refl

errors_counted : (fs : Findings) → ltb 0 (count_findings fs).errors ≡ has_errors fs
unfolding count_findings
errors_counted [] = refl
errors_counted (f ∷ fs) =
    count_one_errors f.severity (count_findings fs)
    ∙ ap (λ b. is_error f.severity || b) (errors_counted fs)

module _ {F : Type 0} ⦃fl : Floats F⦄ where
  -- The fields and the findings of the last check of this version, where that check had no error.
  abbrev pub vet : Action F → Desk F → Option (Fields F × Findings) → Option (Fields F × Findings)
  vet (check now ctx) d v =
      if is_editable d.report.state
      then if has_errors (evaluate_report ctx d.report)
        then none
        else some (d.report.fields, evaluate_report ctx d.report)
      else v
  vet (correct now user) d v = if is_editable d.report.state then v else none
  vet _ d v = v

  abbrev pub vet_all :
      List (Action F) → Desk F → Option (Fields F × Findings) → Option (Fields F × Findings)
  vet_all [] d v = v
  vet_all (a ∷ as') d v = vet_all as' (act a d) (vet a d v)

  -- `v` is a check without errors of exactly these fields.
  abbrev pub PassedBy : Option (Fields F × Findings) → Fields F → Type 0
  PassedBy none fields = ⊥
  PassedBy (some (checked, findings)) fields = (checked ≡ fields) × (has_errors findings ≡ false)

  abbrev pub Vetted : Option (Fields F × Findings) → Report F → Type 0
  Vetted v r = (r.state ≡ State.draft) ⊎ PassedBy v r.fields

  -- An invalidation notice meets a committed version, not the draft of a correction.
  abbrev pub MeetsCommitted : Action F → Desk F → Type 0
  MeetsCommitted (notice rules at) d = in_chain d.report.state ≡ true
  MeetsCommitted _ d = Unit

  abbrev pub AllMeetCommitted : List (Action F) → Desk F → Type 0
  AllMeetCommitted [] d = Unit
  AllMeetCommitted (a ∷ as') d = MeetsCommitted a d × AllMeetCommitted as' (act a d)

  Vetted-save :
      (d : Desk F) (v : Option (Fields F × Findings)) (now : ℕ) (locked : Bool) (section : String)
      (changes : Dict (Value F)) (user : String)
      → Vetted v d.report
      → Vetted v (handle_save_section d now locked section changes user).0.report
  unfolding handle_save_section
  Vetted-save d v now locked section changes user h =
      elim (Bool-cases (is_editable d.report.state)) [
        | inr e ↦ rw (e, handle_save_section) h
        | inl e ↦ elim (Bool-cases locked) [
          | inl l ↦ rw (e, l, handle_save_section) h
          | inr l ↦ elim (Option-cases (save_section d.report now section changes user)) [
            | inl w ↦ rw (e, l, w, handle_save_section) h
            | inr ((r', ev), w) ↦
                rw (e, l, w, handle_save_section)
                  (ground (arith, save_section_cases d.report now section changes user r' ev w))
          ]
        ]
      ]

  Vetted-check :
      (d : Desk F) (v : Option (Fields F × Findings)) (now : ℕ) (ctx : Context F)
      → Vetted v d.report
      → Vetted (vet (check now ctx) d v) (handle_check_report d now ctx).0.report
  unfolding handle_check_report mark_ready
  Vetted-check d v now ctx h = ground (arith, errors_counted (evaluate_report ctx d.report))

  Vetted-submit :
      (d : Desk F) (v : Option (Fields F × Findings)) (now : ℕ) (can : Bool) (user : String)
      → Vetted v d.report
      → Vetted v (handle_submit_report d now can user).0.report
  unfolding handle_submit_report submit
  Vetted-submit d v now can user h = ground arith

  Vetted-correct :
      (d : Desk F) (v : Option (Fields F × Findings)) (now : ℕ) (user : String)
      → Vetted v d.report
      → Vetted (vet (correct now user) d v) (handle_start_correction d now user).0.report
  unfolding handle_start_correction new_correction
  Vetted-correct d v now user h = ground arith

  Vetted-acknowledge :
      (d : Desk F) (v : Option (Fields F × Findings)) (at : ℕ)
      → Vetted v d.report
      → Vetted v (mark_report_synced d at).report
  unfolding mark_report_synced mark_synced
  Vetted-acknowledge d v at h = ground arith

  Vetted-remark :
      (d : Desk F) (v : Option (Fields F × Findings)) (fields : List String) (actor : String)
      (at : ℕ)
      → Vetted v d.report
      → Vetted v (apply_remark_set d fields actor at).report
  unfolding apply_remark_set mark_remarked
  Vetted-remark d v fields actor at h = ground arith

  Vetted-cascade :
      (d : Desk F) (v : Option (Fields F × Findings)) (rules : List String) (at : ℕ)
      → Vetted v d.report
      → Vetted v (cascade_report d rules at).report
  unfolding cascade_report invalidate in_chain
  Vetted-cascade d v [] at h = h
  Vetted-cascade d v (rule ∷ rules) at h = ground arith

  Vetted-notice :
      (d : Desk F) (v : Option (Fields F × Findings)) (rules : List String) (at : ℕ)
      → in_chain d.report.state ≡ true
      → Vetted v d.report
      → Vetted v (apply_invalidation_notice d rules at).report
  unfolding apply_invalidation_notice invalidate in_chain
  Vetted-notice d v rules at c h = ground arith

  Vetted-act :
      (a : Action F) (d : Desk F) (v : Option (Fields F × Findings))
      → MeetsCommitted a d
      → Vetted v d.report
      → Vetted (vet a d v) (act a d).report
  unfolding act
  Vetted-act (save now locked section changes user) d v c h =
      Vetted-save d v now locked section changes user h
  Vetted-act (check now ctx) d v c h = Vetted-check d v now ctx h
  Vetted-act (press_submit now can user) d v c h = Vetted-submit d v now can user h
  Vetted-act (correct now user) d v c h = Vetted-correct d v now user h
  Vetted-act (acknowledge at) d v c h = Vetted-acknowledge d v at h
  Vetted-act (remark fields actor at) d v c h = Vetted-remark d v fields actor at h
  Vetted-act (cascade rules at) d v c h = Vetted-cascade d v rules at h
  Vetted-act (notice rules at) d v c h = Vetted-notice d v rules at c h

  Vetted-run :
      (as' : List (Action F)) (d : Desk F) (v : Option (Fields F × Findings))
      → AllMeetCommitted as' d
      → Vetted v d.report
      → Vetted (vet_all as' d v) (run as' d).report
  unfolding run
  Vetted-run [] d v c h = h
  Vetted-run (a ∷ as') d v c h = Vetted-run as' (act a d) (vet a d v) c.1 (Vetted-act a d v c.0 h)

  -- From a draft, along any requests and sync items in which an invalidation notice arrives only while
  -- the latest version is committed: when the report is committed, the last health check of this
  -- version had no error and was of exactly the fields that the report has.
  pub committed_fields_checked :
      (d : Desk F) (as' : List (Action F))
      → d.report.state ≡ State.draft
      → AllMeetCommitted as' d
      → in_chain (run as' d).report.state ≡ true
      → PassedBy (vet_all as' d none) (run as' d).report.fields
  unfolding in_chain
  committed_fields_checked d as' s c h = ground (arith, Vetted-run as' d none c (inl s))
