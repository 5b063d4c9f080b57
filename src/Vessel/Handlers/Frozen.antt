-- ===== src/Vessel/Handlers/Frozen.antt =====
-- What may change in a committed report.
use ovl.Base.{ℕ, String, Bool, true, false, List, [], ◌∷◌, ◌≡◌, refl, ◌∙◌, arith, all}
use ovl.Base.Dict.{Dict}
use ovl.Base.Floats.{Floats}
use ovl.Validation.Report.{Value}
use ovl.Domain.State.{State, is_editable, in_chain}
use ovl.Domain.Report.{Report}
use ovl.Domain.Lifecycle.{submit, mark_synced, mark_remarked, invalidate}
use ovl.Vessel.Handlers.Actions.{
  Action, save, check, press_submit, correct, acknowledge, remark, cascade, notice, act, run,
}
use ovl.Vessel.Handlers.{
  Desk, Context, handle_save_section, handle_check_report, handle_submit_report, mark_report_synced,
  apply_remark_set, apply_invalidation_notice, cascade_report,
}

locked_of_in_chain : (s : State) → in_chain s ≡ true → is_editable s ≡ false
unfolding in_chain
locked_of_in_chain s h = ground arith

module _ {F : Type 0} ⦃fl : Floats F⦄ where
  -- What stays of a committed report.
  pub record Frozen (r r' : Report F) : Type 0 where
    pub fields_kept : r'.fields ≡ r.fields
    pub time_kept : r'.event_time ≡ r.event_time
    pub version_kept : r'.version_no ≡ r.version_no
    pub still_in_chain : in_chain r'.state ≡ true

  Frozen-save :
      (d : Desk F) (now : ℕ) (locked : Bool) (section : String) (changes : Dict (Value F))
      (user : String)
      → in_chain d.report.state ≡ true
      → Frozen d.report (handle_save_section d now locked section changes user).0.report
  unfolding handle_save_section
  Frozen-save d now locked section changes user h =
      rw (locked_of_in_chain d.report.state h, handle_save_section)
        (record { fields_kept = refl; time_kept = refl; version_kept = refl; still_in_chain = h })

  Frozen-check :
      (d : Desk F) (now : ℕ) (ctx : Context F)
      → in_chain d.report.state ≡ true
      → Frozen d.report (handle_check_report d now ctx).0.report
  unfolding handle_check_report
  Frozen-check d now ctx h =
      rw (locked_of_in_chain d.report.state h, handle_check_report)
        (record { fields_kept = refl; time_kept = refl; version_kept = refl; still_in_chain = h })

  Frozen-submit :
      (d : Desk F) (now : ℕ) (can : Bool) (user : String)
      → in_chain d.report.state ≡ true
      → Frozen d.report (handle_submit_report d now can user).0.report
  unfolding handle_submit_report submit in_chain
  Frozen-submit d now can user h = ground arith

  Frozen-acknowledge :
      (d : Desk F) (at : ℕ)
      → in_chain d.report.state ≡ true
      → Frozen d.report (mark_report_synced d at).report
  unfolding mark_report_synced mark_synced in_chain
  Frozen-acknowledge d at h = ground arith

  Frozen-remark :
      (d : Desk F) (fields : List String) (actor : String) (at : ℕ)
      → in_chain d.report.state ≡ true
      → Frozen d.report (apply_remark_set d fields actor at).report
  unfolding apply_remark_set mark_remarked in_chain
  Frozen-remark d fields actor at h = ground arith

  Frozen-cascade :
      (d : Desk F) (rules : List String) (at : ℕ)
      → in_chain d.report.state ≡ true
      → Frozen d.report (cascade_report d rules at).report
  unfolding cascade_report invalidate in_chain
  Frozen-cascade d [] at h = ground arith
  Frozen-cascade d (rule ∷ rules) at h = ground arith

  Frozen-notice :
      (d : Desk F) (rules : List String) (at : ℕ)
      → in_chain d.report.state ≡ true
      → Frozen d.report (apply_invalidation_notice d rules at).report
  unfolding apply_invalidation_notice invalidate in_chain
  Frozen-notice d rules at h = ground arith

  notice_on_draft :
      (d : Desk F) (rules : List String) (at : ℕ)
      → d.report.state ≡ State.draft
      → Frozen d.report (apply_invalidation_notice d rules at).report
  unfolding apply_invalidation_notice invalidate in_chain
  notice_on_draft d rules at s = ground arith

  abbrev pub no_correction : Action F → Bool
  no_correction (correct now user) = false
  no_correction _ = true

  Frozen-act :
      (a : Action F) (d : Desk F)
      → no_correction a ≡ true
      → in_chain d.report.state ≡ true
      → Frozen d.report (act a d).report
  unfolding act
  Frozen-act (save now locked section changes user) d c h =
      Frozen-save d now locked section changes user h
  Frozen-act (check now ctx) d c h = Frozen-check d now ctx h
  Frozen-act (press_submit now can user) d c h = Frozen-submit d now can user h
  Frozen-act (correct now user) d c h = cc
  Frozen-act (acknowledge at) d c h = Frozen-acknowledge d at h
  Frozen-act (remark fields actor at) d c h = Frozen-remark d fields actor at h
  Frozen-act (cascade rules at) d c h = Frozen-cascade d rules at h
  Frozen-act (notice rules at) d c h = Frozen-notice d rules at h

  Frozen-trans : {r s t : Report F} → Frozen r s → Frozen s t → Frozen r t
  Frozen-trans p q = record {
    fields_kept = q.fields_kept ∙ p.fields_kept;
    time_kept = q.time_kept ∙ p.time_kept;
    version_kept = q.version_kept ∙ p.version_kept;
    still_in_chain = q.still_in_chain;
  }

  -- Once a report is committed, no requests and no sync items, corrections apart, change its fields,
  -- its event time or its version, and it stays committed.
  pub committed-Frozen :
      (as' : List (Action F)) (d : Desk F)
      → all no_correction as' ≡ true
      → in_chain d.report.state ≡ true
      → Frozen d.report (run as' d).report
  unfolding run
  committed-Frozen [] d c h = record {
    fields_kept = refl;
    time_kept = refl;
    version_kept = refl;
    still_in_chain = h;
  }
  committed-Frozen (a ∷ as') d c h =
      let step = Frozen-act a d (ground arith) h in
      Frozen-trans step (committed-Frozen as' (act a d) (ground arith) step.still_in_chain)

  -- A draft that meets an invalidation notice, of whatever version, is locked for good: whatever
  -- requests and sync items follow, corrections apart, its fields, its event time and its version stay
  -- as they were, and it counts as committed though it was never submitted.
  pub notice_locks_draft :
      (d : Desk F) (rules : List String) (at : ℕ) (as' : List (Action F))
      → all no_correction as' ≡ true
      → d.report.state ≡ State.draft
      → Frozen d.report (run as' (apply_invalidation_notice d rules at)).report
  notice_locks_draft d rules at as' c s =
      let noticed = notice_on_draft d rules at s in
      Frozen-trans noticed
        (committed-Frozen as' (apply_invalidation_notice d rules at) c noticed.still_in_chain)
