-- ===== src/Vessel/Handlers/Replay.antt =====
-- The state and the version that entries of the audit log lead to.
use ovl.Base.{
  ℕ, ◌+◌, ltb, if◌then◌else◌, String, Option, none, some, List, [], ◌∷◌, ◌++◌, ◌≡◌, refl, ap₂,
  arith, ◌∙◌, inl, inr, Bool-cases,
}
use ovl.Base.Floats.{Floats}
use ovl.Validation.Report.{Fields}
use ovl.Domain.State.{State, is_editable}
use ovl.Domain.Event.{EventType, Detail, FieldChange, Event}
use ovl.Domain.Report.{Report, demote, saved}
use ovl.Domain.Report.Save.{saved_standing}
use ovl.Validation.Finding.{Findings}
use ovl.Domain.Lifecycle.{
  is_ready, is_submitted, count_findings, mark_ready, submit, mark_synced, mark_remarked,
}

-- What an entry of the audit log says of the state and the version.
pub record Standing : Type 0 where
  pub state : State
  pub version_no : ℕ

abbrev pub standing_of : {F : Type 0} → Report F → Standing
standing_of r = record { state = r.state; version_no = r.version_no }

-- A health check with errors leaves a draft, one without a ready report.
abbrev pub after_check : {F : Type 0} → Standing → Detail F → Standing
after_check p (Detail.counts errors warnings infos) =
    if ltb 0 errors then record p { state = State.draft } else record p { state = State.ready }
after_check p _ = p

abbrev pub back_to_draft : State → State
back_to_draft State.ready = State.draft
back_to_draft s = s

demoted : (s : State) → demote s ≡ back_to_draft s
demoted s = ground arith

-- A save that changed something takes a ready report back to a draft.
abbrev pub after_save : {F : Type 0} → Standing → Detail F → Standing
after_save p (Detail.section name []) = p
after_save p (Detail.section name (x ∷ xs)) = record p { state = back_to_draft p.state }
after_save p _ = p

abbrev pub after_entry : {F : Type 0} → EventType → Detail F → Standing → Standing
after_entry EventType.section_saved detail p = after_save p detail
after_entry EventType.health_check_result detail p = after_check p detail
after_entry EventType.submitted detail p = record p { state = State.submitted }
after_entry EventType.resubmitted detail p = record p { state = State.submitted }
after_entry EventType.synced detail p = record p { state = State.synced }
after_entry EventType.remarked detail p = record p { state = State.remarked }
after_entry EventType.invalidated detail p = record p { state = State.invalidated }
after_entry EventType.correction_started detail p = record {
  state = State.draft;
  version_no = p.version_no + 1;
}
after_entry _ detail p = p

unfoldable pub replay : {F : Type 0} → List (Event F) → Standing → Standing
replay [] p = p
replay (e ∷ es) p = replay es (after_entry e.type e.detail p)

pub replay-append :
    {F : Type 0} (es fs : List (Event F)) (p : Standing)
    → replay (es ++ fs) p ≡ replay fs (replay es p)
unfolding replay
replay-append [] fs p = refl
replay-append (e ∷ es) fs p = replay-append es fs (after_entry e.type e.detail p)

module _ {F : Type 0} where
  -- What an operation returns, a report and perhaps an entry, agrees with the entry.
  unfoldable pub Records : Standing → Report F → Option (Event F) → Type 0
  Records p r none = standing_of r ≡ p
  Records p r (some e) = standing_of r ≡ after_entry e.type e.detail p

  pub mark_ready-Records :
      (r : Report F) (now : ℕ) (fs : Findings)
      → Records (standing_of r) (mark_ready r now fs).0 (mark_ready r now fs).1
  unfolding mark_ready Records
  mark_ready-Records r now fs = elim (Bool-cases (is_editable r.state)) [
    | inr e ↦ rw (e, mark_ready) refl
    | inl e ↦ elim (Bool-cases (ltb 0 (count_findings fs).errors)) [
      | inl n ↦ rw (e, n, mark_ready) (rw n refl)
      | inr n ↦ rw (e, n, mark_ready) (rw n refl)
    ]
  ]

  pub submit-Records :
      (r : Report F) (now : ℕ) (actor : String)
      → Records (standing_of r) (submit r now actor).0 (submit r now actor).1
  unfolding submit Records
  submit-Records r now actor = elim (Bool-cases (is_ready r.state)) [
    | inr e ↦ rw (e, submit) refl
    | inl e ↦ elim (Bool-cases (ltb 1 r.version_no)) [
      | inl n ↦ rw (e, n, submit) refl
      | inr n ↦ rw (e, n, submit) refl
    ]
  ]

  pub mark_synced-Records :
      (r : Report F) (at : ℕ) → Records (standing_of r) (mark_synced r at).0 (mark_synced r at).1
  unfolding mark_synced Records
  mark_synced-Records r at = elim (Bool-cases (is_submitted r.state)) [
    | inl e ↦ rw (e, mark_synced) refl
    | inr e ↦ rw (e, mark_synced) refl
  ]

  pub mark_remarked-Records :
      (r : Report F) (fields : List String) (actor : String) (at : ℕ)
      → Records
          (standing_of r)
          (mark_remarked r fields actor at).0
          (mark_remarked r fields actor at).1
  unfolding mark_remarked Records
  mark_remarked-Records r fields actor at = elim (Bool-cases (is_editable r.state)) [
    | inl e ↦ rw (e, mark_remarked) refl
    | inr e ↦ rw (e, mark_remarked) refl
  ]

module _ {F : Type 0} ⦃fl : Floats F⦄ where
  pub saved-standing :
      (r : Report F) (now : ℕ) (fields : Fields F) (deltas : List (FieldChange F))
      (section : String)
      → standing_of (saved r now fields deltas)
        ≡ after_save (standing_of r) (Detail.section section deltas)
  saved-standing r now fields [] section =
      let s = saved_standing r now fields [] in
      ap₂ (λ x y. record { state = x; version_no = y }) s.0 s.1
  saved-standing r now fields (d ∷ ds) section =
      let s = saved_standing r now fields (d ∷ ds) in
      ap₂ (λ x y. record { state = x; version_no = y }) (s.0 ∙ demoted r.state) s.1
