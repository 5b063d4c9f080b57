-- ===== src/Domain/Event.antt =====
-- pkg/domain/event.go. The free-form detail of an event is a constructor for each shape in use.
use ovl.Base.{ℕ, String, Option, List}
use ovl.Validation.Report.{Value}
use ovl.Domain.State.{State}

pub data EventType : Type 0 where
  created section_saved health_check_result submitted synced remarked : EventType
  correction_started resubmitted invalidated restore_applied finding_acknowledged : EventType

pub record FieldChange (F : Type 0) : Type 0 where
  pub field : String
  pub old_value : Value F
  pub new_value : Value F

pub data Detail (F : Type 0) : Type 0 where
  empty : Detail F
  creation : String → String → Detail F
  section : String → List (FieldChange F) → Detail F
  counts : ℕ → ℕ → ℕ → Detail F
  fields : List String → Detail F
  broken : List String → Option State → Detail F
  next_version : ℕ → Detail F

pub record Event (F : Type 0) : Type 0 where
  pub report_id : String
  pub version_no : ℕ
  pub type : EventType
  pub at : ℕ
  pub actor : String
  pub detail : Detail F
