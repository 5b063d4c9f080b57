-- ===== src/FieldProject.antt =====
-- pkg/fieldproject/fieldproject.go: the typed value of a field, as the office shows it.
pub mod Accepted
use ovl.Base.{String, Bool, Option, none, some}
use ovl.Schema.{Field, FieldType}
use ovl.Validation.Report.{Value, null, num, text, bool, other}

-- `Value`: a constructor for each `Kind`, with the field that the kind makes meaningful.
pub data Projected (F : Type 0) : Type 0 where
  no_value : Projected F
  of_string : String → Projected F
  of_number : F → Projected F
  of_bool : Bool → Projected F

module _ {F : Type 0} where
  project_string : Value F → Option (Projected F)
  project_string (text s) = some (of_string s)
  project_string _ = none

  project_number : Value F → Option (Projected F)
  project_number (num n) = some (of_number n)
  project_number _ = none

  project_bool : Value F → Option (Projected F)
  project_bool (bool b) = some (of_bool b)
  project_bool _ = none

  project_typed : FieldType → Value F → Option (Projected F)
  project_typed FieldType.text v = project_string v
  project_typed FieldType.enum v = project_string v
  project_typed FieldType.date v = project_string v
  project_typed FieldType.time v = project_string v
  project_typed FieldType.date_time v = project_string v
  project_typed FieldType.whole_number v = project_number v
  project_typed FieldType.decimal v = project_number v
  project_typed FieldType.boolean v = project_bool v
  project_typed (FieldType.unknown t) v = none

  -- `Project`; `none` is the error.
  unfoldable pub project : Field → Value F → Option (Projected F)
  unfolding project_string project_number project_bool project_typed
  project f null = some no_value
  project f v = project_typed f.type v
