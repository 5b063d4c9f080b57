-- ===== src/Validation/Report.antt =====
-- pkg/validation/report.go: the view of a report that the rules read. Times count nanoseconds from
-- the start of year 0, UTC.
use ovl.Base.{ℕ, String, Bool, true, false, Option, none, some, str_eq}
use ovl.Base.Dict.{Dict, lookup}

-- A decoded JSON value; `other` is an array or an object, kept as opaque text.
pub data Value (F : Type 0) : Type 0 where
  null : Value F
  num : F → Value F
  text : String → Value F
  bool : Bool → Value F
  other : String → Value F

-- map[string]any; `none` is Go's nil map.
abbrev pub Fields : Type 0 → Type 0
Fields F = Option (Dict (Value F))

abbrev pub get_field : {F : Type 0} → Fields F → String → Option (Value F)
get_field none name = none
get_field (some d) name = lookup name d

pub record Report (F : Type 0) : Type 0 where
  pub report_id : String
  pub version_no : ℕ
  pub schema_name : String
  pub event_type : String
  pub event_time : ℕ
  pub fields : Fields F

module _ {F : Type 0} where
  abbrev as_float : Option (Value F) → Option F
  as_float (some (num x)) = some x
  as_float _ = none

  abbrev as_string : Option (Value F) → Option String
  as_string (some (text s)) = some s
  as_string _ = none

  abbrev as_bool : Option (Value F) → Option Bool
  as_bool (some (bool b)) = some b
  as_bool _ = none

  -- `none`, null and the empty text.
  abbrev pub blank : Option (Value F) → Bool
  blank none = true
  blank (some null) = true
  blank (some (text s)) = str_eq s ""
  blank (some _) = false

  -- `Float`, `String` and `Bool`: the value where the field is there and of that type.
  unfoldable pub float : Report F → String → Option F
  float r name = as_float (get_field r.fields name)

  unfoldable pub string : Report F → String → Option String
  string r name = as_string (get_field r.fields name)

  unfoldable pub boolean : Report F → String → Option Bool
  boolean r name = as_bool (get_field r.fields name)

  -- `IsEmpty`
  unfoldable pub is_empty : Report F → String → Bool
  is_empty r name = blank (get_field r.fields name)
