-- ===== src/Domain/Report.antt =====
-- pkg/domain/report.go. A method that changes the report returns the new one; the clock and the new
-- identifiers are arguments. `none` stands for the zero state, the zero time and the nil map.
pub mod Save
use ovl.Base.{
  ℕ, String, Bool, true, false, not, ◌&&◌, ◌||◌, Option, none, some, List, [], ◌∷◌, ◌++◌, str_eq,
  ◌==◌, if◌then◌else◌,
}
use ovl.Base.Dict.{Dict, put}
use ovl.Base.Floats.{Floats}
use ovl.Validation.Report.{Value, null, num, text, bool, other, Fields, get_field}
use ovl.Validation.Report.{Report as ValidationReport}
use ovl.Validation.TimeParse.{parse_event_time}
use ovl.Domain.State.{State, draft, ready}
use ovl.Domain.Event.{EventType, FieldChange, Detail, Event}

pub record Report (F : Type 0) : Type 0 where
  pub report_id : String
  pub version_no : ℕ
  pub schema_name : String
  pub event_type : String
  pub event_time : ℕ
  pub fields : Fields F
  pub state : State
  pub invalidated_from : Option State
  pub invalidated_rules : List String
  pub created_at : ℕ
  pub created_by : String
  pub updated_at : ℕ
  pub submitted_at : Option ℕ
  pub submitted_by : String

module _ {F : Type 0} where
  -- `ToValidation`
  unfoldable pub to_validation : Report F → ValidationReport F
  to_validation r = record {
    report_id = r.report_id;
    version_no = r.version_no;
    schema_name = r.schema_name;
    event_type = r.event_type;
    event_time = r.event_time;
    fields = r.fields;
  }

  abbrev text_of : Option (Value F) → Option String
  text_of (some (text s)) = some s
  text_of _ = none

  set_time : Report F → Option ℕ → Report F × Bool
  set_time r none = (r, false)
  set_time r (some t) =
      if t == r.event_time then (r, false) else (record r { event_time = t }, true)

  recompute : Report F → Option String → Option String → Report F × Bool
  recompute r (some date_val) (some time_val) = set_time r (parse_event_time date_val time_val)
  recompute r _ _ = (r, false)

  -- `RecomputeEventTime`
  unfoldable pub recompute_event_time : Report F → Report F × Bool
  unfolding set_time recompute
  recompute_event_time r =
      recompute r (text_of (get_field r.fields "Date_UTC"))
        (text_of (get_field r.fields "Time_UTC"))

  created_event : Report F → Event F
  created_event r = record {
    report_id = r.report_id;
    version_no = r.version_no;
    type = EventType.created;
    at = r.created_at;
    actor = r.created_by;
    detail = Detail.creation r.schema_name r.event_type;
  }

  -- `NewReport`; `none` where no identifier can be generated.
  unfoldable pub new_report :
      Option String → ℕ → String → String → ℕ → Fields F → String → Option (Report F × Event F)
  unfolding created_event
  new_report none now schema_name event_type event_time fields created_by = none
  new_report (some id) now schema_name event_type event_time fields created_by =
      let r : Report F = record {
        report_id = id;
        version_no = 1;
        schema_name = schema_name;
        event_type = event_type;
        event_time = event_time;
        fields = fields;
        state = draft;
        invalidated_from = none;
        invalidated_rules = [];
        created_at = now;
        created_by = created_by;
        updated_at = now;
        submitted_at = none;
        submitted_by = "";
      } in
      some ((recompute_event_time r).0, created_event r)

  abbrev pub value_at : Fields F → String → Value F
  value_at fields name = elim (get_field fields name) [ none ↦ null | some v ↦ v ]

  -- A write to a nil map panics: `none`.
  abbrev pub write_field : Fields F → String → Value F → Option (Fields F)
  write_field none name v = none
  write_field (some d) name v = some (some (put name v d))

abbrev bool_eq : Bool → Bool → Bool
bool_eq true b = b
bool_eq false b = not b

abbrev pub demote : State → State
demote ready = draft
demote s = s

module _ {F : Type 0} ⦃fl : Floats F⦄ where
  -- `reflect.DeepEqual` on decoded JSON values.
  unfoldable pub deep_equal : Value F → Value F → Bool
  deep_equal null null = true
  deep_equal (num a) (num b) = fl.eq a b
  deep_equal (text a) (text b) = str_eq a b
  deep_equal (bool a) (bool b) = bool_eq a b
  deep_equal (other a) (other b) = str_eq a b
  deep_equal _ _ = false

  -- The loop over the changes, in the order in which the map yields them.
  unfoldable pub apply_changes :
      Dict (Value F) → Fields F → List (FieldChange F) → Option (Fields F × List (FieldChange F))
  apply_changes [] fields deltas = some (fields, deltas)
  apply_changes ((name, new_val) ∷ changes) fields deltas =
      let same = apply_changes changes fields deltas in
      let change : FieldChange F = record {
        field = name;
        old_value = value_at fields name;
        new_value = new_val;
      } in
      if deep_equal (value_at fields name) new_val
      then same
      else elim (write_field fields name new_val) [
        | none ↦ none
        | some fields' ↦ apply_changes changes fields' (deltas ++ change ∷ [])
      ]

  abbrev pub is_nil : List (FieldChange F) → Bool
  is_nil [] = true
  is_nil (x ∷ xs) = false

  -- The report after the loop.
  unfoldable pub saved : Report F → ℕ → Fields F → List (FieldChange F) → Report F
  saved r now fields deltas =
      if is_nil deltas
      then record r { fields = fields }
      else (recompute_event_time
          (record r { fields = fields; updated_at = now; state = demote r.state })).0

  section_event : Report F → ℕ → String → String → List (FieldChange F) → Event F
  section_event r now section actor deltas = record {
    report_id = r.report_id;
    version_no = r.version_no;
    type = EventType.section_saved;
    at = now;
    actor = actor;
    detail = Detail.section section deltas;
  }

  -- `SaveSection`; `none` where it panics.
  unfoldable pub save_section :
      Report F → ℕ → String → Dict (Value F) → String → Option (Report F × Event F)
  unfolding saved section_event apply_changes
  save_section r now section changes actor = elim (apply_changes changes r.fields []) [
    | none ↦ none
    | some (fields, deltas) ↦
        some (saved r now fields deltas, section_event r now section actor deltas)
  ]
