-- ===== src/Tests.antt =====
-- Concrete inputs, and the theorems applied to them. Numbers stand for float64 here.
mod Rules
mod Reports
mod Chains
mod OfficeSide
mod Compliance
mod Syncing
mod Links
mod Uploads
mod Codes
mod Pulls
use ovl.Base.{ℕ, String, Bool, true, false, Option, none, some, List, [], ◌∷◌, refl}
use ovl.Base.Floats.{Floats, whole_floats}
use ovl.Base.Dict.{Dict}
use ovl.Schema.{Field, FieldType, Schema}
use ovl.Validation.Report.{Value, num, text, Fields, Report as ValidationReport}
use ovl.Validation.Config.{Config, default_event_groups}
use ovl.Validation.Cascade.{SortSlice, sort_stable}
use ovl.Domain.State.{State}
use ovl.Domain.Report.{Report}
use ovl.Vessel.Handlers.{Desk, Context}

abbrev pub distance : Field
distance = record {
  name = "Distance";
  type = FieldType.decimal;
  max_length = none;
  enum_ref = none;
  schema_mandatory = true;
  relevance = "mandatory for MRV";
  section = "voyage";
}

abbrev pub remarks : Field
remarks = record {
  name = "Remarks";
  type = FieldType.text;
  max_length = some 20;
  enum_ref = none;
  schema_mandatory = false;
  relevance = "";
  section = "voyage";
}

abbrev pub schema : Schema
schema = record { schema_name = "log"; version = "1"; fields = distance ∷ remarks ∷ [] }

abbrev pub config : Config ℕ
config = record {
  time_bucket_tolerance_hours = 1;
  implied_speed_min_kn = 0;
  implied_speed_max_kn = 30;
  time_chain_tolerance_hours = 1;
  rob_tolerance_mt = 1;
  rob_series_list = [];
  bunkered_amounts = [];
  fuel_type_consumption_fields = "ME_Consumption_HFO" ∷ [];
  bdn_marker_fields = "BDN_Number" ∷ [];
  event_groups = [];
  severities = [];
}

abbrev pub filled_in : Fields ℕ
filled_in = some (("Distance", num 12) ∷ [])

-- A report on an arrival at `time`, as the rules read it.
abbrev pub arrival : String → ℕ → ValidationReport ℕ
arrival id time = record {
  report_id = id;
  version_no = 1;
  schema_name = "log";
  event_type = "Arrival";
  event_time = time;
  fields = filled_in;
}

abbrev pub report : State → Fields ℕ → Report ℕ
report state fields = record {
  report_id = "r";
  version_no = 1;
  schema_name = "log";
  event_type = "Arrival";
  event_time = 100;
  fields = fields;
  state = state;
  invalidated_from = none;
  invalidated_rules = [];
  created_at = 1;
  created_by = "master";
  updated_at = 1;
  submitted_at = none;
  submitted_by = "";
}

abbrev pub desk : State → Desk ℕ
desk state = record { report = report state filled_in; older = []; trail = []; outbox = [] }

abbrev pub context : Context ℕ
context = record { schema = schema; policy = []; events = []; config = config; chain = [] }

pub stable_slice : SortSlice ℕ
stable_slice = record { sort = sort_stable; sort-eq-stable = λ xs h. refl }
