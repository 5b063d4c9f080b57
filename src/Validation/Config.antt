-- ===== src/Validation/Config.antt =====
-- pkg/validation/config.go: the inputs of the plausibility and continuity rules.
use ovl.Base.{String, Bool, true, false, Option, none, some, List, [], ◌∷◌, ◌++◌, if◌then◌else◌}
use ovl.Base.Dict.{Dict, lookup}
use ovl.Base.Floats.{Floats}
use ovl.Validation.Finding.{Severity}
use Prim.Native.String.{◌++◌ as str_append}

-- `ROBSeries`
pub record RobSeries : Type 0 where
  pub name : String
  pub rob_field : String
  pub consumption_fields : List String

pub record AlternatingGroup : Type 0 where
  pub name : String
  pub stage0 : List String
  pub stage1 : List String

abbrev pub default_event_groups : List AlternatingGroup
default_event_groups =
    record {
      name = "arrivalDeparture";
      stage0 = "Arrival" ∷ "ArrivalSTS" ∷ [];
      stage1 = "Departure" ∷ "DepartureSTS" ∷ [];
    }
    ∷ record {
      name = "seaPassage";
      stage0 = "BOSP" ∷ "BeginOfSeaPassage" ∷ "FAOP" ∷ "FullAheadOnPassage" ∷ [];
      stage1 = "EOSP" ∷ "EndOfSeaPassage" ∷ [];
    }
    ∷ record { name = "shifting"; stage0 = "BeginOfShifting" ∷ []; stage1 = "EndOfShifting" ∷ [] }
    ∷ record {
      name = "canalPassage";
      stage0 = "Begin canal passage" ∷ [];
      stage1 = "End canal passage" ∷ [];
    }
    ∷ record {
      name = "anchoringDrifting";
      stage0 = "Begin Anchoring/Drifting" ∷ [];
      stage1 = "End Anchoring/Drifting" ∷ [];
    }
    ∷ record {
      name = "fuelChangeOver";
      stage0 = "Begin fuel change over" ∷ [];
      stage1 = "End fuel change over" ∷ [];
    }
    ∷ record {
      name = "deviation";
      stage0 = "Begin of deviation" ∷ [];
      stage1 = "End of deviation" ∷ [];
    }
    ∷ record {
      name = "specialArea";
      stage0 = "Entering special area" ∷ [];
      stage1 = "Leaving special area" ∷ [];
    }
    ∷ record { name = "offhire"; stage0 = "Beginofoffhire" ∷ []; stage1 = "Endofoffhire" ∷ [] }
    ∷ []

pub record Config (F : Type 0) : Type 0 where
  pub time_bucket_tolerance_hours : F
  pub implied_speed_min_kn : F
  pub implied_speed_max_kn : F
  pub time_chain_tolerance_hours : F
  pub rob_tolerance_mt : F
  pub rob_series_list : List RobSeries
  pub bunkered_amounts : Dict F
  pub fuel_type_consumption_fields : List String
  pub bdn_marker_fields : List String
  pub event_groups : List AlternatingGroup
  pub severities : Dict Severity

abbrev override : Option Severity → Severity → Severity
override none deflt = deflt
override (some s) deflt = s

module _ {F : Type 0} where
  -- `severity`
  unfoldable pub severity : Config F → String → Severity → Severity
  severity cfg rule_id deflt = override (lookup rule_id cfg.severities) deflt

module _ {F : Type 0} ⦃fl : Floats F⦄ where
  -- `DefaultConfig`; 0.1 and 0.5 are the correctly rounded quotients.
  unfoldable pub default_config : Config F
  default_config = record {
    time_bucket_tolerance_hours = fl.div (fl.of_ℕ 1) (fl.of_ℕ 10);
    implied_speed_min_kn = fl.of_ℕ 0;
    implied_speed_max_kn = fl.of_ℕ 30;
    time_chain_tolerance_hours = fl.div (fl.of_ℕ 1) (fl.of_ℕ 10);
    rob_tolerance_mt = fl.div (fl.of_ℕ 1) (fl.of_ℕ 2);
    rob_series_list = [];
    bunkered_amounts = [];
    fuel_type_consumption_fields = [];
    bdn_marker_fields = [];
    event_groups = default_event_groups;
    severities = [];
  }

pub record FuelType : Type 0 where
  pub suffix : String
  pub rob_field : String
  pub extra_consumers : Bool

abbrev pub log_abstract_fuel_types : List FuelType
log_abstract_fuel_types =
    record { suffix = "HFO"; rob_field = "HFO_ROB"; extra_consumers = true }
    ∷ record { suffix = "LFO"; rob_field = "LFO_ROB"; extra_consumers = true }
    ∷ record { suffix = "MGO"; rob_field = "MGO_ROB"; extra_consumers = true }
    ∷ record { suffix = "MDO"; rob_field = "MDO_ROB"; extra_consumers = true }
    ∷ record { suffix = "LPGP"; rob_field = "LPGP_ROB"; extra_consumers = false }
    ∷ record { suffix = "LPGB"; rob_field = "LPGB_ROB"; extra_consumers = false }
    ∷ record { suffix = "LNG"; rob_field = "LNG_ROB"; extra_consumers = false }
    ∷ record { suffix = "M"; rob_field = "Methanol_ROB"; extra_consumers = false }
    ∷ record { suffix = "E"; rob_field = "Ethanol_ROB"; extra_consumers = false }
    ∷ record { suffix = "O"; rob_field = "O_ROB"; extra_consumers = false }
    ∷ []

-- The consumption fields of one fuel type.
unfoldable pub consumer_fields : FuelType → List String
consumer_fields ft =
    (str_append "ME_Consumption_" ft.suffix
      ∷ str_append "AE_Consumption_" ft.suffix
      ∷ str_append "Boiler_Consumption_" ft.suffix
      ∷ [])
    ++ (if ft.extra_consumers
        then str_append "Inert_gas_Consumption_" ft.suffix
          ∷ str_append "Cargo_heating_Consumption_" ft.suffix
          ∷ []
        else [])

unfoldable pub series_of : List FuelType → List RobSeries
series_of [] = []
series_of (ft ∷ fts) =
    record { name = ft.suffix; rob_field = ft.rob_field; consumption_fields = consumer_fields ft }
    ∷ series_of fts

unfoldable pub fuel_fields_of : List FuelType → List String
fuel_fields_of [] = []
fuel_fields_of (ft ∷ fts) = consumer_fields ft ++ fuel_fields_of fts

module _ {F : Type 0} ⦃fl : Floats F⦄ where
  -- `LogAbstractConfig`
  unfoldable pub log_abstract_config : Config F
  unfolding default_config series_of fuel_fields_of consumer_fields
  log_abstract_config = record (default_config {F = F}) {
    rob_series_list = series_of log_abstract_fuel_types;
    fuel_type_consumption_fields = fuel_fields_of log_abstract_fuel_types;
  }
