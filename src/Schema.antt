-- ===== src/Schema.antt =====
-- pkg/schema/schema.go: the curated OVD schemas. The display-only fields of `Field` (unit, notes,
-- description, DNV flag) and the JSON decoding are left out.
pub mod Diff
use ovl.Base.{
  ℕ, String, Bool, true, false, Option, none, some, List, [], ◌∷◌, str_eq, if◌then◌else◌,
}

-- `unknown` is any other text that a document may carry.
pub data FieldType : Type 0 where
  text whole_number decimal date time date_time boolean enum : FieldType
  unknown : String → FieldType

pub record Field : Type 0 where
  pub name : String
  pub type : FieldType
  pub max_length : Option ℕ
  pub enum_ref : Option String
  pub schema_mandatory : Bool
  pub relevance : String
  pub section : String

pub record Schema : Type 0 where
  pub schema_name : String
  pub version : String
  pub fields : List Field

-- The first field of that name.
find_field : String → List Field → Option Field
find_field name [] = none
find_field name (f ∷ fs) = if str_eq f.name name then some f else find_field name fs

unfoldable pub field_by_name : Schema → String → Option Field
unfolding find_field
field_by_name s name = find_field name s.fields

-- Equality of Go strings of type FieldType.
unfoldable pub type_eq : FieldType → FieldType → Bool
type_eq text text = true
type_eq whole_number whole_number = true
type_eq decimal decimal = true
type_eq date date = true
type_eq time time = true
type_eq date_time date_time = true
type_eq boolean boolean = true
type_eq enum enum = true
type_eq (unknown a) (unknown b) = str_eq a b
type_eq _ _ = false
