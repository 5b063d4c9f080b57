-- ===== src/Office/Scope.antt =====
-- office/compliance/scope.go: what an assignment covers.
pub mod Named
use ovl.Base.{String, Bool, true, false, Option, none, some, List, str_eq, contains, if◌then◌else◌}

-- `unknown` is any other text of a stored row.
pub data ScopeType : Type 0 where
  fleet group vessel : ScopeType
  unknown : String → ScopeType

pub record Scope : Type 0 where
  pub type : ScopeType
  pub key : String

pub data ScopeError : Type 0 where
  key_not_allowed key_required unknown_type : ScopeError

-- `Validate`; `none` where there is no error.
unfoldable pub validate : Scope → Option ScopeError
validate s = elim s.type [
  | ScopeType.fleet ↦ if str_eq s.key "" then none else some key_not_allowed
  | ScopeType.group ↦ if str_eq s.key "" then some key_required else none
  | ScopeType.vessel ↦ if str_eq s.key "" then some key_required else none
  | ScopeType.unknown t ↦ some unknown_type
]

-- `CoversVessel`
unfoldable pub covers_vessel : Scope → String → List String → Bool
covers_vessel s vessel_id groups = elim s.type [
  | ScopeType.fleet ↦ true
  | ScopeType.vessel ↦ str_eq s.key vessel_id
  | ScopeType.group ↦ contains groups s.key
  | ScopeType.unknown t ↦ false
]
