-- ===== src/Office/Bundles.antt =====
-- office/configbundle/assignment.go: which published bundle a vessel gets. The time of an assignment is
-- left out.
use ovl.Base.{
  String, Bool, true, false, Option, none, some, List, [], ◌∷◌, str_eq, contains, if◌then◌else◌,
}
use ovl.Base.Text.{trim_space}
use ovl.Office.Scope.{Scope, ScopeType, validate, ScopeError}

pub record BundleAssignment : Type 0 where
  pub scope : Scope
  pub bundle_id : String

abbrev first_by : (Scope → Bool) → List BundleAssignment → Option BundleAssignment
first_by wanted [] = none
first_by wanted (a ∷ assignments) = if wanted a.scope then some a else first_by wanted assignments

abbrev names_vessel : String → Scope → Bool
names_vessel id s = elim s.type [ ScopeType.vessel ↦ str_eq s.key id | _ ↦ false ]

abbrev names_group : List String → Scope → Bool
names_group groups s = elim s.type [ ScopeType.group ↦ contains groups s.key | _ ↦ false ]

abbrev names_fleet : Scope → Bool
names_fleet s = elim s.type [ ScopeType.fleet ↦ true | _ ↦ false ]

abbrev or_else : {A : Type 0} → Option A → Option A → Option A
or_else none b = b
or_else (some a) b = some a

unfoldable pub resolve : List BundleAssignment → String → List String → Option BundleAssignment
resolve assignments vessel_id groups =
    or_else (first_by (names_vessel vessel_id) assignments)
      (or_else (first_by (names_group groups) assignments) (first_by names_fleet assignments))

assignment_with : Scope → String → Option ScopeError → Option BundleAssignment
assignment_with scope id none =
    if str_eq id "" then none else some (record { scope = scope; bundle_id = id })
assignment_with scope id (some e) = none

-- `NewBundleAssignment`; `none` is an error.
unfoldable pub new_bundle_assignment : Scope → String → Option BundleAssignment
unfolding assignment_with
new_bundle_assignment scope bundle_id =
    assignment_with scope (trim_space bundle_id) (validate scope)
