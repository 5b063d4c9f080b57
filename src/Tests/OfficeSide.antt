-- ===== src/Tests/OfficeSide.antt =====
-- The office's assignments, the schemas, the IMO numbers, and the locks aboard.
use ovl.Base.{
  keep, SomeOf, String, true, not, none, some, List, [], ◌∷◌, ◌≡◌, refl, All, keep, ◌⊎◌, arith,
  if◌then◌else◌,
}
use ovl.Base.Dict.{lookup}
use ovl.Validation.Finding.{Severity}
use ovl.Validation.Policy.{FieldPolicyState}
use ovl.Schema.Diff.{diff_schemas}
use ovl.Schema.Diff.Partition.{has_name, diff_schemas_lem}
use ovl.Office.Scope.{ScopeType}
use ovl.Office.Severities.{RuleSeverityAssignment, strictest_group_severity, effective_severities}
use ovl.Office.Severities.Assigned.{may_be_set}
use ovl.Office.Severities.Resolved.{
  bounded_by, or_else, set_by, strictest_group_severity_lem, effective_severities-resolved,
}
use ovl.Office.FieldPolicy.{
  SchemaFieldPolicy, sets_rule, strictest_group_rule, new_unchecked, effective_field_policy,
}
use ovl.Office.FieldPolicy.Precedence.{rule_source}
use ovl.Office.Scope.Named.{names_vessel, names_fleet, names_group, last_or}
use ovl.Office.FieldPolicy.Whole.{state_in, events_in, effective_rule_whole}
use ovl.Office.FieldPolicy.Strictest.{as_strict, strictest_group_rule_lem}
use ovl.Office.Vessels.{validate_codes}
use ovl.Office.Vessels.Transposed.{exchange, seven, exchange_caught}
use ovl.Vessel.Locks.{
  SectionLock, LockKey, Call, acquire_call, sweep_call, acquire, lock_for, find, set, calls, holder,
  lock_ttl,
}
use ovl.Vessel.Locks.Exclusive.{acquired_until_expiry}
use ovl.Tests.{schema, distance}

abbrev for_group : String → Severity → RuleSeverityAssignment
for_group g s = record {
  scope = record { type = ScopeType.group; key = g };
  severities = ("continuity.timeChain", s) ∷ [];
}

abbrev two_groups : List RuleSeverityAssignment
two_groups = for_group "tankers" Severity.info ∷ for_group "dp" Severity.error ∷ []

strictest_group_severity_lem_example :
    All
      (λ a.
        bounded_by
          (strictest_group_severity two_groups "continuity.timeChain")
          (lookup "continuity.timeChain" a.severities)
        ≡ true)
      two_groups
    × ((strictest_group_severity two_groups "continuity.timeChain" ≡ none)
        ⊎ SomeOf
            (λ a.
              lookup "continuity.timeChain" a.severities
              ≡ strictest_group_severity two_groups "continuity.timeChain")
            two_groups)
strictest_group_severity_lem_example =
    strictest_group_severity_lem two_groups "continuity.timeChain"

effective_severities-resolved_example :
    let own = last_or none (keep (λ a. names_vessel "v1" a.scope) two_groups) in
    let fleet = last_or none (keep (λ a. names_fleet a.scope) two_groups) in
    let groups = keep (λ a. names_group ("tankers" ∷ "dp" ∷ []) a.scope) two_groups in
    lookup "continuity.timeChain" (effective_severities two_groups "v1" ("tankers" ∷ "dp" ∷ [])) ≡ (
      if may_be_set "continuity.timeChain"
      then or_else (set_by own "continuity.timeChain") (
          or_else
            (strictest_group_severity groups "continuity.timeChain")
            (set_by fleet "continuity.timeChain"))
      else none)
effective_severities-resolved_example =
    effective_severities-resolved two_groups "v1" ("tankers" ∷ "dp" ∷ []) "continuity.timeChain"

diff_schemas_lem_example :
    ((diff_schemas schema (record schema { fields = distance ∷ [] })).added
      ≡ keep (λ f. not (has_name f.name schema.fields)) (distance ∷ []))
    × ((diff_schemas schema (record schema { fields = distance ∷ [] })).removed
        ≡ keep (λ f. not (has_name f.name (distance ∷ []))) schema.fields)
diff_schemas_lem_example = diff_schemas_lem schema (record schema { fields = distance ∷ [] })

-- The fleet narrows a field to arrivals; the vessel hides it.
abbrev assignments : List SchemaFieldPolicy
assignments =
    record (new_unchecked (record { type = ScopeType.fleet; key = "" }) "log" "1") {
      events = ("Remarks", "Arrival" ∷ []) ∷ [];
    }
    ∷ record (new_unchecked (record { type = ScopeType.vessel; key = "v1" }) "log" "1") {
      policy = ("Remarks", FieldPolicyState.hidden) ∷ [];
    }
    ∷ []

effective_rule_whole_example :
    let winner = rule_source assignments "v1" [] "log" "1" "Remarks" in
    let result = effective_field_policy assignments "v1" [] "log" "1" in
    (lookup "Remarks" result.policy ≡ state_in winner "Remarks")
    × (lookup "Remarks" result.events ≡ events_in winner "Remarks")
effective_rule_whole_example = effective_rule_whole assignments "v1" [] "log" "1" "Remarks"

-- 9900007 is valid, and its first two digits are equal.
exchange_caught_example : exchange 0 (seven 57 57 48 48 48 48 55) ≡ seven 57 57 48 48 48 48 55
unfolding validate_codes
exchange_caught_example = exchange_caught 57 57 48 48 48 48 55 0 refl refl

abbrev key : LockKey
key = record { report_id = "r"; section = "voyage" }

abbrev masters_lock : SectionLock
masters_lock = record {
  report_id = "r";
  section = "voyage";
  user_id = "u1";
  username = "master";
  role = "master";
  acquired_at = 10;
  renewed_at = 10;
}

abbrev others : List Call
others = acquire_call 20 key "u2" "mate" "mate" ∷ sweep_call 30 ∷ []

acquired_until_expiry_example :
    (holder
        (calls lock_ttl others (acquire [] lock_ttl 10 key "u1" "master" "master").0)
        lock_ttl
        40
        key
      ≡ some masters_lock)
    × (masters_lock.user_id ≡ "u1")
unfolding acquire lock_for find set
acquired_until_expiry_example =
    acquired_until_expiry [] lock_ttl 10 key "u1" "master" "master" masters_lock others 40 refl refl
      refl (ground arith)

strictest_group_rule_lem_example :
    All
      (λ a.
        sets_rule "Remarks" a ≡ true
        → as_strict "Remarks" (strictest_group_rule assignments "Remarks") a ≡ true)
      assignments
    × ((strictest_group_rule assignments "Remarks" ≡ none)
        ⊎ SomeOf
            (λ a.
              (strictest_group_rule assignments "Remarks" ≡ some a)
              × (sets_rule "Remarks" a ≡ true))
            assignments)
strictest_group_rule_lem_example = strictest_group_rule_lem assignments "Remarks"
