-- ===== src/Wire/RoundTrip.antt =====
-- What the conversions of convert.go keep.
use ovl.Base.{
  ℕ, ◌<◌, String, none, some, [], ◌≡◌, ◌↔◌, sym, arith, Option-cases, some_inv, inl, inr, eq_iff,
}
use ovl.Base.Dict.{lookup}
use ovl.Domain.State.{State}
use ovl.Domain.Event.{EventType, Event}
use ovl.Domain.Report.{Report}
use ovl.Wire.{
  ReportSchemaKind, log_abstract, bunker_report, edn_report, commercial_period, cargo_nomination,
  unspecified_kind, other_kind, schema_kind_from_name, schema_name_from_kind,
  lifecycle_state_by_domain, domain_by_lifecycle_state, audit_event_type_by_domain,
  domain_by_audit_event_type, or_empty, StructPb, ReportVersion, ReportAuditEvent,
  report_version_from_domain, report_version_to_domain, report_audit_event_from_domain,
  report_audit_event_to_domain, int32, int_of_int32,
}

name_of_kind :
    (name : String) (kind : ReportSchemaKind)
    → schema_kind_from_name name ≡ some kind
    → schema_name_from_kind kind ≡ some name
unfolding schema_kind_from_name schema_name_from_kind lookup
name_of_kind name kind h = ground (
  arith,
  eq_iff "log-abstract" name,
  eq_iff "bunker-report" name,
  eq_iff "edn-report" name,
  eq_iff "commercial-period" name,
  eq_iff "cargo-nomination" name,
)

kind_of_name :
    (name : String) (kind : ReportSchemaKind)
    → schema_name_from_kind kind ≡ some name
    → schema_kind_from_name name ≡ some kind
unfolding schema_kind_from_name schema_name_from_kind lookup
kind_of_name name log_abstract h = rw (sym (some_inv h))
kind_of_name name bunker_report h = rw (sym (some_inv h))
kind_of_name name edn_report h = rw (sym (some_inv h))
kind_of_name name commercial_period h = rw (sym (some_inv h))
kind_of_name name cargo_nomination h = rw (sym (some_inv h))
kind_of_name name unspecified_kind h = ground arith
kind_of_name name (other_kind n) h = ground arith

-- The two directions of the table of schemas are inverse: a name has a kind exactly where the kind
-- has that name.
pub schema_kind_from_name-inverse :
    (name : String) (kind : ReportSchemaKind)
    → (schema_kind_from_name name ≡ some kind) ↔ (schema_name_from_kind kind ≡ some name)
schema_kind_from_name-inverse name kind = (name_of_kind name kind, kind_of_name name kind)

pub domain_by_lifecycle_state-inverse :
    (s : State) → domain_by_lifecycle_state (lifecycle_state_by_domain s) ≡ some s
unfolding domain_by_lifecycle_state lifecycle_state_by_domain
domain_by_lifecycle_state-inverse s = ground arith

pub domain_by_audit_event_type-inverse :
    (t : EventType) → domain_by_audit_event_type (audit_event_type_by_domain t) ≡ some t
unfolding domain_by_audit_event_type audit_event_type_by_domain
domain_by_audit_event_type-inverse t = ground arith

int_of_int32-int32 : (n : ℕ) → n < 0x80000000 → int_of_int32 (int32 n) ≡ n
int_of_int32-int32 n h = ground arith

int32_bound : (n : ℕ) → n < 0x8000000000000000 → int_of_int32 (int32 n) ≡ n → n < 0x80000000
int32_bound n h e = ground arith

-- What the wire carries of a report.
abbrev pub carried : {F : Type 0} → Report F → Report F
carried r = record r {
  fields = or_empty r.fields;
  invalidated_from = none;
  invalidated_rules = [];
  created_at = 0;
  created_by = "";
  updated_at = 0;
  submitted_by = "";
}

module _ {F S : Type 0} ⦃pb : StructPb F S⦄ where
  report_version-round_trip :
      (r : Report F) (pv : ReportVersion S)
      → r.version_no < 0x80000000
      → report_version_from_domain r ≡ some pv
      → report_version_to_domain pv ≡ some (carried r)
  unfolding report_version_from_domain report_version_to_domain
  report_version-round_trip r pv h e = elim (Option-cases (schema_kind_from_name r.schema_name)) [
    | inl k ↦ ground (arith, e)
    | inr (kind, k) ↦ elim (Option-cases (pb.new_struct r.fields)) [
      | inl f ↦ ground (arith, e)
      | inr (fields, f) ↦ ground (
        arith,
        name_of_kind r.schema_name kind k,
        pb.as_map-new_struct r.fields fields f,
        domain_by_lifecycle_state-inverse r.state,
        int_of_int32-int32 r.version_no h,
      )
    ]
  ]

  version_survives :
      (r : Report F) (pv : ReportVersion S) (r' : Report F)
      → report_version_from_domain r ≡ some pv
      → report_version_to_domain pv ≡ some r'
      → r'.version_no ≡ int_of_int32 (int32 r.version_no)
  unfolding report_version_from_domain report_version_to_domain
  version_survives r pv r' e e' = elim (Option-cases (schema_kind_from_name r.schema_name)) [
    | inl k ↦ ground (arith, e)
    | inr (kind, k) ↦ elim (Option-cases (pb.new_struct r.fields)) [
      | inl f ↦ ground (arith, e)
      | inr (fields, f) ↦
          ground
            (arith, name_of_kind r.schema_name kind k, domain_by_lifecycle_state-inverse r.state)
    ]
  ]

  -- A report that can be sent arrives as it was, less what the wire does not carry, exactly where
  -- its version fits in 31 bits; `version_no` is not negative.
  pub report_version_to_domain-from_domain :
      (r : Report F) (pv : ReportVersion S)
      → r.version_no < 0x8000000000000000
      → report_version_from_domain r ≡ some pv
      → (report_version_to_domain pv ≡ some (carried r)) ↔ (r.version_no < 0x80000000)
  report_version_to_domain-from_domain r pv h e = (
    λ back.
        let v : r.version_no ≡ int_of_int32 (int32 r.version_no) =
          version_survives r pv (carried r) e back in
        int32_bound r.version_no h (sym v),
    λ small. report_version-round_trip r pv small e,
  )

  -- An audit event that can be sent arrives as it was, where its version fits in 31 bits.
  pub report_audit_event_to_domain-from_domain :
      (e : Event F) (pe : ReportAuditEvent S)
      → e.version_no < 0x80000000
      → report_audit_event_from_domain e ≡ some pe
      → report_audit_event_to_domain pe ≡ some e
  unfolding report_audit_event_from_domain report_audit_event_to_domain
  report_audit_event_to_domain-from_domain e pe h sent =
      elim (Option-cases (pb.new_detail e.detail)) [
        | inl f ↦ ground (arith, sent)
        | inr (detail, f) ↦ ground (
          arith,
          pb.as_detail-new_detail e.detail detail f,
          domain_by_audit_event_type-inverse e.type,
          int_of_int32-int32 e.version_no h,
        )
      ]
