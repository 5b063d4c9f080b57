-- ===== src/Wire.antt =====
-- pkg/syncproto/convert.go: reports, events and messages in the form in which a sync sends them. An
-- `int` is its 64-bit pattern and an `int32` its 32-bit one. structpb is a library: a parameter.
pub mod RoundTrip
use ovl.Base.{
  ℕ, ◌+◌, ◌%◌, String, Bool, true, false, Option, none, some, List, [], ◌∷◌, ◌≡◌, ltb, str_eq,
  if◌then◌else◌,
}
use ovl.Base.Dict.{Dict, lookup}
use ovl.Validation.Report.{Fields}
use ovl.Domain.State.{State}
use ovl.Domain.Event.{EventType, Detail, Event}
use ovl.Domain.Report.{Report}
use ovl.Domain.Message.{ChatDirection, ChatMessage, Remark, InvalidationNotice}

-- `int32(n)`, and `int` of an int32, which extends the sign.
abbrev pub int32 : ℕ → ℕ
int32 n = n % 0x100000000

abbrev pub int_of_int32 : ℕ → ℕ
int_of_int32 n = if ltb n 0x80000000 then n else n + 0xffffffff00000000

-- The enums of the messages; proto3 enums are open, so other numbers may arrive.
pub data ReportSchemaKind : Type 0 where
  log_abstract bunker_report edn_report commercial_period : ReportSchemaKind
  cargo_nomination unspecified_kind : ReportSchemaKind
  other_kind : ℕ → ReportSchemaKind

pub data ReportLifecycleState : Type 0 where
  wire_draft wire_ready wire_submitted wire_synced wire_pushed : ReportLifecycleState
  wire_remarked wire_invalidated unspecified_state : ReportLifecycleState
  other_state : ℕ → ReportLifecycleState

pub data AuditEventType : Type 0 where
  wire_created wire_section_saved wire_health_check_result wire_submit wire_sync : AuditEventType
  wire_remark wire_correction_started wire_resubmitted wire_invalidation : AuditEventType
  wire_restore_applied wire_finding_acknowledged unspecified_type : AuditEventType
  other_type : ℕ → AuditEventType

-- `schemaKindByName`
abbrev pub schema_kind_by_name : Dict ReportSchemaKind
schema_kind_by_name =
    ("log-abstract", log_abstract)
    ∷ ("bunker-report", bunker_report)
    ∷ ("edn-report", edn_report)
    ∷ ("commercial-period", commercial_period)
    ∷ ("cargo-nomination", cargo_nomination)
    ∷ []

-- `SchemaKindFromName`
unfoldable pub schema_kind_from_name : String → Option ReportSchemaKind
schema_kind_from_name name = lookup name schema_kind_by_name

-- `SchemaNameFromKind`, on the inverse map.
unfoldable pub schema_name_from_kind : ReportSchemaKind → Option String
schema_name_from_kind log_abstract = some "log-abstract"
schema_name_from_kind bunker_report = some "bunker-report"
schema_name_from_kind edn_report = some "edn-report"
schema_name_from_kind commercial_period = some "commercial-period"
schema_name_from_kind cargo_nomination = some "cargo-nomination"
schema_name_from_kind _ = none

-- `lifecycleStateByDomain` and its inverse.
unfoldable pub lifecycle_state_by_domain : State → ReportLifecycleState
lifecycle_state_by_domain State.draft = wire_draft
lifecycle_state_by_domain State.ready = wire_ready
lifecycle_state_by_domain State.submitted = wire_submitted
lifecycle_state_by_domain State.synced = wire_synced
lifecycle_state_by_domain State.pushed = wire_pushed
lifecycle_state_by_domain State.remarked = wire_remarked
lifecycle_state_by_domain State.invalidated = wire_invalidated

unfoldable pub domain_by_lifecycle_state : ReportLifecycleState → Option State
domain_by_lifecycle_state wire_draft = some State.draft
domain_by_lifecycle_state wire_ready = some State.ready
domain_by_lifecycle_state wire_submitted = some State.submitted
domain_by_lifecycle_state wire_synced = some State.synced
domain_by_lifecycle_state wire_pushed = some State.pushed
domain_by_lifecycle_state wire_remarked = some State.remarked
domain_by_lifecycle_state wire_invalidated = some State.invalidated
domain_by_lifecycle_state _ = none

-- `auditEventTypeByDomain` and its inverse.
unfoldable pub audit_event_type_by_domain : EventType → AuditEventType
audit_event_type_by_domain EventType.created = wire_created
audit_event_type_by_domain EventType.section_saved = wire_section_saved
audit_event_type_by_domain EventType.health_check_result = wire_health_check_result
audit_event_type_by_domain EventType.submitted = wire_submit
audit_event_type_by_domain EventType.synced = wire_sync
audit_event_type_by_domain EventType.remarked = wire_remark
audit_event_type_by_domain EventType.correction_started = wire_correction_started
audit_event_type_by_domain EventType.resubmitted = wire_resubmitted
audit_event_type_by_domain EventType.invalidated = wire_invalidation
audit_event_type_by_domain EventType.restore_applied = wire_restore_applied
audit_event_type_by_domain EventType.finding_acknowledged = wire_finding_acknowledged

unfoldable pub domain_by_audit_event_type : AuditEventType → Option EventType
domain_by_audit_event_type wire_created = some EventType.created
domain_by_audit_event_type wire_section_saved = some EventType.section_saved
domain_by_audit_event_type wire_health_check_result = some EventType.health_check_result
domain_by_audit_event_type wire_submit = some EventType.submitted
domain_by_audit_event_type wire_sync = some EventType.synced
domain_by_audit_event_type wire_remark = some EventType.remarked
domain_by_audit_event_type wire_correction_started = some EventType.correction_started
domain_by_audit_event_type wire_resubmitted = some EventType.resubmitted
domain_by_audit_event_type wire_invalidation = some EventType.invalidated
domain_by_audit_event_type wire_restore_applied = some EventType.restore_applied
domain_by_audit_event_type wire_finding_acknowledged = some EventType.finding_acknowledged
domain_by_audit_event_type _ = none

-- The map that `AsMap` gives for a nil map: empty, not nil.
abbrev pub or_empty : {F : Type 0} → Fields F → Fields F
or_empty none = some []
or_empty fields = fields

-- google.golang.org/protobuf's structpb on the maps of reports and of events: `NewStruct`, which may
-- refuse a value, and `AsMap`, which gives back what was put in.
pub record StructPb (F S : Type 0) : Type 0 where
  pub new_struct : Fields F → Option S
  pub as_map : S → Fields F
  pub new_detail : Detail F → Option S
  pub as_detail : S → Detail F
  pub as_map-new_struct :
      (fields : Fields F) (s : S) → new_struct fields ≡ some s → as_map s ≡ or_empty fields
  pub as_detail-new_detail : (d : Detail F) (s : S) → new_detail d ≡ some s → as_detail s ≡ d

-- `syncv1.ReportVersion`
pub record ReportVersion (S : Type 0) : Type 0 where
  pub report_id : String
  pub version_no : ℕ
  pub schema_kind : ReportSchemaKind
  pub schema_version : String
  pub event_type : String
  pub state : ReportLifecycleState
  pub event_time : ℕ
  pub fields : S
  pub submitted_at : Option ℕ

-- `syncv1.ReportAuditEvent`
pub record ReportAuditEvent (S : Type 0) : Type 0 where
  pub report_id : String
  pub version_no : ℕ
  pub event_type : AuditEventType
  pub actor : String
  pub occurred_at : ℕ
  pub detail : S

-- `syncv1.ChatMessage`, which has no direction.
pub record WireChat : Type 0 where
  pub id : String
  pub report_id : String
  pub sender : String
  pub body : String
  pub sent_at : ℕ

module _ {F S : Type 0} where
  unfoldable pub version_with :
      Report F → Option ReportSchemaKind → Option S → Option (ReportVersion S)
  version_with r none fields = none
  version_with r (some kind) none = none
  version_with r (some kind) (some fields) = some (record {
    report_id = r.report_id;
    version_no = int32 r.version_no;
    schema_kind = kind;
    schema_version = "";
    event_type = r.event_type;
    state = lifecycle_state_by_domain r.state;
    event_time = r.event_time;
    fields = fields;
    submitted_at = r.submitted_at;
  })

  unfoldable pub report_with :
      ReportVersion S → Fields F → Option String → Option State → Option (Report F)
  report_with pv fields none state = none
  report_with pv fields (some name) none = none
  report_with pv fields (some name) (some state) = some (record {
    report_id = pv.report_id;
    version_no = int_of_int32 pv.version_no;
    schema_name = name;
    event_type = pv.event_type;
    event_time = pv.event_time;
    fields = fields;
    state = state;
    invalidated_from = none;
    invalidated_rules = [];
    created_at = 0;
    created_by = "";
    updated_at = 0;
    submitted_at = pv.submitted_at;
    submitted_by = "";
  })

  unfoldable pub audit_with : Event F → Option S → Option (ReportAuditEvent S)
  audit_with e none = none
  audit_with e (some detail) = some (record {
    report_id = e.report_id;
    version_no = int32 e.version_no;
    event_type = audit_event_type_by_domain e.type;
    actor = e.actor;
    occurred_at = e.at;
    detail = detail;
  })

  unfoldable pub event_with : ReportAuditEvent S → Detail F → Option EventType → Option (Event F)
  event_with pe detail none = none
  event_with pe detail (some type) = some (record {
    report_id = pe.report_id;
    version_no = int_of_int32 pe.version_no;
    type = type;
    at = pe.occurred_at;
    actor = pe.actor;
    detail = detail;
  })

module _ {F S : Type 0} ⦃pb : StructPb F S⦄ where
  -- `ReportVersionFromDomain`
  unfoldable pub report_version_from_domain : Report F → Option (ReportVersion S)
  unfolding version_with
  report_version_from_domain r =
      version_with r (schema_kind_from_name r.schema_name) (pb.new_struct r.fields)

  -- `ReportVersionToDomain`
  unfoldable pub report_version_to_domain : ReportVersion S → Option (Report F)
  unfolding report_with
  report_version_to_domain pv =
      report_with pv (pb.as_map pv.fields) (schema_name_from_kind pv.schema_kind)
        (domain_by_lifecycle_state pv.state)

  -- `ReportAuditEventFromDomain`
  unfoldable pub report_audit_event_from_domain : Event F → Option (ReportAuditEvent S)
  unfolding audit_with
  report_audit_event_from_domain e = audit_with e (pb.new_detail e.detail)

  -- `ReportAuditEventToDomain`
  unfoldable pub report_audit_event_to_domain : ReportAuditEvent S → Option (Event F)
  unfolding event_with
  report_audit_event_to_domain pe =
      event_with pe (pb.as_detail pe.detail) (domain_by_audit_event_type pe.event_type)

-- `ChatMessageFromDomain`
unfoldable pub chat_message_from_domain : ChatMessage → WireChat
chat_message_from_domain m = record {
  id = m.id;
  report_id = m.report_id;
  sender = m.sender;
  body = m.body;
  sent_at = m.sent_at;
}

-- `ChatMessageToDomain`
unfoldable pub chat_message_to_domain : WireChat → ChatDirection → ChatMessage
chat_message_to_domain pm direction = record {
  id = pm.id;
  report_id = pm.report_id;
  sender = pm.sender;
  body = pm.body;
  sent_at = pm.sent_at;
  direction = direction;
}

-- `RemarkFromDomain`, `RemarkToDomain`, and the same for notices: the wire form has the same fields,
-- with the version as an int32.
unfoldable pub remark_from_domain : Remark → Remark
remark_from_domain r = record r { version_no = int32 r.version_no }

unfoldable pub remark_to_domain : Remark → Remark
remark_to_domain r = record r { version_no = int_of_int32 r.version_no }

unfoldable pub notice_from_domain : InvalidationNotice → InvalidationNotice
notice_from_domain n = record n { version_no = int32 n.version_no }

unfoldable pub notice_to_domain : InvalidationNotice → InvalidationNotice
notice_to_domain n = record n { version_no = int_of_int32 n.version_no }
