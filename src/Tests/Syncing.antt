-- ===== src/Tests/Syncing.antt =====
-- A vessel and its office.
use ovl.Base.{ℕ, true, false, none, some, List, [], ◌∷◌, ◌≡◌, ◌↔◌, ◌<◌, refl, sym, some_inv, arith}
use ovl.Base.Dict.{lookup}
use ovl.Base.Floats.{whole_floats}
use ovl.Validation.Report.{Fields}
use ovl.Domain.State.{State}
use ovl.Domain.Event.{EventType, Detail, Event}
use ovl.Domain.Report.{Report}
use ovl.Wire.{
  StructPb, or_empty, ReportVersion, ReportAuditEvent, report_version_from_domain,
  report_version_to_domain, report_audit_event_from_domain, report_audit_event_to_domain,
  schema_kind_from_name, log_abstract, wire_submitted, wire_submit, audit_event_type_by_domain,
  domain_by_audit_event_type, lifecycle_state_by_domain,
}
use ovl.Wire.RoundTrip.{carried, report_version_to_domain-from_domain}
use ovl.Office.Landing.{OfficeDb, has_outbox_receipt}
use ovl.Office.Landing.Push.{
  land, land_event, receipted, WireItem, audit_event_payload, Turn, apply_outbox_item, push_outbox,
}
use ovl.Office.Landing.Retry.{all_accepted, push_outbox-again}
use ovl.Vessel.Outbox.{audit_event_item, report_version_item, Outbox, list_outbox_items}
use ovl.Vessel.Outbox.Order.{
  OutboxCall, enqueue, acknowledge_item, outbox_calls, queue_calls, list_outbox_items-queue,
}
use ovl.Tests.{report, filled_in, stable_slice}

-- Structs that keep what is put in.
pub data Struct : Type 0 where
  of_fields : Fields ℕ → Struct
  of_detail : Detail ℕ → Struct

abbrev pub as_map : Struct → Fields ℕ
as_map (of_fields fields) = fields
as_map (of_detail d) = none

abbrev pub as_detail : Struct → Detail ℕ
as_detail (of_fields fields) = Detail.empty
as_detail (of_detail d) = d

abbrev pub structs : StructPb ℕ Struct
structs = record {
  new_struct = λ fields. some (of_fields (or_empty fields));
  as_map = as_map;
  new_detail = λ d. some (of_detail d);
  as_detail = as_detail;
  as_map-new_struct = λ fields s h. rw (sym (some_inv h)) refl;
  as_detail-new_detail = λ d s h. rw (sym (some_inv h)) refl;
}

abbrev pub log_report : Report ℕ
log_report = record (report State.submitted filled_in) { schema_name = "log-abstract" }

abbrev log_version : ReportVersion Struct
log_version = record {
  report_id = "r";
  version_no = 1;
  schema_kind = log_abstract;
  schema_version = "";
  event_type = "Arrival";
  state = wire_submitted;
  event_time = 100;
  fields = of_fields filled_in;
  submitted_at = none;
}

log_version_sent : report_version_from_domain ⦃pb = structs⦄ log_report ≡ some log_version
unfolding report_version_from_domain schema_kind_from_name lookup lifecycle_state_by_domain
log_version_sent = refl

report_version_to_domain-from_domain_example :
    (report_version_to_domain ⦃pb = structs⦄ log_version ≡ some (carried log_report))
    ↔ (1 < 0x80000000)
report_version_to_domain-from_domain_example =
    report_version_to_domain-from_domain ⦃pb = structs⦄ log_report log_version (ground arith)
      log_version_sent

abbrev pub submitted_event : Event ℕ
submitted_event = record {
  report_id = "r";
  version_no = 1;
  type = EventType.submitted;
  at = 7;
  actor = "master";
  detail = Detail.empty;
}

abbrev pub audit_event : ReportAuditEvent Struct
audit_event = record {
  report_id = "r";
  version_no = 1;
  event_type = wire_submit;
  actor = "master";
  occurred_at = 7;
  detail = of_detail Detail.empty;
}

pub audit_event_sent :
    report_audit_event_from_domain ⦃pb = structs⦄ submitted_event ≡ some audit_event
unfolding report_audit_event_from_domain audit_event_type_by_domain
audit_event_sent = refl

abbrev pub empty_outbox : Outbox
empty_outbox = record { next_no = 1; rows = [] }

abbrev outbox_history : List OutboxCall
outbox_history =
    enqueue (some "a") 5 report_version_item "r" 1 none none
    ∷ enqueue (some "b") 5 audit_event_item "r" 1 (some 1) none
    ∷ acknowledge_item "a"
    ∷ []

list_outbox_items-queue_example :
    list_outbox_items (outbox_calls outbox_history empty_outbox)
    ≡ queue_calls outbox_history empty_outbox (list_outbox_items empty_outbox)
list_outbox_items-queue_example = list_outbox_items-queue outbox_history empty_outbox (tt, tt)

abbrev pub empty_office : OfficeDb ℕ
empty_office = record {
  versions = [];
  audit_events = [];
  chats = [];
  next_chat_seq = 1;
  receipts = [];
  notices = [];
  next_notice_seq = 1;
  groups = ("v", []) ∷ [];
  severities = [];
}

abbrev pub fine : ℕ → Turn
fine now = record {
  now = now;
  receipt_read_fails = false;
  landing_fails = false;
  cascade_budget = none;
  receipt_write_fails = false;
}

abbrev pub no_receipt : ℕ → Turn
no_receipt now = record (fine now) { receipt_write_fails = true }

abbrev pub event_item : WireItem Struct
event_item = record { item_id = "e"; sequence_no = 2; payload = audit_event_payload audit_event }

event_accepted :
    all_accepted
      (push_outbox ⦃fl = whole_floats⦄ ⦃pb = structs⦄ stable_slice "v"
        (λ id. fine 9)
        (event_item ∷ [])
        empty_office).1
    ≡ true
unfolding push_outbox apply_outbox_item has_outbox_receipt land land_event receipted
    report_audit_event_to_domain domain_by_audit_event_type
event_accepted = refl

push_outbox-again_example :
    push_outbox ⦃fl = whole_floats⦄ ⦃pb = structs⦄ stable_slice "v"
      (λ id. no_receipt 12)
      (event_item ∷ [])
      (push_outbox ⦃fl = whole_floats⦄ ⦃pb = structs⦄ stable_slice "v"
        (λ id. fine 9)
        (event_item ∷ [])
        empty_office).0
    ≡ push_outbox ⦃fl = whole_floats⦄ ⦃pb = structs⦄ stable_slice "v"
        (λ id. fine 9)
        (event_item ∷ [])
        empty_office
push_outbox-again_example =
    push_outbox-again ⦃fl = whole_floats⦄ ⦃pb = structs⦄ stable_slice "v" (λ id. fine 9)
      (λ id. no_receipt 12) (event_item ∷ []) empty_office event_accepted (λ id. refl)
