-- ===== src/Tests/Links.antt =====
-- Pushes of which something fails, and one of which nothing does.
use ovl.Base.{ℕ, Bool, true, false, none, some, [], ◌∷◌, ◌++◌, any, all, ◌&&◌, str_eq, ◌≡◌, refl}
use ovl.Base.Dict.{lookup}
use ovl.Base.Floats.{whole_floats}
use ovl.Domain.State.{State}
use ovl.Domain.Event.{EventType, Detail}
use ovl.Wire.{
  WireChat, report_audit_event_to_domain, domain_by_audit_event_type, schema_kind_from_name,
  report_version_from_domain,
}
use ovl.Office.Landing.{OfficeDb, has_outbox_receipt}
use ovl.Office.Landing.Push.{WireItem, chat_payload, apply_outbox_item}
use ovl.Office.Landing.Chats.{has_chat, retries, stuck_chat}
use ovl.Office.Landing.Retry.{event_lands_twice, audit_row}
use ovl.Vessel.Outbox.{
  audit_event_item, report_version_item, OutboxItem, list_outbox_items, order_by_no, insert_by_no,
}
use ovl.Vessel.Store.{
  VesselDb, delete_latest, delete_report, get_latest_version, get_report, find_report,
}
use ovl.Vessel.Sync.{build_outbox_item, hydrate}
use ovl.Vessel.Sync.Orphan.{delete_report-orphan}
use ovl.Sync.{delivered, response_lost, Push, World, sync_push}
use ovl.Sync.Acks.{queued}
use ovl.Sync.Kept.{kept}
use ovl.Sync.NeverLost.{push_step, sync_steps, sync_steps-kept}
use ovl.Sync.Accepted.{sendable}
use ovl.Sync.Drained.{stored, sync_push-drains}
use ovl.Tests.{stable_slice}
use ovl.Tests.Syncing.{
  Struct, structs, log_report, submitted_event, audit_event, empty_office, fine, no_receipt,
  event_item,
}

abbrev wire_chat : WireChat
wire_chat = record { id = "m"; report_id = "r"; sender = "master"; body = "hello"; sent_at = 3 }

abbrev wire_chat_item : WireItem Struct
wire_chat_item = record { item_id = "c"; sequence_no = 1; payload = chat_payload wire_chat }

no_receipt_there : has_outbox_receipt empty_office "v" "c" ≡ false
unfolding has_outbox_receipt
no_receipt_there = refl

abbrev after_chat : OfficeDb ℕ × Bool
after_chat =
    apply_outbox_item ⦃fl = whole_floats⦄ ⦃pb = structs⦄ stable_slice "v" (no_receipt 5)
      wire_chat_item empty_office

stuck_chat_example :
    (after_chat.1 ≡ false)
    × (has_chat wire_chat after_chat.0 ≡ true)
    × (retries ⦃fl = whole_floats⦄ ⦃pb = structs⦄ stable_slice "v" wire_chat_item
          (fine 6 ∷ fine 7 ∷ [])
          after_chat.0
        ≡ (after_chat.0, false))
stuck_chat_example =
    stuck_chat ⦃fl = whole_floats⦄ ⦃pb = structs⦄ stable_slice "v" (no_receipt 5)
      (fine 6 ∷ fine 7 ∷ []) wire_chat_item wire_chat empty_office refl no_receipt_there refl refl
      refl

event_converts : report_audit_event_to_domain ⦃pb = structs⦄ audit_event ≡ some submitted_event
unfolding report_audit_event_to_domain domain_by_audit_event_type
event_converts = refl

no_event_receipt : has_outbox_receipt empty_office "v" "e" ≡ false
unfolding has_outbox_receipt
no_event_receipt = refl

abbrev after_no_receipt : OfficeDb ℕ × Bool
after_no_receipt =
    apply_outbox_item ⦃fl = whole_floats⦄ ⦃pb = structs⦄ stable_slice "v" (no_receipt 5) event_item
      empty_office

event_lands_twice_example :
    (after_no_receipt.1 ≡ false)
    × ((apply_outbox_item ⦃fl = whole_floats⦄ ⦃pb = structs⦄ stable_slice "v"
          (fine 8)
          event_item
          after_no_receipt.0).1
        ≡ true)
    × ((apply_outbox_item ⦃fl = whole_floats⦄ ⦃pb = structs⦄ stable_slice "v"
          (fine 8)
          event_item
          after_no_receipt.0).0.audit_events
        ≡ ([] ++ audit_row "v" (no_receipt 5) submitted_event ∷ [])
          ++ audit_row "v" (fine 8) submitted_event ∷ [])
event_lands_twice_example =
    event_lands_twice ⦃fl = whole_floats⦄ ⦃pb = structs⦄ stable_slice "v" (no_receipt 5) (fine 8)
      event_item audit_event submitted_event empty_office refl event_converts no_event_receipt refl
      refl refl

abbrev pub version_row : OutboxItem
version_row = record {
  item_id = "a";
  sequence_no = 1;
  kind = report_version_item;
  report_id = "r";
  version_no = 1;
  report_event_id = none;
  chat_message_id = none;
  created_at = 5;
}

abbrev pub event_row : OutboxItem
event_row = record version_row {
  item_id = "b";
  sequence_no = 2;
  kind = audit_event_item;
  report_event_id = some 1;
}

abbrev pub aboard : VesselDb ℕ
aboard = record {
  reports = log_report ∷ [];
  events = record { id = 1; event = submitted_event } ∷ [];
  next_event_id = 2;
  chats = [];
  deleted = [];
  outbox = record { next_no = 3; rows = version_row ∷ event_row ∷ [] };
}

abbrev world : World ℕ
world = record { vessel = aboard; office = empty_office }

abbrev push_fine : Push
push_fine = record {
  at = 20;
  link = delivered;
  readable = λ item. true;
  vessel_budget = none;
  turns = λ id. fine 21;
}

abbrev push_unanswered : Push
push_unanswered = record push_fine { link = response_lost }

sync_steps-kept_example :
    kept "v" "b" (
      sync_steps ⦃fl = whole_floats⦄ structs stable_slice "v"
        (push_step push_unanswered ∷ push_step push_fine ∷ [])
        world)
    ≡ true
sync_steps-kept_example =
    sync_steps-kept ⦃fl = whole_floats⦄ structs stable_slice "v"
      (push_step push_unanswered ∷ push_step push_fine ∷ []) world "b" refl

versions_present : all (stored aboard.reports) (list_outbox_items aboard.outbox) ≡ true
unfolding list_outbox_items order_by_no insert_by_no find_report
versions_present = refl

a_is_sendable :
    any
      (λ row.
        str_eq row.item_id "a" && sendable ⦃fl = whole_floats⦄ structs aboard (λ item. true) row)
      (list_outbox_items aboard.outbox)
    ≡ true
unfolding list_outbox_items order_by_no insert_by_no build_outbox_item hydrate get_report
    find_report report_version_from_domain schema_kind_from_name lookup
a_is_sendable = refl

sync_push-drains_example :
    (queued "a"
        (sync_push ⦃fl = whole_floats⦄ structs stable_slice "v" push_fine
          world).0.vessel.outbox.rows
      ≡ false)
    × (has_outbox_receipt
          (sync_push ⦃fl = whole_floats⦄ structs stable_slice "v" push_fine world).0.office
          "v"
          "a"
        ≡ true)
sync_push-drains_example =
    sync_push-drains ⦃fl = whole_floats⦄ structs stable_slice "v" push_fine world "a" refl refl
      (λ id. refl) versions_present a_is_sendable

-- A draft of which a section was saved, and deleted before the next sync.
abbrev draft_aboard : VesselDb ℕ
draft_aboard = record aboard {
  reports = record log_report { state = State.draft } ∷ [];
  events =
      record {
        id = 1;
        event = record submitted_event {
          type = EventType.section_saved;
          detail = Detail.section "voyage" [];
        };
      }
      ∷ [];
  outbox = record { next_no = 3; rows = event_row ∷ [] };
}

abbrev deleted_aboard : VesselDb ℕ
deleted_aboard = record draft_aboard {
  reports = [];
  events = [];
  deleted =
      record {
        report_id = "r";
        schema_name = "log-abstract";
        event_type = "Arrival";
        event_time = 100;
        state = State.draft;
        deleted_by = "master";
        deleted_at = 30;
      }
      ∷ [];
}

was_deleted : delete_report draft_aboard "r" "master" 30 ≡ some deleted_aboard
unfolding delete_report delete_latest get_latest_version
was_deleted = refl

delete_report-orphan_example :
    (deleted_aboard.outbox ≡ draft_aboard.outbox)
    × (build_outbox_item ⦃pb = structs⦄ deleted_aboard (λ item. true) event_row ≡ none)
delete_report-orphan_example =
    delete_report-orphan structs draft_aboard deleted_aboard "r" "master" 30 1 (λ item. true)
      event_row was_deleted refl refl ((λ e. refl), tt)
