-- ===== src/Office/Landing/Push.antt =====
-- office/syncservice/pushoutbox.go: landing a batch. `Turn` says at what time an item is handled and
-- which of its statements fail.
use ovl.Base.{ℕ, String, Bool, true, false, Option, none, some, List, [], ◌∷◌, if◌then◌else◌}
use ovl.Base.Floats.{Floats}
use ovl.Base.Faults.{Budget}
use ovl.Validation.Cascade.{SortSlice}
use ovl.Domain.Event.{Event}
use ovl.Domain.Report.{Report}
use ovl.Domain.Message.{from_vessel}
use ovl.Wire.{
  StructPb, ReportVersion, ReportAuditEvent, WireChat, report_version_to_domain,
  report_audit_event_to_domain, chat_message_to_domain,
}
use ovl.Office.Landing.{
  OfficeDb, vessel_side, upsert_report_version, append_report_audit_event, insert_chat_message,
  has_outbox_receipt, record_outbox_receipt,
}
use ovl.Office.Landing.Cascade.{run_cascade}

-- The oneof of `syncv1.OutboxItem`, and the item.
pub data Payload (S : Type 0) : Type 0 where
  report_version_payload : ReportVersion S → Payload S
  audit_event_payload : ReportAuditEvent S → Payload S
  chat_payload : WireChat → Payload S
  unrecognized : Payload S

pub record WireItem (S : Type 0) : Type 0 where
  pub item_id : String
  pub sequence_no : ℕ
  pub payload : Payload S

pub record ItemAck : Type 0 where
  pub item_id : String
  pub accepted : Bool

pub record Turn : Type 0 where
  pub now : ℕ
  pub receipt_read_fails : Bool
  pub landing_fails : Bool
  pub cascade_budget : Budget
  pub receipt_write_fails : Bool

abbrev pub item_ack : String → Bool → ItemAck
item_ack id accepted = record { item_id = id; accepted = accepted }

module _ {F : Type 0} where
  -- The write of the payload; `none` is a rejection.
  unfoldable pub land_event : String → Turn → Option (Event F) → OfficeDb F → Option (OfficeDb F)
  land_event vessel_id turn none db = none
  land_event vessel_id turn (some e) db =
      if turn.landing_fails
      then none
      else some (append_report_audit_event db vessel_id e turn.now vessel_side)

  -- The receipt, and the acknowledgement.
  unfoldable pub receipted :
      String → Turn → String → ℕ → OfficeDb F → Option (OfficeDb F) → OfficeDb F × Bool
  receipted vessel_id turn item_id sequence_no db none = (db, false)
  receipted vessel_id turn item_id sequence_no db (some db') =
      if turn.receipt_write_fails
      then (db', false)
      else (record_outbox_receipt db' vessel_id item_id sequence_no turn.now, true)

module _ {F : Type 0} ⦃fl : Floats F⦄ where
  unfoldable pub land_report :
      SortSlice F → String → Turn → String → Option (Report F) → OfficeDb F → Option (OfficeDb F)
  land_report slice vessel_id turn schema_version none db = none
  land_report slice vessel_id turn schema_version (some r) db =
      if turn.landing_fails
      then none
      else some (
          (run_cascade slice vessel_id r.schema_name turn.now
            (upsert_report_version db vessel_id r schema_version turn.now) turn.cascade_budget).0)

module _ {F S : Type 0} ⦃fl : Floats F⦄ ⦃pb : StructPb F S⦄ where
  -- The switch over the payload; an error of the cascade is only logged.
  unfoldable pub land : SortSlice F → String → Turn → Payload S → OfficeDb F → Option (OfficeDb F)
  unfolding land_report land_event
  land slice vessel_id turn (report_version_payload pv) db =
      land_report slice vessel_id turn pv.schema_version (report_version_to_domain pv) db
  land slice vessel_id turn (audit_event_payload pe) db =
      land_event vessel_id turn (report_audit_event_to_domain pe) db
  land slice vessel_id turn (chat_payload m) db =
      if turn.landing_fails
      then none
      else insert_chat_message db vessel_id (chat_message_to_domain m from_vessel)
  land slice vessel_id turn unrecognized db = none

  -- `applyOutboxItem`: the tables after it, and whether the item is accepted.
  unfoldable pub apply_outbox_item :
      SortSlice F → String → Turn → WireItem S → OfficeDb F → OfficeDb F × Bool
  unfolding land receipted
  apply_outbox_item slice vessel_id turn item db =
      if turn.receipt_read_fails
      then (db, false)
      else if has_outbox_receipt db vessel_id item.item_id
      then (db, true)
      else receipted vessel_id turn item.item_id item.sequence_no db
          (land slice vessel_id turn item.payload db)

  -- `PushOutbox`
  unfoldable pub push_outbox :
      SortSlice F
      → String
      → (String → Turn)
      → List (WireItem S)
      → OfficeDb F
      → OfficeDb F × List ItemAck
  unfolding apply_outbox_item
  push_outbox slice vessel_id turns [] db = (db, [])
  push_outbox slice vessel_id turns (item ∷ items) db =
      let (db', ok) = apply_outbox_item slice vessel_id (turns item.item_id) item db in
      let (db'', acks) = push_outbox slice vessel_id turns items db' in
      (db'', item_ack item.item_id ok ∷ acks)
