-- ===== src/Vessel/Sync.antt =====
-- vessel/httpapi/sync.go: the phase of a sync cycle that pushes the outbox. The transport is what the
-- office answers, or nothing where the call fails.
pub mod Orphan
use ovl.Base.{
  ℕ, String, Bool, true, false, Option, none, some, List, [], ◌∷◌, str_eq, if◌then◌else◌,
}
use ovl.Base.Faults.{Budget, spend}
use ovl.Domain.Event.{Event}
use ovl.Domain.Report.{Report}
use ovl.Domain.Lifecycle.{mark_synced}
use ovl.Domain.Message.{ChatMessage}
use ovl.Wire.{
  StructPb, ReportVersion, ReportAuditEvent, report_version_from_domain,
  report_audit_event_from_domain, chat_message_from_domain,
}
use ovl.Office.Landing.Push.{
  Payload, report_version_payload, audit_event_payload, chat_payload, WireItem, ItemAck,
}
use ovl.Vessel.Outbox.{
  OutboxItemKind, report_version_item, audit_event_item, chat_item, OutboxItem, list_outbox_items,
  ack_outbox_item,
}
use ovl.Vessel.Store.{
  VesselDb, get_report, save_report, append_event, get_event_by_id, get_chat_message,
}

abbrev pub lift : {A B : Type 0} → (A → Option B) → Option A → Option B
lift f none = none
lift f (some a) = f a

module _ {S : Type 0} where
  abbrev pub with_payload : OutboxItem → Option (Payload S) → Option (WireItem S)
  with_payload item none = none
  with_payload item (some payload) =
      some (record { item_id = item.item_id; sequence_no = item.sequence_no; payload = payload })

  abbrev pub version_payload : Option (ReportVersion S) → Option (Payload S)
  version_payload none = none
  version_payload (some pv) = some (report_version_payload pv)

  abbrev pub chat_form : Option ChatMessage → Option (Payload S)
  chat_form none = none
  chat_form (some m) = some (chat_payload (chat_message_from_domain m))

  abbrev pub event_payload : Option (ReportAuditEvent S) → Option (Payload S)
  event_payload none = none
  event_payload (some pe) = some (audit_event_payload pe)

  unfoldable pub append_built : Option (WireItem S) → List (WireItem S) → List (WireItem S)
  append_built none items = items
  append_built (some item) items = item ∷ items

module _ {F S : Type 0} ⦃pb : StructPb F S⦄ where
  unfoldable pub hydrate_event : VesselDb F → Option ℕ → Option (Payload S)
  hydrate_event db none = none
  hydrate_event db (some id) =
      event_payload (lift report_audit_event_from_domain (get_event_by_id db id))

  unfoldable pub hydrate_chat : VesselDb F → Option String → Option (Payload S)
  hydrate_chat db none = none
  hydrate_chat db (some id) = chat_form (get_chat_message db id)

  unfoldable pub hydrate : VesselDb F → OutboxItem → OutboxItemKind → Option (Payload S)
  hydrate db item report_version_item =
      version_payload
        (lift report_version_from_domain (get_report db item.report_id item.version_no))
  hydrate db item audit_event_item = hydrate_event db item.report_event_id
  hydrate db item chat_item = hydrate_chat db item.chat_message_id

  -- `buildOutboxItem`; `readable` says whether its reads succeed.
  unfoldable pub build_outbox_item :
      VesselDb F → (OutboxItem → Bool) → OutboxItem → Option (WireItem S)
  unfolding hydrate_event hydrate_chat hydrate
  build_outbox_item db readable item =
      if readable item then with_payload item (hydrate db item item.kind) else none

  -- The first loop of `pushOutboxBatch`.
  unfoldable pub build_items :
      VesselDb F → (OutboxItem → Bool) → List OutboxItem → List (WireItem S)
  unfolding append_built
  build_items db readable [] = []
  build_items db readable (item ∷ items) =
      append_built (build_outbox_item db readable item) (build_items db readable items)

module _ {F : Type 0} where
  unfoldable pub appended_event :
      VesselDb F → Option (Event F) → Budget → VesselDb F × Option Budget
  appended_event db none budget = (db, some budget)
  appended_event db (some e) budget = elim (spend budget) [
    | none ↦ (db, none)
    | some b ↦ ((append_event db e).0, some b)
  ]

  unfoldable pub mark_loaded :
      VesselDb F → ℕ → Option (Report F) → Budget → VesselDb F × Option Budget
  mark_loaded db at none budget = (db, none)
  mark_loaded db at (some r) budget =
      let result = mark_synced r at in
      elim result.1 [
        | none ↦ (db, some budget)
        | some e ↦ elim (spend budget) [
          | none ↦ (db, none)
          | some b ↦ appended_event (save_report db result.0) (some e) b
        ]
      ]

  -- `markReportSynced`
  unfoldable pub mark_report_synced :
      VesselDb F → String → ℕ → ℕ → Budget → VesselDb F × Option Budget
  unfolding mark_loaded appended_event
  mark_report_synced db report_id version_no at budget = elim (spend budget) [
    | none ↦ (db, none)
    | some b ↦ mark_loaded db at (get_report db report_id version_no) b
  ]

-- `byItemID`
unfoldable pub by_item_id : String → List OutboxItem → Option OutboxItem
by_item_id id [] = none
by_item_id id (item ∷ items) =
    let rest = by_item_id id items in
    elim rest [ none ↦ if str_eq item.item_id id then some item else none | some j ↦ some j ]

module _ {F : Type 0} where
  unfoldable pub mark_kind :
      VesselDb F → ℕ → OutboxItem → OutboxItemKind → Budget → VesselDb F × Option Budget
  mark_kind db at item report_version_item budget =
      mark_report_synced db item.report_id item.version_no at budget
  mark_kind db at item kind budget = (db, some budget)

  unfoldable pub mark_item :
      VesselDb F → ℕ → Option OutboxItem → Budget → VesselDb F × Option Budget
  mark_item db at none budget = (db, some budget)
  mark_item db at (some item) budget = mark_kind db at item item.kind budget

  -- One accepted acknowledgement.
  unfoldable pub take_ack :
      List OutboxItem → ℕ → String → VesselDb F → Budget → VesselDb F × Option Budget
  unfolding mark_item mark_kind
  take_ack pending at id db budget = elim (spend budget) [
    | none ↦ (db, none)
    | some b ↦
        mark_item (record db { outbox = ack_outbox_item id db.outbox }) at (by_item_id id pending) b
  ]

  -- The loop over the acknowledgements, up to the first error.
  unfoldable pub take_acks :
      List OutboxItem → ℕ → List ItemAck → VesselDb F → Budget → VesselDb F × Option Budget
  take_acks pending at [] db budget = (db, some budget)
  take_acks pending at (ack ∷ acks) db budget =
      let step = take_ack pending at ack.item_id db budget in
      let skipped = take_acks pending at acks db budget in
      if ack.accepted
      then elim step.1 [ none ↦ (step.0, none) | some b ↦ take_acks pending at acks step.0 b ]
      else skipped

  unfoldable pub after_call :
      List OutboxItem → ℕ → Option (List ItemAck) → VesselDb F → Budget → VesselDb F × Bool
  after_call pending at none db budget = (db, false)
  after_call pending at (some acks) db budget =
      let result = take_acks pending at acks db budget in
      (result.0, elim result.1 [ none ↦ false | some b ↦ true ])

abbrev pub is_nil : {A : Type 0} → List A → Bool
is_nil [] = true
is_nil (x ∷ xs) = false

module _ {F S : Type 0} ⦃pb : StructPb F S⦄ where
  -- `pushOutboxBatch`: the vessel's tables after it, and whether it returns no error. `call` is what
  -- `PushOutbox` answers, `none` where it fails.
  unfoldable pub push_outbox_batch :
      (OutboxItem → Bool)
      → ℕ
      → (List (WireItem S) → Option (List ItemAck))
      → VesselDb F
      → Budget
      → VesselDb F × Bool
  unfolding after_call
  push_outbox_batch readable at call db budget = elim (spend budget) [
    | none ↦ (db, false)
    | some b ↦
        let pending = list_outbox_items db.outbox in
        let items = build_items db readable pending in
        if is_nil items then (db, true) else after_call pending at (call items) db b
  ]
