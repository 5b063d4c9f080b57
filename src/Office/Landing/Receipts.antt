-- ===== src/Office/Landing/Receipts.antt =====
-- Receipts, and the items that were accepted.
use ovl.Base.{
  ℕ, zero, suc, String, true, false, Option, none, some, List, [], ◌∷◌, any, any-append, ◌≡◌, refl,
  ap, arith, str_eq, eq_refl, Bool-cases, Option-cases, inl, inr,
}
use ovl.Base.Dict.{lookup}
use ovl.Base.Floats.{Floats}
use ovl.Base.Faults.{Budget}
use ovl.Validation.Cascade.{CascadeResult, SortSlice, rules_at}
use ovl.Domain.Report.{Report}
use ovl.Domain.Event.{Event}
use ovl.Domain.Message.{ChatMessage, from_vessel}
use ovl.Wire.{
  StructPb, report_version_to_domain, report_audit_event_to_domain, chat_message_to_domain,
}
use ovl.Office.Landing.{
  OfficeDb, has_outbox_receipt, record_outbox_receipt, is_receipt, insert_chat_message,
  upsert_report_version, append_report_audit_event, update_report_version_state,
  insert_invalidation_notice,
}
use ovl.Office.Landing.Cascade.{
  persist_invalidation, flag_report, flag_reports, after_reads, run_cascade,
}
use ovl.Office.Landing.Push.{
  Payload, report_version_payload, audit_event_payload, chat_payload, unrecognized, WireItem, Turn,
  land, land_event, land_report, receipted, apply_outbox_item,
}

module _ {F : Type 0} where
  persist_receipts :
      (v : String) (now : ℕ) (r : Report F) (rules : List String) (db : OfficeDb F) (b : Budget)
      → (persist_invalidation v now r rules db b).0.receipts ≡ db.receipts
  unfolding persist_invalidation update_report_version_state append_report_audit_event
      insert_invalidation_notice
  persist_receipts v now r rules db b = ground arith

  flag_receipts :
      (v : String) (now : ℕ) (r : Report F) (rules : List String) (db : OfficeDb F) (b : Budget)
      → (flag_report v now r rules db b).0.receipts ≡ db.receipts
  unfolding flag_report
  flag_receipts v now r [] db b = refl
  flag_receipts v now r (rule ∷ rules) db none =
      ground (arith, persist_receipts v now r (rule ∷ rules) db none)
  flag_receipts v now r (rule ∷ rules) db (some zero) =
      ground (arith, persist_receipts v now r (rule ∷ rules) db (some 0))
  flag_receipts v now r (rule ∷ rules) db (some (suc n)) = ground (
    arith,
    persist_receipts v now r (rule ∷ rules) db (some n),
    persist_receipts v now r (rule ∷ rules) db (some (suc n)),
  )

  flags_receipts :
      (v : String) (now : ℕ) (res : CascadeResult) (rs : List (Report F)) (db : OfficeDb F)
      (b : Budget)
      → (flag_reports v now res rs db b).0.receipts ≡ db.receipts
  unfolding flag_reports
  flags_receipts v now res [] db b = refl
  flags_receipts v now res (r ∷ rs) db b =
      let step = flag_report v now r (rules_at r.report_id res.invalidated) db b in
      let same = flag_receipts v now r (rules_at r.report_id res.invalidated) db b in
      elim (Option-cases step.1) [
        | inl e ↦ ground (arith, same)
        | inr (b', e) ↦ ground (arith, same, flags_receipts v now res rs step.0 b')
      ]

module _ {F : Type 0} ⦃fl : Floats F⦄ where
  after_reads_receipts :
      (slice : SortSlice F) (v name : String) (now : ℕ) (db : OfficeDb F)
      (groups : Option (List String)) (b : Option Budget)
      → (after_reads slice v name now db groups b).0.receipts ≡ db.receipts
  unfolding after_reads
  after_reads_receipts slice v name now db none b = refl
  after_reads_receipts slice v name now db (some groups) none = refl
  after_reads_receipts slice v name now db (some groups) (some b) = flags_receipts v now _ _ db b

  cascade_receipts :
      (slice : SortSlice F) (v name : String) (now : ℕ) (db : OfficeDb F) (b : Budget)
      → (run_cascade slice v name now db b).0.receipts ≡ db.receipts
  unfolding run_cascade
  cascade_receipts slice v name now db b =
      after_reads_receipts slice v name now db (lookup v db.groups) _

  -- The tables that a write leaves, if it succeeds, have the receipts of those before.
  abbrev SameReceipts : OfficeDb F → Option (OfficeDb F) → Type 0
  SameReceipts db none = Unit
  SameReceipts db (some db') = db'.receipts ≡ db.receipts

  land_report-SameReceipts :
      (slice : SortSlice F) (v : String) (turn : Turn) (version : String) (r : Option (Report F))
      (db : OfficeDb F)
      → SameReceipts db (land_report slice v turn version r db)
  unfolding land_report upsert_report_version
  land_report-SameReceipts slice v turn version none db = tt
  land_report-SameReceipts slice v turn version (some r) db = elim (Bool-cases turn.landing_fails) [
    | inl e ↦ rw e tt
    | inr e ↦ rw e (
        cascade_receipts slice v r.schema_name turn.now
          (upsert_report_version db v r version turn.now) turn.cascade_budget)
  ]

  land_event-SameReceipts :
      (v : String) (turn : Turn) (e : Option (Event F)) (db : OfficeDb F)
      → SameReceipts db (land_event v turn e db)
  unfolding land_event append_report_audit_event
  land_event-SameReceipts v turn none db = tt
  land_event-SameReceipts v turn (some e) db = elim (Bool-cases turn.landing_fails) [
    | inl f ↦ rw f tt
    | inr f ↦ rw f refl
  ]

  insert_chat_message-SameReceipts :
      (v : String) (m : ChatMessage) (db : OfficeDb F)
      → SameReceipts db (insert_chat_message db v m)
  unfolding insert_chat_message
  insert_chat_message-SameReceipts v m db =
      elim (Bool-cases (any (λ row. str_eq row.item.id m.id) db.chats)) [
        | inl f ↦ rw f tt
        | inr f ↦ rw f refl
      ]

  receipted_kept :
      (v : String) (turn : Turn) (item_id : String) (seq : ℕ) (db : OfficeDb F)
      (m : Option (OfficeDb F)) (w id : String)
      → SameReceipts db m
      → has_outbox_receipt db w id ≡ true
      → has_outbox_receipt (receipted v turn item_id seq db m).0 w id ≡ true
  unfolding receipted has_outbox_receipt record_outbox_receipt
  receipted_kept v turn item_id seq db none w id same h = h
  receipted_kept v turn item_id seq db (some db') w id same h = ground (
    arith,
    h,
    ap (any (is_receipt w id)) same,
    any-append (is_receipt w id) db'.receipts (
        record { vessel_id = v; item_id = item_id; sequence_no = seq; received_at = turn.now }
        ∷ []),
  )

  receipted_accepted :
      (v : String) (turn : Turn) (item_id : String) (seq : ℕ) (db : OfficeDb F)
      (m : Option (OfficeDb F))
      → (receipted v turn item_id seq db m).1 ≡ true
      → has_outbox_receipt (receipted v turn item_id seq db m).0 v item_id ≡ true
  unfolding receipted has_outbox_receipt record_outbox_receipt
  receipted_accepted v turn item_id seq db none h = ground (arith, h)
  receipted_accepted v turn item_id seq db (some db') h = ground (
    arith,
    h,
    eq_refl v,
    eq_refl item_id,
    any-append (is_receipt v item_id) db'.receipts (
        record { vessel_id = v; item_id = item_id; sequence_no = seq; received_at = turn.now }
        ∷ []),
  )

module _ {F S : Type 0} ⦃fl : Floats F⦄ ⦃pb : StructPb F S⦄ where
  land-SameReceipts :
      (slice : SortSlice F) (v : String) (turn : Turn) (p : Payload S) (db : OfficeDb F)
      → SameReceipts db (land slice v turn p db)
  unfolding land
  land-SameReceipts slice v turn (report_version_payload pv) db =
      land_report-SameReceipts slice v turn pv.schema_version (report_version_to_domain pv) db
  land-SameReceipts slice v turn (audit_event_payload pe) db =
      land_event-SameReceipts v turn (report_audit_event_to_domain pe) db
  land-SameReceipts slice v turn (chat_payload m) db = elim (Bool-cases turn.landing_fails) [
    | inl f ↦ rw f tt
    | inr f ↦ rw f (insert_chat_message-SameReceipts v (chat_message_to_domain m from_vessel) db)
  ]
  land-SameReceipts slice v turn unrecognized db = tt

  -- An item takes no receipt away.
  pub receipt_kept :
      (slice : SortSlice F) (v : String) (turn : Turn) (item : WireItem S) (db : OfficeDb F)
      (w id : String)
      → has_outbox_receipt db w id ≡ true
      → has_outbox_receipt (apply_outbox_item slice v turn item db).0 w id ≡ true
  unfolding apply_outbox_item
  receipt_kept slice v turn item db w id h = ground (
    arith,
    h,
    receipted_kept v turn item.item_id item.sequence_no db (land slice v turn item.payload db) w id
        (land-SameReceipts slice v turn item.payload db) h,
  )

  -- An accepted item has its receipt.
  pub accepted_receipt :
      (slice : SortSlice F) (v : String) (turn : Turn) (item : WireItem S) (db : OfficeDb F)
      → (apply_outbox_item slice v turn item db).1 ≡ true
      → has_outbox_receipt (apply_outbox_item slice v turn item db).0 v item.item_id ≡ true
  unfolding apply_outbox_item
  accepted_receipt slice v turn item db h = ground (
    arith,
    h,
    receipted_accepted v turn item.item_id item.sequence_no db (land slice v turn item.payload db),
  )

  pub receipted_no_op :
      (slice : SortSlice F) (v : String) (turn : Turn) (item : WireItem S) (db : OfficeDb F)
      → turn.receipt_read_fails ≡ false
      → has_outbox_receipt db v item.item_id ≡ true
      → apply_outbox_item slice v turn item db ≡ (db, true)
  unfolding apply_outbox_item
  receipted_no_op slice v turn item db r h = rw (r, h) refl
