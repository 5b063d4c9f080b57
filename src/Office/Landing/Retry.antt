-- ===== src/Office/Landing/Retry.antt =====
-- What a second push of the same items does.
use ovl.Base.{
  String, Bool, true, false, ◌||◌, some, List, [], ◌∷◌, ◌++◌, all, All, ◌≡◌, refl, sym, ap, arith,
  and_inv,
}
use ovl.Base.Floats.{Floats}
use ovl.Validation.Cascade.{SortSlice}
use ovl.Domain.Event.{Event}
use ovl.Wire.{StructPb, ReportAuditEvent, report_audit_event_to_domain}
use ovl.Office.Landing.{
  OfficeDb, AuditRow, vessel_side, has_outbox_receipt, record_outbox_receipt,
  append_report_audit_event,
}
use ovl.Office.Landing.Push.{
  audit_event_payload, WireItem, ItemAck, item_ack, Turn, land, land_event, receipted,
  apply_outbox_item, push_outbox,
}
use ovl.Office.Landing.Receipts.{receipt_kept, accepted_receipt, receipted_no_op}

module _ {F S : Type 0} where
  -- The items have their receipts.
  abbrev pub AllReceipted : OfficeDb F → String → List (WireItem S) → Type 0
  AllReceipted db v items =
      All (λ (item : WireItem S). has_outbox_receipt db v item.item_id ≡ true) items

abbrev pub audit_row : {F : Type 0} → String → Turn → Event F → AuditRow F
audit_row v turn e = record {
  vessel_id = v;
  received_at = turn.now;
  origin = vessel_side;
  event = e;
}

abbrev pub all_accepted : List ItemAck → Bool
all_accepted acks = all (λ (a : ItemAck). a.accepted) acks

abbrev pub accepted_acks : {S : Type 0} → List (WireItem S) → List ItemAck
accepted_acks [] = []
accepted_acks (item ∷ items) = item_ack item.item_id true ∷ accepted_acks items

module _ {F S : Type 0} ⦃fl : Floats F⦄ ⦃pb : StructPb F S⦄ where
  pub push_receipt_kept :
      (slice : SortSlice F) (v : String) (turns : String → Turn) (items : List (WireItem S))
      (db : OfficeDb F) (w id : String)
      → has_outbox_receipt db w id ≡ true
      → has_outbox_receipt (push_outbox slice v turns items db).0 w id ≡ true
  unfolding push_outbox
  push_receipt_kept slice v turns [] db w id h = h
  push_receipt_kept slice v turns (item ∷ items) db w id h =
      push_receipt_kept slice v turns items
        (apply_outbox_item slice v (turns item.item_id) item db).0 w id
        (receipt_kept slice v (turns item.item_id) item db w id h)

  push_accepted :
      (slice : SortSlice F) (v : String) (turns : String → Turn) (items : List (WireItem S))
      (db : OfficeDb F)
      → all_accepted (push_outbox slice v turns items db).1 ≡ true
      → AllReceipted (push_outbox slice v turns items db).0 v items
        × ((push_outbox slice v turns items db).1 ≡ accepted_acks items)
  unfolding push_outbox
  push_accepted slice v turns [] db h = (tt, refl)
  push_accepted slice v turns (item ∷ items) db h =
      let step = apply_outbox_item slice v (turns item.item_id) item db in
      let (first, others) =
        and_inv step.1 (all_accepted (push_outbox slice v turns items step.0).1) h in
      let (got, acks) = push_accepted slice v turns items step.0 others in
      (
        (
          push_receipt_kept slice v turns items step.0 v item.item_id
              (accepted_receipt slice v (turns item.item_id) item db first),
          got,
        ),
        ground (arith, first, acks),
      )

  push_receipted :
      (slice : SortSlice F) (v : String) (turns : String → Turn) (items : List (WireItem S))
      (db : OfficeDb F)
      → ((id : String) → (turns id).receipt_read_fails ≡ false)
      → AllReceipted db v items
      → push_outbox slice v turns items db ≡ (db, accepted_acks items)
  unfolding push_outbox
  push_receipted slice v turns [] db r h = refl
  push_receipted slice v turns (item ∷ items) db r h =
      rw
        (
          receipted_no_op slice v (turns item.item_id) item db (r item.item_id) h.0,
          push_receipted slice v turns items db r h.1,
        )
        refl

  -- A batch of which every item was accepted may be sent again at any time: where the receipts can
  -- be read, the tables stay as they are, whatever else would fail, and every item is accepted again.
  pub push_outbox-again :
      (slice : SortSlice F) (v : String) (turns again : String → Turn) (items : List (WireItem S))
      (db : OfficeDb F)
      → all_accepted (push_outbox slice v turns items db).1 ≡ true
      → ((id : String) → (again id).receipt_read_fails ≡ false)
      → push_outbox slice v again items (push_outbox slice v turns items db).0
        ≡ push_outbox slice v turns items db
  push_outbox-again slice v turns again items db h r =
      let (got, acks) = push_accepted slice v turns items db h in
      rw (push_receipted slice v again items (push_outbox slice v turns items db).0 r got)
        (ap (λ t. ((push_outbox slice v turns items db).0, t)) (sym acks))

  -- An audit event that landed and whose receipt could not be written is rejected, and its next try
  -- lands it a second time.
  pub event_lands_twice :
      (slice : SortSlice F) (v : String) (turn again : Turn) (item : WireItem S)
      (pe : ReportAuditEvent S) (e : Event F) (db : OfficeDb F)
      → item.payload ≡ audit_event_payload pe
      → report_audit_event_to_domain pe ≡ some e
      → has_outbox_receipt db v item.item_id ≡ false
      → turn.receipt_read_fails || turn.landing_fails ≡ false
      → turn.receipt_write_fails ≡ true
      → again.receipt_read_fails || again.landing_fails || again.receipt_write_fails ≡ false
      → ((apply_outbox_item slice v turn item db).1 ≡ false)
        × ((apply_outbox_item slice v again item (apply_outbox_item slice v turn item db).0).1
            ≡ true)
        × ((apply_outbox_item slice v again item
              (apply_outbox_item slice v turn item db).0).0.audit_events
            ≡ (db.audit_events ++ audit_row v turn e ∷ []) ++ audit_row v again e ∷ [])
  unfolding apply_outbox_item land land_event receipted append_report_audit_event
      record_outbox_receipt has_outbox_receipt
  event_lands_twice slice v turn again item pe e db p c h ok1 w ok2 =
      (ground (arith, p, c), ground (arith, p, c), ground (arith, p, c))
