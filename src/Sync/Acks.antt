-- ===== src/Sync/Acks.antt =====
-- Acknowledgements, receipts, and what leaves the outbox.
use ovl.Base.{
  ℕ, zero, suc, String, Bool, true, not, ◌&&◌, ◌||◌, Option, none, some, List, [], ◌∷◌, any, keep,
  ◌≡◌, refl, sym, arith, str_eq, eq_iff, Bool-cases, Option-cases, inl, inr, and_inv,
}
use ovl.Base.Floats.{Floats}
use ovl.Base.Faults.{Budget}
use ovl.Validation.Cascade.{SortSlice}
use ovl.Domain.Report.{Report}
use ovl.Wire.{StructPb}
use ovl.Office.Landing.{OfficeDb, has_outbox_receipt}
use ovl.Office.Landing.Push.{WireItem, ItemAck, Turn, apply_outbox_item, push_outbox}
use ovl.Office.Landing.Receipts.{accepted_receipt}
use ovl.Office.Landing.Retry.{push_receipt_kept}
use ovl.Vessel.Outbox.{OutboxItem, ack_outbox_item}
use ovl.Vessel.Store.{VesselDb, save_report, append_event, get_report}
use ovl.Vessel.Sync.{
  mark_report_synced, mark_loaded, appended_event, mark_item, mark_kind, take_ack, take_acks,
  by_item_id,
}

abbrev pub queued : String → List OutboxItem → Bool
queued id rows = any (λ row. str_eq row.item_id id) rows

abbrev pub acked : String → List ItemAck → Bool
acked id acks = any (λ a. a.accepted && str_eq a.item_id id) acks

queued-keep :
    (id acked_id : String) (rows : List OutboxItem)
    → queued id rows ≡ true
    → (queued id (keep (λ row. not (str_eq row.item_id acked_id)) rows) || str_eq acked_id id)
      ≡ true
queued-keep id acked_id [] h = ground (arith, h)
queued-keep id acked_id (row ∷ rows) h = ground (
  arith,
  h,
  eq_iff row.item_id id,
  eq_iff row.item_id acked_id,
  eq_iff acked_id id,
  queued-keep id acked_id rows,
)

module _ {F : Type 0} where
  mark_loaded-outbox :
      (db : VesselDb F) (at : ℕ) (r : Option (Report F)) (b : Budget)
      → (mark_loaded db at r b).0.outbox ≡ db.outbox
  unfolding mark_loaded appended_event save_report append_event
  mark_loaded-outbox db at none b = refl
  mark_loaded-outbox db at (some r) b = ground arith

  mark_item-outbox :
      (db : VesselDb F) (at : ℕ) (item : Option OutboxItem) (b : Budget)
      → (mark_item db at item b).0.outbox ≡ db.outbox
  unfolding mark_item mark_kind mark_report_synced
  mark_item-outbox db at none b = refl
  mark_item-outbox db at (some item) none =
      ground (arith, mark_loaded-outbox db at (get_report db item.report_id item.version_no) none)
  mark_item-outbox db at (some item) (some zero) = ground arith
  mark_item-outbox db at (some item) (some (suc n)) =
      ground
        (arith, mark_loaded-outbox db at (get_report db item.report_id item.version_no) (some n))

  take_ack-queued :
      (pending : List OutboxItem) (at : ℕ) (id j : String) (db : VesselDb F) (b : Budget)
      → queued j db.outbox.rows ≡ true
      → (queued j (take_ack pending at id db b).0.outbox.rows || str_eq id j) ≡ true
  unfolding take_ack ack_outbox_item
  take_ack-queued pending at id j db none h =
      rw
        (mark_item-outbox (record db { outbox = ack_outbox_item id db.outbox }) at
          (by_item_id id pending) none)
        (queued-keep j id db.outbox.rows h)
  take_ack-queued pending at id j db (some zero) h = ground (arith, h)
  take_ack-queued pending at id j db (some (suc n)) h =
      rw
        (mark_item-outbox (record db { outbox = ack_outbox_item id db.outbox }) at
          (by_item_id id pending) (some n))
        (queued-keep j id db.outbox.rows h)

  pub take_acks-queued :
      (pending : List OutboxItem) (at : ℕ) (acks : List ItemAck) (j : String) (db : VesselDb F)
      (b : Budget)
      → queued j db.outbox.rows ≡ true
      → (queued j (take_acks pending at acks db b).0.outbox.rows || acked j acks) ≡ true
  unfolding take_acks
  take_acks-queued pending at [] j db b h = ground (arith, h)
  take_acks-queued pending at (ack ∷ acks) j db b h =
      let step = take_ack pending at ack.item_id db b in
      elim (Option-cases step.1) [
        | inl e ↦ ground (
          arith,
          e,
          take_ack-queued pending at ack.item_id j db b h,
          take_acks-queued pending at acks j db b h,
        )
        | inr (b', e) ↦ ground (
          arith,
          e,
          take_ack-queued pending at ack.item_id j db b h,
          take_acks-queued pending at acks j db b h,
          take_acks-queued pending at acks j step.0 b',
        )
      ]

module _ {F S : Type 0} ⦃fl : Floats F⦄ ⦃pb : StructPb F S⦄ where
  pub acked_receipt :
      (slice : SortSlice F) (v : String) (turns : String → Turn) (items : List (WireItem S))
      (db : OfficeDb F) (j : String)
      → acked j (push_outbox slice v turns items db).1 ≡ true
      → has_outbox_receipt (push_outbox slice v turns items db).0 v j ≡ true
  unfolding push_outbox
  acked_receipt slice v turns [] db j h = ground (arith, h)
  acked_receipt slice v turns (item ∷ items) db j h =
      let step = apply_outbox_item slice v (turns item.item_id) item db in
      elim (Bool-cases (step.1 && str_eq item.item_id j)) [
        | inr e ↦ acked_receipt slice v turns items step.0 j (ground (arith, h, e))
        | inl e ↦
            let (ok, same) = and_inv step.1 (str_eq item.item_id j) e in
            let id_eq : item.item_id ≡ j = (eq_iff item.item_id j).0 same in
            push_receipt_kept slice v turns items step.0 v j
              (rw (sym id_eq) (accepted_receipt slice v (turns item.item_id) item db ok))
      ]
