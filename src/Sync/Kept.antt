-- ===== src/Sync/Kept.antt =====
-- What one push does to what is queued.
use ovl.Base.{
  ℕ, String, Bool, true, false, ◌||◌, Option, none, some, List, ◌≡◌, arith, Option-cases, inl, inr,
  or_inv,
}
use ovl.Base.Floats.{Floats}
use ovl.Base.Faults.{Budget, spend}
use ovl.Validation.Cascade.{SortSlice}
use ovl.Wire.{StructPb}
use ovl.Office.Landing.{OfficeDb, has_outbox_receipt}
use ovl.Office.Landing.Push.{WireItem, ItemAck}
use ovl.Office.Landing.Retry.{push_receipt_kept}
use ovl.Vessel.Outbox.{OutboxItem, list_outbox_items}
use ovl.Vessel.Store.{VesselDb}
use ovl.Vessel.Sync.{push_outbox_batch, build_items, after_call}
use ovl.Sync.{
  Link, delivered, request_lost, response_lost, Push, World, answer, office_after, sync_push, batch,
  landing,
}
use ovl.Sync.Acks.{queued, acked, take_acks-queued, acked_receipt}

-- Queued on the vessel, or receipted by the office.
abbrev pub kept : {F : Type 0} → String → String → World F → Bool
kept v id w = queued id w.vessel.outbox.rows || has_outbox_receipt w.office v id

abbrev acked_by : String → Option (List ItemAck) → Bool
acked_by id none = false
acked_by id (some acks) = acked id acks

module _ {F : Type 0} where
  after_call-queued :
      (pending : List OutboxItem) (at : ℕ) (answered : Option (List ItemAck)) (j : String)
      (db : VesselDb F) (b : Budget)
      → queued j db.outbox.rows ≡ true
      → (queued j (after_call pending at answered db b).0.outbox.rows || acked_by j answered) ≡ true
  unfolding after_call
  after_call-queued pending at none j db b h = ground (arith, h)
  after_call-queued pending at (some acks) j db b h = take_acks-queued pending at acks j db b h

  -- An item that is still queued or acknowledged is queued or receipted.
  acknowledged-receipt :
      (link : Link) (b : Budget) (q : Bool) (acks : List ItemAck) (before after : OfficeDb F)
      (v j : String)
      → (q || acked_by j (answer link acks)) ≡ true
      → (acked j acks ≡ true → has_outbox_receipt after v j ≡ true)
      → (q || has_outbox_receipt (office_after (some b) link before after) v j) ≡ true
  acknowledged-receipt delivered b q acks before after v j h r = ground arith
  acknowledged-receipt request_lost b q acks before after v j h r = ground arith
  acknowledged-receipt response_lost b q acks before after v j h r = ground arith

  receipt_after :
      (link : Link) (b : Option Budget) (before after : OfficeDb F) (v j : String)
      → has_outbox_receipt before v j ≡ true
      → has_outbox_receipt after v j ≡ true
      → has_outbox_receipt (office_after b link before after) v j ≡ true
  receipt_after link none before after v j h r = h
  receipt_after delivered (some b) before after v j h r = r
  receipt_after request_lost (some b) before after v j h r = h
  receipt_after response_lost (some b) before after v j h r = r

module _ {F S : Type 0} ⦃fl : Floats F⦄ ⦃pb : StructPb F S⦄ where
  batch-queued :
      (readable : OutboxItem → Bool) (at : ℕ) (call : List (WireItem S) → Option (List ItemAck))
      (j : String) (db : VesselDb F) (b b' : Budget)
      → spend b ≡ some b'
      → queued j db.outbox.rows ≡ true
      → (queued j (push_outbox_batch readable at call db b).0.outbox.rows
          || acked_by j (call (build_items db readable (list_outbox_items db.outbox))))
        ≡ true
  unfolding push_outbox_batch
  batch-queued readable at call j db b b' e h =
      let items : List (WireItem S) = build_items db readable (list_outbox_items db.outbox) in
      ground
        (arith, e, h, after_call-queued (list_outbox_items db.outbox) at (call items) j db b' h)

module _ {F S : Type 0} ⦃fl : Floats F⦄ (pb : StructPb F S) where
  unlisted :
      (slice : SortSlice F) (v : String) (push : Push) (w : World F) (id : String)
      → spend push.vessel_budget ≡ none
      → queued id w.vessel.outbox.rows ≡ true
      → kept v id (sync_push pb slice v push w).0 ≡ true
  unfolding sync_push push_outbox_batch
  unlisted slice v push w id e q = ground (arith, e, q)

  sync_push-queued :
      (slice : SortSlice F) (v : String) (push : Push) (w : World F) (id : String)
      → queued id w.vessel.outbox.rows ≡ true
      → kept v id (sync_push pb slice v push w).0 ≡ true
  unfolding sync_push
  sync_push-queued slice v push w id q = elim (Option-cases (spend push.vessel_budget)) [
    | inl e ↦ unlisted slice v push w id e q
    | inr (b, e) ↦ rw e (
        acknowledged-receipt push.link b _ (landing pb slice v push w).1 w.office
          (landing pb slice v push w).0 v id
          (batch-queued ⦃fl = fl⦄ ⦃pb = pb⦄ push.readable push.at _ id w.vessel push.vessel_budget b
            e q)
          (acked_receipt ⦃fl = fl⦄ ⦃pb = pb⦄ slice v push.turns (batch pb push w.vessel) w.office
            id))
  ]

  pub sync_push-kept :
      (slice : SortSlice F) (v : String) (push : Push) (w : World F) (id : String)
      → kept v id w ≡ true
      → kept v id (sync_push pb slice v push w).0 ≡ true
  unfolding sync_push
  sync_push-kept slice v push w id h =
      elim (or_inv (queued id w.vessel.outbox.rows) (has_outbox_receipt w.office v id) h) [
        | inl q ↦ sync_push-queued slice v push w id q
        | inr r ↦ ground (
          arith,
          receipt_after push.link (spend push.vessel_budget) w.office (landing pb slice v push w).0
              v id r
              (push_receipt_kept ⦃fl = fl⦄ ⦃pb = pb⦄ slice v push.turns (batch pb push w.vessel)
                w.office v id r),
        )
      ]
