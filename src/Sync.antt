-- ===== src/Sync.antt =====
-- A vessel and its office: one push of the outbox over a link that may lose the request or the answer.
pub mod Accepted
pub mod Acks
pub mod Kept
pub mod NeverLost
pub mod Drained
use ovl.Base.{
  ℕ, String, Bool, true, false, Option, none, some, List, [], ◌∷◌, any, str_eq, if◌then◌else◌,
}
use ovl.Base.Floats.{Floats}
use ovl.Base.Faults.{Budget, spend}
use ovl.Validation.Cascade.{SortSlice}
use ovl.Wire.{StructPb}
use ovl.Office.Landing.{OfficeDb}
use ovl.Office.Landing.Push.{WireItem, ItemAck, Turn, push_outbox}
use ovl.Vessel.Outbox.{OutboxItem, list_outbox_items}
use ovl.Vessel.Store.{VesselDb}
use ovl.Vessel.Sync.{build_items, push_outbox_batch}

-- What becomes of the call: it arrives and is answered, it does not arrive, or its answer is lost.
pub data Link : Type 0 where
  delivered request_lost response_lost : Link

-- One push: when it runs, what fails on either side, and the link.
pub record Push : Type 0 where
  pub at : ℕ
  pub link : Link
  pub readable : OutboxItem → Bool
  pub vessel_budget : Budget
  pub turns : String → Turn

pub record World (F : Type 0) : Type 0 where
  pub vessel : VesselDb F
  pub office : OfficeDb F

abbrev pub answer : Link → List ItemAck → Option (List ItemAck)
answer delivered acks = some acks
answer _ acks = none

-- The office's tables after the call: nothing is sent where the vessel cannot list its outbox.
abbrev pub office_after : {F : Type 0} → Option Budget → Link → OfficeDb F → OfficeDb F → OfficeDb F
office_after none link before after = before
office_after (some b) request_lost before after = before
office_after (some b) link before after = after

module _ {F S : Type 0} ⦃fl : Floats F⦄ (pb : StructPb F S) where
  -- The batch of a push.
  abbrev pub batch : Push → VesselDb F → List (WireItem S)
  batch push db = build_items ⦃pb = pb⦄ db push.readable (list_outbox_items db.outbox)

  -- The office's tables after the batch, and its acknowledgements.
  abbrev pub landing : SortSlice F → String → Push → World F → OfficeDb F × List ItemAck
  landing slice v push w =
      push_outbox ⦃fl = fl⦄ ⦃pb = pb⦄ slice v push.turns (batch push w.vessel) w.office

  -- The phase of a sync cycle that pushes the outbox, on both sides.
  unfoldable pub sync_push : SortSlice F → String → Push → World F → World F × Bool
  sync_push slice v push w =
      let result =
        push_outbox_batch ⦃pb = pb⦄ push.readable push.at
          (λ items.
            answer push.link (push_outbox ⦃fl = fl⦄ ⦃pb = pb⦄ slice v push.turns items w.office).1)
          w.vessel push.vessel_budget in
      let office' =
        office_after (spend push.vessel_budget) push.link w.office (landing slice v push w).0 in
      (record { vessel = result.0; office = office' }, result.1)
