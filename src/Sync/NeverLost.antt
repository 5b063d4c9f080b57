-- ===== src/Sync/NeverLost.antt =====
-- What is queued for the office, over any pushes.
use ovl.Base.{
  ℕ, String, true, Option, none, some, List, [], ◌∷◌, any, any-append, ◌≡◌, refl, arith, str_eq,
  Bool-cases, inl, inr,
}
use ovl.Base.Floats.{Floats}
use ovl.Validation.Cascade.{SortSlice}
use ovl.Wire.{StructPb}
use ovl.Office.Landing.{OfficeDb, has_outbox_receipt}
use ovl.Vessel.Outbox.{OutboxItemKind, OutboxItem, Outbox, clashes, enqueue_outbox_item}
use ovl.Vessel.Store.{VesselDb}
use ovl.Sync.{Push, World, sync_push}
use ovl.Sync.Kept.{kept, sync_push-kept}
use ovl.Sync.Acks.{queued}

-- What happens to a vessel and its office: a push; an enqueue; any change of the vessel's tables other
-- than the outbox, or of the office's other than the receipts.
pub data Step (F : Type 0) : Type 0 where
  push_step : Push → Step F
  enqueue_step : Option String → ℕ → OutboxItemKind → String → ℕ → Option ℕ → Option String → Step F
  vessel_step : VesselDb F → Step F
  office_step : OfficeDb F → Step F

abbrev enqueued : Outbox → Option (Outbox × OutboxItem) → Outbox
enqueued ob none = ob
enqueued ob (some (ob', item)) = ob'

enqueue-queued :
    (ob : Outbox) (id : Option String) (now : ℕ) (kind : OutboxItemKind) (report_id : String)
    (version_no : ℕ) (event_id : Option ℕ) (chat_id : Option String) (j : String)
    → queued j ob.rows ≡ true
    → queued j
        (enqueued ob
          (enqueue_outbox_item ob id now kind report_id version_no event_id chat_id)).rows
      ≡ true
unfolding enqueue_outbox_item
enqueue-queued ob none now kind report_id version_no event_id chat_id j h = h
enqueue-queued ob (some i) now kind report_id version_no event_id chat_id j h =
    let item : OutboxItem = record {
      item_id = i;
      sequence_no = ob.next_no;
      kind = kind;
      report_id = report_id;
      version_no = version_no;
      report_event_id = event_id;
      chat_message_id = chat_id;
      created_at = now;
    } in
    elim (Bool-cases (any (clashes item) ob.rows)) [
      | inl e ↦ rw e h
      | inr e ↦
          rw (e, any-append (λ (row : OutboxItem). str_eq row.item_id j) ob.rows (item ∷ []), h)
            refl
    ]

module _ {F S : Type 0} ⦃fl : Floats F⦄ (pb : StructPb F S) where
  unfoldable pub sync_step : SortSlice F → String → Step F → World F → World F
  sync_step slice v (push_step push) w = (sync_push pb slice v push w).0
  sync_step slice v (enqueue_step id now kind report_id version_no event_id chat_id) w = record w {
    vessel = record (w.vessel) {
      outbox =
          enqueued w.vessel.outbox
            (enqueue_outbox_item w.vessel.outbox id now kind report_id version_no event_id chat_id);
    };
  }
  sync_step slice v (vessel_step db) w = record w {
    vessel = record db { outbox = w.vessel.outbox };
  }
  sync_step slice v (office_step db) w = record w {
    office = record db { receipts = w.office.receipts };
  }

  unfoldable pub sync_steps : SortSlice F → String → List (Step F) → World F → World F
  unfolding sync_step
  sync_steps slice v [] w = w
  sync_steps slice v (s ∷ ss) w = sync_steps slice v ss (sync_step slice v s w)

  sync_step-kept :
      (slice : SortSlice F) (v : String) (s : Step F) (w : World F) (id : String)
      → kept v id w ≡ true
      → kept v id (sync_step slice v s w) ≡ true
  unfolding sync_step enqueue_outbox_item has_outbox_receipt
  sync_step-kept slice v (push_step push) w id h = sync_push-kept pb slice v push w id h
  sync_step-kept slice v (enqueue_step none now kind report_id version_no event_id chat_id) w id h =
      h
  sync_step-kept slice v (enqueue_step (some i) now kind report_id version_no event_id chat_id) w id
        h =
      ground (
        arith,
        h,
        enqueue-queued w.vessel.outbox (some i) now kind report_id version_no event_id chat_id id,
      )
  sync_step-kept slice v (vessel_step db) w id h = h
  sync_step-kept slice v (office_step db) w id h = h

  -- Whatever happens, with statements failing on either side and requests and answers lost: an item
  -- that is queued on the vessel stays queued until the office has its receipt.
  pub sync_steps-kept :
      (slice : SortSlice F) (v : String) (ss : List (Step F)) (w : World F) (id : String)
      → kept v id w ≡ true
      → kept v id (sync_steps slice v ss w) ≡ true
  unfolding sync_steps
  sync_steps-kept slice v [] w id h = h
  sync_steps-kept slice v (s ∷ ss) w id h =
      sync_steps-kept slice v ss (sync_step slice v s w) id (sync_step-kept slice v s w id h)
