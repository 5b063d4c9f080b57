-- ===== src/Vessel/Sync/Orphan.antt =====
-- The outbox rows of a deleted report.
use ovl.Base.{
  ℕ, String, Bool, not, none, some, List, [], ◌∷◌, keep, All, ◌≡◌, refl, arith, str_eq, eq_iff,
  Option-cases, inl, inr,
}
use ovl.Wire.{StructPb}
use ovl.Vessel.Outbox.{audit_event_item, OutboxItem}
use ovl.Vessel.Store.{
  VesselDb, EventRow, get_latest_version, delete_latest, delete_report, find_event, get_event_by_id,
}
use ovl.Vessel.Sync.{build_outbox_item, hydrate, hydrate_event}

module _ {F : Type 0} where
  -- Every row with the key is of the report: the key is the table's primary key.
  abbrev pub OfReport : ℕ → String → List (EventRow F) → Type 0
  OfReport n id rows = All (λ (row : EventRow F). row.id ≡ n → row.event.report_id ≡ id) rows

  find_event-deleted :
      (n : ℕ) (id : String) (rows : List (EventRow F))
      → OfReport n id rows
      → find_event n (keep (λ (row : EventRow F). not (str_eq row.event.report_id id)) rows) ≡ none
  unfolding find_event
  find_event-deleted n id [] h = refl
  find_event-deleted n id (row ∷ rows) h =
      ground (arith, h.0, eq_iff row.event.report_id id, find_event-deleted n id rows h.1)

module _ {F S : Type 0} (pb : StructPb F S) where
  -- Once a report is deleted, the outbox is as before, and an item in it that names one of the
  -- report's audit events cannot be built any more, whichever reads succeed.
  pub delete_report-orphan :
      (db db' : VesselDb F) (report_id user : String) (now n : ℕ) (readable : OutboxItem → Bool)
      (item : OutboxItem)
      → delete_report db report_id user now ≡ some db'
      → item.kind ≡ audit_event_item
      → item.report_event_id ≡ some n
      → OfReport n report_id db.events
      → (db'.outbox ≡ db.outbox) × (build_outbox_item ⦃pb = pb⦄ db' readable item ≡ none)
  unfolding delete_report delete_latest build_outbox_item hydrate hydrate_event get_event_by_id
  delete_report-orphan db db' report_id user now n readable item d k e h =
      elim (Option-cases (get_latest_version db report_id)) [
        | inl f ↦ ground (arith, d, f)
        | inr (latest, f) ↦ (
          ground (arith, d, f),
          ground (arith, d, f, k, e, find_event-deleted n report_id db.events h),
        )
      ]
