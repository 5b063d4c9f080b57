-- ===== src/Sync/Drained.antt =====
-- A push in which nothing fails.
use ovl.Base.{
  ℕ, String, Bool, true, false, not, ◌&&◌, ◌||◌, Option, none, some, List, [], ◌∷◌, any, all, keep,
  ◌≡◌, refl, sym, ap, arith, str_eq, eq_iff, Bool-cases, Option-cases, is_some, inl, inr, and_inv,
}
use ovl.Base.Floats.{Floats}
use ovl.Validation.Cascade.{SortSlice}
use ovl.Domain.Lifecycle.{mark_synced}
use ovl.Domain.Report.{Report}
use ovl.Wire.{StructPb}
use ovl.Office.Landing.{OfficeDb, has_outbox_receipt}
use ovl.Office.Landing.Push.{WireItem, ItemAck, Turn, push_outbox}
use ovl.Vessel.Outbox.{
  OutboxItemKind, report_version_item, audit_event_item, chat_item, OutboxItem, ack_outbox_item,
  list_outbox_items,
}
use ovl.Vessel.Store.{VesselDb, get_report, find_report, save_report, upsert, append_event}
use ovl.Vessel.Sync.{
  mark_report_synced, mark_loaded, appended_event, mark_item, mark_kind, take_ack, take_acks,
  by_item_id, push_outbox_batch, after_call, is_nil,
}
use ovl.Sync.{Push, delivered, World, sync_push, batch, landing}
use ovl.Sync.Acks.{queued, acked, acked_receipt}
use ovl.Sync.Accepted.{fault_free, sendable, sendable-acked}

abbrev pub is_version_kind : OutboxItemKind → Bool
is_version_kind report_version_item = true
is_version_kind kind = false

module _ {F : Type 0} where
  find_report-upsert :
      (id : String) (n : ℕ) (r : Report F) (rs : List (Report F))
      → is_some (find_report id n rs) ≡ true
      → is_some (find_report id n (upsert r rs)) ≡ true
  unfolding find_report upsert
  find_report-upsert id n r [] h = ground (arith, h)
  find_report-upsert id n r (old ∷ rs) h = ground (
    arith,
    h,
    eq_iff old.report_id r.report_id,
    eq_iff old.report_id id,
    eq_iff r.report_id id,
    find_report-upsert id n r rs,
  )

  -- The item names no report version, or one that the vessel has.
  abbrev pub stored : List (Report F) → OutboxItem → Bool
  stored rs item =
      not (is_version_kind item.kind) || is_some (find_report item.report_id item.version_no rs)

  stored-upsert :
      (r : Report F) (rs : List (Report F)) (items : List OutboxItem)
      → all (stored rs) items ≡ true
      → all (stored (upsert r rs)) items ≡ true
  stored-upsert r rs [] h = refl
  stored-upsert r rs (item ∷ items) h =
      ground
        (arith, h, find_report-upsert item.report_id item.version_no r rs, stored-upsert r rs items)

  -- With nothing failing, marking a stored version succeeds and keeps every version stored.
  mark_loaded-ok :
      (db : VesselDb F) (at : ℕ) (r : Report F) (items : List OutboxItem)
      → all (stored db.reports) items ≡ true
      → ((mark_loaded db at (some r) none).1 ≡ some none)
        × ((mark_loaded db at (some r) none).0.outbox ≡ db.outbox)
        × (all (stored (mark_loaded db at (some r) none).0.reports) items ≡ true)
  unfolding mark_loaded appended_event save_report append_event
  mark_loaded-ok db at r items h = (
    ground arith,
    ground arith,
    ground (arith, h, stored-upsert (mark_synced r at).0 db.reports items h),
  )

  by_item_id-stored :
      (rs : List (Report F)) (id : String) (items : List OutboxItem) (item : OutboxItem)
      → all (stored rs) items ≡ true
      → by_item_id id items ≡ some item
      → stored rs item ≡ true
  unfolding by_item_id
  by_item_id-stored rs id [] item h e = ground (arith, e)
  by_item_id-stored rs id (x ∷ items) item h e =
      let (own, others) = and_inv (stored rs x) (all (stored rs) items) h in
      elim (Option-cases (by_item_id id items)) [
        | inl f ↦ ground (arith, own, e, f)
        | inr (y, f) ↦ by_item_id-stored rs id items item others (ground (arith, e, f))
      ]

  -- What a step without failing statements leaves.
  abbrev Fine : VesselDb F → List OutboxItem → VesselDb F × Option (Option ℕ) → Type 0
  Fine db items result =
      (result.1 ≡ some none)
      × (result.0.outbox ≡ db.outbox)
      × (all (stored result.0.reports) items ≡ true)

  mark_kind-ok :
      (db : VesselDb F) (at : ℕ) (item : OutboxItem) (kind : OutboxItemKind)
      (items : List OutboxItem)
      → (is_version_kind kind ≡ true
          → is_some (get_report db item.report_id item.version_no) ≡ true)
      → all (stored db.reports) items ≡ true
      → Fine db items (mark_kind db at item kind none)
  unfolding mark_kind mark_report_synced
  mark_kind-ok db at item report_version_item items s h =
      elim (Option-cases (get_report db item.report_id item.version_no)) [
        | inl e ↦ ground (arith, e, s refl)
        | inr (r, e) ↦ rw e (mark_loaded-ok db at r items h)
      ]
  mark_kind-ok db at item audit_event_item items s h = (refl, refl, h)
  mark_kind-ok db at item chat_item items s h = (refl, refl, h)

  mark_item-ok :
      (db : VesselDb F) (at : ℕ) (found : Option OutboxItem) (items : List OutboxItem)
      → ((item : OutboxItem) → found ≡ some item → stored db.reports item ≡ true)
      → all (stored db.reports) items ≡ true
      → Fine db items (mark_item db at found none)
  unfolding mark_item get_report
  mark_item-ok db at none items s h = (refl, refl, h)
  mark_item-ok db at (some item) items s h =
      mark_kind-ok db at item item.kind items (λ k. ground (arith, k, s item refl)) h

  take_ack-ok :
      (pending : List OutboxItem) (at : ℕ) (id : String) (db : VesselDb F)
      → all (stored db.reports) pending ≡ true
      → Fine
          (record db { outbox = ack_outbox_item id db.outbox })
          pending
          (take_ack pending at id db none)
  unfolding take_ack
  take_ack-ok pending at id db h =
      mark_item-ok (record db { outbox = ack_outbox_item id db.outbox }) at (by_item_id id pending)
        pending (λ item e. by_item_id-stored db.reports id pending item h e) h

queued-gone :
    (id : String) (rows : List OutboxItem)
    → queued id (keep (λ row. not (str_eq row.item_id id)) rows) ≡ false
queued-gone id [] = refl
queued-gone id (row ∷ rows) = ground (arith, queued-gone id rows)

queued-stays-gone :
    (j id : String) (rows : List OutboxItem)
    → queued j rows ≡ false
    → queued j (keep (λ row. not (str_eq row.item_id id)) rows) ≡ false
queued-stays-gone j id [] h = refl
queued-stays-gone j id (row ∷ rows) h = ground (arith, h, queued-stays-gone j id rows)

leaves-step :
    (j id : String) (rows : List OutboxItem) (others : Bool)
    → (queued j rows && not (str_eq id j || others)) ≡ false
    → (queued j (keep (λ row. not (str_eq row.item_id id)) rows) && not others) ≡ false
leaves-step j id rows others h = elim (Bool-cases (str_eq id j)) [
  | inl e ↦
      let same : id ≡ j = (eq_iff id j).0 e in rw (sym same) (ground (arith, queued-gone id rows))
  | inr e ↦ ground (arith, h, e, queued-stays-gone j id rows)
]

module _ {F : Type 0} where
  -- All acknowledgements are taken, and what is acknowledged leaves the outbox.
  take_acks-ok :
      (pending : List OutboxItem) (at : ℕ) (acks : List ItemAck) (db : VesselDb F) (j : String)
      → all (stored db.reports) pending ≡ true
      → ((take_acks pending at acks db none).1 ≡ some none)
        × ((queued j db.outbox.rows && not (acked j acks)) ≡ false
            → queued j (take_acks pending at acks db none).0.outbox.rows ≡ false)
  unfolding take_acks ack_outbox_item
  take_acks-ok pending at [] db j h = (refl, λ q. ground (arith, q))
  take_acks-ok pending at (ack ∷ acks) db j h = elim (Bool-cases ack.accepted) [
    | inr e ↦ rw e (take_acks-ok pending at acks db j h)
    | inl e ↦
        let (ok, same, still) = take_ack-ok pending at ack.item_id db h in
        let step = take_ack pending at ack.item_id db none in
        let (ok', gone) = take_acks-ok pending at acks step.0 j still in
        (
          ground (arith, e, ok, ok'),
          λ q. ground (
            arith,
            e,
            ok,
            gone (
                ground (
                  arith,
                  ap (λ o. queued j o.rows) same,
                  leaves-step j ack.item_id db.outbox.rows (acked j acks) (ground (arith, e, q)),
                )),
          ),
        )
  ]

module _ {F S : Type 0} ⦃fl : Floats F⦄ (pb : StructPb F S) where
  acked-is_nil :
      (slice : SortSlice F) (v : String) (turns : String → Turn) (items : List (WireItem S))
      (db : OfficeDb F) (j : String)
      → acked j (push_outbox ⦃pb = pb⦄ slice v turns items db).1 ≡ true
      → is_nil items ≡ false
  unfolding push_outbox
  acked-is_nil slice v turns [] db j h = ground (arith, h)
  acked-is_nil slice v turns (item ∷ items) db j h = refl

  -- A push that arrives and is answered, in which no statement fails on either side, on a vessel that
  -- has the report versions that it queued: every item that can be sent, a chat message apart, is
  -- receipted by the office and leaves the outbox.
  pub sync_push-drains :
      (slice : SortSlice F) (v : String) (push : Push) (w : World F) (j : String)
      → push.link ≡ delivered
      → push.vessel_budget ≡ none
      → ((id : String) → fault_free (push.turns id) ≡ true)
      → all (stored w.vessel.reports) (list_outbox_items w.vessel.outbox) ≡ true
      → any
          (λ row. str_eq row.item_id j && sendable pb w.vessel push.readable row)
          (list_outbox_items w.vessel.outbox)
        ≡ true
      → (queued j (sync_push pb slice v push w).0.vessel.outbox.rows ≡ false)
        × (has_outbox_receipt (sync_push pb slice v push w).0.office v j ≡ true)
  unfolding sync_push push_outbox_batch after_call
  sync_push-drains slice v push w j l b f s h =
      let got : acked j (landing pb slice v push w).1 ≡ true =
        sendable-acked pb slice v push.turns push.readable w.vessel
          (list_outbox_items w.vessel.outbox) w.office j f h in
      let receipt =
        acked_receipt ⦃pb = pb⦄ slice v push.turns (batch pb push w.vessel) w.office j got in
      let full = acked-is_nil slice v push.turns (batch pb push w.vessel) w.office j got in
      let gone =
        (take_acks-ok (list_outbox_items w.vessel.outbox) push.at (landing pb slice v push w).1
          w.vessel j s).1 in
      (rw (b, l, full) (gone (ground (arith, got))), rw (l, b) receipt)
