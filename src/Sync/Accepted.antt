-- ===== src/Sync/Accepted.antt =====
-- What the office makes of what the vessel can send.
use ovl.Base.{
  ℕ, String, Bool, true, false, not, ◌&&◌, ◌||◌, Option, none, some, List, [], ◌∷◌, any, ◌≡◌, refl,
  ap, arith, str_eq, Bool-cases, Option-cases, is_some, inl, inr,
}
use ovl.Base.Floats.{Floats}
use ovl.Validation.Cascade.{SortSlice}
use ovl.Domain.Event.{Event}
use ovl.Domain.Report.{Report}
use ovl.Wire.{
  StructPb, report_version_from_domain, report_version_to_domain, report_audit_event_from_domain,
  report_audit_event_to_domain, schema_kind_from_name,
}
use ovl.Wire.RoundTrip.{
  schema_kind_from_name-inverse, domain_by_lifecycle_state-inverse,
  domain_by_audit_event_type-inverse,
}
use ovl.Office.Landing.{OfficeDb}
use ovl.Office.Landing.Push.{
  Payload, report_version_payload, audit_event_payload, chat_payload, unrecognized, WireItem, Turn,
  land, land_report, land_event, receipted, apply_outbox_item, push_outbox,
}
use ovl.Vessel.Outbox.{OutboxItemKind, report_version_item, audit_event_item, chat_item, OutboxItem}
use ovl.Vessel.Store.{VesselDb, get_report, get_event_by_id}
use ovl.Vessel.Sync.{
  build_outbox_item, build_items, append_built, hydrate, hydrate_event, lift, version_payload,
  event_payload,
}
use ovl.Sync.Acks.{acked}

abbrev pub fault_free : Turn → Bool
fault_free turn = not (turn.receipt_read_fails || turn.landing_fails || turn.receipt_write_fails)

abbrev pub is_chat : OutboxItemKind → Bool
is_chat chat_item = true
is_chat kind = false

module _ {F S : Type 0} (pb : StructPb F S) where
  -- The payload is a report version or an audit event that converts.
  abbrev converts : Payload S → Bool
  converts (report_version_payload pv) = is_some (report_version_to_domain ⦃pb = pb⦄ pv)
  converts (audit_event_payload pe) = is_some (report_audit_event_to_domain ⦃pb = pb⦄ pe)
  converts p = false

  abbrev payload_converts : Option (Payload S) → Bool
  payload_converts none = true
  payload_converts (some p) = converts p

  version-converts :
      (r : Option (Report F))
      → payload_converts (version_payload (lift (report_version_from_domain ⦃pb = pb⦄) r)) ≡ true
  unfolding report_version_from_domain report_version_to_domain
  version-converts none = refl
  version-converts (some r) = elim (Option-cases (schema_kind_from_name r.schema_name)) [
    | inl k ↦ rw k refl
    | inr (kind, k) ↦ elim (Option-cases (pb.new_struct r.fields)) [
      | inl f ↦ rw (k, f) refl
      | inr (fields, f) ↦
          rw
            (
              k,
              f,
              (schema_kind_from_name-inverse r.schema_name kind).0 k,
              domain_by_lifecycle_state-inverse r.state,
            )
            refl
    ]
  ]

  event-converts :
      (e : Option (Event F))
      → payload_converts (event_payload (lift (report_audit_event_from_domain ⦃pb = pb⦄) e)) ≡ true
  unfolding report_audit_event_from_domain report_audit_event_to_domain
  event-converts none = refl
  event-converts (some e) = elim (Option-cases (pb.new_detail e.detail)) [
    | inl f ↦ rw f refl
    | inr (detail, f) ↦ rw (f, domain_by_audit_event_type-inverse e.type) refl
  ]

  event_id-converts :
      (db : VesselDb F) (id : Option ℕ) → payload_converts (hydrate_event ⦃pb = pb⦄ db id) ≡ true
  unfolding hydrate_event
  event_id-converts db none = refl
  event_id-converts db (some id) = event-converts (get_event_by_id db id)

  hydrate-converts :
      (db : VesselDb F) (item : OutboxItem) (kind : OutboxItemKind)
      → is_chat kind ≡ false
      → payload_converts (hydrate ⦃pb = pb⦄ db item kind) ≡ true
  unfolding hydrate
  hydrate-converts db item report_version_item h =
      version-converts (get_report db item.report_id item.version_no)
  hydrate-converts db item audit_event_item h = event_id-converts db item.report_event_id
  hydrate-converts db item chat_item h = ground (arith, h)

module _ {F S : Type 0} ⦃fl : Floats F⦄ (pb : StructPb F S) where
  land-converts :
      (slice : SortSlice F) (v : String) (turn : Turn) (p : Payload S) (db : OfficeDb F)
      → fault_free turn ≡ true
      → converts pb p ≡ true
      → is_some (land ⦃pb = pb⦄ slice v turn p db) ≡ true
  unfolding land land_report land_event
  land-converts slice v turn (report_version_payload pv) db h c = ground (arith, h, c)
  land-converts slice v turn (audit_event_payload pe) db h c = ground (arith, h, c)
  land-converts slice v turn (chat_payload m) db h c = ground (arith, c)
  land-converts slice v turn unrecognized db h c = ground (arith, c)

  apply-accepted :
      (slice : SortSlice F) (v : String) (turn : Turn) (item : WireItem S) (db : OfficeDb F)
      → fault_free turn ≡ true
      → converts pb item.payload ≡ true
      → (apply_outbox_item ⦃pb = pb⦄ slice v turn item db).1 ≡ true
  unfolding apply_outbox_item receipted
  apply-accepted slice v turn item db h c =
      ground (arith, h, land-converts slice v turn item.payload db h c)

  built :
      (db : VesselDb F) (readable : OutboxItem → Bool) (item : OutboxItem) (wi : WireItem S)
      → build_outbox_item ⦃pb = pb⦄ db readable item ≡ some wi
      → (wi.item_id ≡ item.item_id) × (is_chat item.kind ≡ false → converts pb wi.payload ≡ true)
  unfolding build_outbox_item
  built db readable item wi h = elim (Option-cases (hydrate ⦃pb = pb⦄ db item item.kind)) [
    | inl e ↦ ground (arith, e, h)
    | inr (p, e) ↦ (
      ground (arith, e, h),
      λ k.
          ground (arith, e, h, ap (payload_converts pb) e, hydrate-converts pb db item item.kind k),
    )
  ]

  -- An item of the outbox that is sent, and is not a chat message.
  abbrev pub sendable : VesselDb F → (OutboxItem → Bool) → OutboxItem → Bool
  sendable db readable item =
      not (is_chat item.kind) && is_some (build_outbox_item ⦃pb = pb⦄ db readable item)

  -- Without a failing statement, each of them is acknowledged as accepted.
  pub sendable-acked :
      (slice : SortSlice F) (v : String) (turns : String → Turn) (readable : OutboxItem → Bool)
      (vessel : VesselDb F) (pending : List OutboxItem) (db : OfficeDb F) (j : String)
      → ((id : String) → fault_free (turns id) ≡ true)
      → any (λ row. str_eq row.item_id j && sendable vessel readable row) pending ≡ true
      → acked j
          (push_outbox ⦃pb = pb⦄ slice v turns (build_items ⦃pb = pb⦄ vessel readable pending) db).1
        ≡ true
  unfolding push_outbox build_items append_built
  sendable-acked slice v turns readable vessel [] db j h s = ground (arith, s)
  sendable-acked slice v turns readable vessel (item ∷ pending) db j h s =
      elim (Option-cases (build_outbox_item ⦃pb = pb⦄ vessel readable item)) [
        | inl e ↦ ground (arith, e, s, sendable-acked slice v turns readable vessel pending db j h)
        | inr (wi, e) ↦
            let (same, conv) = built vessel readable item wi e in
            let step = apply_outbox_item ⦃pb = pb⦄ slice v (turns wi.item_id) wi db in
            rw e (elim (Bool-cases (str_eq item.item_id j && not (is_chat item.kind))) [
              | inl q ↦ ground (
                arith,
                q,
                same,
                apply-accepted slice v (turns wi.item_id) wi db (h wi.item_id)
                    (conv (ground arith)),
              )
              | inr q ↦
                  ground
                    (arith, q, s, sendable-acked slice v turns readable vessel pending step.0 j h)
            ])
      ]
