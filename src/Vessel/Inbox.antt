-- ===== src/Vessel/Inbox.antt =====
-- vessel/store/inbox.go, invalidation.go and remarks.go, and the commands in vessel/httpapi/sync.go:
-- what the vessel does with what it pulled. The times of receipt are left out.
pub mod Apply
pub mod Lost
use ovl.Base.{
  ℕ, String, Bool, true, false, not, ◌&&◌, ◌||◌, Option, none, some, List, [], ◌∷◌, ◌++◌, any, map,
  ◌==◌, ltb, str_eq, if◌then◌else◌,
}
use ovl.Base.Faults.{Budget, spend}
use ovl.Domain.State.{is_invalidated_state}
use ovl.Domain.Event.{Event}
use ovl.Domain.Report.{Report}
use ovl.Domain.Lifecycle.{LifecycleError, mark_remarked, invalidate}
use ovl.Domain.Message.{ChatMessage, Remark, InvalidationNotice}
use ovl.Office.Inbox.Answer.{Cursors}
use ovl.Vessel.Handlers.{strings_equal, already_recorded}
use ovl.Vessel.Store.{VesselDb, get_latest_version, save_report, append_event, insert_chat_message}

-- `PulledSchemaVersion` and `PulledConfigBundle`
pub record PulledSchemaVersion : Type 0 where
  pub schema_name : String
  pub version : String
  pub content : String
  pub published_at : ℕ

pub record PulledConfigBundle : Type 0 where
  pub bundle_id : String
  pub version_no : ℕ
  pub content : String
  pub published_at : ℕ

-- The vessel's tables, with those of the inbox.
pub record InboxTables (F : Type 0) : Type 0 where
  pub db : VesselDb F
  pub cursors : Cursors
  pub schema_versions : List PulledSchemaVersion
  pub config_bundles : List PulledConfigBundle
  pub notices : List InvalidationNotice
  pub remarks : List Remark

-- What one pull brought, with the cursors to store.
pub record Pulled : Type 0 where
  pub schema_versions : List PulledSchemaVersion
  pub config_bundles : List PulledConfigBundle
  pub chat_messages : List ChatMessage
  pub notices : List InvalidationNotice
  pub remarks : List Remark
  pub next : Cursors

-- ON CONFLICT DO NOTHING
unfoldable pub insert_schema_versions :
    List PulledSchemaVersion → List PulledSchemaVersion → List PulledSchemaVersion
insert_schema_versions [] table = table
insert_schema_versions (v ∷ vs) table = insert_schema_versions vs (
    if any
      (λ (row : PulledSchemaVersion).
        str_eq row.schema_name v.schema_name && str_eq row.version v.version)
      table
    then table
    else table ++ v ∷ [])

-- `ApplyConfigBundle`, one row of the loop over the bundles too.
unfoldable pub apply_config_bundle :
    PulledConfigBundle → List PulledConfigBundle → List PulledConfigBundle
apply_config_bundle b table =
    if any (λ (row : PulledConfigBundle). str_eq row.bundle_id b.bundle_id) table
    then table
    else table ++ b ∷ []

unfoldable pub insert_config_bundles :
    List PulledConfigBundle → List PulledConfigBundle → List PulledConfigBundle
unfolding apply_config_bundle
insert_config_bundles [] table = table
insert_config_bundles (b ∷ bs) table = insert_config_bundles bs (apply_config_bundle b table)

abbrev pub higher : PulledConfigBundle → Option PulledConfigBundle → PulledConfigBundle
higher b none = b
higher b (some best) = if ltb b.version_no best.version_no then best else b

-- `LatestConfigBundle`
unfoldable pub latest_config_bundle : List PulledConfigBundle → Option PulledConfigBundle
latest_config_bundle [] = none
latest_config_bundle (b ∷ bs) = some (higher b (latest_config_bundle bs))

-- `latestInvalidationNotice`; rows are in the order of their ids.
unfoldable pub latest_invalidation_notice :
    String → ℕ → List InvalidationNotice → Option InvalidationNotice → Option InvalidationNotice
latest_invalidation_notice report_id version_no [] found = found
latest_invalidation_notice report_id version_no (n ∷ ns) found =
    latest_invalidation_notice report_id version_no ns
      (if str_eq n.report_id report_id && (n.version_no == version_no) then some n else found)

abbrev pub has_rules : List String → Option InvalidationNotice → Bool
has_rules rules none = false
has_rules rules (some n) = strings_equal n.broken_rules rules

module _ {F : Type 0} where
  unfoldable pub insert_chat_messages : List ChatMessage → VesselDb F → VesselDb F
  insert_chat_messages [] db = db
  insert_chat_messages (m ∷ ms) db = insert_chat_messages ms (insert_chat_message db m)

  -- The transaction of `ApplyInboxPull`, with the cursors.
  unfoldable pub commit_pull : Pulled → InboxTables F → InboxTables F
  commit_pull pulled t = record t {
    db = insert_chat_messages pulled.chat_messages t.db;
    cursors = pulled.next;
    schema_versions = insert_schema_versions pulled.schema_versions t.schema_versions;
    config_bundles = insert_config_bundles pulled.config_bundles t.config_bundles;
  }

  -- `InsertInvalidationNotice`
  unfoldable pub insert_invalidation_notice :
      InvalidationNotice → InboxTables F → Budget → InboxTables F × Option Budget
  insert_invalidation_notice n t budget = elim (spend budget) [
    | none ↦ (t, none)
    | some b ↦
        if has_rules n.broken_rules
          (latest_invalidation_notice n.report_id n.version_no t.notices none)
        then (t, some b)
        else elim (spend b) [
          | none ↦ (t, none)
          | some b' ↦ (record t { notices = t.notices ++ n ∷ [] }, some b')
        ]
  ]

  -- Saving a report and appending its event: two statements.
  unfoldable pub persist :
      Report F → Event F → InboxTables F → Budget → InboxTables F × Option Budget
  persist r e t budget = elim (spend budget) [
    | none ↦ (t, none)
    | some b ↦ elim (spend b) [
      | none ↦ (record t { db = save_report t.db r }, none)
      | some b' ↦ (record t { db = (append_event (save_report t.db r) e).0 }, some b')
    ]
  ]

  invalidate_latest :
      InvalidationNotice
      → Option (Report F)
      → InboxTables F
      → Budget
      → InboxTables F × Option Budget
  invalidate_latest n none t budget = (t, some budget)
  invalidate_latest n (some r) t budget =
      if already_recorded r n.broken_rules
      then (t, some budget)
      else persist (invalidate r n.broken_rules n.computed_at).0
          (invalidate r n.broken_rules n.computed_at).1 t budget

  -- `applyInvalidationNotice`
  unfoldable pub apply_invalidation_notice :
      InvalidationNotice → InboxTables F → Budget → InboxTables F × Option Budget
  unfolding invalidate_latest
  apply_invalidation_notice n t budget = elim (spend budget) [
    | none ↦ (t, none)
    | some b ↦ invalidate_latest n (get_latest_version t.db n.report_id) t b
  ]

  -- The loop over the notices, up to the first error.
  unfoldable pub apply_notices :
      List InvalidationNotice → InboxTables F → Budget → InboxTables F × Option Budget
  apply_notices [] t budget = (t, some budget)
  apply_notices (n ∷ ns) t budget =
      let stored = insert_invalidation_notice n t budget in
      elim stored.1 [
        | none ↦ (stored.0, none)
        | some b ↦
            let applied = apply_invalidation_notice n stored.0 b in
            elim applied.1 [ none ↦ (applied.0, none) | some b' ↦ apply_notices ns applied.0 b' ]
      ]
