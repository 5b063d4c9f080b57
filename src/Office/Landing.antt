-- ===== src/Office/Landing.antt =====
-- office/store/reportlanding.go, chat.go and invalidation.go: the tables in which the office lands what
-- the vessels send. Each statement is a function on the tables; where it may fail is the caller's.
pub mod Cascade
pub mod Push
pub mod Receipts
pub mod Retry
pub mod Chats
use ovl.Base.{
  ℕ, ◌+◌, String, Bool, not, ◌&&◌, Option, none, some, List, [], ◌∷◌, ◌++◌, any, keep, ◌==◌, leb,
  ltb, str_eq, if◌then◌else◌,
}
use ovl.Base.Dict.{Dict}
use ovl.Domain.State.{State}
use ovl.Domain.Event.{Event}
use ovl.Domain.Report.{Report}
use ovl.Domain.Message.{ChatMessage, InvalidationNotice}
use ovl.Office.Severities.{RuleSeverityAssignment}

-- A row of `report_versions`; the report as it is read back.
pub record VersionRow (F : Type 0) : Type 0 where
  pub vessel_id : String
  pub schema_version : String
  pub received_at : ℕ
  pub report : Report F

-- Which side an audit event comes from.
pub data Origin : Type 0 where
  vessel_side office_side : Origin

pub record AuditRow (F : Type 0) : Type 0 where
  pub vessel_id : String
  pub received_at : ℕ
  pub origin : Origin
  pub event : Event F

-- A row of a table that vessels pull from: chat messages, notices, remarks, commands.
pub record Row (A : Type 0) : Type 0 where
  pub vessel_id : String
  pub seq : ℕ
  pub item : A

pub record Receipt : Type 0 where
  pub vessel_id : String
  pub item_id : String
  pub sequence_no : ℕ
  pub received_at : ℕ

-- The tables; a BIGSERIAL column has its next value beside it. `groups` is the vessels' table.
pub record OfficeDb (F : Type 0) : Type 0 where
  pub versions : List (VersionRow F)
  pub audit_events : List (AuditRow F)
  pub chats : List (Row ChatMessage)
  pub next_chat_seq : ℕ
  pub receipts : List Receipt
  pub notices : List (Row InvalidationNotice)
  pub next_notice_seq : ℕ
  pub groups : Dict (List String)
  pub severities : List RuleSeverityAssignment

abbrev pub is_receipt : String → String → Receipt → Bool
is_receipt vessel_id item_id r = str_eq r.vessel_id vessel_id && str_eq r.item_id item_id

module _ {F : Type 0} where
  -- What `report_versions` keeps of a report: the other fields are read back as zero.
  abbrev pub landed : Report F → Report F
  landed r = record r {
    invalidated_from = none;
    invalidated_rules = [];
    created_at = 0;
    created_by = "";
    updated_at = 0;
    submitted_by = "";
  }

  abbrev pub is_version : String → String → ℕ → VersionRow F → Bool
  is_version vessel_id report_id version_no row =
      str_eq row.vessel_id vessel_id
      && str_eq row.report.report_id report_id
      && (row.report.version_no == version_no)

  unfoldable pub upsert_row : VersionRow F → List (VersionRow F) → List (VersionRow F)
  upsert_row row [] = row ∷ []
  upsert_row row (old ∷ rows) =
      let rest = upsert_row row rows in
      if is_version row.vessel_id row.report.report_id row.report.version_no old
      then row ∷ rows
      else old ∷ rest

  -- `UpsertReportVersion`
  unfoldable pub upsert_report_version : OfficeDb F → String → Report F → String → ℕ → OfficeDb F
  unfolding upsert_row
  upsert_report_version db vessel_id r schema_version received_at = record db {
    versions =
        upsert_row
          (record {
            vessel_id = vessel_id;
            schema_version = schema_version;
            received_at = received_at;
            report = landed r;
          })
          db.versions;
  }

  find_version : String → String → ℕ → List (VersionRow F) → Option (Report F)
  find_version vessel_id report_id version_no [] = none
  find_version vessel_id report_id version_no (row ∷ rows) =
      if is_version vessel_id report_id version_no row
      then some row.report
      else find_version vessel_id report_id version_no rows

  -- `GetReportVersion`; `none` is ErrNotFound.
  unfoldable pub get_report_version : OfficeDb F → String → String → ℕ → Option (Report F)
  unfolding find_version
  get_report_version db vessel_id report_id version_no =
      find_version vessel_id report_id version_no db.versions

  -- `AppendReportAuditEvent`
  unfoldable pub append_report_audit_event : OfficeDb F → String → Event F → ℕ → Origin → OfficeDb F
  append_report_audit_event db vessel_id e received_at origin = record db {
    audit_events =
        db.audit_events
        ++ record { vessel_id = vessel_id; received_at = received_at; origin = origin; event = e }
          ∷ [];
  }

  -- `ListReportVersions`, `ListChain`: their rows, by version number and by event time.
  insert_by_version : Report F → List (Report F) → List (Report F)
  insert_by_version x [] = x ∷ []
  insert_by_version x (y ∷ ys) =
      let rest = insert_by_version x ys in
      if leb x.version_no y.version_no then x ∷ y ∷ ys else y ∷ rest

  versions_of : String → String → List (VersionRow F) → List (Report F)
  versions_of vessel_id report_id [] = []
  versions_of vessel_id report_id (row ∷ rows) =
      let rest = versions_of vessel_id report_id rows in
      if str_eq row.vessel_id vessel_id && str_eq row.report.report_id report_id
      then insert_by_version row.report rest
      else rest

  -- `ListReportVersions`
  unfoldable pub list_report_versions : OfficeDb F → String → String → List (Report F)
  unfolding versions_of insert_by_version
  list_report_versions db vessel_id report_id = versions_of vessel_id report_id db.versions

  -- A later version of the report among the rows of the vessel and the schema.
  abbrev pub in_schema : String → String → VersionRow F → Bool
  in_schema vessel_id schema_name row =
      str_eq row.vessel_id vessel_id && str_eq row.report.schema_name schema_name

  abbrev pub has_later : String → String → Report F → List (VersionRow F) → Bool
  has_later vessel_id schema_name r rows =
      any
        (λ row.
          in_schema vessel_id schema_name row
          && str_eq row.report.report_id r.report_id
          && ltb r.version_no row.report.version_no)
        rows

  unfoldable pub insert_by_event_time : Report F → List (Report F) → List (Report F)
  insert_by_event_time x [] = x ∷ []
  insert_by_event_time x (y ∷ ys) =
      let rest = insert_by_event_time x ys in
      if leb x.event_time y.event_time then x ∷ y ∷ ys else y ∷ rest

  unfoldable pub latest_in :
      String → String → List (VersionRow F) → List (VersionRow F) → List (Report F)
  unfolding insert_by_event_time
  latest_in vessel_id schema_name all_rows [] = []
  latest_in vessel_id schema_name all_rows (row ∷ rows) =
      let rest = latest_in vessel_id schema_name all_rows rows in
      if in_schema vessel_id schema_name row
        && not (has_later vessel_id schema_name row.report all_rows)
      then insert_by_event_time row.report rest
      else rest

  -- `ListChain`; equal event times stay in the order of the table.
  unfoldable pub list_chain : OfficeDb F → String → String → List (Report F)
  unfolding latest_in
  list_chain db vessel_id schema_name = latest_in vessel_id schema_name db.versions db.versions

  unfoldable pub set_state : String → String → ℕ → State → List (VersionRow F) → List (VersionRow F)
  set_state vessel_id report_id version_no state [] = []
  set_state vessel_id report_id version_no state (row ∷ rows) =
      let rest = set_state vessel_id report_id version_no state rows in
      if is_version vessel_id report_id version_no row
      then record row { report = record (row.report) { state = state } } ∷ rest
      else row ∷ rest

  -- `UpdateReportVersionState`
  unfoldable pub update_report_version_state : OfficeDb F → String → String → ℕ → State → OfficeDb F
  unfolding set_state
  update_report_version_state db vessel_id report_id version_no state = record db {
    versions = set_state vessel_id report_id version_no state db.versions;
  }

  -- `HasOutboxReceipt`
  unfoldable pub has_outbox_receipt : OfficeDb F → String → String → Bool
  has_outbox_receipt db vessel_id item_id = any (is_receipt vessel_id item_id) db.receipts

  -- `RecordOutboxReceipt`
  unfoldable pub record_outbox_receipt : OfficeDb F → String → String → ℕ → ℕ → OfficeDb F
  record_outbox_receipt db vessel_id item_id sequence_no received_at =
      if any (is_receipt vessel_id item_id) db.receipts then db else record db {
        receipts =
            db.receipts
            ++ record {
              vessel_id = vessel_id;
              item_id = item_id;
              sequence_no = sequence_no;
              received_at = received_at;
            }
              ∷ [];
      }

  -- `InsertChatMessage`; `none` where the primary key is taken, by a message of any vessel.
  unfoldable pub insert_chat_message : OfficeDb F → String → ChatMessage → Option (OfficeDb F)
  insert_chat_message db vessel_id m =
      if any (λ row. str_eq row.item.id m.id) db.chats
      then none
      else some (record db {
        chats = db.chats ++ record { vessel_id = vessel_id; seq = db.next_chat_seq; item = m } ∷ [];
        next_chat_seq = db.next_chat_seq + 1;
      })

  -- `InsertInvalidationNotice`
  unfoldable pub insert_invalidation_notice :
      OfficeDb F → String → String → ℕ → List String → ℕ → OfficeDb F
  insert_invalidation_notice db vessel_id report_id version_no rules at = record db {
    notices =
        db.notices
        ++ record {
          vessel_id = vessel_id;
          seq = db.next_notice_seq;
          item = record {
            report_id = report_id;
            version_no = version_no;
            broken_rules = rules;
            computed_at = at;
          };
        }
          ∷ [];
    next_notice_seq = db.next_notice_seq + 1;
  }

-- The last row of a version, or what was found before it.
abbrev pub is_notice : String → String → ℕ → Row InvalidationNotice → Bool
is_notice vessel_id report_id version_no row =
    str_eq row.vessel_id vessel_id
    && str_eq row.item.report_id report_id
    && (row.item.version_no == version_no)

unfoldable pub latest_notice :
    String
    → String
    → ℕ
    → List (Row InvalidationNotice)
    → Option InvalidationNotice
    → Option InvalidationNotice
latest_notice vessel_id report_id version_no [] found = found
latest_notice vessel_id report_id version_no (row ∷ rows) found =
    latest_notice vessel_id report_id version_no rows
      (if is_notice vessel_id report_id version_no row then some row.item else found)

-- `GetLatestInvalidationNotice`; rows are in the order of `seq`.
unfoldable pub get_latest_invalidation_notice :
    {F : Type 0} → OfficeDb F → String → String → ℕ → Option InvalidationNotice
unfolding latest_notice
get_latest_invalidation_notice db vessel_id report_id version_no =
    latest_notice vessel_id report_id version_no db.notices none
