-- ===== src/Vessel/Store.antt =====
-- vessel/store/reports.go, events.go, chat.go: the vessel's tables of reports, audit events, chat
-- messages and the outbox. The rows that a delete takes out of other tables are not modelled.
use ovl.Base.{
  ℕ, ◌+◌, String, Bool, not, ◌&&◌, Option, none, some, List, [], ◌∷◌, ◌++◌, any, keep, ◌==◌, leb,
  ltb, str_eq, if◌then◌else◌,
}
use ovl.Domain.State.{State, in_chain}
use ovl.Domain.Event.{Event}
use ovl.Domain.Report.{Report}
use ovl.Domain.Message.{ChatMessage}
use ovl.Vessel.Outbox.{Outbox}

-- A row of `report_events`, with its AUTOINCREMENT key.
pub record EventRow (F : Type 0) : Type 0 where
  pub id : ℕ
  pub event : Event F

-- A row of `deleted_report_log`.
pub record DeletedReport : Type 0 where
  pub report_id : String
  pub schema_name : String
  pub event_type : String
  pub event_time : ℕ
  pub state : State
  pub deleted_by : String
  pub deleted_at : ℕ

pub record VesselDb (F : Type 0) : Type 0 where
  pub reports : List (Report F)
  pub events : List (EventRow F)
  pub next_event_id : ℕ
  pub chats : List ChatMessage
  pub deleted : List DeletedReport
  pub outbox : Outbox

module _ {F : Type 0} where
  abbrev pub is_version : String → ℕ → Report F → Bool
  is_version report_id version_no r = str_eq r.report_id report_id && (r.version_no == version_no)

  -- An update leaves the columns of the creation.
  abbrev updated : Report F → Report F → Report F
  updated old r = record r { created_at = old.created_at; created_by = old.created_by }

  unfoldable pub upsert : Report F → List (Report F) → List (Report F)
  upsert r [] = r ∷ []
  upsert r (old ∷ rs) =
      let rest = upsert r rs in
      if is_version r.report_id r.version_no old then updated old r ∷ rs else old ∷ rest

  -- `SaveReport`; the trigger against a change of submitted data is outside the model, and no caller
  -- here changes such data.
  unfoldable pub save_report : VesselDb F → Report F → VesselDb F
  unfolding upsert
  save_report db r = record db { reports = upsert r db.reports }

  unfoldable pub find_report : String → ℕ → List (Report F) → Option (Report F)
  find_report report_id version_no [] = none
  find_report report_id version_no (r ∷ rs) =
      if is_version report_id version_no r then some r else find_report report_id version_no rs

  -- `GetReport`; `none` is ErrNotFound.
  unfoldable pub get_report : VesselDb F → String → ℕ → Option (Report F)
  unfolding find_report
  get_report db report_id version_no = find_report report_id version_no db.reports

  later : Report F → Option (Report F) → Report F
  later r none = r
  later r (some best) = if ltb r.version_no best.version_no then best else r

  find_latest : String → List (Report F) → Option (Report F)
  find_latest report_id [] = none
  find_latest report_id (r ∷ rs) =
      let rest = find_latest report_id rs in
      if str_eq r.report_id report_id then some (later r rest) else rest

  -- `GetLatestVersion`
  unfoldable pub get_latest_version : VesselDb F → String → Option (Report F)
  unfolding find_latest later
  get_latest_version db report_id = find_latest report_id db.reports

  -- `AppendEvent`, with the key of the row.
  unfoldable pub append_event : VesselDb F → Event F → VesselDb F × ℕ
  append_event db e = (
    record db {
      events = db.events ++ record { id = db.next_event_id; event = e } ∷ [];
      next_event_id = db.next_event_id + 1;
    },
    db.next_event_id,
  )

  unfoldable pub find_event : ℕ → List (EventRow F) → Option (Event F)
  find_event id [] = none
  find_event id (row ∷ rows) = if row.id == id then some row.event else find_event id rows

  -- `GetEventByID`
  unfoldable pub get_event_by_id : VesselDb F → ℕ → Option (Event F)
  unfolding find_event
  get_event_by_id db id = find_event id db.events

  -- `InsertChatMessage`
  unfoldable pub insert_chat_message : VesselDb F → ChatMessage → VesselDb F
  insert_chat_message db m =
      if any (λ (row : ChatMessage). str_eq row.id m.id) db.chats
      then db
      else record db { chats = db.chats ++ m ∷ [] }

  -- The committed version that the chain holds: no later committed one of the same report.
  abbrev has_later_committed : Report F → List (Report F) → Bool
  has_later_committed r rs =
      any
        (λ (s : Report F).
          str_eq s.report_id r.report_id && in_chain s.state && ltb r.version_no s.version_no)
        rs

  insert_by_event_time : Report F → List (Report F) → List (Report F)
  insert_by_event_time x [] = x ∷ []
  insert_by_event_time x (y ∷ ys) =
      let rest = insert_by_event_time x ys in
      if leb x.event_time y.event_time then x ∷ y ∷ ys else y ∷ rest

  committed_in : String → List (Report F) → List (Report F) → List (Report F)
  committed_in schema_name all_rows [] = []
  committed_in schema_name all_rows (r ∷ rs) =
      let rest = committed_in schema_name all_rows rs in
      if str_eq r.schema_name schema_name
        && in_chain r.state
        && not (has_later_committed r all_rows)
      then insert_by_event_time r rest
      else rest

  -- `ListCommittedChain`; equal event times stay in the order of the table.
  unfoldable pub list_committed_chain : VesselDb F → String → List (Report F)
  unfolding committed_in insert_by_event_time
  list_committed_chain db schema_name = committed_in schema_name db.reports db.reports

  unfoldable pub delete_latest :
      VesselDb F → String → String → ℕ → Option (Report F) → Option (VesselDb F)
  delete_latest db report_id deleted_by now none = none
  delete_latest db report_id deleted_by now (some latest) = some (record db {
    deleted =
        db.deleted
        ++ record {
          report_id = latest.report_id;
          schema_name = latest.schema_name;
          event_type = latest.event_type;
          event_time = latest.event_time;
          state = latest.state;
          deleted_by = deleted_by;
          deleted_at = now;
        }
          ∷ [];
    chats = keep (λ (m : ChatMessage). not (str_eq m.report_id report_id)) db.chats;
    events = keep (λ (row : EventRow F). not (str_eq row.event.report_id report_id)) db.events;
    reports = keep (λ (r : Report F). not (str_eq r.report_id report_id)) db.reports;
  })

  -- `DeleteReport`; `none` is ErrNotFound.
  unfoldable pub delete_report : VesselDb F → String → String → ℕ → Option (VesselDb F)
  unfolding delete_latest
  delete_report db report_id deleted_by now =
      delete_latest db report_id deleted_by now (get_latest_version db report_id)

find_chat : String → List ChatMessage → Option ChatMessage
find_chat id [] = none
find_chat id (m ∷ ms) = if str_eq m.id id then some m else find_chat id ms

-- `GetChatMessage`
unfoldable pub get_chat_message : {F : Type 0} → VesselDb F → String → Option ChatMessage
unfolding find_chat
get_chat_message db id = find_chat id db.chats
