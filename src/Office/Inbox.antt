-- ===== src/Office/Inbox.antt =====
-- office/syncservice/pullinbox.go: what a vessel pulls, stream by stream, past its cursors. A list of
-- a stream is `Option`: `none` where the statement fails.
pub mod Answer
pub mod Order
pub mod Streams
use ovl.Base.{
  ℕ, String, Bool, true, false, not, ◌&&◌, ◌||◌, is_some, Option, none, some, List, [], ◌∷◌, map,
  leb, ltb, str_eq, if◌then◌else◌,
}
use ovl.Base.Dict.{Dict, lookup}
use ovl.Domain.Message.{ChatDirection, from_office, ChatMessage, Remark, InvalidationNotice}
use ovl.Wire.{
  WireChat, ReportSchemaKind, schema_kind_from_name, chat_message_from_domain, remark_from_domain,
  notice_from_domain,
}
use ovl.Office.Landing.{Row}

-- `RestoreCommand` and `UserCommand` of office/store, without what the pull does not read.
pub record RestoreCommand : Type 0 where
  pub id : String
  pub reason : String
  pub issued_at : ℕ

pub record UserCommand : Type 0 where
  pub id : String
  pub action : String
  pub username : String
  pub role : String
  pub temporary_password : String
  pub can_submit : Bool
  pub active : Bool
  pub issued_by : String
  pub issued_at : ℕ

-- `UserCommandActionFromString`
pub data UserCommandAction : Type 0 where
  create reset_password set_role set_active set_can_submit : UserCommandAction

abbrev pub user_command_action_by_string : Dict UserCommandAction
user_command_action_by_string =
    ("create", create)
    ∷ ("resetPassword", reset_password)
    ∷ ("setRole", set_role)
    ∷ ("setActive", set_active)
    ∷ ("setCanSubmit", set_can_submit)
    ∷ []

unfoldable pub user_command_action_from_string : String → Option UserCommandAction
user_command_action_from_string action = lookup action user_command_action_by_string

-- A published schema version, and its wire form.
pub record SchemaVersion : Type 0 where
  pub schema_name : String
  pub version : String
  pub content : String
  pub published_at : ℕ

pub record WireSchemaVersion : Type 0 where
  pub schema_kind : ReportSchemaKind
  pub version : String
  pub schema_json : String
  pub published_at : ℕ

-- The rows of the vessel past the cursor, ORDER BY seq ASC.
module _ {A : Type 0} where
  unfoldable pub insert_by_seq : Row A → List (Row A) → List (Row A)
  insert_by_seq x [] = x ∷ []
  insert_by_seq x (y ∷ ys) =
      let rest = insert_by_seq x ys in if leb x.seq y.seq then x ∷ y ∷ ys else y ∷ rest

  unfoldable pub list_since : (Row A → Bool) → ℕ → List (Row A) → List (Row A)
  unfolding insert_by_seq
  list_since wanted since [] = []
  list_since wanted since (row ∷ rows) =
      let rest = list_since wanted since rows in
      if wanted row && ltb since row.seq then insert_by_seq row rest else rest

  abbrev pub of_vessel : String → Row A → Bool
  of_vessel vessel_id row = str_eq row.vessel_id vessel_id

  -- The loop of a pull: the items, and the highest cursor.
  unfoldable pub pull_loop : {B : Type 0} → (A → B) → ℕ → List (Row A) → List B × ℕ
  pull_loop convert next [] = ([], next)
  pull_loop convert next (row ∷ rows) =
      let (out, last) = pull_loop convert (if ltb next row.seq then row.seq else next) rows in
      (convert row.item ∷ out, last)

-- `pullRestoreCommands`, `pullRemarks`, `pullInvalidationNotices`, `pullChatMessages`.
unfoldable pub pull_restore_commands :
    List (Row RestoreCommand) → String → ℕ → List RestoreCommand × ℕ
pull_restore_commands rows vessel_id since =
    pull_loop (λ c. c) since (list_since (of_vessel vessel_id) since rows)

unfoldable pub pull_remarks : List (Row Remark) → String → ℕ → List Remark × ℕ
pull_remarks rows vessel_id since =
    pull_loop remark_from_domain since (list_since (of_vessel vessel_id) since rows)

unfoldable pub pull_invalidation_notices :
    List (Row InvalidationNotice) → String → ℕ → List InvalidationNotice × ℕ
pull_invalidation_notices rows vessel_id since =
    pull_loop notice_from_domain since (list_since (of_vessel vessel_id) since rows)

abbrev pub is_office : ChatDirection → Bool
is_office from_office = true
is_office direction = false

abbrev pub from_office_row : String → Row ChatMessage → Bool
from_office_row vessel_id row = of_vessel vessel_id row && is_office row.item.direction

unfoldable pub pull_chat_messages : List (Row ChatMessage) → String → ℕ → List WireChat × ℕ
pull_chat_messages rows vessel_id since =
    pull_loop chat_message_from_domain since (list_since (from_office_row vessel_id) since rows)

-- `pullSchemaVersions`; a name without a kind fails the call.
wire_schema_version : SchemaVersion → Option ReportSchemaKind → Option WireSchemaVersion
wire_schema_version v none = none
wire_schema_version v (some kind) = some (record {
  schema_kind = kind;
  version = v.version;
  schema_json = v.content;
  published_at = v.published_at;
})

abbrev pub cons_converted : {B : Type 0} → Option B → Option (List B × ℕ) → Option (List B × ℕ)
cons_converted none rest = none
cons_converted (some b) none = none
cons_converted (some b) (some (out, last)) = some (b ∷ out, last)

schema_loop : ℕ → List (Row SchemaVersion) → Option (List WireSchemaVersion × ℕ)
schema_loop next [] = some ([], next)
schema_loop next (row ∷ rows) =
    cons_converted (wire_schema_version row.item (schema_kind_from_name row.item.schema_name))
      (schema_loop (if ltb next row.seq then row.seq else next) rows)

unfoldable pub pull_schema_versions :
    List (Row SchemaVersion) → ℕ → Option (List WireSchemaVersion × ℕ)
unfolding schema_loop wire_schema_version
pull_schema_versions rows since = schema_loop since (list_since (λ row. true) since rows)

-- `pullUserCommands`; each command is marked as fetched, and an unknown action fails the call.
-- `fetched` are the identifiers marked so far.
user_loop :
    (String → Bool)
    → ℕ
    → List (Row UserCommand)
    → List String
    → Option (List (UserCommand × UserCommandAction) × ℕ) × List String
user_loop mark_fails next [] fetched = (some ([], next), fetched)
user_loop mark_fails next (row ∷ rows) fetched =
    let rest =
      user_loop mark_fails (if ltb next row.seq then row.seq else next) rows
        (row.item.id ∷ fetched) in
    elim (user_command_action_from_string row.item.action) [
      | none ↦ (none, fetched)
      | some action ↦
          if mark_fails row.item.id
          then (none, fetched)
          else (cons_converted (some (row.item, action)) rest.0, rest.1)
    ]

unfoldable pub pull_user_commands :
    (String → Bool)
    → List (Row UserCommand)
    → String
    → ℕ
    → List String
    → Option (List (UserCommand × UserCommandAction) × ℕ) × List String
unfolding user_loop
pull_user_commands mark_fails rows vessel_id since fetched =
    user_loop mark_fails since (list_since (of_vessel vessel_id) since rows) fetched
