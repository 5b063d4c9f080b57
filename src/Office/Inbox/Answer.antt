-- ===== src/Office/Inbox/Answer.antt =====
-- The whole pull: the assigned bundle, the seven streams, and the next cursors.
use ovl.Base.{
  ℕ, String, Bool, not, ◌&&◌, ◌||◌, is_some, Option, none, some, List, [], ◌∷◌, leb, str_eq,
  if◌then◌else◌,
}
use ovl.Base.Dict.{Dict, lookup}
use ovl.Domain.Message.{ChatMessage, Remark, InvalidationNotice}
use ovl.Wire.{WireChat}
use ovl.Office.Bundles.{BundleAssignment, resolve}
use ovl.Office.Landing.{Row}
use ovl.Office.Inbox.{
  RestoreCommand, UserCommand, UserCommandAction, SchemaVersion, WireSchemaVersion,
  pull_restore_commands, pull_remarks, pull_invalidation_notices, pull_chat_messages,
  pull_schema_versions, pull_user_commands,
}

-- A published bundle, and its wire form: `resolved_for` are the vessel and the groups for which
-- `ResolveFor` computes the content.
pub record PublishedBundle : Type 0 where
  pub id : String
  pub cursor : ℕ
  pub published_at : ℕ

pub record WireBundle : Type 0 where
  pub bundle_id : String
  pub version_no : ℕ
  pub resolved_for : String × List String
  pub published_at : ℕ

find_bundle : String → List PublishedBundle → Option PublishedBundle
find_bundle id [] = none
find_bundle id (b ∷ bundles) = if str_eq b.id id then some b else find_bundle id bundles

newer_bundle : String → List String → ℕ → Option PublishedBundle → Option (List WireBundle × ℕ)
newer_bundle vessel_id groups since none = none
newer_bundle vessel_id groups since (some b) =
    if leb b.cursor since
    then some ([], since)
    else some (
      record {
        bundle_id = b.id;
        version_no = b.cursor;
        resolved_for = (vessel_id, groups);
        published_at = b.published_at;
      }
          ∷ [],
      b.cursor,
    )

assigned_bundle :
    List BundleAssignment
    → List PublishedBundle
    → String
    → ℕ
    → Option (List String)
    → Option (List WireBundle × ℕ)
assigned_bundle assignments bundles vessel_id since none = none
assigned_bundle assignments bundles vessel_id since (some groups) =
    elim (resolve assignments vessel_id groups) [
      | none ↦ some ([], since)
      | some match ↦ newer_bundle vessel_id groups since (find_bundle match.bundle_id bundles)
    ]

-- `pullAssignedBundle`; the groups come from the table of vessels.
unfoldable pub pull_assigned_bundle :
    Dict (List String)
    → List BundleAssignment
    → List PublishedBundle
    → String
    → ℕ
    → Option (List WireBundle × ℕ)
unfolding assigned_bundle newer_bundle find_bundle
pull_assigned_bundle groups assignments bundles vessel_id since =
    assigned_bundle assignments bundles vessel_id since (lookup vessel_id groups)

-- `syncv1.SyncCursors`, also the row of the vessel's `inbox_cursors`.
pub record Cursors : Type 0 where
  pub config_bundle : ℕ
  pub schema_version : ℕ
  pub remark : ℕ
  pub chat : ℕ
  pub invalidation_notice : ℕ
  pub restore_command : ℕ
  pub user_command : ℕ

-- The tables that a pull reads; `fetched` are the user commands marked as fetched.
pub record InboxDb : Type 0 where
  pub groups : Dict (List String)
  pub assignments : List BundleAssignment
  pub bundles : List PublishedBundle
  pub schema_versions : List (Row SchemaVersion)
  pub chats : List (Row ChatMessage)
  pub notices : List (Row InvalidationNotice)
  pub remarks : List (Row Remark)
  pub restore_commands : List (Row RestoreCommand)
  pub user_commands : List (Row UserCommand)
  pub fetched : List String

-- `syncv1.PullInboxResponse`
pub record PullResponse : Type 0 where
  pub config_bundles : List WireBundle
  pub schema_versions : List WireSchemaVersion
  pub chat_messages : List WireChat
  pub invalidation_notices : List InvalidationNotice
  pub remarks : List Remark
  pub restore_commands : List RestoreCommand
  pub user_commands : List (UserCommand × UserCommandAction)
  pub next_cursors : Cursors

respond :
    InboxDb
    → String
    → Cursors
    → Option (List WireSchemaVersion × ℕ)
    → Option (List WireBundle × ℕ)
    → Option (List (UserCommand × UserCommandAction) × ℕ)
    → Option PullResponse
respond db vessel_id c (some schemas) (some bundles) (some users) =
    let chats = pull_chat_messages db.chats vessel_id c.chat in
    let notices = pull_invalidation_notices db.notices vessel_id c.invalidation_notice in
    let remarks = pull_remarks db.remarks vessel_id c.remark in
    let restores = pull_restore_commands db.restore_commands vessel_id c.restore_command in
    some (record {
      config_bundles = bundles.0;
      schema_versions = schemas.0;
      chat_messages = chats.0;
      invalidation_notices = notices.0;
      remarks = remarks.0;
      restore_commands = restores.0;
      user_commands = users.0;
      next_cursors = record {
        config_bundle = bundles.1;
        schema_version = schemas.1;
        remark = remarks.1;
        chat = chats.1;
        invalidation_notice = notices.1;
        restore_command = restores.1;
        user_command = users.1;
      };
    })
respond db vessel_id c schemas bundles users = none

-- `PullInbox`; the user commands come last, and only where the other streams could be read.
-- `read_fails` says that a read fails, `mark_fails` which marking does. `none` is an error.
unfoldable pub pull_inbox :
    Bool → (String → Bool) → String → Cursors → InboxDb → Option PullResponse × InboxDb
unfolding respond
pull_inbox read_fails mark_fails vessel_id c db =
    let schemas = pull_schema_versions db.schema_versions c.schema_version in
    let bundles =
      pull_assigned_bundle db.groups db.assignments db.bundles vessel_id c.config_bundle in
    let users =
      pull_user_commands mark_fails db.user_commands vessel_id c.user_command db.fetched in
    if read_fails || not (is_some schemas && is_some bundles)
    then (none, db)
    else (respond db vessel_id c schemas bundles users.0, record db { fetched = users.1 })
