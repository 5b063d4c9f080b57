-- ===== src/Vessel/Outbox.antt =====
-- vessel/store/outbox.go: the queue of what the vessel still has to send, and the counter that
-- numbers it. An identifier that cannot be generated or that is taken rolls the transaction back.
pub mod Order
use ovl.Base.{
  ℕ, ◌+◌, String, Bool, ◌||◌, not, Option, none, some, List, [], ◌∷◌, ◌++◌, any, keep, ◌==◌, leb,
  str_eq, if◌then◌else◌,
}

pub data OutboxItemKind : Type 0 where
  report_version_item audit_event_item chat_item : OutboxItemKind

pub record OutboxItem : Type 0 where
  pub item_id : String
  pub sequence_no : ℕ
  pub kind : OutboxItemKind
  pub report_id : String
  pub version_no : ℕ
  pub report_event_id : Option ℕ
  pub chat_message_id : Option String
  pub created_at : ℕ

-- The tables `outbox_sequence` and `outbox`.
pub record Outbox : Type 0 where
  pub next_no : ℕ
  pub rows : List OutboxItem

-- The primary key of the table, and its UNIQUE column.
abbrev pub clashes : OutboxItem → OutboxItem → Bool
clashes item row = str_eq row.item_id item.item_id || (row.sequence_no == item.sequence_no)

insert_item : Outbox → OutboxItem → Option (Outbox × OutboxItem)
insert_item ob item =
    if any (clashes item) ob.rows
    then none
    else some (record { next_no = item.sequence_no + 1; rows = ob.rows ++ item ∷ [] }, item)

-- `enqueueOutboxItem`
unfoldable pub enqueue_outbox_item :
    Outbox
    → Option String
    → ℕ
    → OutboxItemKind
    → String
    → ℕ
    → Option ℕ
    → Option String
    → Option (Outbox × OutboxItem)
unfolding insert_item
enqueue_outbox_item ob none now kind report_id version_no event_id chat_id = none
enqueue_outbox_item ob (some id) now kind report_id version_no event_id chat_id =
    insert_item ob (record {
      item_id = id;
      sequence_no = ob.next_no;
      kind = kind;
      report_id = report_id;
      version_no = version_no;
      report_event_id = event_id;
      chat_message_id = chat_id;
      created_at = now;
    })

-- `EnqueueReportVersion`
unfoldable pub enqueue_report_version :
    Outbox → Option String → ℕ → String → ℕ → Option (Outbox × OutboxItem)
enqueue_report_version ob id now report_id version_no =
    enqueue_outbox_item ob id now report_version_item report_id version_no none none

-- `EnqueueReportAuditEvent`
unfoldable pub enqueue_report_audit_event :
    Outbox → Option String → ℕ → String → ℕ → ℕ → Option (Outbox × OutboxItem)
enqueue_report_audit_event ob id now report_id version_no event_id =
    enqueue_outbox_item ob id now audit_event_item report_id version_no (some event_id) none

-- `EnqueueChatMessage`
unfoldable pub enqueue_chat_message :
    Outbox → Option String → ℕ → String → String → Option (Outbox × OutboxItem)
enqueue_chat_message ob id now report_id message_id =
    enqueue_outbox_item ob id now chat_item report_id 0 none (some message_id)

-- ORDER BY sequence_no ASC
unfoldable pub insert_by_no : OutboxItem → List OutboxItem → List OutboxItem
insert_by_no x [] = x ∷ []
insert_by_no x (y ∷ ys) =
    let rest = insert_by_no x ys in if leb x.sequence_no y.sequence_no then x ∷ y ∷ ys else y ∷ rest

unfoldable pub order_by_no : List OutboxItem → List OutboxItem
unfolding insert_by_no
order_by_no [] = []
order_by_no (x ∷ xs) = insert_by_no x (order_by_no xs)

-- `ListOutboxItems`
unfoldable pub list_outbox_items : Outbox → List OutboxItem
unfolding order_by_no
list_outbox_items ob = order_by_no ob.rows

-- `AckOutboxItem`
unfoldable pub ack_outbox_item : String → Outbox → Outbox
ack_outbox_item id ob = record ob { rows = keep (λ row. not (str_eq row.item_id id)) ob.rows }
