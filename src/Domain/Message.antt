-- ===== src/Domain/Message.antt =====
-- pkg/domain/chat.go, remark.go and invalidation.go: what the two sides send each other about a report.
use ovl.Base.{ℕ, String, Bool, Option, none, some, List, ltb, if◌then◌else◌}
use ovl.Base.Text.{byte_len}

pub data ChatDirection : Type 0 where
  from_vessel from_office : ChatDirection

pub record ChatMessage : Type 0 where
  pub id : String
  pub report_id : String
  pub sender : String
  pub body : String
  pub sent_at : ℕ
  pub direction : ChatDirection

-- `MaxChatBodyBytes`
abbrev pub max_chat_body_bytes : ℕ
max_chat_body_bytes = 4096

message_of : Option String → ℕ → String → String → String → ChatDirection → Option ChatMessage
message_of none now report_id sender body direction = none
message_of (some id) now report_id sender body direction = some (record {
  id = id;
  report_id = report_id;
  sender = sender;
  body = body;
  sent_at = now;
  direction = direction;
})

-- `NewChatMessage`; the identifier, where one can be generated, and the clock are arguments.
unfoldable pub new_chat_message :
    Option String → ℕ → String → String → String → ChatDirection → Option ChatMessage
unfolding message_of
new_chat_message id now report_id sender body direction =
    if ltb max_chat_body_bytes (byte_len body)
    then none
    else message_of id now report_id sender body direction

pub record Remark : Type 0 where
  pub id : String
  pub report_id : String
  pub version_no : ℕ
  pub field_name : String
  pub body : String
  pub author : String
  pub created_at : ℕ
  pub resolved : Bool

pub record InvalidationNotice : Type 0 where
  pub report_id : String
  pub version_no : ℕ
  pub broken_rules : List String
  pub computed_at : ℕ
