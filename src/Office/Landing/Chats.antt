-- ===== src/Office/Landing/Chats.antt =====
-- A chat message whose receipt cannot be written.
use ovl.Domain.Message.{ChatMessage, from_vessel}
use ovl.Base.{
  ◌+◌, ◌∙◌, any-append, eq_refl, String, Bool, true, false, ◌||◌, List, [], ◌∷◌, ◌++◌, any, ◌≡◌,
  refl, arith, str_eq, Bool-cases, inl, inr,
}
use ovl.Base.Floats.{Floats}
use ovl.Validation.Cascade.{SortSlice}
use ovl.Wire.{StructPb, WireChat, chat_message_to_domain}
use ovl.Office.Landing.{OfficeDb, Row, has_outbox_receipt, insert_chat_message}
use ovl.Office.Landing.Push.{chat_payload, WireItem, Turn, land, receipted, apply_outbox_item}

-- The office has a row under the message's identifier.
abbrev pub has_chat : {F : Type 0} → WireChat → OfficeDb F → Bool
has_chat m db = any (λ row. str_eq row.item.id m.id) db.chats

abbrev added : {F : Type 0} → String → WireChat → OfficeDb F → Row ChatMessage
added v m db = record {
  vessel_id = v;
  seq = db.next_chat_seq;
  item = chat_message_to_domain m from_vessel;
}

abbrev landed_chat : {F : Type 0} → String → WireChat → OfficeDb F → OfficeDb F
landed_chat v m db = record db {
  chats = db.chats ++ added v m db ∷ [];
  next_chat_seq = db.next_chat_seq + 1;
}

landed_chat-has :
    {F : Type 0} (m : WireChat) (v : String) (db : OfficeDb F)
    → has_chat m (landed_chat v m db) ≡ true
unfolding chat_message_to_domain
landed_chat-has m v db =
    any-append (λ row. str_eq row.item.id m.id) db.chats (added v m db ∷ [])
    ∙ ground (arith, eq_refl m.id)

module _ {F S : Type 0} ⦃fl : Floats F⦄ ⦃pb : StructPb F S⦄ where
  -- Tries of one item, one after the other: the tables after them, and whether one is accepted.
  unfoldable pub retries :
      SortSlice F → String → WireItem S → List Turn → OfficeDb F → OfficeDb F × Bool
  retries slice v item [] db = (db, false)
  retries slice v item (turn ∷ turns) db =
      let step = apply_outbox_item slice v turn item db in
      let rest = retries slice v item turns step.0 in (rest.0, step.1 || rest.1)

  chat_refused :
      (slice : SortSlice F) (v : String) (turn : Turn) (item : WireItem S) (m : WireChat)
      (db : OfficeDb F)
      → item.payload ≡ chat_payload m
      → has_outbox_receipt db v item.item_id ≡ false
      → has_chat m db ≡ true
      → apply_outbox_item slice v turn item db ≡ (db, false)
  unfolding apply_outbox_item land receipted insert_chat_message chat_message_to_domain
  chat_refused slice v turn item m db p h there = elim (Bool-cases turn.landing_fails) [
    | inl e ↦ ground (arith, p, h, there, e)
    | inr e ↦ ground (arith, p, h, there, e)
  ]

  retries-refused :
      (slice : SortSlice F) (v : String) (turns : List Turn) (item : WireItem S) (m : WireChat)
      (db : OfficeDb F)
      → item.payload ≡ chat_payload m
      → has_outbox_receipt db v item.item_id ≡ false
      → has_chat m db ≡ true
      → retries slice v item turns db ≡ (db, false)
  unfolding retries
  retries-refused slice v [] item m db p h there = refl
  retries-refused slice v (turn ∷ turns) item m db p h there =
      rw
        (
          chat_refused slice v turn item m db p h there,
          retries-refused slice v turns item m db p h there,
        )
        refl

  chat_lands :
      (slice : SortSlice F) (v : String) (turn : Turn) (item : WireItem S) (m : WireChat)
      (db : OfficeDb F)
      → item.payload ≡ chat_payload m
      → has_outbox_receipt db v item.item_id ≡ false
      → has_chat m db ≡ false
      → turn.receipt_read_fails || turn.landing_fails ≡ false
      → turn.receipt_write_fails ≡ true
      → apply_outbox_item slice v turn item db ≡ (landed_chat v m db, false)
  unfolding apply_outbox_item land receipted insert_chat_message chat_message_to_domain
  chat_lands slice v turn item m db p h new ok w = ground (arith, p, h, new, ok, w)

  -- A chat message that the office does not have, whose row is inserted and whose receipt cannot be
  -- written: this try is rejected with the row in place, and so is every later one, whatever fails or
  -- succeeds in it, and none of them changes anything.
  pub stuck_chat :
      (slice : SortSlice F) (v : String) (turn : Turn) (turns : List Turn) (item : WireItem S)
      (m : WireChat) (db : OfficeDb F)
      → item.payload ≡ chat_payload m
      → has_outbox_receipt db v item.item_id ≡ false
      → has_chat m db ≡ false
      → turn.receipt_read_fails || turn.landing_fails ≡ false
      → turn.receipt_write_fails ≡ true
      → let first = apply_outbox_item slice v turn item db in
        (first.1 ≡ false)
        × (has_chat m first.0 ≡ true)
        × (retries slice v item turns first.0 ≡ (first.0, false))
  unfolding has_outbox_receipt
  stuck_chat slice v turn turns item m db p h new ok w =
      let there : has_chat m (landed_chat v m db) ≡ true = landed_chat-has m v db in
      rw (chat_lands slice v turn item m db p h new ok w)
        (refl, there, retries-refused slice v turns item m (landed_chat v m db) p h there)
