-- ===== src/Vessel/Outbox/Order.antt =====
-- The order in which the outbox is listed.
use ovl.Base.{
  ℕ, ◌<◌, ◌+◌, String, Bool, not, Option, none, some, List, [], ◌∷◌, ◌++◌, any, keep, All, ◌≡◌,
  refl, sym, str_eq, arith, Bool-cases, inl, inr,
}
use ovl.Vessel.Outbox.{
  OutboxItemKind, OutboxItem, Outbox, clashes, enqueue_outbox_item, insert_by_no, order_by_no,
  list_outbox_items, ack_outbox_item,
}

abbrev pub AllFrom : ℕ → List OutboxItem → Type 0
AllFrom n [] = Unit
AllFrom n (x ∷ xs) = (n < x.sequence_no) × AllFrom x.sequence_no xs

abbrev pub Below : ℕ → List OutboxItem → Type 0
Below n xs = All (λ (x : OutboxItem). x.sequence_no < n) xs

abbrev pub Increasing : List OutboxItem → Type 0
Increasing [] = Unit
Increasing (x ∷ xs) = AllFrom x.sequence_no xs

-- The numbers of the rows increase and are below the counter.
abbrev pub InOrder : Outbox → Type 0
InOrder ob = Increasing ob.rows × Below ob.next_no ob.rows

Increasing-tail : (n : ℕ) (xs : List OutboxItem) → AllFrom n xs → Increasing xs
Increasing-tail n [] h = tt
Increasing-tail n (x ∷ xs) h = h.1

insert_by_no-least :
    (x : OutboxItem) (xs : List OutboxItem) → AllFrom x.sequence_no xs → insert_by_no x xs ≡ x ∷ xs
unfolding insert_by_no
insert_by_no-least x [] h = refl
insert_by_no-least x (y ∷ ys) h = ground arith

order_by_no-Increasing : (xs : List OutboxItem) → Increasing xs → order_by_no xs ≡ xs
unfolding order_by_no
order_by_no-Increasing [] h = refl
order_by_no-Increasing (x ∷ xs) h =
    rw (order_by_no-Increasing xs (Increasing-tail x.sequence_no xs h)) (insert_by_no-least x xs h)

AllFrom-append :
    (n : ℕ) (xs : List OutboxItem) (y : OutboxItem)
    → AllFrom n xs
    → Below y.sequence_no xs
    → n < y.sequence_no
    → AllFrom n (xs ++ y ∷ [])
AllFrom-append n [] y h b l = (l, tt)
AllFrom-append n (x ∷ xs) y h b l = (h.0, AllFrom-append x.sequence_no xs y h.1 b.1 b.0)

Increasing-append :
    (xs : List OutboxItem) (y : OutboxItem)
    → Increasing xs
    → Below y.sequence_no xs
    → Increasing (xs ++ y ∷ [])
Increasing-append [] y h b = tt
Increasing-append (x ∷ xs) y h b = AllFrom-append x.sequence_no xs y h b.1 b.0

Below-append :
    (n : ℕ) (xs : List OutboxItem) (y : OutboxItem)
    → Below n xs
    → y.sequence_no ≡ n
    → Below (n + 1) (xs ++ y ∷ [])
Below-append n [] y b e = (ground arith, tt)
Below-append n (x ∷ xs) y b e = (ground (arith, b.0), Below-append n xs y b.1 e)

AllFrom-keep :
    (p : OutboxItem → Bool) (n m : ℕ) (xs : List OutboxItem)
    → AllFrom n xs
    → m < n + 1
    → AllFrom m (keep p xs)
AllFrom-keep p n m [] h l = tt
AllFrom-keep p n m (x ∷ xs) h l = elim (Bool-cases (p x)) [
  | inl e ↦
      rw e (ground (arith, h.0), AllFrom-keep p x.sequence_no x.sequence_no xs h.1 (ground arith))
  | inr e ↦ rw e (AllFrom-keep p x.sequence_no m xs h.1 (ground (arith, h.0)))
]

Increasing-keep :
    (p : OutboxItem → Bool) (xs : List OutboxItem) → Increasing xs → Increasing (keep p xs)
Increasing-keep p [] h = tt
Increasing-keep p (x ∷ xs) h = elim (Bool-cases (p x)) [
  | inl e ↦ rw e (AllFrom-keep p x.sequence_no x.sequence_no xs h (ground arith))
  | inr e ↦ rw e (Increasing-keep p xs (Increasing-tail x.sequence_no xs h))
]

Below-keep :
    (p : OutboxItem → Bool) (n : ℕ) (xs : List OutboxItem) → Below n xs → Below n (keep p xs)
Below-keep p n [] b = tt
Below-keep p n (x ∷ xs) b = elim (Bool-cases (p x)) [
  | inl e ↦ rw e (b.0, Below-keep p n xs b.1)
  | inr e ↦ rw e (Below-keep p n xs b.1)
]

-- A call on the queue: an enqueue, with its identifier and time, or an acknowledgement.
pub data OutboxCall : Type 0 where
  enqueue : Option String → ℕ → OutboxItemKind → String → ℕ → Option ℕ → Option String → OutboxCall
  acknowledge_item : String → OutboxCall

abbrev after_enqueue : Outbox → Option (Outbox × OutboxItem) → Outbox × Option OutboxItem
after_enqueue ob none = (ob, none)
after_enqueue ob (some (ob', item)) = (ob', some item)

-- The queue after a call, and the item that was enqueued.
unfoldable pub outbox_call : OutboxCall → Outbox → Outbox × Option OutboxItem
outbox_call (enqueue id now kind report_id version_no event_id chat_id) ob =
    after_enqueue ob (enqueue_outbox_item ob id now kind report_id version_no event_id chat_id)
outbox_call (acknowledge_item id) ob = (ack_outbox_item id ob, none)

unfoldable pub outbox_calls : List OutboxCall → Outbox → Outbox
unfolding outbox_call
outbox_calls [] ob = ob
outbox_calls (c ∷ cs) ob = outbox_calls cs (outbox_call c ob).0

-- The same calls on a plain list: an enqueued item goes to the end, an acknowledged one leaves.
abbrev pub queue_call : OutboxCall → Option OutboxItem → List OutboxItem → List OutboxItem
queue_call (enqueue id now kind report_id version_no event_id chat_id) none q = q
queue_call (enqueue id now kind report_id version_no event_id chat_id) (some item) q =
    q ++ item ∷ []
queue_call (acknowledge_item id) item q = keep (λ row. not (str_eq row.item_id id)) q

unfoldable pub queue_calls : List OutboxCall → Outbox → List OutboxItem → List OutboxItem
unfolding outbox_call
queue_calls [] ob q = q
queue_calls (c ∷ cs) ob q =
    queue_calls cs (outbox_call c ob).0 (queue_call c (outbox_call c ob).1 q)

outbox_call-InOrder :
    (c : OutboxCall) (ob : Outbox)
    → InOrder ob
    → InOrder (outbox_call c ob).0
      × ((outbox_call c ob).0.rows ≡ queue_call c (outbox_call c ob).1 ob.rows)
unfolding outbox_call enqueue_outbox_item ack_outbox_item
outbox_call-InOrder (enqueue none now kind report_id version_no event_id chat_id) ob h = (h, refl)
outbox_call-InOrder (enqueue (some id) now kind report_id version_no event_id chat_id) ob h =
    let item : OutboxItem = record {
      item_id = id;
      sequence_no = ob.next_no;
      kind = kind;
      report_id = report_id;
      version_no = version_no;
      report_event_id = event_id;
      chat_message_id = chat_id;
      created_at = now;
    } in
    elim (Bool-cases (any (clashes item) ob.rows)) [
      | inl e ↦ rw e (h, refl)
      | inr e ↦ rw e (
        (Increasing-append ob.rows item h.0 h.1, Below-append ob.next_no ob.rows item h.1 refl),
        refl,
      )
    ]
outbox_call-InOrder (acknowledge_item id) ob h =
    ((Increasing-keep _ ob.rows h.0, Below-keep _ ob.next_no ob.rows h.1), refl)

rows-queue_calls :
    (cs : List OutboxCall) (ob : Outbox)
    → InOrder ob
    → InOrder (outbox_calls cs ob) × ((outbox_calls cs ob).rows ≡ queue_calls cs ob ob.rows)
unfolding outbox_calls queue_calls
rows-queue_calls [] ob h = (h, refl)
rows-queue_calls (c ∷ cs) ob h =
    let (h', e) = outbox_call-InOrder c ob h in
    rw (sym e) (rows-queue_calls cs (outbox_call c ob).0 h')

-- From a queue in order, whatever is enqueued and acknowledged: the listing by sequence number is
-- that of a first-in-first-out queue, in the order of the enqueues.
pub list_outbox_items-queue :
    (cs : List OutboxCall) (ob : Outbox)
    → InOrder ob
    → list_outbox_items (outbox_calls cs ob) ≡ queue_calls cs ob (list_outbox_items ob)
unfolding list_outbox_items
list_outbox_items-queue cs ob h =
    let (h', e) = rows-queue_calls cs ob h in
    rw (order_by_no-Increasing ob.rows h.0, order_by_no-Increasing (outbox_calls cs ob).rows h'.0) e
