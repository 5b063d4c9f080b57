-- ===== src/Office/Inbox/Streams.antt =====
-- A stream over a history of appended rows and pulls, one after the other: a row is there for the next
-- pull as soon as it has its number. Inserts that commit in another order than their numbers are not
-- modelled.
use ovl.Base.{
  ℕ, ◌+◌, ◌≤◌, ◌<◌, String, Bool, List, [], ◌∷◌, ◌++◌, keep, All, append_nil, append_assoc, ◌≡◌,
  ◌∙◌, refl, sym, ap, arith, Bool-cases, inl, inr,
}
use ovl.Office.Landing.{Row}
use ovl.Office.Inbox.{list_since, pull_loop}
use ovl.Office.Inbox.Order.{
  Increasing, Under, past, items_of, list_since-keep, keep-append, Under-keep, Increasing-append,
  Under-append, pull_loop-items, pull_loop-last, pull_loop-bound,
}

-- A row is appended for some vessel, or this one pulls; the answer to a pull may be lost.
pub data StreamEvent (A : Type 0) : Type 0 where
  added : String → A → StreamEvent A
  pulled pull_lost : StreamEvent A

-- The table with its sequence, the vessel's cursor, and what the vessel got.
pub record Stream (A B : Type 0) : Type 0 where
  pub rows : List (Row A)
  pub next_seq : ℕ
  pub cursor : ℕ
  pub got : List B

module _ {A B : Type 0} (wanted : Row A → Bool) (convert : A → B) where
  unfoldable pub stream_step : StreamEvent A → Stream A B → Stream A B
  stream_step (added vessel_id a) s = record s {
    rows = s.rows ++ record { vessel_id = vessel_id; seq = s.next_seq; item = a } ∷ [];
    next_seq = s.next_seq + 1;
  }
  stream_step pulled s =
      let (out, last) = pull_loop convert s.cursor (list_since wanted s.cursor s.rows) in
      record s { cursor = last; got = s.got ++ out }
  stream_step pull_lost s = s

  unfoldable pub stream_steps : List (StreamEvent A) → Stream A B → Stream A B
  unfolding stream_step
  stream_steps [] s = s
  stream_steps (e ∷ es) s = stream_steps es (stream_step e s)

  -- What the vessel got, and then what its next pull brings, is what the table has for it.
  abbrev Delivered : Stream A B → Type 0
  Delivered s =
      s.got ++ items_of convert (keep (past wanted s.cursor) s.rows)
      ≡ items_of convert (keep wanted s.rows)

  abbrev Sound : Stream A B → Type 0
  Sound s = Increasing s.rows × Under s.next_seq s.rows × (s.cursor < s.next_seq) × Delivered s

  items_of-append :
      (xs ys : List (Row A))
      → items_of convert (xs ++ ys) ≡ items_of convert xs ++ items_of convert ys
  unfolding items_of
  items_of-append [] ys = refl
  items_of-append (x ∷ xs) ys = ap (λ t. convert x.item ∷ t) (items_of-append xs ys)

  added-Delivered :
      (s : Stream A B) (row : Row A)
      → s.cursor < row.seq
      → Delivered s
      → s.got ++ items_of convert (keep (past wanted s.cursor) (s.rows ++ row ∷ []))
        ≡ items_of convert (keep wanted (s.rows ++ row ∷ []))
  added-Delivered s row l d =
      let same : keep (past wanted s.cursor) (row ∷ []) ≡ keep wanted (row ∷ []) = ground arith in
      rw
        (
          keep-append (past wanted s.cursor) s.rows (row ∷ []),
          keep-append wanted s.rows (row ∷ []),
          same,
          items_of-append (keep (past wanted s.cursor) s.rows) (keep wanted (row ∷ [])),
          items_of-append (keep wanted s.rows) (keep wanted (row ∷ [])),
        )
        (sym (
            append_assoc s.got (items_of convert (keep (past wanted s.cursor) s.rows))
              (items_of convert (keep wanted (row ∷ []))))
          ∙ ap (λ t. t ++ items_of convert (keep wanted (row ∷ []))) d)

  pub nothing_past :
      (since last : ℕ) (rows : List (Row A))
      → since ≤ last
      → All (λ (x : Row A). x.seq ≤ last) (keep (past wanted since) rows)
      → keep (past wanted last) rows ≡ []
  nothing_past since last [] l h = refl
  nothing_past since last (x ∷ rows) l h = elim (Bool-cases (past wanted since x)) [
    | inl e ↦
        let hs : All (λ (x : Row A). x.seq ≤ last) (x ∷ keep (past wanted since) rows) =
          rw e at h in
        ground (arith, e, hs.0, nothing_past since last rows l hs.1)
    | inr e ↦ ground (arith, e, nothing_past since last rows l (rw e at h))
  ]

  pulled-Sound : (s : Stream A B) → Sound s → Sound (stream_step pulled s)
  unfolding stream_step items_of
  pulled-Sound s (inc, under, low, d) =
      let new = keep (past wanted s.cursor) s.rows in
      let last = (pull_loop convert s.cursor new).1 in
      let bounds = pull_loop-last convert s.cursor new in
      rw (list_since-keep wanted s.cursor s.rows inc) (
        inc,
        under,
        pull_loop-bound convert s.cursor s.next_seq new low
            (Under-keep (past wanted s.cursor) s.next_seq s.rows under),
        rw
            (
              nothing_past s.cursor last s.rows bounds.0 bounds.1,
              pull_loop-items convert s.cursor new,
            )
            (append_nil (s.got ++ items_of convert new) ∙ d),
      )

  stream_step-Sound : (e : StreamEvent A) (s : Stream A B) → Sound s → Sound (stream_step e s)
  unfolding stream_step
  stream_step-Sound (added vessel_id a) s (inc, under, low, d) =
      let row : Row A = record { vessel_id = vessel_id; seq = s.next_seq; item = a } in
      (
        Increasing-append s.rows row inc under,
        Under-append s.next_seq s.rows row under refl,
        ground arith,
        added-Delivered s row low d,
      )
  stream_step-Sound pulled s h = pulled-Sound s h
  stream_step-Sound pull_lost s h = h

  stream_steps-Sound :
      (es : List (StreamEvent A)) (s : Stream A B) → Sound s → Sound (stream_steps es s)
  unfolding stream_steps
  stream_steps-Sound [] s h = h
  stream_steps-Sound (e ∷ es) s h =
      stream_steps-Sound es (stream_step e s) (stream_step-Sound e s h)

  -- The table and the vessel before anything was sent.
  abbrev pub fresh : Stream A B
  fresh = record { rows = []; next_seq = 1; cursor = 0; got = [] }

  -- In any history of a stream, with answers lost: the next pull that is answered leaves the vessel
  -- with exactly the rows that the stream has for it, each once and in their order.
  pub stream_steps-delivered :
      (es : List (StreamEvent A))
      → (stream_step pulled (stream_steps es fresh)).got
        ≡ items_of convert (keep wanted (stream_steps es fresh).rows)
  unfolding stream_step
  stream_steps-delivered es =
      let s = stream_steps es fresh in
      let (inc, under, low, d) = stream_steps-Sound es fresh (tt, tt, ground arith, refl) in
      rw
        (
          list_since-keep wanted s.cursor s.rows inc,
          pull_loop-items convert s.cursor (keep (past wanted s.cursor) s.rows),
        )
        d

  -- What a pull brought, no later pull of the same rows brings again.
  pub pull_once :
      (since : ℕ) (rows : List (Row A))
      → Increasing rows
      → list_since wanted (pull_loop convert since (list_since wanted since rows)).1 rows ≡ []
  pull_once since rows inc =
      let bounds = pull_loop-last convert since (keep (past wanted since) rows) in
      rw
        (
          list_since-keep wanted since rows inc,
          list_since-keep wanted (pull_loop convert since (keep (past wanted since) rows)).1 rows
              inc,
        )
        (nothing_past since (pull_loop convert since (keep (past wanted since) rows)).1 rows
          bounds.0 bounds.1)

  -- The cursor never goes back.
  pub stream_step-cursor :
      (e : StreamEvent A) (s : Stream A B) → s.cursor ≤ (stream_step e s).cursor
  unfolding stream_step
  stream_step-cursor (added vessel_id a) s = ground arith
  stream_step-cursor pulled s =
      (pull_loop-last convert s.cursor (list_since wanted s.cursor s.rows)).0
  stream_step-cursor pull_lost s = ground arith
