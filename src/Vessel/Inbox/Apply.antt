-- ===== src/Vessel/Inbox/Apply.antt =====
-- `ApplyInboxPull` and `applyRemarks` of vessel/store/inbox.go, and how vessel/httpapi/sync.go goes
-- through the pulled commands.
use ovl.Base.{
  ℕ, String, Bool, true, false, ◌&&◌, Option, none, some, List, [], ◌∷◌, ◌++◌, any, ◌==◌, str_eq,
  if◌then◌else◌,
}
use ovl.Base.Faults.{Budget, spend}
use ovl.Domain.Event.{Event}
use ovl.Domain.Report.{Report}
use ovl.Domain.Lifecycle.{LifecycleError, mark_remarked}
use ovl.Domain.Message.{Remark}
use ovl.Vessel.Store.{get_latest_version}
use ovl.Vessel.Inbox.{InboxTables, Pulled, commit_pull, persist, apply_notices}

-- `remarkGroupKey` with the fields remarked together; groups are in the order of their first remark.
pub record RemarkGroup : Type 0 where
  pub report_id : String
  pub created_at : ℕ
  pub author : String
  pub field_names : List String

unfoldable pub add_remark : Remark → List RemarkGroup → List RemarkGroup
add_remark r [] =
    record {
      report_id = r.report_id;
      created_at = r.created_at;
      author = r.author;
      field_names = r.field_name ∷ [];
    }
    ∷ []
add_remark r (g ∷ gs) =
    let rest = add_remark r gs in
    if str_eq g.report_id r.report_id && (g.created_at == r.created_at) && str_eq g.author r.author
    then record g { field_names = g.field_names ++ r.field_name ∷ [] } ∷ gs
    else g ∷ rest

unfoldable pub remark_groups : List Remark → List RemarkGroup → List RemarkGroup
unfolding add_remark
remark_groups [] gs = gs
remark_groups (r ∷ rs) gs = remark_groups rs (add_remark r gs)

module _ {F : Type 0} where
  persist_remarked :
      InboxTables F
      → Budget
      → Report F × Option (Event F) × Option LifecycleError
      → InboxTables F × Option Budget
  persist_remarked t budget (r, some e, none) = persist r e t budget
  persist_remarked t budget (r, e, err) = (t, some budget)

  remark_latest :
      RemarkGroup → Option (Report F) → InboxTables F → Budget → InboxTables F × Option Budget
  remark_latest g none t budget = (t, some budget)
  remark_latest g (some r) t budget =
      persist_remarked t budget (mark_remarked r g.field_names g.author g.created_at)

  -- The second loop of `applyRemarks`.
  unfoldable pub apply_groups :
      List RemarkGroup → InboxTables F → Budget → InboxTables F × Option Budget
  unfolding remark_latest persist_remarked
  apply_groups [] t budget = (t, some budget)
  apply_groups (g ∷ gs) t budget = elim (spend budget) [
    | none ↦ (t, none)
    | some b ↦
        let applied = remark_latest g (get_latest_version t.db g.report_id) t b in
        elim applied.1 [ none ↦ (applied.0, none) | some b' ↦ apply_groups gs applied.0 b' ]
  ]

  -- `applyRemarks`
  unfoldable pub apply_remarks :
      List Remark → InboxTables F → Budget → InboxTables F × Option Budget
  unfolding apply_groups
  apply_remarks newly_inserted t budget = apply_groups (remark_groups newly_inserted []) t budget

  -- The loop over the remarks: each is looked up and inserted, ON CONFLICT DO NOTHING, and the new
  -- ones are collected.
  unfoldable pub insert_remarks :
      List Remark
      → List Remark
      → InboxTables F
      → Budget
      → InboxTables F × Option (Budget × List Remark)
  insert_remarks [] newly_inserted t budget = (t, some (budget, newly_inserted))
  insert_remarks (r ∷ rs) newly_inserted t budget =
      let known = any (λ (row : Remark). str_eq row.id r.id) t.remarks in
      elim (spend budget) [
        | none ↦ (t, none)
        | some b ↦ elim (spend b) [
          | none ↦ (t, none)
          | some b' ↦
              let skipped = insert_remarks rs newly_inserted t b' in
              let inserted =
                insert_remarks rs (newly_inserted ++ r ∷ [])
                  (record t { remarks = t.remarks ++ r ∷ [] }) b' in
              if known then skipped else inserted
        ]
      ]

  after_notices : List Remark → InboxTables F × Option Budget → InboxTables F × Bool
  after_notices remarks (t, none) = (t, false)
  after_notices remarks (t, some budget) =
      let stored = insert_remarks remarks [] t budget in
      elim stored.1 [
        | none ↦ (stored.0, false)
        | some (b, newly_inserted) ↦
            let applied = apply_remarks newly_inserted stored.0 b in
            (applied.0, elim applied.1 [ none ↦ false | some b' ↦ true ])
      ]

  -- `ApplyInboxPull`: the transaction commits or not as a whole; the statements after it have a
  -- budget. The tables afterwards, and whether it returns no error.
  unfoldable pub apply_inbox_pull : Bool → Pulled → InboxTables F → Budget → InboxTables F × Bool
  unfolding after_notices
  apply_inbox_pull commits pulled t budget =
      if commits
      then after_notices pulled.remarks (apply_notices pulled.notices (commit_pull pulled t) budget)
      else (t, false)

-- `applyPulledUserCommands`; `applies` says which command can be applied.
unfoldable pub apply_pulled_user_commands : (String → Bool) → List String → ℕ → List String × ℕ
apply_pulled_user_commands applies [] next_cursor = ([], next_cursor)
apply_pulled_user_commands applies (id ∷ ids) next_cursor =
    let rest = apply_pulled_user_commands applies ids next_cursor in
    if applies id then (id ∷ rest.0, rest.1) else rest

-- The commands before the first that fails, and whether all were applied.
restore_loop : (String → Bool) → List String → List String × Bool
restore_loop applies [] = ([], true)
restore_loop applies (id ∷ ids) =
    let rest = restore_loop applies ids in if applies id then (id ∷ rest.0, rest.1) else ([], false)

-- `applyPulledRestoreCommands`
unfoldable pub apply_pulled_restore_commands :
    (String → Bool) → List String → ℕ → ℕ → List String × ℕ
unfolding restore_loop
apply_pulled_restore_commands applies ids current_cursor next_cursor =
    let result = restore_loop applies ids in
    (result.0, if result.1 then next_cursor else current_cursor)
