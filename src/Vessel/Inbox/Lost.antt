-- ===== src/Vessel/Inbox/Lost.antt =====
-- Notices that cannot be stored after the cursors were committed.
use ovl.Base.{zero, String, true, false, some, List, [], ◌∷◌, map, ◌≡◌, refl}
use ovl.Domain.Message.{InvalidationNotice}
use ovl.Wire.{notice_from_domain, notice_to_domain}
use ovl.Office.Landing.{Row}
use ovl.Office.Inbox.{of_vessel, pull_loop, pull_invalidation_notices}
use ovl.Office.Inbox.Order.{Increasing}
use ovl.Office.Inbox.Streams.{pull_once}
use ovl.Vessel.Inbox.{InboxTables, Pulled, commit_pull, insert_invalidation_notice, apply_notices}
use ovl.Vessel.Inbox.Apply.{apply_inbox_pull}

module _ {F : Type 0} where
  -- A pull that committed, and of which the first notice could not be stored: it fails with the
  -- cursor moved on and no notice stored, and the next pull does not bring its notices again.
  pub notices_lost :
      (rows : List (Row InvalidationNotice)) (v : String) (t : InboxTables F) (pulled : Pulled)
      (n : InvalidationNotice) (ns : List InvalidationNotice)
      → Increasing rows
      → pulled.notices
        ≡ map notice_to_domain (pull_invalidation_notices rows v t.cursors.invalidation_notice).0
      → pulled.next.invalidation_notice
        ≡ (pull_invalidation_notices rows v t.cursors.invalidation_notice).1
      → pulled.notices ≡ n ∷ ns
      → ((apply_inbox_pull true pulled t (some zero)).1 ≡ false)
        × ((apply_inbox_pull true pulled t (some zero)).0.notices ≡ t.notices)
        × ((pull_invalidation_notices rows v
              (apply_inbox_pull true pulled t (some zero)).0.cursors.invalidation_notice).0
            ≡ [])
  unfolding apply_inbox_pull commit_pull insert_invalidation_notice apply_notices
      pull_invalidation_notices pull_loop
  notices_lost rows v t pulled n ns inc sent next some_notice =
      let once =
        pull_once (of_vessel v) notice_from_domain t.cursors.invalidation_notice rows inc in
      (rw some_notice refl, rw some_notice refl, rw (some_notice, next, once) refl)
