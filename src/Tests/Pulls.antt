-- ===== src/Tests/Pulls.antt =====
-- What a vessel pulls.
use ovl.Base.{ℕ, zero, sym, ap, true, false, some, List, [], ◌∷◌, ◌≡◌, map, keep, refl}
use ovl.Domain.Message.{InvalidationNotice}
use ovl.Wire.{notice_from_domain, notice_to_domain}
use ovl.Office.Landing.{Row}
use ovl.Office.Inbox.{of_vessel, list_since, insert_by_seq, pull_loop, pull_invalidation_notices}
use ovl.Office.Inbox.Order.{items_of}
use ovl.Office.Inbox.Streams.{
  StreamEvent, added, pulled, pull_lost, stream_step, stream_steps, stream_steps-delivered, fresh,
}
use ovl.Office.Inbox.Answer.{Cursors}
use ovl.Vessel.Inbox.{InboxTables, Pulled}
use ovl.Vessel.Inbox.Apply.{apply_inbox_pull}
use ovl.Vessel.Inbox.Lost.{notices_lost}
use ovl.Tests.Links.{aboard}

abbrev notice : InvalidationNotice
notice = record {
  report_id = "r";
  version_no = 1;
  broken_rules = "time-chain" ∷ [];
  computed_at = 40;
}

abbrev history : List (StreamEvent InvalidationNotice)
history = added "v" notice ∷ pull_lost ∷ added "w" notice ∷ pulled ∷ added "v" notice ∷ []

stream_steps-delivered_example :
    (stream_step (of_vessel "v") notice_from_domain pulled (
      stream_steps
        (of_vessel "v")
        notice_from_domain
        history
        (fresh (of_vessel "v") notice_from_domain))).got
    ≡ items_of notice_from_domain (
        keep
          (of_vessel "v")
          (stream_steps
            (of_vessel "v")
            notice_from_domain
            history
            (fresh (of_vessel "v") notice_from_domain)).rows)
stream_steps-delivered_example = stream_steps-delivered (of_vessel "v") notice_from_domain history

abbrev cursors : ℕ → Cursors
cursors n = record {
  config_bundle = 0;
  schema_version = 0;
  remark = 0;
  chat = 0;
  invalidation_notice = n;
  restore_command = 0;
  user_command = 0;
}

abbrev tables : InboxTables ℕ
tables = record {
  db = aboard;
  cursors = cursors 0;
  schema_versions = [];
  config_bundles = [];
  notices = [];
  remarks = [];
}

abbrev one_notice : Pulled
one_notice = record {
  schema_versions = [];
  config_bundles = [];
  chat_messages = [];
  notices = notice ∷ [];
  remarks = [];
  next = cursors 1;
}

abbrev notice_rows : List (Row InvalidationNotice)
notice_rows = record { vessel_id = "v"; seq = 1; item = notice } ∷ []

pulled_one : pull_invalidation_notices notice_rows "v" 0 ≡ (notice ∷ [], 1)
unfolding pull_invalidation_notices list_since insert_by_seq pull_loop notice_from_domain
pulled_one = refl

sent_one : notice ∷ [] ≡ map notice_to_domain (pull_invalidation_notices notice_rows "v" 0).0
unfolding pull_invalidation_notices list_since insert_by_seq pull_loop notice_from_domain
    notice_to_domain
sent_one = refl

notices_lost_example :
    ((apply_inbox_pull true one_notice tables (some zero)).1 ≡ false)
    × ((apply_inbox_pull true one_notice tables (some zero)).0.notices ≡ [])
    × ((pull_invalidation_notices notice_rows "v"
          (apply_inbox_pull true one_notice tables (some zero)).0.cursors.invalidation_notice).0
        ≡ [])
notices_lost_example =
    notices_lost notice_rows "v" tables one_notice notice [] tt sent_one
      (sym (ap (λ t. t.1) pulled_one)) refl
