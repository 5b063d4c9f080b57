-- ===== src/Vessel/Upload/Batch.antt =====
-- vessel/store/attachments.go, and pushAttachmentsBatch of vessel/httpapi/sync.go: the attachments that
-- wait are uploaded one by one. The content that the vessel stores under a hash is a function of the
-- hash; the file name and the uploader are left out.
use ovl.Base.{
  ℕ, String, Bool, true, false, Option, none, some, List, [], ◌∷◌, ◌++◌, any, leb, str_eq,
  if◌then◌else◌,
}
use ovl.Office.Attachments.{Attachments, AttachmentUpload}
use ovl.Vessel.Upload.{upload_attachment}

-- `Attachment`
pub record Attachment : Type 0 where
  pub id : String
  pub report_id : String
  pub version_no : ℕ
  pub field_name : String
  pub content_hash : String
  pub size_bytes : ℕ
  pub uploaded_at : ℕ
  pub synced_at : Option ℕ

-- `InsertAttachment`; `none` where the identifier is taken.
unfoldable pub insert_attachment : List Attachment → Attachment → Option (List Attachment)
insert_attachment rows a =
    if any (λ (b : Attachment). str_eq b.id a.id) rows
    then none
    else some (rows ++ record a { synced_at = none } ∷ [])

insert_by_upload : Attachment → List Attachment → List Attachment
insert_by_upload a [] = a ∷ []
insert_by_upload a (b ∷ bs) =
    let rest = insert_by_upload a bs in
    if leb a.uploaded_at b.uploaded_at then a ∷ b ∷ bs else b ∷ rest

when_pending : Attachment → Option ℕ → List Attachment → List Attachment
when_pending a none rest = insert_by_upload a rest
when_pending a (some t) rest = rest

-- `ListPendingAttachments`
unfoldable pub list_pending_attachments : List Attachment → List Attachment
unfolding insert_by_upload when_pending
list_pending_attachments [] = []
list_pending_attachments (a ∷ others) = when_pending a a.synced_at (list_pending_attachments others)

-- `MarkAttachmentSynced`
unfoldable pub mark_attachment_synced : List Attachment → String → ℕ → List Attachment
mark_attachment_synced [] id at = []
mark_attachment_synced (a ∷ others) id at =
    let rest = mark_attachment_synced others id at in
    if str_eq a.id id then record a { synced_at = some at } ∷ rest else a ∷ rest

abbrev pub attachment_push_chunk_size : ℕ
attachment_push_chunk_size = 0x40000

-- The faults of a batch: at which chunk of which attachment the office stops, and which marks fail.
pub record BatchFaults : Type 0 where
  pub halts : String → ℕ → Bool
  pub mark_fails : String → Bool

-- The tables aboard, the office's state, and whether there was no error yet.
pub record BatchState : Type 0 where
  pub rows : List Attachment
  pub office : Attachments
  pub ok : Bool

meta_of : Attachment → AttachmentUpload
meta_of a = record {
  content_hash = a.content_hash;
  total_size = a.size_bytes;
  chunk_size = attachment_push_chunk_size;
}

after_upload : BatchFaults → ℕ → Attachment → BatchState → Attachments × Bool → BatchState
after_upload faults now a b (office, false) = record b { office = office; ok = false }
after_upload faults now a b (office, true) =
    if faults.mark_fails a.id
    then record b { office = office; ok = false }
    else record b { rows = mark_attachment_synced b.rows a.id now; office = office }

batch_loop :
    (List ℕ → String)
    → (String → List ℕ)
    → BatchFaults
    → ℕ
    → List Attachment
    → BatchState
    → BatchState
batch_loop sha256 content faults now [] b = b
batch_loop sha256 content faults now (a ∷ others) b = batch_loop sha256 content faults now others (
    after_upload faults now a b
      (upload_attachment sha256 (faults.halts a.id) (content a.content_hash) (meta_of a) b.office))

-- `pushAttachmentsBatch`
unfoldable pub push_attachments_batch :
    (List ℕ → String)
    → (String → List ℕ)
    → BatchFaults
    → ℕ
    → List Attachment
    → Attachments
    → BatchState
unfolding batch_loop after_upload meta_of
push_attachments_batch sha256 content faults now rows office =
    batch_loop sha256 content faults now (list_pending_attachments rows)
      (record { rows = rows; office = office; ok = true })
