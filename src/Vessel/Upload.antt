-- ===== src/Vessel/Upload.antt =====
-- vessel/sync/attachments.go, and `Chunk` of pkg/attachmentstore: the vessel sends the chunks that the
-- office says are missing.
pub mod Batch
use ovl.Base.{
  ℕ, ◌*◌, String, Bool, true, false, Option, none, some, List, [], ◌∷◌, take, drop, if◌then◌else◌,
}
use ovl.Office.Attachments.{
  AttachmentUpload, Attachments, QueryAnswer, invalid_hash, already_complete, missing, UploadAnswer,
  complete, incomplete, failed, query_missing_attachment_chunks, upload_attachment_chunk,
}

-- `Chunk`: the last one may be shorter, and past the end there is nothing.
unfoldable pub chunk : List ℕ → ℕ → ℕ → List ℕ
chunk content index chunk_size = take chunk_size (drop (index * chunk_size) content)

-- The chunk's answer, then the rest of the loop: an error ends it.
unfoldable pub after_chunk : Attachments × UploadAnswer → Attachments × Bool → Attachments × Bool
after_chunk (s, failed) rest = (s, false)
after_chunk (s, complete) rest = rest
after_chunk (s, incomplete) rest = rest

-- The loop over the missing indices. `halts` says at which the office stops after it recorded the
-- chunk.
unfoldable pub send_chunks :
    (List ℕ → String)
    → (ℕ → Bool)
    → List ℕ
    → AttachmentUpload
    → List ℕ
    → Attachments
    → Attachments × Bool
send_chunks sha256 halts content meta [] s = (s, true)
send_chunks sha256 halts content meta (i ∷ is) s =
    let sent =
      upload_attachment_chunk sha256 (halts i) s meta.content_hash i
        (chunk content i meta.chunk_size) in
    after_chunk sent (send_chunks sha256 halts content meta is sent.0)

unfoldable pub after_query :
    (List ℕ → String)
    → (ℕ → Bool)
    → List ℕ
    → AttachmentUpload
    → Attachments × QueryAnswer
    → Attachments × Bool
after_query sha256 halts content meta (s, invalid_hash) = (s, false)
after_query sha256 halts content meta (s, already_complete) = (s, true)
after_query sha256 halts content meta (s, missing is) = send_chunks sha256 halts content meta is s

-- `UploadAttachment`: the office's state afterwards, and whether it returns no error.
unfoldable pub upload_attachment :
    (List ℕ → String) → (ℕ → Bool) → List ℕ → AttachmentUpload → Attachments → Attachments × Bool
unfolding after_query
upload_attachment sha256 halts content meta s =
    after_query sha256 halts content meta (query_missing_attachment_chunks s meta)
