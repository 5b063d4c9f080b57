-- ===== src/Office/Attachments/Halted.antt =====
-- An upload that the office stops after it recorded the last chunk.
use ovl.Base.{ℕ, String, Bool, true, false, List, [], ◌∷◌, ◌≡◌, refl, ap, ◌∙◌, inr, if◌then◌else◌}
use ovl.Office.Attachments.{
  Attachments, AttachmentUpload, has, get_or_create_attachment_upload, assemble_and_promote,
  missing_chunk_indices, promoted, failed,
}
use ovl.Office.Attachments.Missing.{missing-next}
use ovl.Office.Attachments.Staged.{Ready, with_chunk-Ready}
use ovl.Vessel.Upload.{after_chunk, send_chunks, upload_attachment}
use ovl.Office.Attachments.Sending.{next, upload_next, send_chunks-sent}
use ovl.Office.Attachments.Expected.{
  Resumable, expected, Expects, query-Expects, missing-same, upload-sends,
}

-- With nothing missing, an upload sends nothing, and succeeds.
nothing_missing :
    (sha256 : List ℕ → String) (halts : ℕ → Bool) (content : List ℕ) (meta : AttachmentUpload)
    (s : Attachments)
    → Resumable content meta s
    → missing_chunk_indices s meta ≡ []
    → upload_attachment sha256 halts content meta s ≡ (expected s meta, true)
unfolding send_chunks
nothing_missing sha256 halts content meta s r m =
    upload-sends sha256 halts content meta s r
    ∙ ap (λ is. send_chunks sha256 halts content meta is (expected s meta)) m

Ready-Resumable :
    (content : List ℕ) (meta : AttachmentUpload) (s : Attachments)
    → Ready content meta s
    → Resumable content meta s
Ready-Resumable content meta s r = record {
  valid = r.valid;
  absent = r.absent;
  known = inr r.known;
  right = r.right;
}

halted_last :
    (sha256 : List ℕ → String) (halts : ℕ → Bool) (content : List ℕ) (meta : AttachmentUpload)
    (s : Attachments) (i : ℕ)
    → Ready content meta s
    → missing_chunk_indices s meta ≡ i ∷ []
    → halts i ≡ true
    → send_chunks sha256 halts content meta (i ∷ []) s ≡ (next content meta s i, false)
unfolding after_chunk
halted_last sha256 halts content meta s i r m h =
    let s' : Attachments = next content meta s i in
    let sent =
      upload_next sha256 (halts i) content meta s i [] r m
      ∙ ap
          (λ (b : Bool). if b then (s', failed) else promoted (assemble_and_promote sha256 s' meta))
          h in
    send_chunks-sent sha256 halts content meta i [] s (s', failed) sent

unstored_again :
    (sha256 : List ℕ → String) (halts : ℕ → Bool) (content : List ℕ) (meta : AttachmentUpload)
    (s : Attachments)
    → Ready content meta s
    → missing_chunk_indices s meta ≡ []
    → (upload_attachment sha256 halts content meta s).1 ≡ true
      × (has (upload_attachment sha256 halts content meta s).0 meta.content_hash ≡ false)
unfolding expected Expects
unstored_again sha256 halts content meta s r m =
    let again : Resumable content meta s = Ready-Resumable content meta s r in
    let x : Expects content meta s (get_or_create_attachment_upload s meta) =
      query-Expects content meta s again in
    rw (nothing_missing sha256 halts content meta s again m) (refl, x.1.absent)

-- The office stops after it recorded the last missing chunk: the upload fails, and the next upload of
-- the same attachment, wherever it would stop, succeeds and the office still does not store it.
pub halted_upload-unstored :
    (sha256 : List ℕ → String) (halts halts' : ℕ → Bool) (content : List ℕ)
    (meta : AttachmentUpload) (s : Attachments) (i : ℕ)
    → Resumable content meta s
    → missing_chunk_indices s meta ≡ i ∷ []
    → halts i ≡ true
    → let first = upload_attachment sha256 halts content meta s in
      let second = upload_attachment sha256 halts' content meta first.0 in
      (first.1 ≡ false) × (second.1 ≡ true) × (has second.0 meta.content_hash ≡ false)
unfolding expected Expects next
halted_upload-unstored sha256 halts halts' content meta s i r m h =
    let e : Attachments = expected s meta in
    let x : Expects content meta s (get_or_create_attachment_upload s meta) =
      query-Expects content meta s r in
    let m' : missing_chunk_indices e meta ≡ i ∷ [] = missing-same s e meta x.2 ∙ m in
    let first : upload_attachment sha256 halts content meta s ≡ (next content meta e i, false) =
      upload-sends sha256 halts content meta s r
      ∙ ap (λ is. send_chunks sha256 halts content meta is e) m
      ∙ halted_last sha256 halts content meta e i x.1 m' h in
    let again =
      unstored_again sha256 halts' content meta (next content meta e i)
        (with_chunk-Ready content meta e i x.1)
        (missing-next e (next content meta e i) meta i [] m' refl) in
    rw first (refl, again.0, again.1)
