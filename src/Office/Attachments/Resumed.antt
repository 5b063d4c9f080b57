-- ===== src/Office/Attachments/Resumed.antt =====
-- An upload that goes on from where an earlier one stopped.
use ovl.Base.{
  ℕ, ◌+◌, ◌-◌, ◌/◌, ◌<◌, String, Bool, true, false, some, List, [], ◌∷◌, ◌++◌, length, ◌≡◌, ◌≢◌,
  refl, ap, ◌∙◌, arith, eq_refl,
}
use ovl.Office.Attachments.{
  is_received, Attachments, AttachmentUpload, chunk_count, range, get_or_create_attachment_upload,
  assemble_chunk_file, put_file, promote, assemble_and_promote, cleanup_staging,
  delete_attachment_upload, missing_chunk_indices, promoted, incomplete, complete,
}
use ovl.Office.Attachments.Chunks.{all_chunks, all_chunks-range}
use ovl.Office.Attachments.Missing.{missing-next, keep-none_left}
use ovl.Office.Attachments.Staged.{Ready, with_chunk-Ready, assemble_chunk_file-Ready}
use ovl.Vessel.Upload.{after_chunk, send_chunks, upload_attachment}
use ovl.Office.Attachments.Sending.{next, upload_next, send_chunks-sent}
use ovl.Office.Attachments.Expected.{
  Resumable, expected, Expects, query-Expects, missing-same, upload-sends,
}

Stores : AttachmentUpload → List ℕ → Attachments → Attachments × Bool → Type 0
Stores meta content s r =
    (r.1 ≡ true)
    × (r.0.stored ≡ s.stored ++ record { hash = meta.content_hash; bytes = content } ∷ [])

module _ (sha256 : List ℕ → String) (content : List ℕ) (meta : AttachmentUpload)
    (hashed : sha256 content ≡ meta.content_hash) (sized : meta.total_size ≡ length content)
    (pos : 0 < meta.chunk_size) (small : meta.chunk_size < 0x80000000)
    (few : (length content + (meta.chunk_size - 1)) / meta.chunk_size < 0x80000000) where
  whole :
      all_chunks content meta.chunk_size (range (chunk_count meta.total_size meta.chunk_size))
      ≡ content
  whole = rw sized (all_chunks-range content meta.chunk_size pos small few).0

  assembled :
      (s : Attachments)
      → Ready content meta s
      → missing_chunk_indices s meta ≡ []
      → assemble_chunk_file meta.content_hash s.staged
          (range (chunk_count meta.total_size meta.chunk_size))
        ≡ some content
  unfolding missing_chunk_indices
  assembled s r m =
      let xs : List ℕ = range (chunk_count meta.total_size meta.chunk_size) in
      assemble_chunk_file-Ready content meta s xs r
        (keep-none_left (is_received meta.content_hash s.received) xs m)
      ∙ ap some whole

  promoted_state : Attachments → Attachments
  promoted_state s =
      delete_attachment_upload
        (cleanup_staging
          (record s {
            stored = s.stored ++ record { hash = meta.content_hash; bytes = content } ∷ [];
          })
          meta.content_hash)
        meta.content_hash

  put_new :
      (s : Attachments)
      → Ready content meta s
      → put_file sha256 s content meta.content_hash
        ≡ some (record s {
          stored = s.stored ++ record { hash = meta.content_hash; bytes = content } ∷ [];
        })
  unfolding put_file
  put_new s r = rw (hashed, eq_refl meta.content_hash, r.absent) refl

  assemble_and_promote-Ready :
      (s : Attachments)
      → Ready content meta s
      → missing_chunk_indices s meta ≡ []
      → assemble_and_promote sha256 s meta ≡ (promoted_state s, true)
  unfolding assemble_and_promote promote promoted_state
  assemble_and_promote-Ready s r m =
      ap (promote sha256 s meta.content_hash) (assembled s r m) ∙ rw (put_new s r, promote) refl

  send_chunks-Stores :
      (i : ℕ) (is : List ℕ) (s : Attachments)
      → Ready content meta s
      → missing_chunk_indices s meta ≡ i ∷ is
      → Stores meta content s (send_chunks sha256 (λ j. false) content meta (i ∷ is) s)
  unfolding send_chunks next Stores promoted_state after_chunk cleanup_staging
      delete_attachment_upload
  send_chunks-Stores i [] s r m =
      let s' : Attachments = next content meta s i in
      let done : assemble_and_promote sha256 s' meta ≡ (promoted_state s', true) =
        assemble_and_promote-Ready s' (with_chunk-Ready content meta s i r)
          (missing-next s s' meta i [] m refl) in
      let sent = upload_next sha256 false content meta s i [] r m ∙ ap promoted done in
      rw
        (send_chunks-sent sha256 (λ j. false) content meta i [] s (promoted_state s', complete)
          sent)
        (refl, refl)
  send_chunks-Stores i (j ∷ js) s r m =
      let s' : Attachments = next content meta s i in
      let sent = upload_next sha256 false content meta s i (j ∷ js) r m in
      rw (send_chunks-sent sha256 (λ k. false) content meta i (j ∷ js) s (s', incomplete) sent) (
        send_chunks-Stores j js s' (with_chunk-Ready content meta s i r)
          (missing-next s s' meta i (j ∷ js) m refl))

  send_remaining-Stores :
      (is : List ℕ) (s' s : Attachments)
      → Ready content meta s'
      → missing_chunk_indices s' meta ≡ is
      → s'.stored ≡ s.stored
      → is ≢ []
      → Stores meta content s (send_chunks sha256 (λ j. false) content meta is s')
  unfolding Stores
  send_remaining-Stores [] s' s r m e n = ground (arith, n refl)
  send_remaining-Stores (i ∷ is) s' s r m e n =
      let t : Stores meta content s' (send_chunks sha256 (λ j. false) content meta (i ∷ is) s') =
        send_chunks-Stores i is s' r m in
      (t.0, t.1 ∙ ap (λ xs. xs ++ record { hash = meta.content_hash; bytes = content } ∷ []) e)

  -- An upload that begins or goes on while something is missing, and meets no fault, succeeds, and the
  -- office stores the content.
  pub upload_attachment-stores :
      (s : Attachments)
      → Resumable content meta s
      → missing_chunk_indices s meta ≢ []
      → (upload_attachment sha256 (λ j. false) content meta s).1 ≡ true
        × ((upload_attachment sha256 (λ j. false) content meta s).0.stored
            ≡ s.stored ++ record { hash = meta.content_hash; bytes = content } ∷ [])
  unfolding Stores Expects expected
  upload_attachment-stores s r some_missing =
      let x : Expects content meta s (get_or_create_attachment_upload s meta) =
        query-Expects content meta s r in
      let m = missing-same s (expected s meta) meta x.2 in
      rw (upload-sends sha256 (λ j. false) content meta s r) (
        send_remaining-Stores (missing_chunk_indices s meta) (expected s meta) s x.1 m x.3
          some_missing)
