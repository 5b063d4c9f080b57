-- ===== src/Office/Attachments/Sending.antt =====
-- One step of an upload: the first missing chunk is sent.
use ovl.Base.{ℕ, String, Bool, false, not, List, ◌∷◌, ◌≡◌, refl, ap, arith, leb, if◌then◌else◌}
use mathlib.Core.Path.{subst}
use ovl.Office.Attachments.{
  ChunkKey, is_received, Attachments, AttachmentUpload, chunk_count, range, assemble_and_promote,
  missing_chunk_indices, is_empty_list, promoted, UploadAnswer, incomplete, failed,
  upload_attachment_chunk,
}
use ovl.Office.Attachments.Missing.{Within, missing-Within, missing-next, keep-head}
use ovl.Office.Attachments.Staged.{with_chunk, record_chunk-new, Ready}
use ovl.Vessel.Upload.{chunk, after_chunk, send_chunks}

missing_head-new :
    (s : Attachments) (u : AttachmentUpload) (i : ℕ) (is : List ℕ)
    → missing_chunk_indices s u ≡ i ∷ is
    → (is_received u.content_hash s.received i ≡ false) × (leb 0x80000000 i ≡ false)
unfolding missing_chunk_indices
missing_head-new s u i is m =
    let w : Within 0 0x80000000 (i ∷ is) = subst (Within 0 0x80000000) m (missing-Within s u) in
    (
      keep-head (is_received u.content_hash s.received)
          (range (chunk_count u.total_size u.chunk_size)) i is m,
      ground (arith, w.1),
    )

unfoldable pub key_of : AttachmentUpload → ℕ → ChunkKey
key_of meta i = record { hash = meta.content_hash; index = i }

unfoldable pub next : List ℕ → AttachmentUpload → Attachments → ℕ → Attachments
unfolding key_of
next content meta s i = with_chunk s (key_of meta i) (chunk content i meta.chunk_size)

-- The first missing chunk is recorded; then the office assembles if nothing is missing.
pub upload_next :
    (sha256 : List ℕ → String) (halts : Bool) (content : List ℕ) (meta : AttachmentUpload)
    (s : Attachments) (i : ℕ) (is : List ℕ)
    → Ready content meta s
    → missing_chunk_indices s meta ≡ i ∷ is
    → upload_attachment_chunk sha256 halts s meta.content_hash i (chunk content i meta.chunk_size)
      ≡ (if halts
          then (next content meta s i, failed)
          else if not (is_empty_list is)
          then (next content meta s i, incomplete)
          else promoted (assemble_and_promote sha256 (next content meta s i) meta))
unfolding upload_attachment_chunk next key_of
upload_next sha256 halts content meta s i is r m =
    let new = missing_head-new s meta i is m in
    rw
      (
        r.valid,
        new.1,
        r.absent,
        r.known,
        record_chunk-new s (key_of meta i) (chunk content i meta.chunk_size) new.0,
        missing-next s (next content meta s i) meta i is m refl,
      )
      refl

pub send_chunks-sent :
    (sha256 : List ℕ → String) (halts : ℕ → Bool) (content : List ℕ) (meta : AttachmentUpload)
    (i : ℕ) (is : List ℕ) (s : Attachments) (q : Attachments × UploadAnswer)
    → upload_attachment_chunk sha256
        (halts i)
        s
        meta.content_hash
        i
        (chunk content i meta.chunk_size)
      ≡ q
    → send_chunks sha256 halts content meta (i ∷ is) s
      ≡ after_chunk q (send_chunks sha256 halts content meta is q.0)
unfolding send_chunks
send_chunks-sent sha256 halts content meta i is s q h =
    ap (λ p. after_chunk p (send_chunks sha256 halts content meta is p.0)) h
