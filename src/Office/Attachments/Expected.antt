-- ===== src/Office/Attachments/Expected.antt =====
-- What the office expects after the query that begins an upload, or goes on with it.
use ovl.Base.{
  ℕ, String, Bool, true, false, not, none, some, List, [], ◌∷◌, ◌++◌, keep, ◌≡◌, ◌⊎◌, refl, ap, ◌∙◌,
  arith, eq_refl, inl, inr,
}
use ovl.Office.Attachments.{
  is_received, Attachments, AttachmentUpload, chunk_count, range, read_chunk, has, find_upload,
  get_attachment_upload, get_or_create_attachment_upload, valid_content_hash, missing_chunk_indices,
  query_missing_attachment_chunks,
}
use ovl.Office.Attachments.Staged.{Ready}
use ovl.Vessel.Upload.{chunk, send_chunks, after_query, upload_attachment}

-- An upload may begin or go on: the office does not store the attachment yet, expects nothing under
-- its hash or expects it, and each chunk that it counts as received is staged right.
pub record Resumable (content : List ℕ) (meta : AttachmentUpload) (s : Attachments) : Type 0 where
  pub valid : valid_content_hash meta.content_hash ≡ true
  pub absent : has s meta.content_hash ≡ false
  pub known :
      (get_attachment_upload s meta.content_hash ≡ none)
      ⊎ (get_attachment_upload s meta.content_hash ≡ some meta)
  pub right :
      (j : ℕ)
      → is_received meta.content_hash s.received j ≡ true
      → read_chunk (record { hash = meta.content_hash; index = j }) s.staged
        ≡ some (chunk content j meta.chunk_size)

unfoldable pub expected : Attachments → AttachmentUpload → Attachments
expected s meta = (get_or_create_attachment_upload s meta).0

expected-new :
    (s : Attachments) (meta : AttachmentUpload)
    → get_attachment_upload s meta.content_hash ≡ none
    → get_or_create_attachment_upload s meta ≡ (record s { uploads = s.uploads ++ meta ∷ [] }, meta)
unfolding get_or_create_attachment_upload
expected-new s meta h = rw (h, get_or_create_attachment_upload) refl

expected-old :
    (s : Attachments) (meta : AttachmentUpload)
    → get_attachment_upload s meta.content_hash ≡ some meta
    → get_or_create_attachment_upload s meta ≡ (s, meta)
unfolding get_or_create_attachment_upload
expected-old s meta h = rw (h, get_or_create_attachment_upload) refl

find_upload-append :
    (meta : AttachmentUpload) (us : List AttachmentUpload)
    → find_upload meta.content_hash us ≡ none
    → find_upload meta.content_hash (us ++ meta ∷ []) ≡ some meta
unfolding find_upload
find_upload-append meta [] h = rw (eq_refl meta.content_hash) refl
find_upload-append meta (u ∷ us) h = ground (arith, h, find_upload-append meta us)

-- After the query the office expects the attachment, and nothing else has changed.
unfoldable pub Expects :
    List ℕ → AttachmentUpload → Attachments → Attachments × AttachmentUpload → Type 0
Expects content meta s q =
    (q.1 ≡ meta) × Ready content meta q.0 × (q.0.received ≡ s.received) × (q.0.stored ≡ s.stored)

pub query-Expects :
    (content : List ℕ) (meta : AttachmentUpload) (s : Attachments)
    → Resumable content meta s
    → Expects content meta s (get_or_create_attachment_upload s meta)
unfolding Expects get_attachment_upload has
query-Expects content meta s r = elim r.known [
  | inl h ↦ rw (expected-new s meta h) (
    refl,
    record {
      valid = r.valid;
      absent = r.absent;
      known = find_upload-append meta s.uploads h;
      right = r.right;
    },
    refl,
    refl,
  )
  | inr h ↦
      rw (expected-old s meta h) (
        refl,
        record { valid = r.valid; absent = r.absent; known = h; right = r.right },
        refl,
        refl,
      )
]

pub missing-same :
    (s s' : Attachments) (u : AttachmentUpload)
    → s'.received ≡ s.received
    → missing_chunk_indices s' u ≡ missing_chunk_indices s u
unfolding missing_chunk_indices
missing-same s s' u e =
    ap
      (λ t.
        keep (λ i. not (is_received u.content_hash t i))
          (range (chunk_count u.total_size u.chunk_size)))
      e

pub upload-sends :
    (sha256 : List ℕ → String) (halts : ℕ → Bool) (content : List ℕ) (meta : AttachmentUpload)
    (s : Attachments)
    → Resumable content meta s
    → upload_attachment sha256 halts content meta s
      ≡ send_chunks sha256 halts content meta (missing_chunk_indices s meta) (expected s meta)
unfolding upload_attachment after_query query_missing_attachment_chunks expected Expects
upload-sends sha256 halts content meta s r =
    let x : Expects content meta s (get_or_create_attachment_upload s meta) =
      query-Expects content meta s r in
    rw (r.valid, r.absent)
      (ap (λ is. send_chunks sha256 halts content meta is (expected s meta))
        (ap (missing_chunk_indices (expected s meta)) x.0
          ∙ missing-same s (expected s meta) meta x.2))
