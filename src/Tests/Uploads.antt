-- ===== src/Tests/Uploads.antt =====
-- Attachments of a few bytes, with a hash function that knows one hash.
use ovl.Base.{ℕ, ◌<◌, String, true, false, List, [], ◌∷◌, ◌≡◌, refl, inl, inr, arith}
use ovl.Base.Text.{byte_len}
use ovl.Office.Attachments.{
  AttachmentUpload, Attachments, has, get_attachment_upload, valid_content_hash, chunk_count, range,
  count_from, missing_chunk_indices,
}
use ovl.Office.Attachments.Chunks.{all_chunks, all_chunks-range}
use ovl.Office.Attachments.Staged.{with_chunk, Ready, with_chunk-Ready}
use ovl.Office.Attachments.Expected.{Resumable}
use ovl.Office.Attachments.Resumed.{upload_attachment-stores}
use ovl.Office.Attachments.Halted.{halted_upload-unstored}
use ovl.Vessel.Upload.{chunk, upload_attachment}

abbrev some_hash : String
some_hash = "00112233445566778899aabbccddeeff00112233445566778899aabbccddeeff"

abbrev sum_of : List ℕ → String
sum_of bytes = some_hash

abbrev five_bytes : List ℕ
five_bytes = 10 ∷ 20 ∷ 30 ∷ 40 ∷ 50 ∷ []

abbrev five_meta : AttachmentUpload
five_meta = record { content_hash = some_hash; total_size = 5; chunk_size = 2 }

abbrev none_received : Attachments
none_received = record { uploads = five_meta ∷ []; received = []; staged = []; stored = [] }

-- The middle chunk has arrived.
abbrev middle_received : Attachments
middle_received = with_chunk none_received (record { hash = some_hash; index = 1 }) (30 ∷ 40 ∷ [])

none_received-Ready : Ready five_bytes five_meta none_received
unfolding valid_content_hash has get_attachment_upload byte_len
none_received-Ready = record {
  valid = refl;
  absent = refl;
  known = refl;
  right = λ j h. ground (arith, h);
}

middle_received-Ready : Ready five_bytes five_meta middle_received
unfolding chunk
middle_received-Ready = with_chunk-Ready five_bytes five_meta none_received 1 none_received-Ready

middle_received-Resumable : Resumable five_bytes five_meta middle_received
middle_received-Resumable = record {
  valid = middle_received-Ready.valid;
  absent = middle_received-Ready.absent;
  known = inr middle_received-Ready.known;
  right = middle_received-Ready.right;
}

middle_received_missing : missing_chunk_indices middle_received five_meta ≡ 0 ∷ 2 ∷ []
unfolding missing_chunk_indices range count_from chunk_count
middle_received_missing = refl

upload_attachment-stores_example :
    ((upload_attachment sum_of (λ j. false) five_bytes five_meta middle_received).1 ≡ true)
    × ((upload_attachment sum_of (λ j. false) five_bytes five_meta middle_received).0.stored
        ≡ record { hash = some_hash; bytes = five_bytes } ∷ [])
upload_attachment-stores_example =
    upload_attachment-stores sum_of five_bytes five_meta refl refl (omega arith) (omega arith)
      (omega arith) middle_received middle_received-Resumable
      (λ e. ground (arith, middle_received_missing, e))

-- One chunk, of an upload that the office hears of for the first time.
abbrev two_bytes : List ℕ
two_bytes = 10 ∷ 20 ∷ []

abbrev two_meta : AttachmentUpload
two_meta = record { content_hash = some_hash; total_size = 2; chunk_size = 2 }

abbrev no_uploads : Attachments
no_uploads = record { uploads = []; received = []; staged = []; stored = [] }

no_uploads-Resumable : Resumable two_bytes two_meta no_uploads
unfolding valid_content_hash has get_attachment_upload byte_len
no_uploads-Resumable = record {
  valid = refl;
  absent = refl;
  known = inl refl;
  right = λ j h. ground (arith, h);
}

one_missing : missing_chunk_indices no_uploads two_meta ≡ 0 ∷ []
unfolding missing_chunk_indices range count_from chunk_count
one_missing = refl

halted_upload-unstored_example :
    let first = upload_attachment sum_of (λ j. true) two_bytes two_meta no_uploads in
    let second = upload_attachment sum_of (λ j. false) two_bytes two_meta first.0 in
    (first.1 ≡ false) × (second.1 ≡ true) × (has second.0 some_hash ≡ false)
halted_upload-unstored_example =
    halted_upload-unstored sum_of (λ j. true) (λ j. false) two_bytes two_meta no_uploads 0
      no_uploads-Resumable one_missing refl

all_chunks-range_example :
    (all_chunks five_bytes 2 (range (chunk_count 5 2)) ≡ five_bytes)
    × (chunk_count 5 2 < 0x80000000)
all_chunks-range_example = all_chunks-range five_bytes 2 (omega arith) (omega arith) (omega arith)
