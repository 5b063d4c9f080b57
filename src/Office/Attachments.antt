-- ===== src/Office/Attachments.antt =====
-- office/syncservice/attachments.go, office/store/attachmentuploads.go and the part of
-- pkg/attachmentstore that they use: an attachment arrives in chunks, is assembled and is stored under
-- its hash. A byte is a number; sha256 is a parameter; sizes are below 2^62, so that the sum in
-- `chunkCount` does not wrap.
pub mod Chunks
pub mod Missing
pub mod Staged
pub mod Expected
pub mod Halted
pub mod Resumed
pub mod Sending
use ovl.Base.{
  ℕ, zero, suc, ◌+◌, ◌-◌, ◌*◌, ◌/◌, String, Bool, true, false, not, ◌&&◌, ◌||◌, Option, none, some,
  List, [], ◌∷◌, ◌++◌, any, keep, ◌==◌, ltb, leb, str_eq, if◌then◌else◌,
}
use ovl.Base.Text.{byte_len}
use ovl.Wire.{int32}
use Prim.Native.Char.{code}

-- `validContentHash`
abbrev hex_digit : ℕ → Bool
hex_digit c = (leb 48 c && leb c 57) || (leb 97 c && leb c 102)

hex_digits : String → Bool
hex_digits String.[] = true
hex_digits (String.◌∷◌ c s) = hex_digit (code c) && hex_digits s

unfoldable pub valid_content_hash : String → Bool
unfolding hex_digits
valid_content_hash s = (byte_len s == 64) && hex_digits s

-- `AttachmentUpload`
pub record AttachmentUpload : Type 0 where
  pub content_hash : String
  pub total_size : ℕ
  pub chunk_size : ℕ

pub record ChunkKey : Type 0 where
  pub hash : String
  pub index : ℕ

-- A staged file.
pub record StagedChunk : Type 0 where
  pub key : ChunkKey
  pub bytes : List ℕ

-- A stored attachment.
pub record Stored : Type 0 where
  pub hash : String
  pub bytes : List ℕ

-- The tables of uploads and of their received chunks, the staging directory and the content store.
pub record Attachments : Type 0 where
  pub uploads : List AttachmentUpload
  pub received : List ChunkKey
  pub staged : List StagedChunk
  pub stored : List Stored

abbrev pub key_eq : ChunkKey → ChunkKey → Bool
key_eq a b = str_eq a.hash b.hash && (a.index == b.index)

-- `Has` of the content store.
unfoldable pub has : Attachments → String → Bool
has s hash = any (λ (x : Stored). str_eq x.hash hash) s.stored

unfoldable pub find_upload : String → List AttachmentUpload → Option AttachmentUpload
find_upload hash [] = none
find_upload hash (u ∷ us) = if str_eq u.content_hash hash then some u else find_upload hash us

-- `GetAttachmentUpload`; `none` is ErrNotFound.
unfoldable pub get_attachment_upload : Attachments → String → Option AttachmentUpload
unfolding find_upload
get_attachment_upload s hash = find_upload hash s.uploads

or_upload : AttachmentUpload → Option AttachmentUpload → AttachmentUpload
or_upload meta none = meta
or_upload meta (some u) = u

-- `GetOrCreateAttachmentUpload`
unfoldable pub get_or_create_attachment_upload :
    Attachments → AttachmentUpload → Attachments × AttachmentUpload
unfolding or_upload
get_or_create_attachment_upload s meta = elim (get_attachment_upload s meta.content_hash) [
  | none ↦ (record s { uploads = s.uploads ++ meta ∷ [] }, meta)
  | some u ↦ (s, u)
]

-- `chunkCount`
unfoldable pub chunk_count : ℕ → ℕ → ℕ
chunk_count total_size chunk_size =
    if (chunk_size == 0) || leb 0x80000000 chunk_size
    then 0
    else int32 ((total_size + (chunk_size - 1)) / chunk_size)

-- `for i := range total`, of an int32: none where it is negative.
unfoldable pub count_from : ℕ → ℕ → List ℕ
count_from start zero = []
count_from start (suc n) = start ∷ count_from (start + 1) n

unfoldable pub range : ℕ → List ℕ
unfolding count_from
range total = if ltb total 0x80000000 then count_from 0 total else []

abbrev pub is_received : String → List ChunkKey → ℕ → Bool
is_received hash received i =
    any (λ (k : ChunkKey). key_eq k (record { hash = hash; index = i })) received

-- `missingChunkIndices`
unfoldable pub missing_chunk_indices : Attachments → AttachmentUpload → List ℕ
missing_chunk_indices s upload =
    keep (λ i. not (is_received upload.content_hash s.received i))
      (range (chunk_count upload.total_size upload.chunk_size))

-- The answer of `QueryMissingAttachmentChunks`.
pub data QueryAnswer : Type 0 where
  invalid_hash already_complete : QueryAnswer
  missing : List ℕ → QueryAnswer

-- `QueryMissingAttachmentChunks`; the association with the report is left out.
unfoldable pub query_missing_attachment_chunks :
    Attachments → AttachmentUpload → Attachments × QueryAnswer
query_missing_attachment_chunks s meta =
    let created = get_or_create_attachment_upload s meta in
    if not (valid_content_hash meta.content_hash)
    then (s, invalid_hash)
    else if has s meta.content_hash
    then (s, already_complete)
    else (created.0, missing (missing_chunk_indices created.0 created.1))

-- `RecordAttachmentChunkReceived`
unfoldable pub record_attachment_chunk_received : Attachments → ChunkKey → Attachments
record_attachment_chunk_received s k =
    if is_received k.hash s.received k.index
    then s
    else record s { received = s.received ++ k ∷ [] }

-- os.WriteFile of a staged chunk: the file is replaced.
unfoldable pub write_chunk : Attachments → ChunkKey → List ℕ → Attachments
write_chunk s k bytes = record s {
  staged =
      record { key = k; bytes = bytes } ∷ keep (λ (c : StagedChunk). not (key_eq c.key k)) s.staged;
}

unfoldable pub read_chunk : ChunkKey → List StagedChunk → Option (List ℕ)
read_chunk k [] = none
read_chunk k (c ∷ cs) = if key_eq c.key k then some c.bytes else read_chunk k cs

-- `cleanupStaging`
unfoldable pub cleanup_staging : Attachments → String → Attachments
cleanup_staging s hash = record s {
  staged = keep (λ (c : StagedChunk). not (str_eq c.key.hash hash)) s.staged;
}

-- `DeleteAttachmentUpload`, which takes the rows of the received chunks along.
unfoldable pub delete_attachment_upload : Attachments → String → Attachments
delete_attachment_upload s hash = record s {
  uploads = keep (λ (u : AttachmentUpload). not (str_eq u.content_hash hash)) s.uploads;
  received = keep (λ (k : ChunkKey). not (str_eq k.hash hash)) s.received;
}

abbrev pub join : Option (List ℕ) → Option (List ℕ) → Option (List ℕ)
join (some a) (some b) = some (a ++ b)
join a b = none

-- `assembleChunkFile`; `none` where a chunk is not there.
unfoldable pub assemble_chunk_file : String → List StagedChunk → List ℕ → Option (List ℕ)
assemble_chunk_file hash staged [] = some []
assemble_chunk_file hash staged (i ∷ is) =
    join (read_chunk (record { hash = hash; index = i }) staged)
      (assemble_chunk_file hash staged is)

-- `PutFile`; `none` where the hash is not the wanted one.
unfoldable pub put_file : (List ℕ → String) → Attachments → List ℕ → String → Option Attachments
put_file sha256 s bytes want_hash =
    let hash = sha256 bytes in
    if not (str_eq hash want_hash) && not (str_eq want_hash "")
    then none
    else if has s hash
    then some s
    else some (record s { stored = s.stored ++ record { hash = hash; bytes = bytes } ∷ [] })

-- `assembleAndPromote`; whether it returns no error.
unfoldable pub promote :
    (List ℕ → String) → Attachments → String → Option (List ℕ) → Attachments × Bool
promote sha256 s hash none = (cleanup_staging s hash, false)
promote sha256 s hash (some bytes) = elim (put_file sha256 s bytes hash) [
  | none ↦ (delete_attachment_upload (cleanup_staging s hash) hash, false)
  | some s' ↦ (delete_attachment_upload (cleanup_staging s' hash) hash, true)
]

unfoldable pub assemble_and_promote :
    (List ℕ → String) → Attachments → AttachmentUpload → Attachments × Bool
unfolding promote
assemble_and_promote sha256 s upload = promote sha256 s upload.content_hash (
    assemble_chunk_file upload.content_hash s.staged
      (range (chunk_count upload.total_size upload.chunk_size)))

-- The answer of `UploadAttachmentChunk`.
pub data UploadAnswer : Type 0 where
  complete incomplete failed : UploadAnswer

abbrev pub is_empty_list : List ℕ → Bool
is_empty_list [] = true
is_empty_list (i ∷ is) = false

abbrev pub promoted : Attachments × Bool → Attachments × UploadAnswer
promoted (s, ok) = (s, if ok then complete else failed)

-- `UploadAttachmentChunk`; `halts` says that it gets no further than recording the chunk.
unfoldable pub upload_attachment_chunk :
    (List ℕ → String) → Bool → Attachments → String → ℕ → List ℕ → Attachments × UploadAnswer
upload_attachment_chunk sha256 halts s hash index bytes =
    let k : ChunkKey = record { hash = hash; index = index } in
    let s1 = record_attachment_chunk_received (write_chunk s k bytes) k in
    if not (valid_content_hash hash) || leb 0x80000000 index
    then (s, failed)
    else if has s hash
    then (s, complete)
    else elim (get_attachment_upload s hash) [
      | none ↦ (s, failed)
      | some upload ↦
          if halts
          then (s1, failed)
          else if not (is_empty_list (missing_chunk_indices s1 upload))
          then (s1, incomplete)
          else promoted (assemble_and_promote sha256 s1 upload)
    ]
