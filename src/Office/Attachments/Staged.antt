-- ===== src/Office/Attachments/Staged.antt =====
-- Staged chunks, and the state in which an upload may go on.
use ovl.Base.{
  ℕ, Bool, true, false, not, ◌||◌, ◌==◌, if◌then◌else◌, some, List, [], ◌∷◌, ◌++◌, keep, All, ◌≡◌,
  refl, sym, ap, ap₂, ◌∙◌, arith, str_eq, eq_refl, eq_iff, Bool-cases, and_inv, inl, inr,
}
use ovl.Office.Attachments.{
  ChunkKey, key_eq, StagedChunk, is_received, Attachments, AttachmentUpload, read_chunk, has,
  get_attachment_upload, valid_content_hash, write_chunk, record_attachment_chunk_received,
  assemble_chunk_file,
}
use ovl.Office.Attachments.Chunks.{all_chunks}
use ovl.Office.Attachments.Missing.{is_received-append}
use ovl.Vessel.Upload.{chunk}

-- A chunk is recorded and staged.
abbrev pub with_chunk : Attachments → ChunkKey → List ℕ → Attachments
with_chunk s k bytes = record s {
  received = s.received ++ k ∷ [];
  staged =
      record { key = k; bytes = bytes } ∷ keep (λ (c : StagedChunk). not (key_eq c.key k)) s.staged;
}

pub record_chunk-new :
    (s : Attachments) (k : ChunkKey) (bytes : List ℕ)
    → is_received k.hash s.received k.index ≡ false
    → record_attachment_chunk_received (write_chunk s k bytes) k ≡ with_chunk s k bytes
unfolding record_attachment_chunk_received write_chunk
record_chunk-new s k bytes h = rw h refl

number_eq : (a b : ℕ) → (a == b) ≡ true → a ≡ b
number_eq a b h = ground (arith, h)

key_eq-key : (a b : ChunkKey) → key_eq a b ≡ true → a ≡ b
key_eq-key a b h =
    let both : (str_eq a.hash b.hash ≡ true) × ((a.index == b.index) ≡ true) =
      and_inv (str_eq a.hash b.hash) (a.index == b.index) h in
    ap₂ (λ x y. record { hash = x; index = y }) ((eq_iff a.hash b.hash).0 both.0)
      (number_eq a.index b.index both.1)

read_chunk-keep :
    (k k' : ChunkKey) (cs : List StagedChunk)
    → key_eq k k' ≡ false
    → read_chunk k' (keep (λ (c : StagedChunk). not (key_eq c.key k)) cs) ≡ read_chunk k' cs
unfolding read_chunk
read_chunk-keep k k' [] h = refl
read_chunk-keep k k' (c ∷ cs) h =
    let rest = read_chunk-keep k k' cs h in
    elim (Bool-cases (key_eq c.key k)) [
      | inl t ↦ rw t (
          rest
          ∙ sym (
              ap (λ (e : Bool). if e then some c.bytes else read_chunk k' cs)
                (ap (λ x. key_eq x k') (key_eq-key c.key k t) ∙ h)))
      | inr f ↦ rw f (rw rest refl)
    ]

-- The office expects the attachment, and each chunk that it counts as received is staged right.
pub record Ready (content : List ℕ) (meta : AttachmentUpload) (s : Attachments) : Type 0 where
  pub valid : valid_content_hash meta.content_hash ≡ true
  pub absent : has s meta.content_hash ≡ false
  pub known : get_attachment_upload s meta.content_hash ≡ some meta
  pub right :
      (j : ℕ)
      → is_received meta.content_hash s.received j ≡ true
      → read_chunk (record { hash = meta.content_hash; index = j }) s.staged
        ≡ some (chunk content j meta.chunk_size)

staged_right :
    (content : List ℕ) (meta : AttachmentUpload) (s : Attachments) (i j : ℕ)
    → Ready content meta s
    → (is_received meta.content_hash s.received j || (i == j)) ≡ true
    → read_chunk
        (record { hash = meta.content_hash; index = j })
        (with_chunk s
          (record { hash = meta.content_hash; index = i })
          (chunk content i meta.chunk_size)).staged
      ≡ some (chunk content j meta.chunk_size)
unfolding read_chunk
staged_right content meta s i j r h = elim (Bool-cases (i == j)) [
  | inl t ↦
      rw (eq_refl meta.content_hash, t)
        (ap (λ n. some (chunk content n meta.chunk_size)) (number_eq i j t))
  | inr f ↦
      let k : ChunkKey = record { hash = meta.content_hash; index = i } in
      let k' : ChunkKey = record { hash = meta.content_hash; index = j } in
      let other : key_eq k k' ≡ false = ground (arith, f) in
      let before : is_received meta.content_hash s.received j ≡ true = ground (arith, h, f) in
      rw other (read_chunk-keep k k' s.staged other ∙ r.right j before)
]

pub with_chunk-Ready :
    (content : List ℕ) (meta : AttachmentUpload) (s : Attachments) (i : ℕ)
    → Ready content meta s
    → Ready content meta (
        with_chunk s
          (record { hash = meta.content_hash; index = i })
          (chunk content i meta.chunk_size))
unfolding has get_attachment_upload
with_chunk-Ready content meta s i r = record {
  valid = r.valid;
  absent = r.absent;
  known = r.known;
  right = λ j h.
      staged_right content meta s i j r
        (sym (is_received-append meta.content_hash s.received i j) ∙ h);
}

pub assemble_chunk_file-Ready :
    (content : List ℕ) (meta : AttachmentUpload) (s : Attachments) (is : List ℕ)
    → Ready content meta s
    → All (λ j. is_received meta.content_hash s.received j ≡ true) is
    → assemble_chunk_file meta.content_hash s.staged is
      ≡ some (all_chunks content meta.chunk_size is)
unfolding assemble_chunk_file all_chunks
assemble_chunk_file-Ready content meta s [] r h = refl
assemble_chunk_file-Ready content meta s (i ∷ is) r h =
    rw (r.right i h.0, assemble_chunk_file-Ready content meta s is r h.1) refl
