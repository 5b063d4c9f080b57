-- ===== src/Office/Attachments/Chunks.antt =====
-- The chunks of a content.
use ovl.Base.{
  ℕ, zero, suc, ◌+◌, ◌-◌, ◌*◌, ◌/◌, ◌≤◌, ◌<◌, List, [], ◌∷◌, ◌++◌, length, take, drop, take-add,
  drop-drop, take-all, ◌≡◌, sym, ap, ◌∙◌, arith,
}
use native.Mathlib.Nat.{mod-eq_of_lt, lt-div-mul-add}
use ovl.Wire.{int32}
use ovl.Office.Attachments.{chunk_count, count_from, range}
use ovl.Vessel.Upload.{chunk}

unfoldable pub all_chunks : List ℕ → ℕ → List ℕ → List ℕ
all_chunks content size [] = []
all_chunks content size (i ∷ is) = chunk content i size ++ all_chunks content size is

none_of : (size : ℕ) → 0 * size ≡ 0
none_of size = omega arith

next_offset : (start size : ℕ) → (start + 1) * size ≡ start * size + size
next_offset start size = omega arith

next_length : (n size : ℕ) → size + n * size ≡ suc n * size
next_length n size = omega arith

all_chunks-take :
    (content : List ℕ) (size start n : ℕ)
    → all_chunks content size (count_from start n) ≡ take (n * size) (drop (start * size) content)
unfolding all_chunks count_from chunk
all_chunks-take content size start zero =
    sym (ap (λ n. take n (drop (start * size) content)) (none_of size))
all_chunks-take content size start (suc n) =
    ap (λ t. chunk content start size ++ t) (all_chunks-take content size (start + 1) n)
    ∙ ap (λ k. take size (drop (start * size) content) ++ take (n * size) (drop k content))
        (next_offset start size)
    ∙ sym (
        ap (λ t. take size (drop (start * size) content) ++ take (n * size) t)
          (drop-drop (start * size) size content))
    ∙ sym (take-add size (n * size) (drop (start * size) content))
    ∙ ap (λ k. take k (drop (start * size) content)) (next_length n size)

-- The count does not wrap where it fits into an int32.
chunk_count-rounds_up :
    (total size : ℕ)
    → 0 < size
    → size < 0x80000000
    → (total + (size - 1)) / size < 0x80000000
    → chunk_count total size ≡ (total + (size - 1)) / size
unfolding chunk_count
chunk_count-rounds_up total size pos small few =
    let fits : int32 ((total + (size - 1)) / size) ≡ (total + (size - 1)) / size =
      mod-eq_of_lt (omega (arith, few)) in
    ground (arith, fits)

rounded_up-covers : (total size : ℕ) → 0 < size → total ≤ (total + (size - 1)) / size * size
rounded_up-covers total size pos = omega (arith, lt-div-mul-add {a = total + (size - 1)} pos)

pub range-count_from : (n : ℕ) → n < 0x80000000 → range n ≡ count_from 0 n
unfolding range
range-count_from n h = ground arith

chunks_from_start :
    (content : List ℕ) (size n : ℕ)
    → length content ≤ n * size
    → all_chunks content size (count_from 0 n) ≡ content
chunks_from_start content size n h =
    all_chunks-take content size 0 n
    ∙ ap (λ k. take (n * size) (drop k content)) (none_of size)
    ∙ take-all (n * size) content h

-- The chunks that the office counts, one after the other, are the content, and the count is an int32
-- that is not negative.
pub all_chunks-range :
    (content : List ℕ) (size : ℕ)
    → 0 < size
    → size < 0x80000000
    → (length content + (size - 1)) / size < 0x80000000
    → (all_chunks content size (range (chunk_count (length content) size)) ≡ content)
      × (chunk_count (length content) size < 0x80000000)
all_chunks-range content size pos small few =
    let n : ℕ = chunk_count (length content) size in
    let up : n ≡ (length content + (size - 1)) / size =
      chunk_count-rounds_up (length content) size pos small few in
    let few' : n < 0x80000000 = omega (arith, up, few) in
    let covers : length content ≤ n * size = rw up (rounded_up-covers (length content) size pos) in
    (
      ap (all_chunks content size) (range-count_from n few')
          ∙ chunks_from_start content size n covers,
      few',
    )
