-- ===== src/Office/Attachments/Missing.antt =====
-- The missing indices of an upload while chunks arrive.
use ovl.Base.{
  ℕ, zero, suc, ◌+◌, ◌≤◌, ◌<◌, String, Bool, true, false, not, ◌||◌, ◌==◌, List, [], ◌∷◌, ◌++◌,
  any-append, keep, All, ◌≡◌, refl, ap, ◌∙◌, arith, ltb, eq_refl, Bool-cases, inl, inr,
}
use mathlib.Core.Path.{subst, fun_ext}
use ovl.Office.Attachments.{
  ChunkKey, key_eq, is_received, chunk_count, count_from, range, Attachments, AttachmentUpload,
  missing_chunk_indices,
}

-- The numbers increase, from `lo` on and below `hi`.
abbrev pub Within : ℕ → ℕ → List ℕ → Type 0
Within lo hi [] = Unit
Within lo hi (x ∷ xs) = (lo ≤ x) × (x < hi) × Within (x + 1) hi xs

Within-weaken : (lo lo' hi : ℕ) (xs : List ℕ) → lo ≤ lo' → Within lo' hi xs → Within lo hi xs
Within-weaken lo lo' hi [] h w = tt
Within-weaken lo lo' hi (x ∷ xs) h w = (omega (arith, h, w.0), w.1, w.2)

keep-count_from-Within :
    (p : ℕ → Bool) (lo n hi : ℕ) → lo + n ≤ hi → Within lo hi (keep p (count_from lo n))
unfolding count_from
keep-count_from-Within p lo zero hi h = tt
keep-count_from-Within p lo (suc n) hi h =
    let rest : Within (lo + 1) hi (keep p (count_from (lo + 1) n)) =
      keep-count_from-Within p (lo + 1) n hi (omega (arith, h)) in
    elim (Bool-cases (p lo)) [
      | inl t ↦ rw t (omega arith, omega (arith, h), rest)
      | inr f ↦
          rw f (Within-weaken lo (lo + 1) hi (keep p (count_from (lo + 1) n)) (omega arith) rest)
    ]

pub missing-Within :
    (s : Attachments) (u : AttachmentUpload) → Within 0 0x80000000 (missing_chunk_indices s u)
unfolding missing_chunk_indices range
missing-Within s u =
    let p : ℕ → Bool = λ i. not (is_received u.content_hash s.received i) in
    let n : ℕ = chunk_count u.total_size u.chunk_size in
    elim (Bool-cases (ltb n 0x80000000)) [
      | inl t ↦ rw t (keep-count_from-Within p 0 n 0x80000000 (ground (arith, t)))
      | inr f ↦ rw f tt
    ]

keep-above :
    (i lo hi : ℕ) (xs : List ℕ) → i < lo → Within lo hi xs → keep (λ j. not (i == j)) xs ≡ xs
keep-above i lo hi [] h w = refl
keep-above i lo hi (x ∷ xs) h w =
    ground (arith, keep-above i (x + 1) hi xs (omega (arith, h, w.0)) w.2, h, w.0)

keep-both :
    (r : ℕ → Bool) (i : ℕ) (xs : List ℕ)
    → keep (λ j. not (r j || (i == j))) xs ≡ keep (λ j. not (i == j)) (keep (λ j. not (r j)) xs)
keep-both r i [] = refl
keep-both r i (x ∷ xs) = ground (arith, keep-both r i xs)

pub keep-none_left :
    (r : ℕ → Bool) (xs : List ℕ) → keep (λ j. not (r j)) xs ≡ [] → All (λ j. r j ≡ true) xs
keep-none_left r [] h = tt
keep-none_left r (x ∷ xs) h = ground (arith, keep-none_left r xs)

pub keep-head :
    (r : ℕ → Bool) (xs : List ℕ) (i : ℕ) (is : List ℕ)
    → keep (λ j. not (r j)) xs ≡ i ∷ is
    → r i ≡ false
keep-head r [] i is h = ground (arith, h)
keep-head r (x ∷ xs) i is h = ground (arith, keep-head r xs i is)

pub is_received-append :
    (hash : String) (ks : List ChunkKey) (i j : ℕ)
    → is_received hash (ks ++ record { hash = hash; index = i } ∷ []) j
      ≡ (is_received hash ks j || (i == j))
is_received-append hash ks i j =
    any-append (λ (k : ChunkKey). key_eq k (record { hash = hash; index = j })) ks
      (record { hash = hash; index = i } ∷ [])
    ∙ ground (arith, eq_refl hash)

skip_head :
    (i : ℕ) (is : List ℕ) → Within 0 0x80000000 (i ∷ is) → keep (λ j. not (i == j)) (i ∷ is) ≡ is
skip_head i is w = ground (arith, keep-above i (i + 1) 0x80000000 is (omega arith) w.2)

-- Once the first missing index is received, the others are still missing.
pub missing-next :
    (s s' : Attachments) (u : AttachmentUpload) (i : ℕ) (is : List ℕ)
    → missing_chunk_indices s u ≡ i ∷ is
    → s'.received ≡ s.received ++ record { hash = u.content_hash; index = i } ∷ []
    → missing_chunk_indices s' u ≡ is
unfolding missing_chunk_indices
missing-next s s' u i is m e =
    let r : ℕ → Bool = is_received u.content_hash s.received in
    let xs : List ℕ = range (chunk_count u.total_size u.chunk_size) in
    let w : Within 0 0x80000000 (i ∷ is) = subst (Within 0 0x80000000) m (missing-Within s u) in
    let new : (j : ℕ) → not (is_received u.content_hash s'.received j) ≡ not (r j || (i == j)) =
      λ j. ap not (
        ap (λ t. is_received u.content_hash t j) e
        ∙ is_received-append u.content_hash s.received i j) in
    ap (λ p. keep p xs) (fun_ext new)
    ∙ keep-both r i xs
    ∙ ap (keep (λ j. not (i == j))) m
    ∙ skip_head i is w
