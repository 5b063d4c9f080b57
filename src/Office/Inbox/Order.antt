-- ===== src/Office/Inbox/Order.antt =====
-- The rows of a stream in the order of their sequence numbers, and what a pull takes of them.
use ovl.Base.{
  ℕ, ◌+◌, ◌≤◌, ◌<◌, Bool, ◌&&◌, List, [], ◌∷◌, ◌++◌, keep, All, ltb, if◌then◌else◌, ◌≡◌, refl, ap,
  arith, Bool-cases, inl, inr,
}
use ovl.Office.Landing.{Row}
use ovl.Office.Inbox.{insert_by_seq, list_since, pull_loop}

module _ {A : Type 0} where
  abbrev From : ℕ → List (Row A) → Type 0
  From n [] = Unit
  From n (x ∷ xs) = (n < x.seq) × From x.seq xs

  -- The sequence numbers increase.
  abbrev pub Increasing : List (Row A) → Type 0
  Increasing [] = Unit
  Increasing (x ∷ xs) = From x.seq xs

  abbrev pub Under : ℕ → List (Row A) → Type 0
  Under n xs = All (λ (x : Row A). x.seq < n) xs

  Increasing-tail : (n : ℕ) (xs : List (Row A)) → From n xs → Increasing xs
  Increasing-tail n [] h = tt
  Increasing-tail n (x ∷ xs) h = h.1

  abbrev pub past : (Row A → Bool) → ℕ → Row A → Bool
  past wanted since row = wanted row && ltb since row.seq

  From-keep :
      (p : Row A → Bool) (n m : ℕ) (xs : List (Row A)) → From n xs → m ≤ n → From m (keep p xs)
  From-keep p n m [] h l = tt
  From-keep p n m (x ∷ xs) h l = elim (Bool-cases (p x)) [
    | inl e ↦ rw e (ground (arith, h.0), From-keep p x.seq x.seq xs h.1 (ground arith))
    | inr e ↦ rw e (From-keep p x.seq m xs h.1 (ground (arith, h.0)))
  ]

  insert_by_seq-least :
      (x : Row A) (xs : List (Row A)) → From x.seq xs → insert_by_seq x xs ≡ x ∷ xs
  unfolding insert_by_seq
  insert_by_seq-least x [] h = refl
  insert_by_seq-least x (y ∷ ys) h = ground arith

  pub list_since-keep :
      (wanted : Row A → Bool) (since : ℕ) (xs : List (Row A))
      → Increasing xs
      → list_since wanted since xs ≡ keep (past wanted since) xs
  unfolding list_since
  list_since-keep wanted since [] h = refl
  list_since-keep wanted since (x ∷ xs) h =
      let rest = list_since-keep wanted since xs (Increasing-tail x.seq xs h) in
      elim (Bool-cases (past wanted since x)) [
        | inl e ↦
            rw (e, rest)
              (insert_by_seq-least x (keep (past wanted since) xs)
                (From-keep (past wanted since) x.seq x.seq xs h (ground arith)))
        | inr e ↦ rw (e, rest) refl
      ]

  pub keep-append :
      (p : Row A → Bool) (xs ys : List (Row A)) → keep p (xs ++ ys) ≡ keep p xs ++ keep p ys
  keep-append p [] ys = refl
  keep-append p (x ∷ xs) ys = elim (Bool-cases (p x)) [
    | inl e ↦ rw (e, keep-append p xs ys) refl
    | inr e ↦ rw (e, keep-append p xs ys) refl
  ]

  From-append :
      (n : ℕ) (xs : List (Row A)) (y : Row A)
      → From n xs
      → Under y.seq xs
      → n < y.seq
      → From n (xs ++ y ∷ [])
  From-append n [] y h u l = (l, tt)
  From-append n (x ∷ xs) y h u l = (h.0, From-append x.seq xs y h.1 u.1 u.0)

  pub Under-keep : (p : Row A → Bool) (n : ℕ) (xs : List (Row A)) → Under n xs → Under n (keep p xs)
  Under-keep p n [] u = tt
  Under-keep p n (x ∷ xs) u = elim (Bool-cases (p x)) [
    | inl e ↦ rw e (u.0, Under-keep p n xs u.1)
    | inr e ↦ rw e (Under-keep p n xs u.1)
  ]

  pub Increasing-append :
      (xs : List (Row A)) (y : Row A) → Increasing xs → Under y.seq xs → Increasing (xs ++ y ∷ [])
  Increasing-append [] y h u = tt
  Increasing-append (x ∷ xs) y h u = From-append x.seq xs y h u.1 u.0

  pub Under-append :
      (n : ℕ) (xs : List (Row A)) (y : Row A)
      → Under n xs
      → y.seq ≡ n
      → Under (n + 1) (xs ++ y ∷ [])
  Under-append n [] y u e = (ground arith, tt)
  Under-append n (x ∷ xs) y u e = (ground (arith, u.0), Under-append n xs y u.1 e)

  unfoldable pub items_of : {B : Type 0} → (A → B) → List (Row A) → List B
  items_of convert [] = []
  items_of convert (x ∷ xs) = convert x.item ∷ items_of convert xs

  module _ {B : Type 0} (convert : A → B) where
    pub pull_loop-items :
        (next : ℕ) (xs : List (Row A)) → (pull_loop convert next xs).0 ≡ items_of convert xs
    unfolding pull_loop items_of
    pull_loop-items next [] = refl
    pull_loop-items next (x ∷ xs) =
        ap (λ t. convert x.item ∷ t) (pull_loop-items (if ltb next x.seq then x.seq else next) xs)

    -- The cursor of a pull is at least the one before, and each row's.
    pub pull_loop-last :
        (next : ℕ) (xs : List (Row A))
        → (next ≤ (pull_loop convert next xs).1)
          × All (λ (x : Row A). x.seq ≤ (pull_loop convert next xs).1) xs
    unfolding pull_loop
    pull_loop-last next [] = (ground arith, tt)
    pull_loop-last next (x ∷ xs) =
        let (more, each) = pull_loop-last (if ltb next x.seq then x.seq else next) xs in
        (ground (arith, more), (ground (arith, more), each))

    pub pull_loop-bound :
        (next bound : ℕ) (xs : List (Row A))
        → next < bound
        → Under bound xs
        → (pull_loop convert next xs).1 < bound
    unfolding pull_loop
    pull_loop-bound next bound [] l u = l
    pull_loop-bound next bound (x ∷ xs) l u =
        pull_loop-bound (if ltb next x.seq then x.seq else next) bound xs (ground (arith, u.0)) u.1
