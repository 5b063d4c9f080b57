-- ===== src/Validation/Cascade/Order.antt =====
-- Chains in another order, and what the revalidation makes of them.
use mathlib.Core.List.{Perm, Permᴰ}
use mathlib.Core.Logic.{∥∥₁_elim}
use mathlib.Core.Path.{subst}
use ovl.Base.{
  ℕ, Option, List, [], ◌∷◌, ◌≡◌, ◌≢◌, inl, inr, refl, sym, ap, ◌∙◌, arith, ltb, Bool-cases,
}
use ovl.Base.Text.{String-set}
use ovl.Base.Floats.{Floats}
use ovl.Validation.Report.{Report}
use ovl.Validation.Config.{Config}
use ovl.Validation.Cascade.{
  CascadeResult, insert_by_time, sort_stable, revalidate, SortSlice, NotAt, DistinctTimes,
  revalidate_sorted, or_default,
}

module _ {F : Type 0} where
  insert-insert :
      (x y : Report F) (s : List (Report F))
      → x.event_time ≢ y.event_time
      → insert_by_time x (insert_by_time y s) ≡ insert_by_time y (insert_by_time x s)
  unfolding insert_by_time
  insert-insert x y [] h = ground arith
  insert-insert x y (z ∷ zs) h = elim (Bool-cases (ltb z.event_time x.event_time)) [
    | inl zx ↦ elim (Bool-cases (ltb z.event_time y.event_time)) [
      | inl zy ↦ ground (arith, insert-insert x y zs h)
      | inr zy ↦ ground arith
    ]
    | inr zx ↦ ground arith
  ]

  NotAt-perm : {xs ys : List (Report F)} (t : ℕ) → Permᴰ xs ys → NotAt t xs → NotAt t ys
  NotAt-perm t Permᴰ.nil h = tt
  NotAt-perm t (Permᴰ.cons e p) h = (rw (← e) h.0, NotAt-perm t p h.1)
  NotAt-perm t (Permᴰ.swap e f) h = (rw (← f) h.1.0, (rw (← e) h.0, h.1.1))
  NotAt-perm t (Permᴰ.trans p q) h = NotAt-perm t q (NotAt-perm t p h)

  DistinctTimes-perm : {xs ys : List (Report F)} → Permᴰ xs ys → DistinctTimes xs → DistinctTimes ys
  DistinctTimes-perm Permᴰ.nil h = tt
  DistinctTimes-perm (Permᴰ.cons e p) h = (rw (← e) (NotAt-perm _ p h.0), DistinctTimes-perm p h.1)
  DistinctTimes-perm (Permᴰ.swap {a = a} {b = b} {b' = b'} {l = l} e f) h =
      subst (λ u. DistinctTimes (u ∷ b' ∷ l)) f
        (subst (λ v. DistinctTimes (b ∷ v ∷ l)) e (((λ q. h.0.0 (sym q)), h.1.0), (h.0.1, h.1.1)))
  DistinctTimes-perm (Permᴰ.trans p q) h = DistinctTimes-perm q (DistinctTimes-perm p h)

  sort-perm :
      {xs ys : List (Report F)} → Permᴰ xs ys → DistinctTimes xs → sort_stable xs ≡ sort_stable ys
  unfolding sort_stable
  sort-perm Permᴰ.nil h = refl
  sort-perm (Permᴰ.cons e p) h = rw (e, sort-perm p h.1)
  sort-perm (Permᴰ.swap {a = a} {b = b} {l = l} e f) h =
      rw (← e, ← f) (insert-insert a b (sort_stable l) h.0.0)
  sort-perm (Permᴰ.trans p q) h = sort-perm p h ∙ sort-perm q (DistinctTimes-perm p h)

CascadeResult-set : IsSet CascadeResult
CascadeResult-set = hlevel String-set

module _ {F : Type 0} ⦃fl : Floats F⦄ where
  -- Where no two reports of the chain have the same event time, the cascade over the chain and over
  -- any reordering of it give the same result, whatever the two sort routines do with equal times.
  pub revalidate-perm :
      (slice slice' : SortSlice F) (cfg : Option (Config F)) (xs ys : List (Report F))
      → Perm xs ys
      → DistinctTimes xs
      → revalidate slice xs cfg ≡ revalidate slice' ys cfg
  unfolding revalidate
  revalidate-perm slice slice' cfg xs ys p h = ∥∥₁_elim p (CascadeResult-set _ _) λ q.
      ap (revalidate_sorted (or_default cfg)) (
        slice.sort-eq-stable xs h
        ∙ sort-perm q h
        ∙ sym (slice'.sort-eq-stable ys (DistinctTimes-perm q h)))
