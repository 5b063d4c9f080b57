-- ===== src/Office/FieldPolicy/Strictest.antt =====
-- Which group's rule for a field wins.
use ovl.Base.{
  SomeOf, ℕ, String, Bool, true, false, Option, none, some, List, [], ◌∷◌, leb, if◌then◌else◌, ◌≡◌,
  refl, ◌∙◌, ◌⊎◌, inl, inr, arith, All,
}
use ovl.Base.Dict.{lookup}
use ovl.Office.FieldPolicy.{
  SchemaFieldPolicy, sets_rule, rank_of, stricter_rule, strictest_loop, without_rank,
  strictest_group_rule,
}

-- The rule of `o` for the field is at least as strict as that of `a`.
abbrev pub as_strict : String → Option SchemaFieldPolicy → SchemaFieldPolicy → Bool
as_strict name none a = false
as_strict name (some w) a = leb (rank_of (lookup name a.policy)) (rank_of (lookup name w.policy))

-- `best` is the rank of the winner so far.
abbrev Ranked : String → Option (SchemaFieldPolicy × ℕ) → Type 0
Ranked name none = Unit
Ranked name (some (w, best)) = best ≡ rank_of (lookup name w.policy)

abbrev next :
    String → Option (SchemaFieldPolicy × ℕ) → SchemaFieldPolicy → Option (SchemaFieldPolicy × ℕ)
next name o a = if sets_rule name a then stricter_rule name o a else o

next-Ranked :
    (name : String) (o : Option (SchemaFieldPolicy × ℕ)) (a : SchemaFieldPolicy)
    → Ranked name o
    → Ranked name (next name o a)
next-Ranked name none a h = ground arith
next-Ranked name (some (w, best)) a h = ground arith

next_keeps :
    (name : String) (o : Option (SchemaFieldPolicy × ℕ)) (a x : SchemaFieldPolicy)
    → Ranked name o
    → as_strict name (without_rank o) x ≡ true
    → as_strict name (without_rank (next name o a)) x ≡ true
next_keeps name none a x h k = cc
next_keeps name (some (w, best)) a x h k = ground arith

next_covers :
    (name : String) (o : Option (SchemaFieldPolicy × ℕ)) (a : SchemaFieldPolicy)
    → Ranked name o
    → sets_rule name a ≡ true
    → as_strict name (without_rank (next name o a)) a ≡ true
next_covers name none a h k = ground arith
next_covers name (some (w, best)) a h k = ground arith

loop_keeps :
    (name : String) (as' : List SchemaFieldPolicy) (o : Option (SchemaFieldPolicy × ℕ))
    (x : SchemaFieldPolicy)
    → Ranked name o
    → as_strict name (without_rank o) x ≡ true
    → as_strict name (without_rank (strictest_loop name as' o)) x ≡ true
unfolding strictest_loop
loop_keeps name [] o x h k = k
loop_keeps name (a ∷ as') o x h k =
    loop_keeps name as' (next name o a) x (next-Ranked name o a h) (next_keeps name o a x h k)

loop_covers :
    (name : String) (as' : List SchemaFieldPolicy) (o : Option (SchemaFieldPolicy × ℕ))
    → Ranked name o
    → All
        (λ a.
          sets_rule name a ≡ true
          → as_strict name (without_rank (strictest_loop name as' o)) a ≡ true)
        as'
unfolding strictest_loop
loop_covers name [] o h = tt
loop_covers name (a ∷ as') o h = (
  λ s. loop_keeps name as' (next name o a) a (next-Ranked name o a h) (next_covers name o a h s),
  loop_covers name as' (next name o a) (next-Ranked name o a h),
)

next_source :
    (name : String) (o : Option (SchemaFieldPolicy × ℕ)) (a : SchemaFieldPolicy)
    → (without_rank (next name o a) ≡ without_rank o)
      ⊎ ((without_rank (next name o a) ≡ some a) × (sets_rule name a ≡ true))
next_source name none a = ground arith
next_source name (some (w, best)) a = ground arith

loop_source :
    (name : String) (as' : List SchemaFieldPolicy) (o : Option (SchemaFieldPolicy × ℕ))
    → (without_rank (strictest_loop name as' o) ≡ without_rank o)
      ⊎ SomeOf
          (λ a. (without_rank (strictest_loop name as' o) ≡ some a) × (sets_rule name a ≡ true))
          as'
unfolding strictest_loop
loop_source name [] o = inl refl
loop_source name (a ∷ as') o = elim (loop_source name as' (next name o a)) [
  | inr h ↦ inr (inr h)
  | inl h ↦ elim (next_source name o a) [ inl k ↦ inl (h ∙ k) | inr k ↦ inr (inl (h ∙ k.0, k.1)) ]
]

-- Among the groups' rules for a field, the strictest wins: it shows or requires at least as much as
-- every group's rule, and a rule without a state loses to every state; the winner is one of the groups
-- that has a rule, and there is none only where no group has one.
pub strictest_group_rule_lem :
    (groups : List SchemaFieldPolicy) (name : String)
    → All
        (λ a. sets_rule name a ≡ true → as_strict name (strictest_group_rule groups name) a ≡ true)
        groups
      × ((strictest_group_rule groups name ≡ none)
          ⊎ SomeOf
              (λ a. (strictest_group_rule groups name ≡ some a) × (sets_rule name a ≡ true))
              groups)
unfolding strictest_group_rule
strictest_group_rule_lem groups name =
    (loop_covers name groups none tt, loop_source name groups none)
