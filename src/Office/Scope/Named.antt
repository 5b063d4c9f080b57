-- ===== src/Office/Scope/Named.antt =====
-- Which assignments name a vessel, its groups or the fleet, said without the code's loops.
use ovl.Base.{
  String, Bool, true, false, Option, some, List, [], ◌∷◌, ◌++◌, append_assoc, keep, contains,
  str_eq, ◌≡◌, refl, if◌then◌else◌, Bool-cases, inl, inr,
}
use ovl.Office.Scope.{ScopeType, Scope}

abbrev pub names_vessel : String → Scope → Bool
names_vessel vessel_id s = elim s.type [ ScopeType.vessel ↦ str_eq s.key vessel_id | _ ↦ false ]

abbrev pub names_fleet : Scope → Bool
names_fleet s = elim s.type [ ScopeType.fleet ↦ true | _ ↦ false ]

abbrev pub names_group : List String → Scope → Bool
names_group groups s = elim s.type [ ScopeType.group ↦ contains groups s.key | _ ↦ false ]

-- The last element of the list, or what is there before it.
unfoldable pub last_or {ℓ} : {A : Type ℓ} → Option A → List A → Option A
last_or o [] = o
last_or o (x ∷ xs) = last_or (some x) xs

pub last_or-keep {ℓ} :
    {A : Type ℓ} (p : A → Bool) (o : Option A) (x : A) (xs : List A)
    → last_or (if p x then some x else o) (keep p xs) ≡ last_or o (keep p (x ∷ xs))
unfolding last_or
last_or-keep p o x xs = elim (Bool-cases (p x)) [ inl t ↦ rw t refl | inr f ↦ rw f refl ]

pub append-keep {ℓ} :
    {A : Type ℓ} (p : A → Bool) (ys : List A) (x : A) (xs : List A)
    → (if p x then ys ++ x ∷ [] else ys) ++ keep p xs ≡ ys ++ keep p (x ∷ xs)
append-keep p ys x xs = elim (Bool-cases (p x)) [
  | inl t ↦ rw t (append_assoc ys (x ∷ []) (keep p xs))
  | inr f ↦ rw f refl
]
