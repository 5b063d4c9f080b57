-- ===== src/Domain/Report/Save.antt =====
-- What `SaveSection` writes, and where it panics.
use ovl.Base.{
  if◌then◌else◌, ℕ, String, Bool, true, false, not, ◌&&◌, Option, none, some, List, [], ◌∷◌, ◌++◌,
  ◌≡◌, ◌⊎◌, refl, inl, inr, arith, any, Bool-cases, Option-cases,
}
use ovl.Base.Dict.{Dict, put}
use ovl.Base.Floats.{Floats}
use ovl.Validation.Report.{Value, null, Fields}
use ovl.Domain.Event.{FieldChange, Event}
use ovl.Domain.Report.{
  Report, value_at, write_field, deep_equal, apply_changes, is_nil, demote, save_section,
  recompute_event_time, recompute, set_time, saved,
}

module _ {F : Type 0} ⦃fl : Floats F⦄ where
  is_nil-snoc : (ds : List (FieldChange F)) (c : FieldChange F) → is_nil (ds ++ c ∷ []) ≡ false
  is_nil-snoc [] c = refl
  is_nil-snoc (d ∷ ds) c = refl

  deltas_grow :
      (cs : Dict (Value F)) (f : Fields F) (ds : List (FieldChange F)) {f' : Fields F}
      {ds' : List (FieldChange F)}
      → is_nil ds ≡ false
      → apply_changes cs f ds ≡ some (f', ds')
      → is_nil ds' ≡ false
  unfolding apply_changes
  deltas_grow [] f ds n h = ground arith
  deltas_grow ((name, v) ∷ cs) f ds n h = elim (Bool-cases (deep_equal (value_at f name) v)) [
    | inl e ↦ deltas_grow cs f ds n (rw e at h)
    | inr e ↦ elim (Option-cases (write_field f name v)) [
      | inl w ↦ cc (rw (e, w) at h)
      | inr (f₁, w) ↦ deltas_grow cs f₁ (ds ++ _ ∷ []) (is_nil-snoc ds _) (rw (e, w) at h)
    ]
  ]

  -- A save with no delta leaves the fields as they were.
  fields_of_no_delta :
      (cs : Dict (Value F)) (f : Fields F) {f' : Fields F} {ds' : List (FieldChange F)}
      → apply_changes cs f [] ≡ some (f', ds')
      → is_nil ds' ≡ true
      → f' ≡ f
  unfolding apply_changes
  fields_of_no_delta [] f h n = ground arith
  fields_of_no_delta ((name, v) ∷ cs) f h n = elim (Bool-cases (deep_equal (value_at f name) v)) [
    | inl e ↦ fields_of_no_delta cs f (rw e at h) n
    | inr e ↦ elim (Option-cases (write_field f name v)) [
      | inl w ↦ cc (rw (e, w) at h)
      | inr (f₁, w) ↦ cc (deltas_grow cs f₁ (_ ∷ []) refl (rw (e, w) at h), n)
    ]
  ]

  recompute_keeps :
      (r : Report F) (a b : Option String)
      → ((recompute r a b).0.state ≡ r.state) × ((recompute r a b).0.fields ≡ r.fields)
  unfolding recompute set_time
  recompute_keeps r none b = (refl, refl)
  recompute_keeps r (some d) none = (refl, refl)
  recompute_keeps r (some d) (some t) = ground arith

  saved_nil :
      (r : Report F) (now : ℕ) (f : Fields F) (ds : List (FieldChange F))
      → is_nil ds ≡ true
      → ((saved r now f ds).fields ≡ f) × ((saved r now f ds).state ≡ r.state)
  unfolding saved
  saved_nil r now f ds n = rw n (refl, refl)

  saved_cons :
      (r : Report F) (now : ℕ) (f : Fields F) (ds : List (FieldChange F))
      → is_nil ds ≡ false
      → (saved r now f ds).state ≡ demote r.state
  unfolding saved recompute_event_time
  saved_cons r now f ds n = rw n ((recompute_keeps _ _ _).0)

  recompute_version :
      (r : Report F) (a b : Option String) → (recompute r a b).0.version_no ≡ r.version_no
  unfolding recompute set_time
  recompute_version r none b = refl
  recompute_version r (some d) none = refl
  recompute_version r (some d) (some t) = ground arith

  -- The state and the version after a save, by whether something changed.
  pub saved_standing :
      (r : Report F) (now : ℕ) (f : Fields F) (ds : List (FieldChange F))
      → ((saved r now f ds).state ≡ (if is_nil ds then r.state else demote r.state))
        × ((saved r now f ds).version_no ≡ r.version_no)
  unfolding saved recompute_event_time
  saved_standing r now f [] = (refl, refl)
  saved_standing r now f (x ∷ xs) = ((recompute_keeps _ _ _).0, recompute_version _ _ _)

  -- A save that returns kept fields and state, or moved a ready report back to draft.
  pub save_section_cases :
      (r : Report F) (now : ℕ) (section : String) (changes : Dict (Value F)) (actor : String)
      (r' : Report F) (e : Event F)
      → save_section r now section changes actor ≡ some (r', e)
      → ((r'.fields ≡ r.fields) × (r'.state ≡ r.state)) ⊎ (r'.state ≡ demote r.state)
  unfolding save_section
  save_section_cases r now section changes actor r' e h =
      elim (Option-cases (apply_changes changes r.fields [])) [
        | inl w ↦ cc (rw (w, save_section) at h)
        | inr ((f, ds), w) ↦ elim (Bool-cases (is_nil ds)) [
          | inl n ↦ inl (
            cc (
              rw (w, save_section) at h,
              (saved_nil r now f ds n).0,
              fields_of_no_delta changes r.fields w n,
            ),
            cc (rw (w, save_section) at h, (saved_nil r now f ds n).1),
          )
          | inr n ↦ inr (cc (rw (w, save_section) at h, saved_cons r now f ds n))
        ]
      ]

abbrev pub is_null : {F : Type 0} → Value F → Bool
is_null null = true
is_null _ = false

abbrev pub is_none : {A : Type 0} → Option A → Bool
is_none none = true
is_none (some x) = false

module _ {F : Type 0} ⦃fl : Floats F⦄ where
  apply_changes-nil :
      (cs : Dict (Value F)) (ds : List (FieldChange F))
      → is_none (apply_changes cs none ds) ≡ any (λ c. not (is_null c.1)) cs
  unfolding apply_changes deep_equal
  apply_changes-nil [] ds = refl
  apply_changes-nil ((name, null) ∷ cs) ds = apply_changes-nil cs ds
  apply_changes-nil ((name, v) ∷ cs) ds = refl

  apply_changes-map :
      (cs : Dict (Value F)) (d : Dict (Value F)) (ds : List (FieldChange F))
      → is_none (apply_changes cs (some d) ds) ≡ false
  unfolding apply_changes
  apply_changes-map [] d ds = refl
  apply_changes-map ((name, v) ∷ cs) d ds =
      elim (Bool-cases (deep_equal (value_at (some d) name) v)) [
        | inl e ↦ rw e (apply_changes-map cs d ds)
        | inr e ↦ rw e (apply_changes-map cs (put name v d) (ds ++ _ ∷ []))
      ]

  apply_changes_panics :
      (cs : Dict (Value F)) (f : Fields F)
      → is_none (apply_changes cs f []) ≡ (is_none f && any (λ c. not (is_null c.1)) cs)
  apply_changes_panics cs none = apply_changes-nil cs []
  apply_changes_panics cs (some d) = apply_changes-map cs d []

  -- A save panics exactly where the report's field map is nil and some change is not null; with a map,
  -- and with changes that are all null, it returns.
  pub save_section_panics :
      (r : Report F) (now : ℕ) (section : String) (changes : Dict (Value F)) (actor : String)
      → is_none (save_section r now section changes actor)
        ≡ (is_none r.fields && any (λ c. not (is_null c.1)) changes)
  unfolding save_section
  save_section_panics r now section changes actor =
      elim (Option-cases (apply_changes changes r.fields [])) [
        | inl w ↦ rw (w, save_section) (cc (w, apply_changes_panics changes r.fields))
        | inr (x, w) ↦ rw (w, save_section) (cc (w, apply_changes_panics changes r.fields))
      ]
