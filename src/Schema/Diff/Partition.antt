-- ===== src/Schema/Diff/Partition.antt =====
-- What a schema diff lists as added and as removed.
use ovl.Base.{
  append_nil, append_assoc, String, Bool, true, false, not, ◌||◌, Option, none, some, List, [], ◌∷◌,
  ◌++◌, str_eq, keep, any, ◌≡◌, refl, sym, ap, ◌∙◌, arith, Option-cases, inl, inr,
}
use ovl.Base.Dict.{Dict, lookup, put, lookup-put}
use ovl.Schema.{Field, Schema}
use ovl.Schema.Diff.{
  Diff, by_name, compare_one, compare_after, remove_one, compare_before, diff_schemas,
}

-- Whether some field of the list has the name.
abbrev pub has_name : String → List Field → Bool
has_name name fs = any (λ f. str_eq f.name name) fs

abbrev is_there : {A : Type 0} → Option A → Bool
is_there none = false
is_there (some a) = true

named_by_name :
    (name : String) (fs : List Field) (d : Dict Field)
    → is_there (lookup name (by_name d fs)) ≡ (is_there (lookup name d) || has_name name fs)
unfolding by_name
named_by_name name [] d = ground arith
named_by_name name (f ∷ fs) d =
    ground (arith, named_by_name name fs (put f.name f d), lookup-put f.name name f d)

before_added :
    (after : Dict Field) (fs : List Field) (d : Diff) → (compare_before after fs d).added ≡ d.added
unfolding compare_before
before_added after [] d = refl
before_added after (f ∷ fs) d = elim (Option-cases (lookup f.name after)) [
  | inl e ↦ rw (e, compare_before) (before_added after fs (remove_one none f d))
  | inr (g, e) ↦ rw (e, compare_before) (before_added after fs d)
]

gone : Dict Field → Field → Bool
gone names f = not (is_there (lookup f.name names))

before_removed :
    (after : Dict Field) (fs : List Field) (d : Diff)
    → (compare_before after fs d).removed ≡ d.removed ++ keep (gone after) fs
unfolding compare_before gone
before_removed after [] d = sym (append_nil d.removed)
before_removed after (f ∷ fs) d = elim (Option-cases (lookup f.name after)) [
  | inl e ↦
      rw (e, compare_before)
        (before_removed after fs (remove_one none f d)
          ∙ append_assoc d.removed (f ∷ []) (keep (gone after) fs))
  | inr (g, e) ↦ rw (e, compare_before) (before_removed after fs d)
]

after_removed :
    (before : Dict Field) (fs : List Field) (d : Diff)
    → (compare_after before fs d).removed ≡ d.removed
unfolding compare_after compare_one
after_removed before [] d = refl
after_removed before (f ∷ fs) d = elim (Option-cases (lookup f.name before)) [
  | inl e ↦ rw (e, compare_after) (after_removed before fs (compare_one none f d))
  | inr (g, e) ↦ rw (e, compare_after) (after_removed before fs (compare_one (some g) f d))
]

after_added :
    (before : Dict Field) (fs : List Field) (d : Diff)
    → (compare_after before fs d).added ≡ d.added ++ keep (gone before) fs
unfolding compare_after compare_one gone
after_added before [] d = sym (append_nil d.added)
after_added before (f ∷ fs) d = elim (Option-cases (lookup f.name before)) [
  | inl e ↦
      rw (e, compare_after)
        (after_added before fs (compare_one none f d)
          ∙ append_assoc d.added (f ∷ []) (keep (gone before) fs))
  | inr (g, e) ↦ rw (e, compare_after) (after_added before fs (compare_one (some g) f d))
]

keep_same :
    (p q : Field → Bool) (fs : List Field) → ((f : Field) → p f ≡ q f) → keep p fs ≡ keep q fs
keep_same p q [] h = refl
keep_same p q (f ∷ fs) h = rw (h f, keep_same p q fs h) refl

gone_is : (fs : List Field) (f : Field) → gone (by_name [] fs) f ≡ not (has_name f.name fs)
unfolding gone lookup
gone_is fs f = ap not (named_by_name f.name fs [])

-- The diff of two versions lists as added the fields of the new one whose name the old one lacks, and
-- as removed those of the old one whose name the new one lacks, in the order of the schemas.
pub diff_schemas_lem :
    (before after : Schema)
    → ((diff_schemas before after).added
        ≡ keep (λ f. not (has_name f.name before.fields)) after.fields)
      × ((diff_schemas before after).removed
          ≡ keep (λ f. not (has_name f.name after.fields)) before.fields)
unfolding diff_schemas
diff_schemas_lem before after =
    let start : Diff = record {
      added = [];
      removed = [];
      type_changed = [];
      mandatoriness_changed = [];
      enum_changed = [];
    } in
    let b = by_name [] before.fields in
    let a = by_name [] after.fields in
    (
      before_added a before.fields (compare_after b after.fields start)
          ∙ after_added b after.fields start
          ∙ keep_same (gone b) (λ f. not (has_name f.name before.fields)) after.fields
              (gone_is before.fields),
      before_removed a before.fields (compare_after b after.fields start)
          ∙ ap (λ t. t ++ keep (gone a) before.fields) (after_removed b after.fields start)
          ∙ keep_same (gone a) (λ f. not (has_name f.name after.fields)) before.fields
              (gone_is after.fields),
    )
