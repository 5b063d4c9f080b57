-- ===== src/Schema/Diff.antt =====
-- pkg/schema/diff.go: what changed between two versions of a schema, field by field.
pub mod Partition
use ovl.Base.{
  String, Bool, true, false, not, ◌&&◌, Option, none, some, List, [], ◌∷◌, ◌++◌, str_eq,
  if◌then◌else◌,
}
use ovl.Base.Dict.{Dict, lookup, put}
use ovl.Schema.{Field, Schema, type_eq}

pub record FieldChange : Type 0 where
  pub name : String
  pub before : Field
  pub after : Field

pub record Diff : Type 0 where
  pub added : List Field
  pub removed : List Field
  pub type_changed : List FieldChange
  pub mandatoriness_changed : List FieldChange
  pub enum_changed : List FieldChange

abbrev is_nil : {A : Type 0} → List A → Bool
is_nil [] = true
is_nil (x ∷ xs) = false

-- `Empty`
unfoldable pub empty : Diff → Bool
empty d =
    is_nil d.added
    && is_nil d.removed
    && is_nil d.type_changed
    && is_nil d.mandatoriness_changed
    && is_nil d.enum_changed

-- `beforeByName` and `afterByName`: a later field of a name replaces an earlier one.
by_name : Dict Field → List Field → Dict Field
by_name d [] = d
by_name d (f ∷ fs) = by_name (put f.name f d) fs

abbrev pub bool_eq : Bool → Bool → Bool
bool_eq true b = b
bool_eq false b = not b

-- `equalStringPtr`
unfoldable pub equal_string_ptr : Option String → Option String → Bool
equal_string_ptr none none = true
equal_string_ptr (some a) (some b) = str_eq a b
equal_string_ptr _ _ = false

abbrev append_if : {A : Type 0} → Bool → List A → A → List A
append_if b xs x = if b then xs ++ x ∷ [] else xs

compare_one : Option Field → Field → Diff → Diff
compare_one none f d = record d { added = d.added ++ f ∷ [] }
compare_one (some bf) f d =
    let change : FieldChange = record { name = f.name; before = bf; after = f } in
    record d {
      type_changed = append_if (not (type_eq bf.type f.type)) d.type_changed change;
      mandatoriness_changed =
          append_if (not (bool_eq bf.schema_mandatory f.schema_mandatory)) d.mandatoriness_changed
            change;
      enum_changed =
          append_if (not (equal_string_ptr bf.enum_ref f.enum_ref)) d.enum_changed change;
    }

compare_after : Dict Field → List Field → Diff → Diff
compare_after before [] d = d
compare_after before (f ∷ fs) d = compare_after before fs (compare_one (lookup f.name before) f d)

abbrev remove_one : Option Field → Field → Diff → Diff
remove_one none f d = record d { removed = d.removed ++ f ∷ [] }
remove_one (some g) f d = d

compare_before : Dict Field → List Field → Diff → Diff
compare_before after [] d = d
compare_before after (f ∷ fs) d = compare_before after fs (remove_one (lookup f.name after) f d)

-- `DiffSchemas`
unfoldable pub diff_schemas : Schema → Schema → Diff
unfolding by_name compare_one compare_after compare_before
diff_schemas before after = compare_before (by_name [] after.fields) before.fields (
    compare_after (by_name [] before.fields) after.fields (record {
      added = [];
      removed = [];
      type_changed = [];
      mandatoriness_changed = [];
      enum_changed = [];
    }))
