-- ===== src/Office/Vessels.antt =====
-- office/vessels/vessel.go: the profile of a vessel and its IMO number. The identifier and the clock
-- are arguments.
pub mod Transposed
use Prim.Native.Char.{Char, code}
use ovl.Base.{
  ℕ, zero, suc, ◌+◌, ◌-◌, ◌*◌, ◌%◌, String, Bool, true, false, not, ◌&&◌, ◌||◌, Option, none, some,
  List, [], ◌∷◌, ◌++◌, leb, ◌==◌, str_eq, contains, all, if◌then◌else◌,
}
use ovl.Base.Text.{trim_space, utf8_width}

abbrev pub codes : String → List ℕ
codes String.[] = []
codes (String.◌∷◌ c s) = code c ∷ codes s

pub data VesselError : Type 0 where
  imo_length imo_digits imo_check_digit name_required type_required no_identifier : VesselError

-- `len` of the text.
abbrev byte_length : List ℕ → ℕ
byte_length [] = 0
byte_length (c ∷ cs) = utf8_width c + byte_length cs

abbrev is_digit : ℕ → Bool
is_digit c = leb 48 c && leb c 57

-- The weighted sum of all digits but the last, and the last digit.
abbrev weighed : ℕ → List ℕ → ℕ
weighed weight [] = 0
weighed weight (c ∷ []) = 0
weighed weight (c ∷ d ∷ cs) = (c - 48) * weight + weighed (weight - 1) (d ∷ cs)

abbrev last_digit : List ℕ → ℕ
last_digit [] = 0
last_digit (c ∷ []) = c - 48
last_digit (c ∷ d ∷ cs) = last_digit (d ∷ cs)

-- `ValidateIMO`, on the code points of the text; `none` where there is no error.
unfoldable pub validate_codes : List ℕ → Option VesselError
validate_codes cs =
    if not (byte_length cs == 7)
    then some imo_length
    else if not (all is_digit cs)
    then some imo_digits
    else if weighed 7 cs % 10 == last_digit cs
    then none
    else some imo_check_digit

unfoldable pub validate_imo : String → Option VesselError
validate_imo imo = validate_codes (codes imo)

pub record Vessel : Type 0 where
  pub id : String
  pub imo : String
  pub name : String
  pub type : String
  pub groups : List String
  pub created_at : ℕ
  pub updated_at : ℕ

normalize_loop : List String → List String → List String
normalize_loop [] out = out
normalize_loop (g ∷ gs) out = normalize_loop gs (
    if str_eq (trim_space g) "" || contains out (trim_space g)
    then out
    else out ++ trim_space g ∷ [])

-- `normalizeGroups`
unfoldable pub normalize_groups : List String → List String
unfolding normalize_loop
normalize_groups groups = normalize_loop groups []

pub data Result (A : Type 0) : Type 0 where
  ok : A → Result A
  failed : VesselError → Result A

new_with :
    Option VesselError → Option String → ℕ → String → String → String → List String → Result Vessel
new_with (some e) id now imo name type groups = failed e
new_with none id now imo name type groups =
    if str_eq name ""
    then failed name_required
    else if str_eq type ""
    then failed type_required
    else elim id [
      | none ↦ failed no_identifier
      | some i ↦ ok (record {
        id = i;
        imo = imo;
        name = name;
        type = type;
        groups = normalize_groups groups;
        created_at = now;
        updated_at = now;
      })
    ]

-- `NewVessel`
unfoldable pub new_vessel :
    Option String → ℕ → String → String → String → List String → Result Vessel
unfolding new_with
new_vessel id now imo name type groups =
    new_with (validate_imo (trim_space imo)) id now (trim_space imo) (trim_space name)
      (trim_space type) groups

-- `UpdateProfile`; the profile after the call, and the error.
unfoldable pub update_profile :
    Vessel → ℕ → String → String → List String → Vessel × Option VesselError
update_profile v now name type groups =
    if str_eq (trim_space name) ""
    then (v, some name_required)
    else if str_eq (trim_space type) ""
    then (v, some type_required)
    else (
      record v {
        name = trim_space name;
        type = trim_space type;
        groups = normalize_groups groups;
        updated_at = now;
      },
      none,
    )
