-- ===== src/Validation/TimeParse.antt =====
-- time.Parse of Go's standard library at the three layouts of pkg/validation/fieldrules.go:
-- "2006-01-02", "15:04" and "2006-01-02 15:04". Texts are read as code points. An hour may have one
-- digit, and between date and time any number of blanks may stand, as in Go.
use Prim.Native.Char.{code}
use ovl.Base.{
  ℕ, zero, suc, ◌+◌, ◌-◌, ◌*◌, ◌/◌, ◌%◌, String, Bool, true, false, not, ◌&&◌, ◌||◌, Option, none,
  some, List, [], ◌∷◌, leb, ltb, ◌==◌, if◌then◌else◌,
}
use Prim.Native.String.{◌++◌ as str_append}

infixl 5 ◌>>=◌
abbrev ◌>>=◌ : {A B : Type 0} → Option A → (A → Option B) → Option B
none >>= f = none
some a >>= f = f a

abbrev pub codes : String → List ℕ
codes String.[] = []
codes (String.◌∷◌ c s) = code c ∷ codes s

is_digit : ℕ → Bool
is_digit c = leb b'0' c && leb c b'9'

abbrev two_digits : ℕ → ℕ → ℕ
two_digits a b = (a - b'0') * 10 + (b - b'0')

-- `getnum`: two digits, or one where the field is not fixed.
get_num : Bool → List ℕ → Option (ℕ × List ℕ)
get_num fixed [] = none
get_num fixed (a ∷ []) = if is_digit a && not fixed then some (a - b'0', []) else none
get_num fixed (a ∷ b ∷ rest) =
    if is_digit a
    then if is_digit b
      then some (two_digits a b, rest)
      else if fixed
      then none
      else some (a - b'0', b ∷ rest)
    else none

get_year : List ℕ → Option (ℕ × List ℕ)
get_year (a ∷ b ∷ c ∷ d ∷ rest) =
    if is_digit a && is_digit b && is_digit c && is_digit d
    then some (two_digits a b * 100 + two_digits c d, rest)
    else none
get_year _ = none

-- `skip` of one character that is no blank.
skip : ℕ → List ℕ → Option (List ℕ)
skip c [] = none
skip c (x ∷ xs) = if x == c then some xs else none

cut_space : List ℕ → List ℕ
cut_space [] = []
cut_space (x ∷ xs) = let rest = cut_space xs in if x == b' ' then rest else x ∷ xs

-- `skip` of a blank.
skip_space : List ℕ → Option (List ℕ)
skip_space [] = some []
skip_space (x ∷ xs) = if x == b' ' then some (cut_space xs) else none

is_leap : ℕ → Bool
is_leap y = (y % 4 == 0) && (not (y % 100 == 0) || (y % 400 == 0))

days_in : ℕ → ℕ → ℕ
days_in y m =
    if m == 2
    then if is_leap y then 29 else 28
    else if (m == 4) || (m == 6) || (m == 9) || (m == 11)
    then 30
    else 31

-- The days of the months before month `suc m`.
days_before : ℕ → ℕ → ℕ
days_before y zero = 0
days_before y (suc m) = days_before y m + days_in y (suc m)

-- Days from the start of year 0.
day_number : ℕ → ℕ → ℕ → ℕ
day_number y m d =
    365 * y + ((y + 3) / 4 + (y + 399) / 400 - (y + 99) / 100) + days_before y (m - 1) + (d - 1)

abbrev check : {A : Type 0} → Bool → A → Option A
check b a = if b then some a else none

parse_date : List ℕ → Option (ℕ × List ℕ)
parse_date s = do
  (y, s1) ← get_year s
  s2 ← skip b'-' s1
  (m, s3) ← get_num true s2
  s4 ← skip b'-' s3
  (d, s5) ← get_num true s4
  check (leb 1 m && leb m 12 && leb 1 d && leb d (days_in y m)) (day_number y m d, s5)

parse_clock : List ℕ → Option (ℕ × List ℕ)
parse_clock s = do
  (h, s1) ← get_num false s
  s2 ← skip b':' s1
  (m, s3) ← get_num true s2
  check (ltb h 24 && ltb m 60) (h * 60 + m, s3)

abbrev done : {A : Type 0} → A × List ℕ → Option A
done (a, []) = some a
done (a, x ∷ xs) = none

pub data Layout : Type 0 where
  date_layout time_layout date_time_layout : Layout

-- Minutes from the start of year 0.
parse_minutes : Layout → List ℕ → Option ℕ
parse_minutes date_layout s = do r ← parse_date s; d ← done r; some (d * 1440)
parse_minutes time_layout s = do r ← parse_clock s; done r
parse_minutes date_time_layout s = do
  (d, s1) ← parse_date s
  s2 ← skip_space s1
  r ← parse_clock s2
  t ← done r
  some (d * 1440 + t)

-- `time.Parse`: nanoseconds from the start of year 0.
unfoldable pub parse : Layout → String → Option ℕ
unfolding is_digit get_num get_year skip cut_space skip_space is_leap days_in days_before day_number
    parse_date parse_clock parse_minutes
parse layout s = do m ← parse_minutes layout (codes s); some (m * 60000000000)

-- `ParseEventTime`
unfoldable pub parse_event_time : String → String → Option ℕ
unfolding parse
parse_event_time date_utc time_utc =
    parse date_time_layout (str_append date_utc (str_append " " time_utc))
