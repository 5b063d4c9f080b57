-- ===== src/Office/Vessels/Transposed.antt =====
-- What the check digit of an IMO number catches.
use ovl.Base.{
  ℕ, zero, suc, ◌+◌, ◌-◌, ◌*◌, ◌%◌, true, none, List, [], ◌∷◌, all, All, ◌≡◌, refl, ap, arith, ◌≤◌,
}
use ovl.Office.Vessels.{validate_codes, weighed, last_digit, byte_length, is_digit}

-- The text with its characters number i and i + 1 exchanged, if it has them.
abbrev pub exchange : ℕ → List ℕ → List ℕ
exchange zero (a ∷ b ∷ cs) = b ∷ a ∷ cs
exchange (suc i) (a ∷ cs) = a ∷ exchange i cs
exchange i cs = cs

abbrev pub seven : ℕ → ℕ → ℕ → ℕ → ℕ → ℕ → ℕ → List ℕ
seven a b c d e f g = a ∷ b ∷ c ∷ d ∷ e ∷ f ∷ g ∷ []

valid_sum :
    (cs : List ℕ)
    → validate_codes cs ≡ none
    → (byte_length cs ≡ 7) × (all is_digit cs ≡ true) × (weighed 7 cs % 10 ≡ last_digit cs)
unfolding validate_codes
valid_sum cs h = ground arith

-- A digit between '0' and '9'.
abbrev Digit : ℕ → Type 0
Digit c = (48 ≤ c) × (c ≤ 57)

is_digit-Digit : (c : ℕ) → is_digit c ≡ true → Digit c
is_digit-Digit c h = ground arith

all_digits : (cs : List ℕ) → all is_digit cs ≡ true → All Digit cs
all_digits [] h = tt
all_digits (c ∷ cs) h = (is_digit-Digit c (ground arith), all_digits cs (ground arith))

-- An exchange at place `i` of seven characters that leaves the number valid changes nothing.
abbrev Caught : ℕ → List ℕ → Type 0
Caught i cs = validate_codes cs ≡ none → validate_codes (exchange i cs) ≡ none → exchange i cs ≡ cs

pair_0 :
    (p2 p3 p4 p5 p6 x y : ℕ)
    → Digit x
    → Digit y
    → ((x - 48) * 7 + ((y - 48) * 6 + (p2 * 5 + (p3 * 4 + (p4 * 3 + ((p5) * 2 + 0)))))) % 10 ≡ p6
    → ((y - 48) * 7 + ((x - 48) * 6 + (p2 * 5 + (p3 * 4 + (p4 * 3 + ((p5) * 2 + 0)))))) % 10 ≡ p6
    → x ≡ y
pair_0 p2 p3 p4 p5 p6 x y hx hy h k = omega arith

pair_1 :
    (p0 p3 p4 p5 p6 x y : ℕ)
    → Digit x
    → Digit y
    → (p0 * 7 + ((x - 48) * 6 + ((y - 48) * 5 + (p3 * 4 + (p4 * 3 + ((p5) * 2 + 0)))))) % 10 ≡ p6
    → (p0 * 7 + ((y - 48) * 6 + ((x - 48) * 5 + (p3 * 4 + (p4 * 3 + ((p5) * 2 + 0)))))) % 10 ≡ p6
    → x ≡ y
pair_1 p0 p3 p4 p5 p6 x y hx hy h k = omega arith

pair_2 :
    (p0 p1 p4 p5 p6 x y : ℕ)
    → Digit x
    → Digit y
    → (p0 * 7 + (p1 * 6 + ((x - 48) * 5 + ((y - 48) * 4 + (p4 * 3 + ((p5) * 2 + 0)))))) % 10 ≡ p6
    → (p0 * 7 + (p1 * 6 + ((y - 48) * 5 + ((x - 48) * 4 + (p4 * 3 + ((p5) * 2 + 0)))))) % 10 ≡ p6
    → x ≡ y
pair_2 p0 p1 p4 p5 p6 x y hx hy h k = omega arith

pair_3 :
    (p0 p1 p2 p5 p6 x y : ℕ)
    → Digit x
    → Digit y
    → (p0 * 7 + (p1 * 6 + (p2 * 5 + ((x - 48) * 4 + ((y - 48) * 3 + ((p5) * 2 + 0)))))) % 10 ≡ p6
    → (p0 * 7 + (p1 * 6 + (p2 * 5 + ((y - 48) * 4 + ((x - 48) * 3 + ((p5) * 2 + 0)))))) % 10 ≡ p6
    → x ≡ y
pair_3 p0 p1 p2 p5 p6 x y hx hy h k = omega arith

pair_4 :
    (p0 p1 p2 p3 p6 x y : ℕ)
    → Digit x
    → Digit y
    → (p0 * 7 + (p1 * 6 + (p2 * 5 + (p3 * 4 + ((x - 48) * 3 + (((y - 48)) * 2 + 0)))))) % 10 ≡ p6
    → (p0 * 7 + (p1 * 6 + (p2 * 5 + (p3 * 4 + ((y - 48) * 3 + (((x - 48)) * 2 + 0)))))) % 10 ≡ p6
    → x ≡ y
pair_4 p0 p1 p2 p3 p6 x y hx hy h k = omega arith

pair_5 :
    (p0 p1 p2 p3 p4 x y : ℕ)
    → Digit x
    → Digit y
    → (p0 * 7 + (p1 * 6 + (p2 * 5 + (p3 * 4 + (p4 * 3 + (((x - 48)) * 2 + 0)))))) % 10 ≡ (y - 48)
    → (p0 * 7 + (p1 * 6 + (p2 * 5 + (p3 * 4 + (p4 * 3 + (((y - 48)) * 2 + 0)))))) % 10 ≡ (x - 48)
    → x ≡ y
pair_5 p0 p1 p2 p3 p4 x y hx hy h k = omega arith

neighbours_0 : (a b c d e f g : ℕ) → Caught 0 (seven a b c d e f g)
neighbours_0 a b c d e f g h k =
    let v = valid_sum (seven a b c d e f g) h in
    let w = valid_sum (seven b a c d e f g) k in
    let n = all_digits (seven a b c d e f g) v.1 in
    rw (pair_0 (c - 48) (d - 48) (e - 48) (f - 48) (g - 48) a b n.0 n.1.0 v.2 w.2) refl

neighbours_1 : (a b c d e f g : ℕ) → Caught 1 (seven a b c d e f g)
neighbours_1 a b c d e f g h k =
    let v = valid_sum (seven a b c d e f g) h in
    let w = valid_sum (seven a c b d e f g) k in
    let n = all_digits (seven a b c d e f g) v.1 in
    rw (pair_1 (a - 48) (d - 48) (e - 48) (f - 48) (g - 48) b c n.1.0 n.1.1.0 v.2 w.2) refl

neighbours_2 : (a b c d e f g : ℕ) → Caught 2 (seven a b c d e f g)
neighbours_2 a b c d e f g h k =
    let v = valid_sum (seven a b c d e f g) h in
    let w = valid_sum (seven a b d c e f g) k in
    let n = all_digits (seven a b c d e f g) v.1 in
    rw (pair_2 (a - 48) (b - 48) (e - 48) (f - 48) (g - 48) c d n.1.1.0 n.1.1.1.0 v.2 w.2) refl

neighbours_3 : (a b c d e f g : ℕ) → Caught 3 (seven a b c d e f g)
neighbours_3 a b c d e f g h k =
    let v = valid_sum (seven a b c d e f g) h in
    let w = valid_sum (seven a b c e d f g) k in
    let n = all_digits (seven a b c d e f g) v.1 in
    rw (pair_3 (a - 48) (b - 48) (c - 48) (f - 48) (g - 48) d e n.1.1.1.0 n.1.1.1.1.0 v.2 w.2) refl

neighbours_4 : (a b c d e f g : ℕ) → Caught 4 (seven a b c d e f g)
neighbours_4 a b c d e f g h k =
    let v = valid_sum (seven a b c d e f g) h in
    let w = valid_sum (seven a b c d f e g) k in
    let n = all_digits (seven a b c d e f g) v.1 in
    rw (pair_4 (a - 48) (b - 48) (c - 48) (d - 48) (g - 48) e f n.1.1.1.1.0 n.1.1.1.1.1.0 v.2 w.2)
      refl

neighbours_5 : (a b c d e f g : ℕ) → Caught 5 (seven a b c d e f g)
neighbours_5 a b c d e f g h k =
    let v = valid_sum (seven a b c d e f g) h in
    let w = valid_sum (seven a b c d e g f) k in
    let n = all_digits (seven a b c d e f g) v.1 in
    rw
      (pair_5 (a - 48) (b - 48) (c - 48) (d - 48) (e - 48) f g n.1.1.1.1.1.0 n.1.1.1.1.1.1.0 v.2
        w.2)
      refl

exchange_nil : (i : ℕ) → exchange i [] ≡ []
exchange_nil zero = refl
exchange_nil (suc i) = refl

exchange_one : (i c : ℕ) → exchange i (c ∷ []) ≡ c ∷ []
exchange_one zero c = refl
exchange_one (suc i) c = ap (λ t. c ∷ t) (exchange_nil i)

-- The check digit of an IMO number catches every exchange of two neighbouring characters: where a
-- number of seven characters is valid before and after, the exchanged characters are equal.
pub exchange_caught :
    (a b c d e f g i : ℕ)
    → validate_codes (seven a b c d e f g) ≡ none
    → validate_codes (exchange i (seven a b c d e f g)) ≡ none
    → exchange i (seven a b c d e f g) ≡ seven a b c d e f g
exchange_caught a b c d e f g zero h k = neighbours_0 a b c d e f g h k
exchange_caught a b c d e f g (suc zero) h k = neighbours_1 a b c d e f g h k
exchange_caught a b c d e f g (suc (suc zero)) h k = neighbours_2 a b c d e f g h k
exchange_caught a b c d e f g (suc (suc (suc zero))) h k = neighbours_3 a b c d e f g h k
exchange_caught a b c d e f g (suc (suc (suc (suc zero)))) h k = neighbours_4 a b c d e f g h k
exchange_caught a b c d e f g (suc (suc (suc (suc (suc zero))))) h k =
    neighbours_5 a b c d e f g h k
exchange_caught a b c d e f g (suc (suc (suc (suc (suc (suc i)))))) h k =
    ap (λ t. a ∷ b ∷ c ∷ d ∷ e ∷ f ∷ t) (exchange_one i g)
