-- ===== src/Office/Enrollment/Candidates.antt =====
-- What `Redeem` finds among the rows of the enrollments.
use ovl.Base.{
  ℕ, String, Bool, true, false, not, ◌&&◌, Option, none, some, List, [], ◌∷◌, keep, any, ◌≡◌, refl,
  sym, ◌∙◌, arith, str_eq, eq_refl, Bool-cases, inl, inr, if◌then◌else◌,
}
use ovl.Office.Enrollment.{
  Enrollment, is_issued, enroll, Redeemed, verify_error, code_not_found, found, verify_code, redeem,
}

-- Some row says that the vessel's code may be redeemed.
abbrev pub may_redeem : String → List Enrollment → Bool
may_redeem v rows = any (λ (e : Enrollment). str_eq e.vessel_id v && is_issued e.state) rows

-- What `Redeem` finds was issued, and is not any more.
unfoldable pub Finds : List Enrollment → Redeemed → Type 0
Finds rows verify_error = Unit
Finds rows code_not_found = Unit
Finds rows (found e) = (may_redeem e.vessel_id rows ≡ true) × (is_issued e.state ≡ false)

Finds-cons :
    (x : Enrollment) (rows : List Enrollment) (q : Redeemed) → Finds rows q → Finds (x ∷ rows) q
unfolding Finds
Finds-cons x rows verify_error h = tt
Finds-cons x rows code_not_found h = tt
Finds-cons x rows (found e) h = (ground (arith, h.0), h.1)

verify_code-issued :
    (verify : String → String → Option Bool) (x : Enrollment) (code : String)
    → verify_code verify x code ≡ some true
    → is_issued x.state ≡ true
unfolding verify_code
verify_code-issued verify x code h = elim (Bool-cases (is_issued x.state)) [
  | inl t ↦ t
  | inr f ↦ ground (arith, h, f)
]

checked-Finds :
    (o : Option Bool) (x : Enrollment) (xs : List Enrollment) (now : ℕ) (rest : Redeemed)
    → (o ≡ some true → is_issued x.state ≡ true)
    → Finds xs rest
    → Finds
        (x ∷ xs)
        (elim o [ none ↦ verify_error | some match ↦ if match then found (enroll x now) else rest ])
unfolding Finds
checked-Finds none x xs now rest i h = tt
checked-Finds (some true) x xs now rest i h = (ground (arith, eq_refl x.vessel_id, i refl), refl)
checked-Finds (some false) x xs now rest i h = Finds-cons x xs rest h

pub redeem-Finds :
    (verify : String → String → Option Bool) (code : String) (now : ℕ) (rows : List Enrollment)
    → Finds rows (redeem verify code now rows)
unfolding redeem Finds
redeem-Finds verify code now [] = tt
redeem-Finds verify code now (x ∷ xs) =
    checked-Finds (verify_code verify x code) x xs now (redeem verify code now xs)
      (verify_code-issued verify x code) (redeem-Finds verify code now xs)

pub may_redeem-keep :
    (v : String) (rows : List Enrollment)
    → may_redeem v (keep (λ (e : Enrollment). is_issued e.state) rows) ≡ may_redeem v rows
may_redeem-keep v [] = refl
may_redeem-keep v (x ∷ xs) = ground (arith, may_redeem-keep v xs)

pub may_redeem-other :
    (v w : String) (rows : List Enrollment)
    → may_redeem v rows ≡ false
    → may_redeem v (keep (λ (x : Enrollment). not (str_eq x.vessel_id w)) rows) ≡ false
may_redeem-other v w [] h = refl
may_redeem-other v w (x ∷ xs) h = ground (arith, may_redeem-other v w xs)

pub may_redeem-same :
    (v : String) (rows : List Enrollment)
    → may_redeem v (keep (λ (x : Enrollment). not (str_eq x.vessel_id v)) rows) ≡ false
may_redeem-same v [] = refl
may_redeem-same v (x ∷ xs) = ground (arith, may_redeem-same v xs)

pub Finds-all :
    (rows : List Enrollment) (q : Redeemed)
    → Finds (keep (λ (e : Enrollment). is_issued e.state) rows) q
    → Finds rows q
unfolding Finds
Finds-all rows verify_error h = tt
Finds-all rows code_not_found h = tt
Finds-all rows (found e) h = (sym (may_redeem-keep e.vessel_id rows) ∙ h.0, h.1)
