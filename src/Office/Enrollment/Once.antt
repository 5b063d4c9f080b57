-- ===== src/Office/Enrollment/Once.antt =====
-- How often a vessel's enrollment is redeemed.
use ovl.Base.{
  ℕ, String, Bool, true, false, Option, none, some, List, [], ◌∷◌, keep, ◌≡◌, refl, sym, ap, ◌∙◌,
  arith, str_eq, eq_iff, Bool-cases, Option-cases, some_inv, ◌+◌, ◌≤◌, inl, inr, if◌then◌else◌,
}
use ovl.Base.Faults.{Budget, spend}
use ovl.Office.Vessels.{Vessel}
use ovl.Office.Enrollment.{
  bad_request, unauthorized, server_error, Enrollment, is_issued, Redeemed, verify_error,
  code_not_found, found, redeem, EnrollmentDb, list_issued_enrollments, upsert_enrollment,
  upsert_vessel_credential, get_vessel, RedeemRequest, RedeemAnswer, redeemed, mint, Credential,
  Begun, stop, go, begin_vessel, begin_found, begin_redeem, finish_redeem, handle_redeem_enrollment,
}
use ovl.Office.Enrollment.Candidates.{
  Finds-all, may_redeem, Finds, redeem-Finds, may_redeem-other, may_redeem-same,
}

-- The answer is a credential for the vessel.
abbrev pub answered_for : String → RedeemAnswer → Bool
answered_for id bad_request = false
answered_for id unauthorized = false
answered_for id server_error = false
answered_for id (redeemed v token) = str_eq v.id id

-- What a request may begin: an answer without a credential, or the enrollment of a vessel that may
-- redeem.
Begins : EnrollmentDb → Begun → Type 0
Begins db (stop answer) = (id : String) → answered_for id answer ≡ false
Begins db (go e v c b) =
    (may_redeem e.vessel_id db.enrollments ≡ true)
    × (is_issued e.state ≡ false)
    × (v.id ≡ e.vessel_id)

get_vessel-id :
    (id : String) (vs : List Vessel) (v : Vessel) → get_vessel id vs ≡ some v → v.id ≡ id
unfolding get_vessel
get_vessel-id id [] v h = ground (arith, h)
get_vessel-id id (x ∷ xs) v h = elim (Bool-cases (str_eq x.id id)) [
  | inl t ↦
      sym (
        ap (λ (w : Vessel). w.id)
          (some_inv (let same : some x ≡ some v = ground (arith, h, t) in same)))
      ∙ (eq_iff x.id id).0 t
  | inr f ↦ get_vessel-id id xs v (ground (arith, h, f))
]

begin_vessel-Begins :
    (db : EnrollmentDb) (r : RedeemRequest) (e : Enrollment) (c : Credential) (b : Budget)
    → may_redeem e.vessel_id db.enrollments ≡ true
    → is_issued e.state ≡ false
    → Begins db (begin_vessel r e c b (get_vessel e.vessel_id db.vessels))
unfolding Begins begin_vessel
begin_vessel-Begins db r e c b m i = elim (Option-cases (get_vessel e.vessel_id db.vessels)) [
  | inl n ↦ rw n (λ id. refl)
  | inr (v, h) ↦ rw h (m, i, get_vessel-id e.vessel_id db.vessels v h)
]

begin_minted-Begins :
    (db : EnrollmentDb) (r : RedeemRequest) (e : Enrollment) (o : Option Credential)
    (p : Option Budget)
    → may_redeem e.vessel_id db.enrollments ≡ true
    → is_issued e.state ≡ false
    → Begins db (elim o [
      | none ↦ stop server_error
      | some c ↦ elim p [
        | none ↦ stop server_error
        | some b ↦ begin_vessel r e c b (get_vessel e.vessel_id db.vessels)
      ]
    ])
unfolding Begins
begin_minted-Begins db r e none p m i = λ id. refl
begin_minted-Begins db r e (some c) none m i = λ id. refl
begin_minted-Begins db r e (some c) (some b) m i = begin_vessel-Begins db r e c b m i

begin_found-Begins :
    (db : EnrollmentDb) (r : RedeemRequest) (budget : Budget) (q : Redeemed)
    → Finds db.enrollments q
    → Begins db (begin_found db r budget q)
unfolding Begins begin_found Finds
begin_found-Begins db r budget verify_error h = λ id. refl
begin_found-Begins db r budget code_not_found h = λ id. refl
begin_found-Begins db r budget (found e) h =
    begin_minted-Begins db r e (mint e.vessel_id r) (spend budget) h.0 h.1

begin_redeem-Begins :
    (verify : String → String → Option Bool) (db : EnrollmentDb) (r : RedeemRequest)
    (budget : Budget)
    → Begins db (begin_redeem verify db r budget)
unfolding Begins begin_redeem list_issued_enrollments
begin_redeem-Begins verify db r budget =
    let rows : List Enrollment = keep (λ (e : Enrollment). is_issued e.state) db.enrollments in
    let f : Finds rows (redeem verify r.code r.now rows) = redeem-Finds verify r.code r.now rows in
    elim (Bool-cases (str_eq r.code "")) [
      | inl t ↦ rw t (λ id. refl)
      | inr n ↦ elim (Option-cases (spend budget)) [
        | inl none_left ↦ rw (n, none_left) (λ id. refl)
        | inr (b, s) ↦
            rw (n, s)
              (begin_found-Begins db r b (redeem verify r.code r.now rows)
                (Finds-all db.enrollments (redeem verify r.code r.now rows) f))
      ]
    ]

-- After the writes: a vessel that could not redeem still cannot, and one that got a credential could
-- and cannot any more.
unfoldable pub Spends : String → EnrollmentDb → EnrollmentDb × RedeemAnswer → Type 0
Spends v db q =
    (may_redeem v db.enrollments ≡ false → may_redeem v q.0.enrollments ≡ false)
    × (answered_for v q.1 ≡ true
        → (may_redeem v db.enrollments ≡ true) × (may_redeem v q.0.enrollments ≡ false))

upsert-may_redeem :
    (v : String) (db : EnrollmentDb) (e : Enrollment)
    → is_issued e.state ≡ false
    → (may_redeem v db.enrollments ≡ false
        → may_redeem v (upsert_enrollment db e).enrollments ≡ false)
      × (may_redeem e.vessel_id (upsert_enrollment db e).enrollments ≡ false)
unfolding upsert_enrollment
upsert-may_redeem v db e i = (
  λ h. ground (arith, i, may_redeem-other v e.vessel_id db.enrollments h),
  ground (arith, i, may_redeem-same e.vessel_id db.enrollments),
)

credential_written-Spends :
    (v : String) (db : EnrollmentDb) (r : RedeemRequest) (e : Enrollment) (w : Vessel)
    (c : Credential) (o : Option Budget)
    → Begins db (go e w c none)
    → Spends v db (elim o [
      | none ↦ (upsert_enrollment db e, server_error)
      | some b ↦ (upsert_vessel_credential (upsert_enrollment db e) c, redeemed w r.token)
    ])
unfolding Begins Spends upsert_vessel_credential
credential_written-Spends v db r e w c none h =
    ((upsert-may_redeem v db e h.1).0, λ a. ground (arith, a))
credential_written-Spends v db r e w c (some b) h = (
  (upsert-may_redeem v db e h.1).0,
  λ a.
      let same : e.vessel_id ≡ v = sym h.2 ∙ (eq_iff w.id v).0 a in
      (
        ap (λ x. may_redeem x db.enrollments) (sym same) ∙ h.0,
        ap (λ x. may_redeem x (upsert_enrollment db e).enrollments) (sym same)
            ∙ (upsert-may_redeem v db e h.1).1,
      ),
)

written-Spends :
    (v : String) (db : EnrollmentDb) (r : RedeemRequest) (e : Enrollment) (w : Vessel)
    (c : Credential) (o : Option Budget)
    → Begins db (go e w c none)
    → Spends v db (elim o [
      | none ↦ (db, server_error)
      | some b ↦ elim (spend b) [
        | none ↦ (upsert_enrollment db e, server_error)
        | some b' ↦ (upsert_vessel_credential (upsert_enrollment db e) c, redeemed w r.token)
      ]
    ])
unfolding Spends
written-Spends v db r e w c none h = (λ m. m, λ a. ground (arith, a))
written-Spends v db r e w c (some b) h = credential_written-Spends v db r e w c (spend b) h

finish_redeem-Spends :
    (v : String) (db : EnrollmentDb) (r : RedeemRequest) (q : Begun)
    → Begins db q
    → Spends v db (finish_redeem db r q)
unfolding Begins Spends finish_redeem
finish_redeem-Spends v db r (stop answer) h = (λ m. m, λ a. ground (arith, a, h v))
finish_redeem-Spends v db r (go e w c budget) h = written-Spends v db r e w c (spend budget) h

pub handle_redeem_enrollment-Spends :
    (verify : String → String → Option Bool) (v : String) (db : EnrollmentDb) (r : RedeemRequest)
    (budget : Budget)
    → Spends v db (handle_redeem_enrollment verify db r budget)
unfolding handle_redeem_enrollment
handle_redeem_enrollment-Spends verify v db r budget =
    finish_redeem-Spends v db r (begin_redeem verify db r budget)
      (begin_redeem-Begins verify db r budget)

-- A request and the statements that still succeed in it.
pub record Attempt : Type 0 where
  pub request : RedeemRequest
  pub budget : Budget

-- How many of the requests, one after the other, bring the vessel a credential.
unfoldable pub redeem_count :
    (String → String → Option Bool) → String → EnrollmentDb → List Attempt → ℕ
redeem_count verify v db [] = 0
redeem_count verify v db (a ∷ others) =
    let q = handle_redeem_enrollment verify db a.request a.budget in
    let rest = redeem_count verify v q.0 others in if answered_for v q.1 then rest + 1 else rest

spent-redeem_count :
    (verify : String → String → Option Bool) (v : String) (db : EnrollmentDb)
    (others : List Attempt)
    → may_redeem v db.enrollments ≡ false
    → redeem_count verify v db others ≡ 0
unfolding redeem_count Spends
spent-redeem_count verify v db [] h = refl
spent-redeem_count verify v db (a ∷ others) h =
    let q = handle_redeem_enrollment verify db a.request a.budget in
    let s : Spends v db q = handle_redeem_enrollment-Spends verify v db a.request a.budget in
    let rest = spent-redeem_count verify v q.0 others (s.0 h) in
    elim (Bool-cases (answered_for v q.1)) [
      | inl t ↦ ground (arith, (s.1 t).0, h)
      | inr f ↦ rw f rest
    ]

-- Of any sequence of redeem requests, with whatever statements failing, at most one brings a given
-- vessel a credential.
pub redeem_count-once :
    (verify : String → String → Option Bool) (v : String) (db : EnrollmentDb)
    (attempts : List Attempt)
    → redeem_count verify v db attempts ≤ 1
unfolding redeem_count Spends
redeem_count-once verify v db [] = omega arith
redeem_count-once verify v db (a ∷ others) =
    let q = handle_redeem_enrollment verify db a.request a.budget in
    let s : Spends v db q = handle_redeem_enrollment-Spends verify v db a.request a.budget in
    elim (Bool-cases (answered_for v q.1)) [
      | inl t ↦ rw t (omega (arith, spent-redeem_count verify v q.0 others (s.1 t).1))
      | inr f ↦ rw f (redeem_count-once verify v q.0 others)
    ]
