-- ===== src/Office/Enrollment.antt =====
-- office/enrollment/enrollment.go, office/store/enrollments.go, office/store/synccred.go and
-- office/httpapi/enroll.go: a vessel exchanges its one-time code for a credential. argon2id is a
-- parameter, as are the secrets that are drawn; a secret's hash stands for it.
pub mod Candidates
pub mod Once
pub mod Overlap
use ovl.Base.{
  ℕ, String, Bool, true, false, not, ◌&&◌, ◌||◌, Option, none, some, List, [], ◌∷◌, ◌++◌, keep,
  str_eq, if◌then◌else◌,
}
use ovl.Base.Text.{trim_space}
use ovl.Base.Faults.{Budget, spend}
use ovl.Office.Vessels.{Vessel}

-- `State`
pub data EnrollmentState : Type 0 where
  issued enrolled revoked : EnrollmentState

abbrev pub is_issued : EnrollmentState → Bool
is_issued issued = true
is_issued enrolled = false
is_issued revoked = false

-- `Enrollment`
pub record Enrollment : Type 0 where
  pub vessel_id : String
  pub state : EnrollmentState
  pub code_hash : String
  pub initial_master_username : String
  pub initial_master_password_hash : String
  pub dr_public_key : String
  pub issued_at : ℕ
  pub revoked_at : Option ℕ
  pub updated_at : ℕ

-- The hashes of the code and of the password that are drawn.
pub record Secrets : Type 0 where
  pub code_hash : String
  pub password_hash : String

abbrev or_master : String → String
or_master username = if str_eq username "" then "master" else username

-- `Reissue`; `none` where drawing or hashing fails.
unfoldable pub reissue : Enrollment → String → Option Secrets → ℕ → Option Enrollment
reissue e username none now = none
reissue e username (some secrets) now = some (record e {
  state = issued;
  code_hash = secrets.code_hash;
  initial_master_username = or_master (trim_space username);
  initial_master_password_hash = secrets.password_hash;
  issued_at = now;
  revoked_at = none;
  updated_at = now;
})

-- The zero value, in which the state is the empty text; `Reissue` overwrites it.
abbrev blank : String → Enrollment
blank vessel_id = record {
  vessel_id = vessel_id;
  state = revoked;
  code_hash = "";
  initial_master_username = "";
  initial_master_password_hash = "";
  dr_public_key = "";
  issued_at = 0;
  revoked_at = none;
  updated_at = 0;
}

-- `Issue`
unfoldable pub issue : String → String → Option Secrets → ℕ → Option Enrollment
issue vessel_id username secrets now =
    if str_eq (trim_space vessel_id) ""
    then none
    else reissue (blank vessel_id) username secrets now

-- `Revoke`
unfoldable pub revoke : Enrollment → ℕ → Enrollment
revoke e now = record e { state = revoked; code_hash = ""; revoked_at = some now; updated_at = now }

-- `VerifyCode`; `verify` is argon2id's comparison of a text with a hash, `none` an error of it.
unfoldable pub verify_code : (String → String → Option Bool) → Enrollment → String → Option Bool
verify_code verify e code =
    if not (is_issued e.state) || str_eq e.code_hash "" then some false else verify code e.code_hash

-- What `Redeem` returns.
pub data Redeemed : Type 0 where
  verify_error code_not_found : Redeemed
  found : Enrollment → Redeemed

abbrev enroll : Enrollment → ℕ → Enrollment
enroll e now = record e { state = enrolled; code_hash = ""; updated_at = now }

-- `Redeem`
unfoldable pub redeem : (String → String → Option Bool) → String → ℕ → List Enrollment → Redeemed
redeem verify code now [] = code_not_found
redeem verify code now (e ∷ es) =
    let rest = redeem verify code now es in
    elim (verify_code verify e code) [
      | none ↦ verify_error
      | some match ↦ if match then found (enroll e now) else rest
    ]

-- `Credential`, without the revocation and the last use, which are empty in a new one.
pub record Credential : Type 0 where
  pub vessel_id : String
  pub token_hash : String
  pub token_lookup_hash : String
  pub issued_at : ℕ

pub record EnrollmentDb : Type 0 where
  pub enrollments : List Enrollment
  pub credentials : List Credential
  pub vessels : List Vessel

-- `ListIssuedEnrollments`
unfoldable pub list_issued_enrollments : EnrollmentDb → List Enrollment
list_issued_enrollments db = keep (λ (e : Enrollment). is_issued e.state) db.enrollments

-- `UpsertEnrollment`: the row of the vessel is replaced. The order of the rows is open.
unfoldable pub upsert_enrollment : EnrollmentDb → Enrollment → EnrollmentDb
upsert_enrollment db e = record db {
  enrollments = e ∷ keep (λ (x : Enrollment). not (str_eq x.vessel_id e.vessel_id)) db.enrollments;
}

-- `UpsertVesselCredential`
unfoldable pub upsert_vessel_credential : EnrollmentDb → Credential → EnrollmentDb
upsert_vessel_credential db c = record db {
  credentials = c ∷ keep (λ (x : Credential). not (str_eq x.vessel_id c.vessel_id)) db.credentials;
}

unfoldable pub get_vessel : String → List Vessel → Option Vessel
get_vessel id [] = none
get_vessel id (v ∷ vs) = if str_eq v.id id then some v else get_vessel id vs

-- A request to redeem, with the token that is minted for it: its text and its two hashes.
pub record RedeemRequest : Type 0 where
  pub code : String
  pub dr_public_key : String
  pub token : String
  pub token_hash : String
  pub token_lookup_hash : String
  pub now : ℕ

-- The answer: 400, 401, 500, or 200 with the token, for the vessel.
pub data RedeemAnswer : Type 0 where
  bad_request unauthorized server_error : RedeemAnswer
  redeemed : Vessel → String → RedeemAnswer

-- `Mint`; `none` without a vessel's identifier.
unfoldable pub mint : String → RedeemRequest → Option Credential
mint vessel_id r =
    if str_eq vessel_id ""
    then none
    else some (record {
      vessel_id = vessel_id;
      token_hash = r.token_hash;
      token_lookup_hash = r.token_lookup_hash;
      issued_at = r.now;
    })

-- What `handleRedeemEnrollment` knows before its writes: an answer without any, or what to write.
pub data Begun : Type 0 where
  stop : RedeemAnswer → Begun
  go : Enrollment → Vessel → Credential → Budget → Begun

unfoldable pub begin_vessel :
    RedeemRequest → Enrollment → Credential → Budget → Option Vessel → Begun
begin_vessel r e c b none = stop server_error
begin_vessel r e c b (some v) = go (record e { dr_public_key = r.dr_public_key }) v c b

unfoldable pub begin_found : EnrollmentDb → RedeemRequest → Budget → Redeemed → Begun
begin_found db r budget verify_error = stop server_error
begin_found db r budget code_not_found = stop unauthorized
begin_found db r budget (found e) = elim (mint e.vessel_id r) [
  | none ↦ stop server_error
  | some c ↦ elim (spend budget) [
    | none ↦ stop server_error
    | some b ↦ begin_vessel r e c b (get_vessel e.vessel_id db.vessels)
  ]
]

-- `handleRedeemEnrollment` up to its writes.
unfoldable pub begin_redeem :
    (String → String → Option Bool) → EnrollmentDb → RedeemRequest → Budget → Begun
begin_redeem verify db r budget =
    if str_eq r.code "" then stop bad_request else elim (spend budget) [
      | none ↦ stop server_error
      | some b ↦ begin_found db r b (redeem verify r.code r.now (list_issued_enrollments db))
    ]

-- Its writes, to tables that may have changed since.
unfoldable pub finish_redeem : EnrollmentDb → RedeemRequest → Begun → EnrollmentDb × RedeemAnswer
finish_redeem db r (stop answer) = (db, answer)
finish_redeem db r (go e v c budget) = elim (spend budget) [
  | none ↦ (db, server_error)
  | some b ↦ elim (spend b) [
    | none ↦ (upsert_enrollment db e, server_error)
    | some b' ↦ (upsert_vessel_credential (upsert_enrollment db e) c, redeemed v r.token)
  ]
]

-- `handleRedeemEnrollment`, alone.
unfoldable pub handle_redeem_enrollment :
    (String → String → Option Bool)
    → EnrollmentDb
    → RedeemRequest
    → Budget
    → EnrollmentDb × RedeemAnswer
handle_redeem_enrollment verify db r budget = finish_redeem db r (begin_redeem verify db r budget)
