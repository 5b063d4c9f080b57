-- ===== src/Tests/Codes.antt =====
-- One issued code, and two requests with it. The hash of a text is the text.
use ovl.Base.{◌≤◌, String, Bool, true, false, Option, none, some, [], ◌∷◌, ◌≡◌, refl, str_eq}
use ovl.Office.Vessels.{Vessel}
use ovl.Office.Enrollment.{
  Enrollment, issued, EnrollmentDb, RedeemRequest, begin_redeem, begin_found, begin_vessel,
  finish_redeem, handle_redeem_enrollment, redeem, verify_code, list_issued_enrollments, get_vessel,
  mint,
}
use ovl.Office.Enrollment.Once.{answered_for, redeem_count, redeem_count-once}
use ovl.Office.Enrollment.Overlap.{overlapping_redeems}

abbrev same_text : String → String → Option Bool
same_text code hash = some (str_eq code hash)

abbrev aurora : Vessel
aurora = record {
  id = "v1";
  imo = "9074729";
  name = "Aurora";
  type = "";
  groups = [];
  created_at = 1;
  updated_at = 1;
}

abbrev aurora_issued : Enrollment
aurora_issued = record {
  vessel_id = "v1";
  state = issued;
  code_hash = "ABCD";
  initial_master_username = "master";
  initial_master_password_hash = "p";
  dr_public_key = "";
  issued_at = 1;
  revoked_at = none;
  updated_at = 1;
}

abbrev aurora_db : EnrollmentDb
aurora_db = record { enrollments = aurora_issued ∷ []; credentials = []; vessels = aurora ∷ [] }

abbrev request_of : String → RedeemRequest
request_of token = record {
  code = "ABCD";
  dr_public_key = "k";
  token = token;
  token_hash = token;
  token_lookup_hash = token;
  now = 2;
}

redeem_count-once_example :
    redeem_count same_text "v1" aurora_db (
      record { request = request_of "t1"; budget = none }
      ∷ record { request = request_of "t2"; budget = none }
      ∷ [])
    ≤ 1
redeem_count-once_example = redeem_count-once same_text "v1" aurora_db (
    record { request = request_of "t1"; budget = none }
    ∷ record { request = request_of "t2"; budget = none }
    ∷ [])

redeemed_alone :
    (token : String)
    → answered_for "v1" (handle_redeem_enrollment same_text aurora_db (request_of token) none).1
      ≡ true
unfolding begin_redeem begin_found begin_vessel finish_redeem handle_redeem_enrollment redeem
    verify_code list_issued_enrollments get_vessel mint
redeemed_alone token = refl

overlapping_redeems_example :
    let first = handle_redeem_enrollment same_text aurora_db (request_of "t1") none in
    (answered_for "v1"
        (finish_redeem first.0
          (request_of "t2")
          (begin_redeem same_text aurora_db (request_of "t2") none)).1
      ≡ true)
    × (answered_for "v1" (handle_redeem_enrollment same_text first.0 (request_of "t2") none).1
        ≡ false)
overlapping_redeems_example =
    overlapping_redeems same_text "v1" aurora_db (request_of "t1") (request_of "t2") none none
      (redeemed_alone "t1") (redeemed_alone "t2")
