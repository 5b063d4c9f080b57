-- ===== src/Office/Enrollment/Overlap.antt =====
-- Two requests with one code, of which each reads before the other writes.
use ovl.Base.{
  zero, suc, String, Bool, true, false, Option, none, some, ◌≡◌, refl, ap, ◌∙◌, arith, Bool-cases,
  inl, inr,
}
use ovl.Base.Faults.{Budget}
use ovl.Office.Enrollment.{
  EnrollmentDb, RedeemRequest, Begun, stop, go, begin_redeem, finish_redeem,
  handle_redeem_enrollment,
}
use ovl.Office.Enrollment.Once.{answered_for, Spends, handle_redeem_enrollment-Spends}

finish_redeem-answer :
    (db db' : EnrollmentDb) (r : RedeemRequest) (q : Begun)
    → (finish_redeem db r q).1 ≡ (finish_redeem db' r q).1
unfolding finish_redeem
finish_redeem-answer db db' r (stop answer) = refl
finish_redeem-answer db db' r (go e w c none) = refl
finish_redeem-answer db db' r (go e w c (some zero)) = refl
finish_redeem-answer db db' r (go e w c (some (suc zero))) = refl
finish_redeem-answer db db' r (go e w c (some (suc (suc n)))) = refl

-- Of two requests that would each bring the vessel a credential: where the second reads before the
-- first writes, both do; one after the other, only the first does.
pub overlapping_redeems :
    (verify : String → String → Option Bool) (v : String) (db : EnrollmentDb) (r r' : RedeemRequest)
    (b b' : Budget)
    → answered_for v (handle_redeem_enrollment verify db r b).1 ≡ true
    → answered_for v (handle_redeem_enrollment verify db r' b').1 ≡ true
    → let first = handle_redeem_enrollment verify db r b in
      (answered_for v (finish_redeem first.0 r' (begin_redeem verify db r' b')).1 ≡ true)
      × (answered_for v (handle_redeem_enrollment verify first.0 r' b').1 ≡ false)
unfolding handle_redeem_enrollment Spends
overlapping_redeems verify v db r r' b b' h h' =
    let first = handle_redeem_enrollment verify db r b in
    let s : Spends v db first = handle_redeem_enrollment-Spends verify v db r b in
    let second = handle_redeem_enrollment verify first.0 r' b' in
    let s' : Spends v first.0 second = handle_redeem_enrollment-Spends verify v first.0 r' b' in
    (
      ap (answered_for v) (finish_redeem-answer first.0 db r' (begin_redeem verify db r' b')) ∙ h',
      elim (Bool-cases (answered_for v second.1)) [
        | inl t ↦ ground (arith, (s.1 h).1, (s'.1 t).0)
        | inr f ↦ f
      ],
    )
