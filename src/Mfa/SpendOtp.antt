-- ===== src/Mfa/SpendOtp.antt =====
-- Codes by email and text message are spent: what mfa.go accepts is paid for by a code that is left.
use qeet_id.Base.{
  ℕ, ◌+◌, ◌≤◌, ◌==◌, Bool, true, false, not, ◌&&◌, Option, none, some, List, [], ◌∷◌, ◌++◌, String,
  if◌then◌else◌, any, count, count-append, total, run_paid, ◌≡◌, refl, ap, arith, Bool-cases, inl,
  inr, IsPaid, Option-cases, trim_space, str_eq,
}
use qeet_id.Errs.{Result, ok, err}
use qeet_id.Device.Rows.{find}
use qeet_id.Mfa.Rows.{
  is_channel, OtpFactor, OtpCode, Db, is_open, is_verified_of, is_factor_of, code_for_verify,
  code_for_confirm, upsert_factor, delete_factors, mark_otp_used,
}
use qeet_id.Mfa.Factors.{
  Env, start_enroll, confirm_enroll, mint_recovery_codes, regenerate, regenerate_route, disable,
  disable_route, reset_for_user, verify_for_login, verify,
}
use qeet_id.Mfa.Otp.{
  started, otp_row, Sending, enroll_otp_start, send_otp, enroll_otp_confirm, delete_otp_factor,
  challenge_otp, verify_otp_route, verify_otp, use_code, answered, confirm_code,
}
use qeet_id.Mfa.Counting.{count-delete_where, count-update_where, count-spent, find_last-any}
use qeet_id.Mfa.Run.{
  Op, starts, confirms, regenerates, disables, resets, verifies, starts_otp, confirms_otp,
  deletes_otp, challenges, verifies_otp, step, run_ops, is_by_factor, is_left, left, sends,
  otp_passes, confirm_passes,
}

added :
    (f : ℕ) (c : OtpCode) (cs : List OtpCode)
    → count (is_left f) (cs ++ c ∷ []) ≤ count (is_left f) cs + (if c.factor == f then 1 else 0)
unfolding count
added f c cs = grind (arith, count-append (is_left f) cs (c ∷ []))

sent :
    (env : Env) (f now : ℕ) (s : Sending) (factor : ℕ) (db : Db)
    → left f (send_otp env now s factor db).1 ≤ left f db + (if factor == f then 1 else 0)
unfolding send_otp
sent env f now s factor db = added f (otp_row env now s factor) db.otp_codes

started-left : (f id : ℕ) (r : Result (Unit {0}) × Db) → left f (started id r).1 ≡ left f r.1
started-left f id (err e, db) = refl
started-left f id (ok done, db) = refl

-- The first code to a factor that is upserted.
first_sent :
    (env : Env) (f now : ℕ) (s : Sending) (db : Db) (r : ℕ × Db)
    → r.1.otp_codes ≡ db.otp_codes
    → left f (started r.0 (send_otp env now s r.0 r.1)).1 ≤ left f db + 1
first_sent env f now s db r same =
    let kept : left f r.1 ≡ left f db = ap (count (is_left f)) same in
    grind (arith, kept, sent env f now s r.0 r.1, started-left f r.0 (send_otp env now s r.0 r.1))

upsert_factor-codes :
    (id user : ℕ) (channel destination : String) (db : Db)
    → (upsert_factor id user channel destination db).1.otp_codes ≡ db.otp_codes
unfolding upsert_factor
upsert_factor-codes id user channel destination db =
    elim (Option-cases (find (is_channel user channel destination) db.factors)) [
      | inl n ↦ rw (upsert_factor, n) refl
      | inr (g, e) ↦ rw (upsert_factor, e) refl
    ]

enrolled :
    (env : Env) (f now fresh : ℕ) (s : Sending) (user : ℕ) (channel destination : String) (db : Db)
    → left f (enroll_otp_start env now fresh s user channel destination db).1 ≤ left f db + 1
unfolding enroll_otp_start
enrolled env f now fresh s user channel destination db =
    let chan = env.lower (trim_space channel) in
    let dest = trim_space destination in
    let r = upsert_factor fresh user chan dest db in
    let good = first_sent env f now s db r (upsert_factor-codes fresh user chan dest db) in
    elim (Bool-cases (not (str_eq chan "email") && not (str_eq chan "sms"))) [
      | inl wrong ↦ rw wrong (omega arith)
      | inr right ↦ elim (Bool-cases (str_eq dest "")) [
        | inl none_given ↦ rw (right, none_given) (omega arith)
        | inr given ↦ rw (right, given) good
      ]
    ]

marked : (f now id : ℕ) (db : Db) → left f (mark_otp_used now id db) ≤ left f db
marked f now id db =
    count-update_where (is_left f) (λ c. c.id == id) (λ c. record c { used_at = some now })
      (λ c. ground arith) db.otp_codes

challenged :
    (env : Env) (f now : ℕ) (s : Sending) (user factor : ℕ) (db : Db)
    → left f (challenge_otp env now s user factor db).1 ≤ left f db + (if factor == f then 1 else 0)
unfolding challenge_otp
challenged env f now s user factor db = ground (arith, sent env f now s factor db)

dropped : (f : ℕ) (test : OtpFactor → Bool) (db : Db) → left f (delete_factors test db) ≤ left f db
dropped f test db =
    count-delete_where (is_left f) (λ c. any (λ x. test x && x.id == c.factor) db.factors)
      db.otp_codes

-- Marking a code that is found is paid for by that code.
taken :
    (f now : ℕ) (c : OtpCode) (db : Db)
    → ((c.factor == f) ≡ true → any (λ x. x.id == c.id && is_left f x) db.otp_codes ≡ true)
    → (if c.factor == f then 1 else 0) + left f (mark_otp_used now c.id db) ≤ left f db
taken f now c db found =
    let mark : OtpCode → OtpCode = λ x. record x { used_at = some now } in
    let gone : (x : OtpCode) → is_left f (mark x) ≡ false = λ x. ground arith in
    elim (Bool-cases (c.factor == f)) [
      | inr other ↦ rw other (omega (arith, marked f now c.id db))
      | inl own ↦ rw own (
          omega
            (arith, count-spent (is_left f) (λ x. x.id == c.id) mark gone db.otp_codes (found own)))
    ]

spent :
    (f now user : ℕ) (hash : String) (db : Db) (o : Option OtpCode)
    → code_for_verify now user hash db ≡ o
    → count (is_by_factor f) (otp_passes user (answered now user (use_code now db o)).0)
        + left f (answered now user (use_code now db o)).1
      ≤ left f db
unfolding count
spent f now user hash db none e = omega arith
spent f now user hash db (some c) e =
    let passed = taken f now c db λ own.
      find_last-any (λ x. any (is_verified_of x.factor user) db.factors && is_open now hash x)
        (λ x. x.id == c.id && is_left f x) db.otp_codes c e (λ p. ground (arith, p, own)) in
    ground (arith, passed)

confirmed :
    (f now user factor : ℕ) (hash : String) (db : Db) (o : Option OtpCode)
    → code_for_confirm now factor user hash db ≡ o
    → count (is_by_factor f) (confirm_passes user (confirm_code now factor db o).0)
        + left f (confirm_code now factor db o).1
      ≤ left f db
unfolding count
confirmed f now user factor hash db none e = omega arith
confirmed f now user factor hash db (some c) e =
    let passed = taken f now c db λ own.
      find_last-any
        (λ x.
          (x.factor == factor && any (is_factor_of factor user) db.factors) && is_open now hash x)
        (λ x. x.id == c.id && is_left f x) db.otp_codes c e (λ p. ground (arith, p, own)) in
    ground (arith, passed)

-- Each operation pays for the codes to a factor that it takes with codes that are left.
pays : (env : Env) (f : ℕ) → IsPaid (step env) (is_by_factor f) (left f) (sends f)
unfolding step count
pays env f (starts user secret) db = unfold start_enroll in omega arith
pays env f (confirms now draw user code) db =
    unfold confirm_enroll mint_recovery_codes in ground arith
pays env f (regenerates now draw user) db =
    unfold regenerate_route regenerate mint_recovery_codes in ground arith
pays env f (disables now user) db = unfold disable_route disable in ground arith
pays env f (resets user) db =
    unfold reset_for_user in omega (arith, dropped f (λ x. x.user == user) db)
pays env f (verifies now user code) db = unfold verify_for_login verify in ground arith
pays env f (starts_otp now fresh s user channel destination) db =
    omega (arith, enrolled env f now fresh s user channel destination db)
pays env f (confirms_otp now user factor code) db =
    unfold enroll_otp_confirm in
    omega (
      arith,
      confirmed f now user factor (env.hash (trim_space code)) db
          (code_for_confirm now factor user (env.hash (trim_space code)) db) refl,
    )
pays env f (deletes_otp user factor) db =
    unfold delete_otp_factor in ground (arith, dropped f (is_factor_of factor user) db)
pays env f (challenges now s user factor) db = omega (arith, challenged env f now s user factor db)
pays env f (verifies_otp now user code) db =
    unfold verify_otp_route verify_otp in
    omega (
      arith,
      spent f now user (env.hash (trim_space code)) db
          (code_for_verify now user (env.hash (trim_space code)) db) refl,
    )

-- In any run of the operations, one after another, the codes to a factor that are accepted, by
-- VerifyOTP or to confirm the enrollment, and those that are left at the end are together no more than
-- the codes left at the start and those that are sent, by a challenge of the factor or at an enrollment.
pub otp_passes_bounded :
    (env : Env) (f : ℕ) (ops : List Op) (db : Db)
    → count (is_by_factor f) (run_ops env ops db).0 + left f (run_ops env ops db).1
      ≤ left f db + total (sends f) ops
otp_passes_bounded env f ops db =
    run_paid (step env) (is_by_factor f) (left f) (sends f) (pays env f) ops db
