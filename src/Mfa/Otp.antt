-- ===== src/Mfa/Otp.antt =====
-- Codes by email and text message (internal/access/mfa/mfa.go).
use qeet_id.Base.{
  ℕ, ◌+◌, String, Bool, not, ◌&&◌, Option, none, some, str_eq, any, if◌then◌else◌, is_some,
  trim_space,
}
use qeet_id.Errs.{Error, Result, ok, err, bad_request, unauthorized, not_found, unprocessable}
use qeet_id.Device.Rows.{find}
use qeet_id.Mfa.Numeric.{numeric}
use qeet_id.Mfa.Rows.{
  OtpFactor, OtpCode, Db, upsert_factor, insert_otp_code, is_factor_of, code_for_confirm,
  code_for_verify, mark_otp_used, mark_factor_verified, delete_factors, record_verification,
}
use qeet_id.Mfa.Factors.{Env}

-- What is drawn for a code that is sent, and whether the channel takes the message.
pub record Sending : Type 0 where
  pub id : ℕ
  pub random : ℕ
  pub delivered : Bool

abbrev pub otp_ttl : ℕ
otp_ttl = 600

abbrev pub otp_row : Env → ℕ → Sending → ℕ → OtpCode
otp_row env now s factor = record {
  id = s.id;
  factor = factor;
  code_hash = env.hash (numeric 6 s.random);
  expires_at = now + otp_ttl;
  used_at = none;
}

-- sendOTP: the row stays where the message does not go out.
unfoldable pub send_otp : Env → ℕ → Sending → ℕ → Db → Result (Unit {0}) × Db
send_otp env now s factor db = (
  if s.delivered then ok tt else err (Error.storage "not sent"),
  insert_otp_code (otp_row env now s factor) db,
)

abbrev pub started : ℕ → Result (Unit {0}) × Db → Result ℕ × Db
started id (err e, db) = (err e, db)
started id (ok done, db) = (ok id, db)

-- EnrollOTPStart, for a fresh id.
unfoldable pub enroll_otp_start : Env → ℕ → ℕ → Sending → ℕ → String → String → Db → Result ℕ × Db
enroll_otp_start env now fresh s user channel destination db =
    let chan = env.lower (trim_space channel) in
    if not (str_eq chan "email") && not (str_eq chan "sms")
    then (err (unprocessable "channel must be email or sms"), db)
    else if str_eq (trim_space destination) ""
    then (err (unprocessable "destination required"), db)
    else (let (id, db') = upsert_factor fresh user chan (trim_space destination) db in
        started id (send_otp env now s id db'))

abbrev pub confirm_code : ℕ → ℕ → Db → Option OtpCode → Result OtpCode × Db
confirm_code now factor db none = (err (bad_request "invalid or expired code"), db)
confirm_code now factor db (some c) =
    (ok c, mark_factor_verified now factor (mark_otp_used now c.id db))

-- EnrollOTPConfirm, which answers the code that it used.
unfoldable pub enroll_otp_confirm : Env → ℕ → ℕ → ℕ → String → Db → Result OtpCode × Db
enroll_otp_confirm env now user factor code db =
    confirm_code now factor db (code_for_confirm now factor user (env.hash (trim_space code)) db)

-- DeleteOTPFactor
unfoldable pub delete_otp_factor : ℕ → ℕ → Db → Result (Unit {0}) × Db
delete_otp_factor user factor db =
    if any (is_factor_of factor user) db.factors
    then (ok tt, delete_factors (is_factor_of factor user) db)
    else (err not_found, db)

abbrev pub challenge_factor : Env → ℕ → Sending → ℕ → Db → Option OtpFactor → Result (Unit {0}) × Db
challenge_factor env now s factor db none = (err not_found, db)
challenge_factor env now s factor db (some f) =
    if is_some f.verified_at
    then send_otp env now s factor db
    else (err (bad_request "factor not confirmed"), db)

-- ChallengeOTP
unfoldable pub challenge_otp : Env → ℕ → Sending → ℕ → ℕ → Db → Result (Unit {0}) × Db
challenge_otp env now s user factor db =
    challenge_factor env now s factor db (find (is_factor_of factor user) db.factors)

-- VerifyOTP, which answers the code that it used.
abbrev pub use_code : ℕ → Db → Option OtpCode → Option OtpCode × Db
use_code now db none = (none, db)
use_code now db (some c) = (some c, mark_otp_used now c.id db)

unfoldable pub verify_otp : Env → ℕ → ℕ → String → Db → Option OtpCode × Db
verify_otp env now user code db =
    use_code now db (code_for_verify now user (env.hash (trim_space code)) db)

abbrev pub answered : ℕ → ℕ → Option OtpCode × Db → Result OtpCode × Db
answered now user (none, db) = (err (unauthorized "invalid code"), db)
answered now user (some c, db) = (ok c, record_verification now user "otp" db)

-- The handler of POST /mfa/otp/verify.
unfoldable pub verify_otp_route : Env → ℕ → ℕ → String → Db → Result OtpCode × Db
verify_otp_route env now user code db = answered now user (verify_otp env now user code db)
