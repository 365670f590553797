-- ===== src/Mfa/Factors.antt =====
-- Time-based codes and recovery codes of a user (internal/access/mfa/mfa.go). Each operation takes the
-- tables and gives them back, as they were where the transaction is rolled back.
use qeet_id.Base.{
  ℕ, zero, suc, ◌-◌, ◌==◌, leb, String, Bool, false, not, ◌&&◌, Option, none, some, List, [], ◌∷◌,
  ◌++◌, if◌then◌else◌, is_some, trim_space, count,
}
use qeet_id.Errs.{Result, ok, err, bad_request, unauthorized, forbidden}
use qeet_id.Device.Rows.{find}
use qeet_id.Mfa.Numeric.{numeric}
use qeet_id.Mfa.Rows.{
  Totp, RecoveryCode, Verification, Db, find_totp, find_last, upsert_totp, confirm_totp,
  delete_totp, delete_recovery_codes, mark_recovery_used, record_verification, is_recovery_of,
  is_unused_of, delete_factors, OtpFactor,
}
use qeet_id.Mfa.Totp

-- Base32 and HMAC, with password.Hash for a salt, password.Verify, codes.Hash and strings.ToLower.
pub record Env : Type 0 where
  pub host : Totp.Host
  pub hash_password : ℕ → String → String
  pub verify_password : String → String → Bool
  pub hash : String → String
  pub lower : String → String

-- What is drawn for a recovery code: its id, its random number and the salt of its hash.
pub record Draw : Type 0 where
  pub id : ℕ
  pub random : ℕ
  pub salt : ℕ

-- StartEnroll, for the secret that is drawn.
unfoldable pub start_enroll : ℕ → String → Db → Db
start_enroll user secret db = upsert_totp user secret db

abbrev pub recovery_row : Env → ℕ → Draw → RecoveryCode
recovery_row env user d = record {
  id = d.id;
  user = user;
  code_hash = env.hash_password d.salt (numeric 10 d.random);
  used_at = none;
}

-- The loop of mintRecoveryCodes, for the draw of each of its rounds.
unfoldable pub mint : Env → ℕ → ℕ → (ℕ → Draw) → List RecoveryCode → List String × List RecoveryCode
mint env user zero draw rows = ([], rows)
mint env user (suc n) draw rows =
    let (codes, rows') =
      mint env user n (λ i. draw (suc i)) (rows ++ recovery_row env user (draw 0) ∷ []) in
    (numeric 10 (draw 0).random ∷ codes, rows')

abbrev pub recovery_code_count : ℕ
recovery_code_count = 10

unfoldable pub mint_recovery_codes : Env → ℕ → (ℕ → Draw) → Db → List String × Db
mint_recovery_codes env user draw db =
    let kept = delete_recovery_codes user db in
    let (codes, rows) = mint env user recovery_code_count draw kept.recovery_codes in
    (codes, record kept { recovery_codes = rows })

abbrev pub confirm_row :
    Env → ℕ → (ℕ → Draw) → ℕ → String → Db → Option Totp → Result (List String) × Db
confirm_row env now draw user code db none = (err (bad_request "enrollment not started"), db)
confirm_row env now draw user code db (some t) =
    if Totp.verify env.host now t.secret code
    then (let (codes, db') =
          mint_recovery_codes env user draw
            (record_verification now user "totp" (confirm_totp now user db)) in
        (ok codes, db'))
    else (err (bad_request "invalid totp code"), db)

-- ConfirmEnroll
unfoldable pub confirm_enroll : Env → ℕ → (ℕ → Draw) → ℕ → String → Db → Result (List String) × Db
confirm_enroll env now draw user code db = confirm_row env now draw user code db (find_totp user db)

abbrev pub is_confirmed : Option Totp → Bool
is_confirmed none = false
is_confirmed (some t) = is_some t.confirmed_at

-- IsEnrolled
unfoldable pub is_enrolled : ℕ → Db → Bool
is_enrolled user db = is_confirmed (find_totp user db)

pub record RecoveryStatus : Type 0 where
  pub enrolled : Bool
  pub all : ℕ
  pub remaining : ℕ

-- RecoveryStatus
unfoldable pub recovery_status : ℕ → Db → RecoveryStatus
recovery_status user db = record {
  enrolled = is_confirmed (find_totp user db);
  all = count (is_recovery_of user) db.recovery_codes;
  remaining = count (is_unused_of user) db.recovery_codes;
}

abbrev pub regenerate_row : Env → (ℕ → Draw) → ℕ → Db → Option Totp → Result (List String) × Db
regenerate_row env draw user db none =
    (err (bad_request "enable MFA before generating recovery codes"), db)
regenerate_row env draw user db (some t) =
    if is_some t.confirmed_at
    then (let (codes, db') = mint_recovery_codes env user draw db in (ok codes, db'))
    else (err (bad_request "confirm MFA enrollment first"), db)

-- Regenerate
unfoldable pub regenerate : Env → (ℕ → Draw) → ℕ → Db → Result (List String) × Db
regenerate env draw user db = regenerate_row env draw user db (find_totp user db)

-- Disable
unfoldable pub disable : ℕ → Db → Db
disable user db = delete_recovery_codes user (delete_totp user db)

-- ResetForUser
unfoldable pub reset_for_user : ℕ → Db → Db
reset_for_user user db =
    delete_factors (λ (f : OtpFactor). f.user == user)
      (delete_recovery_codes user (delete_totp user db))

abbrev pub fits : Env → ℕ → String → RecoveryCode → Bool
fits env user code rc = is_unused_of user rc && env.verify_password rc.code_hash code

-- What Verify answers: the id of the recovery code that it used, or none for a code by time.
abbrev pub use_recovery : ℕ → Db → Option RecoveryCode → Result (Option ℕ) × Db
use_recovery now db none = (err (unauthorized "invalid mfa code"), db)
use_recovery now db (some rc) = (ok (some rc.id), mark_recovery_used now rc.id db)

abbrev pub verify_row : Env → ℕ → ℕ → String → Db → Option Totp → Result (Option ℕ) × Db
verify_row env now user code db none = (err (bad_request "mfa not configured"), db)
verify_row env now user code db (some t) =
    if not (is_some t.confirmed_at)
    then (err (bad_request "mfa enrollment not confirmed"), db)
    else if Totp.verify env.host now t.secret code
    then (ok none, db)
    else use_recovery now db (find_last (fits env user code) db.recovery_codes)

-- Verify
unfoldable pub verify : Env → ℕ → ℕ → String → Db → Result (Option ℕ) × Db
verify env now user given db = verify_row env now user (trim_space given) db (find_totp user db)

abbrev pub method_of : Option ℕ → String
method_of none = "totp"
method_of (some id) = "recovery_code"

abbrev pub recorded : ℕ → ℕ → Db → Result (Option ℕ) × Db → Result (Option ℕ) × Db
recorded now user db (err e, db') = (err e, db)
recorded now user db (ok used, db') = (ok used, record_verification now user (method_of used) db')

-- VerifyForLogin, in a transaction that no other one overlaps, whose answer is false where Verify fails, and the handler of POST /mfa/totp/verify
unfoldable pub verify_for_login : Env → ℕ → ℕ → String → Db → Result (Option ℕ) × Db
verify_for_login env now user code db = recorded now user db (verify env now user code db)

abbrev pub recent : ℕ → ℕ → Option Verification → Bool
recent now window none = false
recent now window (some v) = leb (now - v.verified_at) window

-- RecentlyVerified
unfoldable pub recently_verified : ℕ → ℕ → ℕ → Db → Bool
recently_verified now window user db =
    recent now window (find (λ (v : Verification). v.user == user) db.verifications)

abbrev pub step_up_window : ℕ
step_up_window = 300

-- The routes DELETE /mfa/totp and POST /mfa/recovery-codes/regenerate, behind RequireRecentMFA.
unfoldable pub disable_route : ℕ → ℕ → Db → Result (Unit {0}) × Db
disable_route now user db =
    if recently_verified now step_up_window user db
    then (ok tt, disable user db)
    else (err (forbidden "recent multi-factor verification required"), db)

unfoldable pub regenerate_route : Env → ℕ → (ℕ → Draw) → ℕ → Db → Result (List String) × Db
regenerate_route env now draw user db =
    if recently_verified now step_up_window user db
    then regenerate env draw user db
    else (err (forbidden "recent multi-factor verification required"), db)
