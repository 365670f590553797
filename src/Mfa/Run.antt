-- ===== src/Mfa/Run.antt =====
-- Any sequence of the operations of mfa.go for any users, each in a transaction of its own and one
-- after another. The statements on recovery codes take no lock and do not read used_at again, so
-- transactions that overlap can do what no run of this kind does.
use qeet_id.Base.{
  ℕ, String, Bool, false, not, ◌&&◌, is_some, List, [], ◌∷◌, ◌==◌, if◌then◌else◌, Option, none,
  some, run, count,
}
use qeet_id.Errs.{Result, ok, err}
use qeet_id.Mfa.Rows.{Db, OtpCode, is_unused_of}
use qeet_id.Mfa.Factors.{
  Env, Draw, start_enroll, confirm_enroll, reset_for_user, verify_for_login, disable_route,
  regenerate_route, recovery_code_count,
}
use qeet_id.Mfa.Otp.{
  Sending, enroll_otp_start, enroll_otp_confirm, delete_otp_factor, challenge_otp, verify_otp_route,
}

pub data Op : Type 0 where
  starts : (user : ℕ) (secret : String) → Op
  confirms : (now : ℕ) (draw : ℕ → Draw) (user : ℕ) (code : String) → Op
  regenerates : (now : ℕ) (draw : ℕ → Draw) (user : ℕ) → Op
  disables : (now user : ℕ) → Op
  resets : (user : ℕ) → Op
  verifies : (now user : ℕ) (code : String) → Op
  starts_otp : (now fresh : ℕ) (s : Sending) (user : ℕ) (channel destination : String) → Op
  confirms_otp : (now user factor : ℕ) (code : String) → Op
  deletes_otp : (user factor : ℕ) → Op
  challenges : (now : ℕ) (s : Sending) (user factor : ℕ) → Op
  verifies_otp : (now user : ℕ) (code : String) → Op

-- A second factor that is passed, or a sent code that confirms an enrollment.
pub data Pass : Type 0 where
  by_totp : (user : ℕ) → Pass
  by_recovery : (user id : ℕ) → Pass
  by_otp : (user : ℕ) (c : OtpCode) → Pass
  by_confirm : (user : ℕ) (c : OtpCode) → Pass

abbrev pub passed_as : ℕ → Option ℕ → Pass
passed_as user none = by_totp user
passed_as user (some id) = by_recovery user id

abbrev pub passes : ℕ → Result (Option ℕ) → List Pass
passes user (err e) = []
passes user (ok used) = passed_as user used ∷ []

abbrev pub otp_passes : ℕ → Result OtpCode → List Pass
otp_passes user (err e) = []
otp_passes user (ok c) = by_otp user c ∷ []

abbrev pub confirm_passes : ℕ → Result OtpCode → List Pass
confirm_passes user (err e) = []
confirm_passes user (ok c) = by_confirm user c ∷ []

unfoldable pub step : Env → Op → Db → List Pass × Db
step env (starts user secret) db = ([], start_enroll user secret db)
step env (confirms now draw user code) db = ([], (confirm_enroll env now draw user code db).1)
step env (regenerates now draw user) db = ([], (regenerate_route env now draw user db).1)
step env (disables now user) db = ([], (disable_route now user db).1)
step env (resets user) db = ([], reset_for_user user db)
step env (verifies now user code) db =
    let (r, db') = verify_for_login env now user code db in (passes user r, db')
step env (starts_otp now fresh s user channel destination) db =
    ([], (enroll_otp_start env now fresh s user channel destination db).1)
step env (confirms_otp now user factor code) db =
    let (r, db') = enroll_otp_confirm env now user factor code db in (confirm_passes user r, db')
step env (deletes_otp user factor) db = ([], (delete_otp_factor user factor db).1)
step env (challenges now s user factor) db = ([], (challenge_otp env now s user factor db).1)
step env (verifies_otp now user code) db =
    let (r, db') = verify_otp_route env now user code db in (otp_passes user r, db')

abbrev pub run_ops : Env → List Op → Db → List Pass × Db
run_ops env = run (step env)

abbrev pub is_by_recovery : ℕ → Pass → Bool
is_by_recovery v (by_totp user) = false
is_by_recovery v (by_recovery user id) = user == v
is_by_recovery v (by_otp user c) = false
is_by_recovery v (by_confirm user c) = false

abbrev pub is_by_factor : ℕ → Pass → Bool
is_by_factor f (by_totp user) = false
is_by_factor f (by_recovery user id) = false
is_by_factor f (by_otp user c) = c.factor == f
is_by_factor f (by_confirm user c) = c.factor == f

-- The recovery codes of a user that are not used.
abbrev pub unused : ℕ → Db → ℕ
unused v db = count (is_unused_of v) db.recovery_codes

-- How many recovery codes an operation can bring a user.
abbrev pub mints : ℕ → Op → ℕ
mints v (confirms now draw user code) = if user == v then recovery_code_count else 0
mints v (regenerates now draw user) = if user == v then recovery_code_count else 0
mints v _ = 0

abbrev pub is_left : ℕ → OtpCode → Bool
is_left f c = c.factor == f && not (is_some c.used_at)

-- The codes that were sent to a factor and are not used.
abbrev pub left : ℕ → Db → ℕ
left f db = count (is_left f) db.otp_codes

-- How many codes an operation can send to a factor.
abbrev pub sends : ℕ → Op → ℕ
sends f (starts_otp now fresh s user channel destination) = 1
sends f (challenges now s user factor) = if factor == f then 1 else 0
sends f _ = 0
