-- ===== src/Signin/Check.antt =====
-- The check of a password (service.go, `CheckPassword`). The user store, the password hash and the
-- login hook are arguments; the rehash of an old hash, which never fails a login, is left out.
use Prim.Native.String
use qeet_id.Base.{
  ℕ, String, Bool, not, ◌||◌, Option, none, some, List, str_eq, if◌then◌else◌, trim_space,
}
use qeet_id.Errs.{Error, not_found, unauthorized, forbidden, too_many_requests, Result, ok, err}
use qeet_id.Signin.Attempts.{
  Attempt, Moment, login_locked_until, record_failed_login, clear_login_attempts,
}

pub record User : Type 0 where
  pub id : ℕ
  pub status : String

pub record Env : Type 0 where
  -- strings.ToLower
  pub to_lower : String → String
  -- users.GetByEmailGlobal and users.PasswordHash
  pub by_email : String → Result User
  pub password_hash : ℕ → Result String
  -- password.Verify
  pub verify : String → String → Bool
  -- loginHook.Run, without its claims
  pub login_hook : ℕ → Option Error

abbrev pub normal_email : Env → String → String
normal_email env raw = env.to_lower (trim_space raw)

abbrev pub after_hook : User → Option Error → Result User
after_hook u none = ok u
after_hook u (some e) = err e

abbrev pub invalid_credentials : Error
invalid_credentials = unauthorized "invalid credentials"

abbrev pub may_sign_in : String → Bool
may_sign_in status = str_eq status "active" || str_eq status "invited"

-- `hash == "" || !password.Verify(hash, plain)`
abbrev pub wrong_password : Env → String → String → Bool
wrong_password env hash plain = str_eq hash "" || not (env.verify hash plain)

abbrev pub with_hash :
    Env
    → Moment
    → String
    → String
    → User
    → List Attempt
    → Result String
    → Result User × List Attempt
with_hash env m email plain u rows (err e) = (err e, rows)
with_hash env m email plain u rows (ok hash) =
    if wrong_password env hash plain
    then (err invalid_credentials, record_failed_login m email rows)
    else (after_hook u (env.login_hook u.id), clear_login_attempts m email rows)

abbrev pub with_user :
    Env → Moment → String → String → List Attempt → Result User → Result User × List Attempt
with_user env m email plain rows (err not_found) =
    (err invalid_credentials, record_failed_login m email rows)
with_user env m email plain rows (err e) = (err e, rows)
with_user env m email plain rows (ok u) =
    if may_sign_in u.status
    then with_hash env m email plain u rows (env.password_hash u.id)
    else (err (forbidden (String.◌++◌ "account " u.status)), rows)

abbrev pub unless_locked :
    Option ℕ → Result User × List Attempt → List Attempt → Result User × List Attempt
unless_locked (some t) outcome rows = (err (too_many_requests "account temporarily locked"), rows)
unless_locked none outcome rows = outcome

unfoldable pub check_password :
    Env → Moment → String → String → List Attempt → Result User × List Attempt
check_password env m raw plain rows =
    unless_locked (login_locked_until m (normal_email env raw) rows)
      (with_user env m (normal_email env raw) plain rows (env.by_email raw)) rows
