-- ===== src/Signin/Outcome.antt =====
-- What a check of a password says, and what it leaves in the counter (service.go, `CheckPassword`).
use qeet_id.Base.{
  ℕ, ◌≤◌, ◌≡◌, refl, subst, ◌⊎◌, inl, inr, String, true, Option, none, some, List, [], ◌∷◌, str_eq,
  leb, arith, Bool-cases, All, ◌↔◌, ap, sym, ◌∙◌,
}
use qeet_id.Errs.{not_found, Result, ok, err}
use qeet_id.Signin.Attempts.{
  Attempt, Moment, max_failed_logins, login_locked_until, failed_again, upsert_attempt,
  record_failed_login, delete_attempt, clear_login_attempts, count_after,
}
use qeet_id.Signin.Check.{
  User, Env, normal_email, may_sign_in, wrong_password, check_password, with_user, with_hash,
  unless_locked,
}
use qeet_id.Signin.Cleared.{IsCleared, clear-IsCleared, IsCleared-clear}
use qeet_id.Signin.Proven.{IsProven, passed_lem, passed-IsProven, proven_passes}

-- CheckPassword gives a user and leaves these rows exactly when the account is known by that email and
-- active or invited, it has a password and the one given fits its stored hash, the first row of the
-- email holds no lock that lasts (or the table cannot be read) and the login hook does not object; and
-- the rows that are left are all but those of the email, or, where the table cannot be written, all.
pub check_password_ok :
    (env : Env) (m : Moment) (raw plain : String) (rows left : List Attempt) (u : User)
    → (check_password env m raw plain rows ≡ (ok u, left))
      ↔ (IsProven env m raw plain rows u × IsCleared m (normal_email env raw) rows left)
check_password_ok env m raw plain rows left u = (
  λ h.
      let (passed, same) = passed_lem env m raw plain rows u (ap (λ p. p.0) h) in
      (
        passed-IsProven env m raw plain rows u passed,
        subst (IsCleared m (normal_email env raw) rows) (sym same ∙ ap (λ p. p.1) h)
            (clear-IsCleared m (normal_email env raw) rows),
      ),
  λ (proven, cleared).
      proven_passes env m raw plain rows u proven
      ∙ ap (λ (rs : List Attempt). (ok u, rs))
          (sym (IsCleared-clear m (normal_email env raw) rows left cleared)),
)

-- A locked row has at least five failures.
abbrev pub IsEarned : Attempt → Type 0
IsEarned a = (a.locked_until ≡ none) ⊎ (max_failed_logins ≤ a.failed_count)

failed_again-IsEarned : (m : Moment) (a : Attempt) → IsEarned (failed_again m a)
failed_again-IsEarned m a = elim (Bool-cases (leb max_failed_logins (count_after m a))) [
  | inl l ↦ inr (ground (arith, l))
  | inr l ↦ inl (rw l refl)
]

upsert_attempt-IsEarned :
    (m : Moment) (email : String) (rows : List Attempt)
    → All IsEarned rows
    → All IsEarned (upsert_attempt m email rows)
unfolding upsert_attempt
upsert_attempt-IsEarned m email [] a = (inl refl, _)
upsert_attempt-IsEarned m email (r ∷ rows) (k, a) = elim (Bool-cases (str_eq r.email email)) [
  | inl e ↦ rw e (failed_again-IsEarned m r, a)
  | inr e ↦ rw e (k, upsert_attempt-IsEarned m email rows a)
]

delete_attempt-IsEarned :
    (email : String) (rows : List Attempt)
    → All IsEarned rows
    → All IsEarned (delete_attempt email rows)
unfolding delete_attempt
delete_attempt-IsEarned email [] a = _
delete_attempt-IsEarned email (r ∷ rows) (k, a) = elim (Bool-cases (str_eq r.email email)) [
  | inl e ↦ rw e (delete_attempt-IsEarned email rows a)
  | inr e ↦ rw e (k, delete_attempt-IsEarned email rows a)
]

module _ (env : Env) (m : Moment) (plain email : String) (rows : List Attempt) where
  record_failed_login-IsEarned : All IsEarned rows → All IsEarned (record_failed_login m email rows)
  unfolding record_failed_login
  record_failed_login-IsEarned a = elim (Bool-cases m.writes) [
    | inl w ↦ rw w (upsert_attempt-IsEarned m email rows a)
    | inr w ↦ rw w a
  ]

  clear_login_attempts-IsEarned :
      All IsEarned rows → All IsEarned (clear_login_attempts m email rows)
  unfolding clear_login_attempts
  clear_login_attempts-IsEarned a = elim (Bool-cases m.writes) [
    | inl w ↦ rw w (delete_attempt-IsEarned email rows a)
    | inr w ↦ rw w a
  ]

  with_hash-IsEarned :
      (v : User) (o : Result String)
      → All IsEarned rows
      → All IsEarned (with_hash env m email plain v rows o).1
  with_hash-IsEarned v (err e) a = a
  with_hash-IsEarned v (ok hash) a = elim (Bool-cases (wrong_password env hash plain)) [
    | inl w ↦ rw w (record_failed_login-IsEarned a)
    | inr w ↦ rw w (clear_login_attempts-IsEarned a)
  ]

  with_user-IsEarned :
      (o : Result User) → All IsEarned rows → All IsEarned (with_user env m email plain rows o).1
  with_user-IsEarned (err not_found) a = record_failed_login-IsEarned a
  with_user-IsEarned (err _) a = a
  with_user-IsEarned (ok v) a = elim (Bool-cases (may_sign_in v.status)) [
    | inl s ↦ rw s (with_hash-IsEarned v (env.password_hash v.id) a)
    | inr s ↦ rw s a
  ]

-- A check of a password keeps that only rows with at least five failures have a lock.
pub check_password-IsEarned :
    (env : Env) (m : Moment) (raw plain : String) (rows : List Attempt)
    → All IsEarned rows
    → All IsEarned (check_password env m raw plain rows).1
unfolding check_password
check_password-IsEarned env m raw plain rows a =
    go (login_locked_until m (normal_email env raw) rows)
  where
    go :
        (o : Option ℕ)
        → All IsEarned
            (unless_locked o
              (with_user env m (normal_email env raw) plain rows (env.by_email raw))
              rows).1
    go (some t) = a
    go none = with_user-IsEarned env m plain (normal_email env raw) rows (env.by_email raw) a

-- An email without an account and an active account with a wrong password answer the same and leave
-- the same counter: the one store has no account for the email, the other one has.
pub check_password-uniform :
    (env env' : Env) (m : Moment) (raw plain hash : String) (u : User) (rows : List Attempt)
    → env.to_lower ≡ env'.to_lower
    → env.by_email raw ≡ err not_found
    → env'.by_email raw ≡ ok u
    → may_sign_in u.status ≡ true
    → env'.password_hash u.id ≡ ok hash
    → wrong_password env' hash plain ≡ true
    → check_password env m raw plain rows ≡ check_password env' m raw plain rows
unfolding check_password
check_password-uniform env env' m raw plain hash u rows lower absent known s h w =
    ground (arith, lower, absent, known, s, h, w)
