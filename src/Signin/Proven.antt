-- ===== src/Signin/Proven.antt =====
-- What makes a check of a password succeed (service.go, `CheckPassword`).
use qeet_id.Base.{
  ℕ, ◌≡◌, refl, subst, ◌⊎◌, inl, inr, String, true, false, Option, none, some, List, str_eq, arith,
  Bool-cases, ◌≢◌, ◌↔◌, str_eq_iff,
}
use qeet_id.Errs.{Error, not_found, Result, ok, err}
use qeet_id.Signin.Attempts.{Attempt, Moment, login_locked_until, clear_login_attempts}
use qeet_id.Signin.Check.{
  User, Env, normal_email, may_sign_in, wrong_password, check_password, with_user, with_hash,
  unless_locked, after_hook,
}
use qeet_id.Signin.Cleared.{NoLock, unlocked_iff}

-- What makes a check succeed.
pub record IsProven (env : Env) (m : Moment) (raw plain : String) (rows : List Attempt) (u : User)
    : Type 0 where
  pub known : env.by_email raw ≡ ok u
  pub active : (u.status ≡ "active") ⊎ (u.status ≡ "invited")
  pub hash : String
  pub stored : env.password_hash u.id ≡ ok hash
  pub has_password : hash ≢ ""
  pub matches : env.verify hash plain ≡ true
  pub unlocked : (m.reads ≡ false) ⊎ NoLock m (normal_email env raw) rows
  pub hooked : env.login_hook u.id ≡ none

-- The same in the code's own tests.
pub record IsPassed (env : Env) (m : Moment) (raw plain : String) (rows : List Attempt) (u : User)
    : Type 0 where
  known : env.by_email raw ≡ ok u
  active : may_sign_in u.status ≡ true
  hash : String
  stored : env.password_hash u.id ≡ ok hash
  matches : wrong_password env hash plain ≡ false
  unlocked : login_locked_until m (normal_email env raw) rows ≡ none
  hooked : env.login_hook u.id ≡ none

module _ (env : Env) (m : Moment) (raw plain : String) (rows : List Attempt) (u : User) where
  -- An outcome that is a success has found all this and clears the counter.
  abbrev Proves : Result User × List Attempt → Type 0
  Proves p =
      p.0 ≡ ok u
      → IsPassed env m raw plain rows u × (p.1 ≡ clear_login_attempts m (normal_email env raw) rows)

  hook-Proves :
      (v : User) (hash : String)
      → login_locked_until m (normal_email env raw) rows ≡ none
      → env.by_email raw ≡ ok v
      → may_sign_in v.status ≡ true
      → env.password_hash v.id ≡ ok hash
      → wrong_password env hash plain ≡ false
      → (o : Option Error) → env.login_hook v.id ≡ o
      → Proves (after_hook v o, clear_login_attempts m (normal_email env raw) rows)
  hook-Proves v hash free e s h w (some x) q p = absurd (ground (arith, p))
  hook-Proves v hash free e s h w none q p =
      let same : v ≡ u = ground (arith, p) in
      (
        subst (IsPassed env m raw plain rows) same (record {
          known = e;
          active = s;
          hash = hash;
          stored = h;
          matches = w;
          unlocked = free;
          hooked = q;
        }),
        refl,
      )

  hash-Proves :
      (v : User)
      → login_locked_until m (normal_email env raw) rows ≡ none
      → env.by_email raw ≡ ok v
      → may_sign_in v.status ≡ true
      → (o : Result String) → env.password_hash v.id ≡ o
      → Proves (with_hash env m (normal_email env raw) plain v rows o)
  hash-Proves v free e s (err x) h = λ p. absurd (ground (arith, p))
  hash-Proves v free e s (ok hash) h = elim (Bool-cases (wrong_password env hash plain)) [
    | inl w ↦ rw w (λ p. absurd (ground (arith, p)))
    | inr w ↦ rw w (hook-Proves v hash free e s h w (env.login_hook v.id) refl)
  ]

  user-Proves :
      login_locked_until m (normal_email env raw) rows ≡ none
      → (o : Result User) → env.by_email raw ≡ o
      → Proves (with_user env m (normal_email env raw) plain rows o)
  user-Proves free (err not_found) e = λ p. absurd (ground (arith, p))
  user-Proves free (err _) e = λ p. absurd (ground (arith, p))
  user-Proves free (ok v) e = elim (Bool-cases (may_sign_in v.status)) [
    | inl s ↦ rw s (hash-Proves v free e s (env.password_hash v.id) refl)
    | inr s ↦ rw s (λ p. absurd (ground (arith, p)))
  ]

  pub passed_lem : Proves (check_password env m raw plain rows)
  unfolding check_password
  passed_lem = go (login_locked_until m (normal_email env raw) rows) refl
    where
      go :
          (o : Option ℕ)
          → login_locked_until m (normal_email env raw) rows ≡ o
          → Proves (
              unless_locked o
                (with_user env m (normal_email env raw) plain rows (env.by_email raw))
                rows)
      go (some t) q = λ p. absurd (ground (arith, p))
      go none q = user-Proves q (env.by_email raw) refl

  wrong_iff :
      (hash : String)
      → (wrong_password env hash plain ≡ false) ↔ ((hash ≢ "") × (env.verify hash plain ≡ true))
  wrong_iff hash = (
    λ h. (λ e. absurd (ground (arith, h, (str_eq_iff hash "").1 e)), ground (arith, h)),
    λ (set, fits). elim (Bool-cases (str_eq hash "")) [
      | inl empty ↦ absurd (set ((str_eq_iff hash "").0 empty))
      | inr given ↦ ground (arith, given, fits)
    ],
  )

  may_sign_in_iff :
      (status : String) → (may_sign_in status ≡ true) ↔ ((status ≡ "active") ⊎ (status ≡ "invited"))
  may_sign_in_iff status = (
    λ h. elim (Bool-cases (str_eq status "active")) [
      | inl is ↦ inl ((str_eq_iff status "active").0 is)
      | inr other ↦ inr ((str_eq_iff status "invited").0 (ground (arith, h, other)))
    ],
    λ o. elim o [
      | inl e ↦ ground (arith, (str_eq_iff status "active").1 e)
      | inr e ↦ ground (arith, (str_eq_iff status "invited").1 e)
    ],
  )

  pub passed-IsProven : IsPassed env m raw plain rows u → IsProven env m raw plain rows u
  passed-IsProven p =
      let (set, fits) = (wrong_iff p.hash).0 p.matches in
      record {
        known = p.known;
        active = (may_sign_in_iff u.status).0 p.active;
        hash = p.hash;
        stored = p.stored;
        has_password = set;
        matches = fits;
        unlocked = (unlocked_iff m (normal_email env raw) rows).0 p.unlocked;
        hooked = p.hooked;
      }

  pub proven_passes :
      IsProven env m raw plain rows u
      → check_password env m raw plain rows
        ≡ (ok u, clear_login_attempts m (normal_email env raw) rows)
  unfolding check_password
  proven_passes p =
      let free = (unlocked_iff m (normal_email env raw) rows).1 p.unlocked in
      let may = (may_sign_in_iff u.status).1 p.active in
      let right = (wrong_iff p.hash).1 (p.has_password, p.matches) in
      ground (arith, free, p.known, may, p.stored, right, p.hooked)
