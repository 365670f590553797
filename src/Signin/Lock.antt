-- ===== src/Signin/Lock.antt =====
-- Five wrong passwords in a row lock an account (lockout.go, service.go).
use qeet_id.Base.{
  ℕ, suc, ◌+◌, ◌≤◌, ◌<◌, ◌≡◌, refl, sym, ◌∙◌, ap, subst, inl, inr, String, true, false, Option,
  none, some, List, [], ◌∷◌, str_eq, str_eq_refl, leb, if◌then◌else◌, arith, Bool-cases, length,
}
use qeet_id.Errs.{not_found, too_many_requests, Result, ok, err}
use qeet_id.Signin.Attempts.{
  Attempt, Moment, max_failed_logins, failure_window, lockout_duration, find_attempt, still_locked,
  login_locked_until, restarts, failed_again, first_failure, upsert_attempt, record_failed_login,
}
use qeet_id.Signin.Check.{
  User, Env, normal_email, invalid_credentials, may_sign_in, wrong_password, check_password,
}

abbrev after_failure : Moment → String → Option Attempt → Attempt
after_failure m email none = first_failure m email
after_failure m email (some a) = failed_again m a

pub find_attempt-upsert_attempt :
    (m : Moment) (email : String) (rows : List Attempt)
    → find_attempt email (upsert_attempt m email rows)
      ≡ some (after_failure m email (find_attempt email rows))
unfolding find_attempt upsert_attempt
find_attempt-upsert_attempt m email [] = ground (arith, str_eq_refl email)
find_attempt-upsert_attempt m email (a ∷ rows) = elim (Bool-cases (str_eq a.email email)) [
  | inl e ↦ ground (arith, e)
  | inr e ↦ ground (arith, e, find_attempt-upsert_attempt m email rows)
]

-- The password is wrong, or there is no such account.
pub data IsWrong (env : Env) (raw plain : String) : Type 0 where
  no_account : env.by_email raw ≡ err not_found → IsWrong env raw plain
  no_match :
      (u : User) (hash : String)
      → env.by_email raw ≡ ok u
      → may_sign_in u.status ≡ true
      → env.password_hash u.id ≡ ok hash
      → wrong_password env hash plain ≡ true
      → IsWrong env raw plain

pub check_password_wrong :
    (env : Env) (m : Moment) (raw plain : String) (rows : List Attempt)
    → IsWrong env raw plain
    → login_locked_until m (normal_email env raw) rows ≡ none
    → check_password env m raw plain rows
      ≡ (err invalid_credentials, record_failed_login m (normal_email env raw) rows)
unfolding check_password
check_password_wrong env m raw plain rows (no_account e) free = rw (e, free) refl
check_password_wrong env m raw plain rows (no_match u hash e s h w) free =
    ground (arith, e, free, s, h, w)

-- The attempts on one email, one after the other.
unfoldable pub try_all : Env → String → List (Moment × String) → List Attempt → List Attempt
try_all env raw [] rows = rows
try_all env raw ((m, plain) ∷ gs) rows = try_all env raw gs (check_password env m raw plain rows).1

-- The last of the attempts.
unfoldable pub last_of : Moment → List (Moment × String) → Moment
last_of m [] = m
last_of m ((m', plain) ∷ gs) = last_of m' gs

-- Wrong attempts that are stored, each within the window after the one before.
abbrev pub InWindow : Env → String → Moment → List (Moment × String) → Type 0
InWindow env raw prev [] = Unit
InWindow env raw prev ((m, plain) ∷ gs) =
    ((m.app ≤ prev.db + failure_window) × (m.writes ≡ true) × IsWrong env raw plain)
    × InWindow env raw m gs

module _ (env : Env) (raw : String) where
  -- The row after `k` failures, the last of them at `m`.
  record Counted (m : Moment) (k : ℕ) (rows : List Attempt) : Type 0 where
    row : Attempt
    found : find_attempt (normal_email env raw) rows ≡ some row
    count : row.failed_count ≡ k
    last : row.last_failed_at ≡ m.db
    lock :
        row.locked_until
        ≡ (if leb max_failed_logins k then some (m.app + lockout_duration) else none)

  unlocked :
      (m m' : Moment) (k : ℕ) (rows : List Attempt)
      → Counted m k rows
      → k < max_failed_logins
      → login_locked_until m' (normal_email env raw) rows ≡ none
  unfolding login_locked_until
  unlocked m m' k rows c b =
      let open_row : c.row.locked_until ≡ none = ground (arith, c.lock, b) in
      ground (arith, c.found, open_row)

  Counted-step :
      (m m' : Moment) (k : ℕ) (plain : String) (rows : List Attempt)
      → Counted m k rows
      → k < max_failed_logins
      → m'.app ≤ m.db + failure_window
      → m'.writes ≡ true
      → IsWrong env raw plain
      → Counted m' (suc k) (check_password env m' raw plain rows).1
  unfolding record_failed_login
  Counted-step m m' k plain rows c b soon w wrong =
      let here : (check_password env m' raw plain rows).1
          ≡ upsert_attempt m' (normal_email env raw) rows =
        ap (λ (x : Result User × List Attempt). x.1)
          (check_password_wrong env m' raw plain rows wrong (unlocked m m' k rows c b))
        ∙ stored in
      let going : restarts m' c.row ≡ false = ground (arith, c.last, soon) in
      subst (Counted m' (suc k)) (sym here) (record {
        row = failed_again m' c.row;
        found =
            find_attempt-upsert_attempt m' (normal_email env raw) rows
            ∙ ap (λ o. some (after_failure m' (normal_email env raw) o)) c.found;
        count = ground (arith, going, c.count);
        last = refl;
        lock = ground (arith, going, c.count);
      })
    where
      stored :
          record_failed_login m' (normal_email env raw) rows
          ≡ upsert_attempt m' (normal_email env raw) rows
      stored = ground (arith, w)

  first-Counted :
      (m : Moment) (plain : String) (rows : List Attempt)
      → find_attempt (normal_email env raw) rows ≡ none
      → m.writes ≡ true
      → IsWrong env raw plain
      → Counted m 1 (check_password env m raw plain rows).1
  unfolding record_failed_login login_locked_until
  first-Counted m plain rows absent w wrong =
      let free : login_locked_until m (normal_email env raw) rows ≡ none =
        elim (Bool-cases m.reads) [
          | inl r ↦ ground (arith, r, absent)
          | inr r ↦ ground (arith, r)
        ] in
      let stored : record_failed_login m (normal_email env raw) rows
          ≡ upsert_attempt m (normal_email env raw) rows =
        ground (arith, w) in
      let here =
        ap (λ (x : Result User × List Attempt). x.1)
          (check_password_wrong env m raw plain rows wrong free)
        ∙ stored in
      subst (Counted m 1) (sym here) (record {
        row = first_failure m (normal_email env raw);
        found =
            find_attempt-upsert_attempt m (normal_email env raw) rows
            ∙ ap (λ o. some (after_failure m (normal_email env raw) o)) absent;
        count = refl;
        last = refl;
        lock = refl;
      })

  try_all-Counted :
      (m : Moment) (k : ℕ) (gs : List (Moment × String)) (rows : List Attempt)
      → Counted m k rows
      → k + length gs ≡ max_failed_logins
      → InWindow env raw m gs
      → Counted (last_of m gs) max_failed_logins (try_all env raw gs rows)
  unfolding try_all last_of
  try_all-Counted m k [] rows c n close = let e : k ≡ 5 = omega (arith, n) in rw (← e) c
  try_all-Counted m k ((m', plain) ∷ gs) rows c n ((soon, w, wrong), close) =
      try_all-Counted m' (suc k) gs (check_password env m' raw plain rows).1
        (Counted-step m m' k plain rows c (omega (arith, n)) soon w wrong) (omega (arith, n)) close

-- After five wrong attempts on an email that had no failures before, each stored and within fifteen
-- minutes of the one before, every attempt in the fifteen minutes after the last is refused, with the
-- right password too, and leaves the counter as it is, when the table can be read.
pub five_failures_lock :
    (env : Env) (raw plain any_plain : String) (m later : Moment) (gs : List (Moment × String))
    (rows : List Attempt)
    → find_attempt (normal_email env raw) rows ≡ none
    → length gs ≡ 4
    → m.writes ≡ true
    → IsWrong env raw plain
    → InWindow env raw m gs
    → later.reads ≡ true
    → later.app < (last_of m gs).app + lockout_duration
    → let tried = try_all env raw ((m, plain) ∷ gs) rows in
      check_password env later raw any_plain tried
      ≡ (err (too_many_requests "account temporarily locked"), tried)
unfolding check_password login_locked_until try_all
five_failures_lock env raw plain any_plain m later gs rows absent four w wrong close reads soon =
    let c =
      try_all-Counted env raw m 1 gs (check_password env m raw plain rows).1
        (first-Counted env raw m plain rows absent w wrong) (omega (arith, four)) close in
    let tried = try_all env raw gs (check_password env m raw plain rows).1 in
    let locked : still_locked later (find_attempt (normal_email env raw) tried)
        ≡ some ((last_of m gs).app + lockout_duration) =
      ground (arith, c.found, c.lock, soon) in
    refused tried ((last_of m gs).app + lockout_duration) (ground (arith, locked, reads))
  where
    refused :
        (rows : List Attempt) (t : ℕ)
        → login_locked_until later (normal_email env raw) rows ≡ some t
        → check_password env later raw any_plain rows
          ≡ (err (too_many_requests "account temporarily locked"), rows)
    refused rows t e = rw (e, check_password) refl
