-- ===== src/Signin/Attempts.antt =====
-- The counter of failed logins (lockout.go, with the statements of dbgen/queries.sql.go). Times are
-- whole seconds, where the clocks of the service and of the table are finer.
use qeet_id.Base.{
  ℕ, ◌+◌, ◌*◌, String, Bool, Option, none, some, List, [], ◌∷◌, str_eq, ltb, leb, if◌then◌else◌,
}

-- A row of auth.login_attempts.
pub record Attempt : Type 0 where
  pub email : String
  pub failed_count : ℕ
  pub first_failed_at : ℕ
  pub last_failed_at : ℕ
  pub locked_until : Option ℕ

-- The clocks of the service and of the database at a call, and whether the statements on the table go
-- through.
pub record Moment : Type 0 where
  pub app : ℕ
  pub db : ℕ
  pub reads : Bool
  pub writes : Bool

abbrev pub max_failed_logins : ℕ
max_failed_logins = 5

abbrev pub failure_window : ℕ
failure_window = 15 * 60

abbrev pub lockout_duration : ℕ
lockout_duration = 15 * 60

unfoldable pub find_attempt : String → List Attempt → Option Attempt
find_attempt email [] = none
find_attempt email (a ∷ rows) =
    let rest = find_attempt email rows in if str_eq a.email email then some a else rest

abbrev pub still_locked : Moment → Option Attempt → Option ℕ
still_locked m none = none
still_locked m (some a) = elim a.locked_until [
  | none ↦ none
  | some t ↦ if ltb m.app t then some t else none
]

-- A failed read counts as not locked.
unfoldable pub login_locked_until : Moment → String → List Attempt → Option ℕ
unfolding find_attempt
login_locked_until m email rows = if m.reads then still_locked m (find_attempt email rows) else none

-- `last_failed_at < now - failureWindow`
abbrev pub restarts : Moment → Attempt → Bool
restarts m a = ltb (a.last_failed_at + failure_window) m.app

abbrev pub count_after : Moment → Attempt → ℕ
count_after m a = if restarts m a then 1 else a.failed_count + 1

-- ON CONFLICT (email) DO UPDATE
abbrev pub failed_again : Moment → Attempt → Attempt
failed_again m a = record {
  email = a.email;
  failed_count = count_after m a;
  first_failed_at = if restarts m a then m.db else a.first_failed_at;
  last_failed_at = m.db;
  locked_until =
      if leb max_failed_logins (count_after m a) then some (m.app + lockout_duration) else none;
}

abbrev pub first_failure : Moment → String → Attempt
first_failure m email = record {
  email = email;
  failed_count = 1;
  first_failed_at = m.db;
  last_failed_at = m.db;
  locked_until = none;
}

unfoldable pub upsert_attempt : Moment → String → List Attempt → List Attempt
upsert_attempt m email [] = first_failure m email ∷ []
upsert_attempt m email (a ∷ rows) =
    let rest = upsert_attempt m email rows in
    if str_eq a.email email then failed_again m a ∷ rows else a ∷ rest

unfoldable pub record_failed_login : Moment → String → List Attempt → List Attempt
unfolding upsert_attempt
record_failed_login m email rows = if m.writes then upsert_attempt m email rows else rows

-- DELETE … WHERE email = $1
unfoldable pub delete_attempt : String → List Attempt → List Attempt
delete_attempt email [] = []
delete_attempt email (a ∷ rows) =
    let rest = delete_attempt email rows in if str_eq a.email email then rest else a ∷ rest

unfoldable pub clear_login_attempts : Moment → String → List Attempt → List Attempt
unfolding delete_attempt
clear_login_attempts m email rows = if m.writes then delete_attempt email rows else rows
