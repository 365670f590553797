-- ===== src/Signin/Tests.antt =====
-- Five wrong passwords for one account, and the results at them.
use qeet_id.Base.{
  ℕ, ◌+◌, ◌<◌, ◌≡◌, refl, String, true, false, none, List, [], ◌∷◌, str_eq, ◌↔◌, if◌then◌else◌,
  arith, trim_space,
}
use qeet_id.Errs.{not_found, too_many_requests, ok, err}
use qeet_id.Signin.Attempts.{
  Attempt, Moment, lockout_duration, find_attempt, login_locked_until, clear_login_attempts,
  delete_attempt,
}
use qeet_id.Signin.Check.{User, Env, check_password, normal_email}
use qeet_id.Signin.Lock.{IsWrong, no_match, try_all, last_of, five_failures_lock}
use qeet_id.Signin.Outcome.{check_password_ok, check_password-uniform}
use qeet_id.Signin.Cleared.{IsCleared}
use qeet_id.Signin.Proven.{IsProven}

abbrev ann : User
ann = record { id = 1; status = "active" }

abbrev shop : Env
shop = record {
  to_lower = λ s. s;
  by_email = λ e. if str_eq e "ann@x.io" then ok ann else err not_found;
  password_hash = λ id. ok "h:correct";
  verify = λ hash plain. str_eq plain "correct";
  login_hook = λ id. none;
}

-- The same server with no accounts.
abbrev bare : Env
bare = record shop { by_email = λ e. err not_found }

abbrev at : ℕ → Moment
at s = record { app = s; db = s; reads = true; writes = true }

abbrev guesses : List (Moment × String)
guesses = (at 20, "b") ∷ (at 30, "c") ∷ (at 40, "d") ∷ (at 50, "e") ∷ []

wrong : (plain : String) → str_eq plain "correct" ≡ false → IsWrong shop "ann@x.io" plain
wrong plain h = no_match ann "h:correct" refl refl refl (ground (arith, h))

no_failures : find_attempt (normal_email shop "ann@x.io") [] ≡ none
unfolding find_attempt
no_failures = refl

still_soon : (at 60).app < (last_of (at 10) guesses).app + lockout_duration
unfolding last_of
still_soon = omega arith

five_failures_lock_example :
    let tried = try_all shop "ann@x.io" ((at 10, "a") ∷ guesses) [] in
    check_password shop (at 60) "ann@x.io" "correct" tried
    ≡ (err (too_many_requests "account temporarily locked"), tried)
five_failures_lock_example =
    five_failures_lock shop "ann@x.io" "a" "correct" (at 10) (at 60) guesses [] no_failures refl
      refl (wrong "a" refl)
      (
        (omega arith, refl, wrong "b" refl),
        (
          (omega arith, refl, wrong "c" refl),
          ((omega arith, refl, wrong "d" refl), ((omega arith, refl, wrong "e" refl), _)),
        ),
      )
      refl still_soon

abbrev four_failures : List Attempt
four_failures =
    record {
      email = "ann@x.io";
      failed_count = 4;
      first_failed_at = 10;
      last_failed_at = 40;
      locked_until = none;
    }
    ∷ []

ann_in : check_password shop (at 60) "ann@x.io" "correct" four_failures ≡ (ok ann, [])
unfolding check_password login_locked_until find_attempt clear_login_attempts delete_attempt
    trim_space
ann_in = refl

check_password_ok_example :
    (check_password shop (at 60) "ann@x.io" "correct" four_failures ≡ (ok ann, [])) ↔ (
      IsProven shop (at 60) "ann@x.io" "correct" four_failures ann
      × IsCleared (at 60) (normal_email shop "ann@x.io") four_failures [])
check_password_ok_example = check_password_ok shop (at 60) "ann@x.io" "correct" four_failures [] ann

check_password-uniform_example :
    check_password bare (at 50) "ann@x.io" "x" four_failures
    ≡ check_password shop (at 50) "ann@x.io" "x" four_failures
check_password-uniform_example =
    check_password-uniform bare shop (at 50) "ann@x.io" "x" "h:correct" ann four_failures refl refl
      refl refl refl refl
