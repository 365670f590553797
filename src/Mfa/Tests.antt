-- ===== src/Mfa/Tests.antt =====
-- Runs and instances of the model of internal/access/mfa.
use mathlib.Core.List.{Memᴰ}
use qeet_id.Base.{
  ℕ, ◌+◌, ◌%◌, ◌≤◌, ◌^◌, String, true, false, Option, some, List, [], ◌∷◌, length, count, total,
  ◌≡◌, ◌↔◌, refl, arith, str_eq, str_eq_refl,
}
use qeet_id.Errs.{Result, ok}
use qeet_id.Mfa.Numeric.{numeric, IsNumeral, value_from, padded, power}
use qeet_id.Mfa.Digits.{numeric-IsNumeral}
use qeet_id.Mfa.Totp
use qeet_id.Mfa.Totp.{coded, code_at, truncated}
use qeet_id.Mfa.Skew.{verify_iff}
use qeet_id.Mfa.Rows.{Db}
use qeet_id.Mfa.Factors.{
  Env, Draw, start_enroll, confirm_enroll, is_enrolled, recovery_status, verify_for_login,
}
use qeet_id.Mfa.Enroll.{start_enroll-is_enrolled, enroll-verify}
use qeet_id.Mfa.Otp.{Sending}
use qeet_id.Mfa.Run.{
  Op, starts, confirms, verifies, starts_otp, confirms_otp, verifies_otp, run_ops, is_by_recovery,
  is_by_factor, unused, left, mints, sends,
}
use qeet_id.Mfa.Spend.{recovery_passes_bounded}
use qeet_id.Mfa.SpendOtp.{otp_passes_bounded}
use qeet_id.Base.{run, trim_space}
use qeet_id.Device.Rows.{find}
use qeet_id.Mfa.Rows.{find_last, upsert_factor, update_where}
use qeet_id.Mfa.Otp.{enroll_otp_confirm, enroll_otp_start, send_otp, verify_otp_route, verify_otp}
use qeet_id.Mfa.Run.{step}

abbrev zeros : ℕ → List ℕ
zeros ℕ.zero = []
zeros (ℕ.suc n) = 0 ∷ zeros n

abbrev clockwork : Totp.Host
clockwork = record { decode = λ s. some []; hmac = λ k counter. counter % 256 ∷ zeros 19 }

abbrev plain : Env
plain = record {
  host = clockwork;
  hash_password = λ salt c. c;
  verify_password = str_eq;
  hash = λ s. s;
  lower = λ s. s;
}

abbrev empty : Db
empty = record { totps = []; recovery_codes = []; factors = []; otp_codes = []; verifications = [] }

abbrev draw : ℕ → Draw
draw i = record { id = i; random = i; salt = 0 }

abbrev sending : Sending
sending = record { id = 5; random = 123; delivered = true }

code_at_sixty : code_at clockwork "s" 60 ≡ coded "554432"
unfolding code_at truncated padded power
code_at_sixty = refl

accepted : Totp.verify clockwork 70 "s" "554432" ≡ true
unfolding Totp.verify code_at truncated padded power
accepted = refl

verify_iff_example :
    (Totp.verify clockwork 70 "s" "554432" ≡ true)
    ↔ ((t : ℕ) × (t ≤ 70 + 30) × (70 ≤ t + 30) × (code_at clockwork "s" t ≡ coded "554432"))
verify_iff_example = verify_iff clockwork 70 "s" "554432" (omega arith)

numeric-IsNumeral_example :
    IsNumeral 6 (numeric 6 18446744073709551615)
    × (value_from 0 (numeric 6 18446744073709551615) ≡ 18446744073709551615 % 10 ^ 6)
numeric-IsNumeral_example = numeric-IsNumeral 6 18446744073709551615 (omega arith) (omega arith)

start_enroll-is_enrolled_example :
    (is_enrolled 1 (start_enroll 1 "s" empty) ≡ false)
    × ((recovery_status 1 (start_enroll 1 "s" empty)).remaining
        ≡ (recovery_status 1 empty).remaining)
    × (is_enrolled 2 (start_enroll 1 "s" empty) ≡ is_enrolled 2 empty)
start_enroll-is_enrolled_example = start_enroll-is_enrolled 1 2 "s" empty (omega arith)

abbrev after_enroll : Result (List String) × Db
after_enroll = confirm_enroll plain 70 draw 1 "554432" (start_enroll 1 "s" empty)

enroll-verify_example :
    (codes : List String) × (after_enroll.0 ≡ ok codes)
    × (length codes ≡ 10)
    × ((recovery_status 1 after_enroll.1).enrolled ≡ true)
    × ((recovery_status 1 after_enroll.1).all ≡ 10)
    × ((recovery_status 1 after_enroll.1).remaining ≡ 10)
    × ((c : String)
        → Memᴰ c codes
        → (used : Option ℕ) × ((verify_for_login plain 900 1 c after_enroll.1).0 ≡ ok used))
enroll-verify_example =
    enroll-verify plain (λ salt c. str_eq_refl c) 70 900 1 draw "s" "554432" empty accepted

abbrev login_ops : List Op
login_ops =
    starts 1 "s"
    ∷ confirms 70 draw 1 "554432"
    ∷ verifies 900 1 "0000000004"
    ∷ verifies 901 1 "0000000004"
    ∷ []

recovery_passes_bounded_example :
    count (is_by_recovery 1) (run_ops plain login_ops empty).0
      + unused 1 (run_ops plain login_ops empty).1
    ≤ unused 1 empty + total (mints 1) login_ops
recovery_passes_bounded_example = recovery_passes_bounded plain 1 login_ops empty

abbrev otp_ops : List Op
otp_ops =
    starts_otp 100 3 sending 1 "email" "a@b.c"
    ∷ confirms_otp 110 1 3 "000123"
    ∷ verifies_otp 120 1 "000123"
    ∷ []

code_counted : count (is_by_factor 3) (run_ops plain otp_ops empty).0 ≡ 1
unfolding count run step enroll_otp_confirm find_last enroll_otp_start trim_space send_otp
    upsert_factor find numeric padded power verify_otp_route verify_otp update_where
code_counted = refl

otp_passes_bounded_example :
    count (is_by_factor 3) (run_ops plain otp_ops empty).0 + left 3 (run_ops plain otp_ops empty).1
    ≤ left 3 empty + total (sends 3) otp_ops
otp_passes_bounded_example = otp_passes_bounded plain 3 otp_ops empty
