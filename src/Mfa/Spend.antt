-- ===== src/Mfa/Spend.antt =====
-- Recovery codes are spent: what mfa.go accepts is paid for by a code that is left.
use qeet_id.Base.{
  ℕ, zero, suc, ◌+◌, ◌≤◌, ◌==◌, Bool, false, ◌&&◌, Option, none, some, List, [], ◌∷◌, ◌++◌,
  if◌then◌else◌, count, count-append, total, run_paid, is_some, ◌≡◌, refl, arith, Bool-cases, inl,
  inr, String, IsPaid, trim_space, Option-cases,
}
use qeet_id.Rbac.Roles.{delete_where}
use qeet_id.Mfa.Rows.{
  Totp as TotpRow, RecoveryCode, Db, record_verification, confirm_totp, delete_recovery_codes,
  find_last, is_unused_of, is_recovery_of, find_totp,
}
use qeet_id.Mfa.Totp
use qeet_id.Mfa.Factors.{
  Env, Draw, mint, recovery_row, mint_recovery_codes, confirm_enroll, regenerate, regenerate_route,
  disable, disable_route, reset_for_user, start_enroll, verify, verify_row, use_recovery,
  recovery_code_count, verify_for_login, recorded, fits, recently_verified, step_up_window,
}
use qeet_id.Mfa.Rows.{upsert_factor}
use qeet_id.Mfa.Otp.{
  enroll_otp_start, send_otp, enroll_otp_confirm, delete_otp_factor, challenge_otp,
  verify_otp_route, verify_otp,
}
use qeet_id.Mfa.Run.{
  Op, starts, confirms, regenerates, disables, resets, verifies, starts_otp, confirms_otp,
  deletes_otp, challenges, verifies_otp, step, run_ops, is_by_recovery, unused, mints, passes,
}
use qeet_id.Mfa.Counting.{count-delete_where, count-update_where, count-spent, find_last-any}

-- A batch of codes for one user.
count-mint :
    (env : Env) (v user n : ℕ) (draw : ℕ → Draw) (rows : List RecoveryCode)
    → count (is_unused_of v) (mint env user n draw rows).1
      ≡ count (is_unused_of v) rows + (if user == v then n else 0)
unfolding mint count
count-mint env v user zero draw rows = ground arith
count-mint env v user (suc n) draw rows = ground (
  arith,
  count-mint env v user n (λ i. draw (suc i)) (rows ++ recovery_row env user (draw 0) ∷ []),
  count-append (is_unused_of v) rows (recovery_row env user (draw 0) ∷ []),
)

minted :
    (env : Env) (v user : ℕ) (draw : ℕ → Draw) (db : Db)
    → unused v (mint_recovery_codes env user draw db).1
      ≤ unused v db + (if user == v then recovery_code_count else 0)
unfolding mint_recovery_codes
minted env v user draw db = omega (
  arith,
  count-mint env v user recovery_code_count draw
      (delete_where (is_recovery_of user) db.recovery_codes),
  count-delete_where (is_unused_of v) (is_recovery_of user) db.recovery_codes,
)

confirmed :
    (env : Env) (v now : ℕ) (draw : ℕ → Draw) (user : ℕ) (code : String) (db : Db)
    → unused v (confirm_enroll env now draw user code db).1
      ≤ unused v db + (if user == v then recovery_code_count else 0)
unfolding confirm_enroll
confirmed env v now draw user code db = elim (Option-cases (find_totp user db)) [
  | inl n ↦ rw n (omega arith)
  | inr (t, e) ↦ elim (Bool-cases (Totp.verify env.host now t.secret code)) [
    | inl good ↦
        rw (e, good)
          (minted env v user draw (record_verification now user "totp" (confirm_totp now user db)))
    | inr bad ↦ rw (e, bad) (omega arith)
  ]
]

remade :
    (env : Env) (v : ℕ) (draw : ℕ → Draw) (user : ℕ) (db : Db)
    → unused v (regenerate env draw user db).1
      ≤ unused v db + (if user == v then recovery_code_count else 0)
unfolding regenerate
remade env v draw user db = elim (Option-cases (find_totp user db)) [
  | inl n ↦ rw n (omega arith)
  | inr (t, e) ↦ elim (Bool-cases (is_some t.confirmed_at)) [
    | inl good ↦ rw (e, good) (minted env v user draw db)
    | inr bad ↦ rw (e, bad) (omega arith)
  ]
]

regenerated :
    (env : Env) (v now : ℕ) (draw : ℕ → Draw) (user : ℕ) (db : Db)
    → unused v (regenerate_route env now draw user db).1
      ≤ unused v db + (if user == v then recovery_code_count else 0)
unfolding regenerate_route
regenerated env v now draw user db =
    elim (Bool-cases (recently_verified now step_up_window user db)) [
      | inl fresh ↦ rw fresh (remade env v draw user db)
      | inr stale ↦ rw stale (omega arith)
    ]

deleted : (v user : ℕ) (db : Db) → unused v (delete_recovery_codes user db) ≤ unused v db
deleted v user db = count-delete_where (is_unused_of v) (is_recovery_of user) db.recovery_codes

disabled : (v now user : ℕ) (db : Db) → unused v (disable_route now user db).1 ≤ unused v db
unfolding disable_route disable
disabled v now user db = elim (Bool-cases (recently_verified now step_up_window user db)) [
  | inl fresh ↦ rw fresh (deleted v user db)
  | inr stale ↦ rw stale (omega arith)
]

-- Verify uses a code of the user that was not used, and leaves one less.
spent :
    (env : Env) (v now user : ℕ) (code : String) (db : Db) (o : Option RecoveryCode)
    → find_last (fits env user code) db.recovery_codes ≡ o
    → count (is_by_recovery v) (passes user (recorded now user db (use_recovery now db o)).0)
        + unused v (recorded now user db (use_recovery now db o)).1
      ≤ unused v db
unfolding count
spent env v now user code db none e = omega arith
spent env v now user code db (some rc) e =
    let marks : RecoveryCode → Bool = λ x. x.id == rc.id in
    let mark : RecoveryCode → RecoveryCode = λ x. record x { used_at = some now } in
    let gone : (x : RecoveryCode) → is_unused_of v (mark x) ≡ false = λ x. ground arith in
    elim (Bool-cases (user == v)) [
      | inr other ↦
          rw other
            (omega (arith, count-update_where (is_unused_of v) marks mark gone db.recovery_codes))
      | inl own ↦ rw own (
          omega (
            arith,
            count-spent (is_unused_of v) marks mark gone db.recovery_codes (
                find_last-any (fits env user code) (λ x. marks x && is_unused_of v x)
                  db.recovery_codes rc e (λ f. ground (arith, f, own))),
          ))
    ]

checked_row :
    (env : Env) (v now user : ℕ) (code : String) (db : Db) (o : Option TotpRow)
    → count
          (is_by_recovery v)
          (passes user (recorded now user db (verify_row env now user code db o)).0)
        + unused v (recorded now user db (verify_row env now user code db o)).1
      ≤ unused v db
unfolding count
checked_row env v now user code db none = omega arith
checked_row env v now user code db (some t) = elim (Bool-cases (is_some t.confirmed_at)) [
  | inr never ↦ rw never (omega arith)
  | inl since ↦ elim (Bool-cases (Totp.verify env.host now t.secret code)) [
    | inl by_time ↦ rw (since, by_time) (omega arith)
    | inr not_by_time ↦
        rw (since, not_by_time)
          (spent env v now user code db (find_last (fits env user code) db.recovery_codes) refl)
  ]
]

-- Each operation pays for the codes of a user that it takes with codes that are left.
pays : (env : Env) (v : ℕ) → IsPaid (step env) (is_by_recovery v) (unused v) (mints v)
unfolding step count
pays env v (starts user secret) db = unfold start_enroll in omega arith
pays env v (confirms now draw user code) db = omega (arith, confirmed env v now draw user code db)
pays env v (regenerates now draw user) db = omega (arith, regenerated env v now draw user db)
pays env v (disables now user) db = omega (arith, disabled v now user db)
pays env v (resets user) db = unfold reset_for_user in omega (arith, deleted v user db)
pays env v (verifies now user code) db =
    unfold verify_for_login verify in
    omega (arith, checked_row env v now user (trim_space code) db (find_totp user db))
pays env v (starts_otp now fresh s user channel destination) db =
    unfold enroll_otp_start send_otp upsert_factor in ground arith
pays env v (confirms_otp now user factor code) db = unfold enroll_otp_confirm in ground arith
pays env v (deletes_otp user factor) db = unfold delete_otp_factor in ground arith
pays env v (challenges now s user factor) db = unfold challenge_otp send_otp in ground arith
pays env v (verifies_otp now user code) db = unfold verify_otp_route verify_otp in ground arith

-- In any run in which no two transactions overlap (the statements on recovery codes take no lock), the
-- logins and checks that a user passes with recovery codes and the codes that the user has left at the
-- end are together no more than the codes not used at the start and the ten of each confirmed
-- enrollment or new batch that the run asks for.
pub recovery_passes_bounded :
    (env : Env) (v : ℕ) (ops : List Op) (db : Db)
    → count (is_by_recovery v) (run_ops env ops db).0 + unused v (run_ops env ops db).1
      ≤ unused v db + total (mints v) ops
recovery_passes_bounded env v ops db =
    run_paid (step env) (is_by_recovery v) (unused v) (mints v) (pays env v) ops db
