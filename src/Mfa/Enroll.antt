-- ===== src/Mfa/Enroll.antt =====
-- Enrollment: StartEnroll ends what stood before, and a confirmed enrollment has ten codes that work.
use mathlib.Core.List.{Memᴰ}
use qeet_id.Base.{
  ℕ, String, true, false, Option, none, List, length, ◌≡◌, ◌≢◌, refl, ap, sym, arith, subst,
  trim_space, All-mem,
}
use qeet_id.Errs.{ok}
use qeet_id.Rbac.Roles.{delete_where}
use qeet_id.Mfa.Totp
use qeet_id.Mfa.Rows.{
  Totp as TotpRow, Db, is_totp_of, find_totp, confirm_totp, is_recovery_of, is_unused_of,
  record_verification,
}
use qeet_id.Mfa.Factors.{
  Env, Draw, start_enroll, confirm_enroll, mint_recovery_codes, is_enrolled, is_confirmed,
  recovery_status, verify_for_login,
}
use qeet_id.Mfa.Found.{find-upsert_other}
use qeet_id.Mfa.Batch.{
  started-totp, confirmed-totp, mint-length, count-mint_const, none_left, mint-trim, lets_in,
  minted-fits,
}

others :
    (user other : ℕ) (secret : String) (db : Db)
    → other ≢ user
    → find_totp other (start_enroll user secret db) ≡ find_totp other db
unfolding start_enroll
others user other secret db apart =
    find-upsert_other (is_totp_of other) (is_totp_of user)
      (λ (t : TotpRow). record t { secret = secret; confirmed_at = none })
      (record { user = user; secret = secret; confirmed_at = none })
      (λ t h. (ground (arith, h, apart), ground (arith, h, apart))) (ground (arith, apart)) db.totps

-- After StartEnroll the user is not enrolled, whatever the enrollment was before, and has as many
-- unused recovery codes as before; the enrollment of every other user is as it was.
pub start_enroll-is_enrolled :
    (user other : ℕ) (secret : String) (db : Db)
    → other ≢ user
    → (is_enrolled user (start_enroll user secret db) ≡ false)
      × ((recovery_status user (start_enroll user secret db)).remaining
          ≡ (recovery_status user db).remaining)
      × (is_enrolled other (start_enroll user secret db) ≡ is_enrolled other db)
unfolding is_enrolled recovery_status
start_enroll-is_enrolled user other secret db apart =
    let (t, e, (s, n)) = started-totp user secret db in
    (
      rw (e, n) refl,
      unfold start_enroll in refl,
      ap is_confirmed (others user other secret db apart),
    )

module _ (env : Env) (now user : ℕ) (draw : ℕ → Draw) (db : Db) where
  -- The status after a batch is minted for a user.
  minted_status :
      (recovery_status user (mint_recovery_codes env user draw db).1).all ≡ 10
      × ((recovery_status user (mint_recovery_codes env user draw db).1).remaining ≡ 10)
  unfolding recovery_status mint_recovery_codes
  minted_status =
      let kept = delete_where (is_recovery_of user) db.recovery_codes in
      (
        omega (
          arith,
          count-mint_const (is_recovery_of user) env user 10 draw kept (λ d. ground arith),
          none_left user (is_recovery_of user) db.recovery_codes (λ x h. h),
        ),
        omega (
          arith,
          count-mint_const (is_unused_of user) env user 10 draw kept (λ d. ground arith),
          none_left user (is_unused_of user) db.recovery_codes (λ x h. ground (arith, h)),
        ),
      )

module _ (env : Env)
    (checks : (salt : ℕ) (c : String)
      → env.verify_password (env.hash_password salt c) c ≡ true) where
  -- The tables of a user whose first code is accepted, before the batch.
  abbrev on : ℕ → ℕ → String → Db → Db
  on now user secret db =
      record_verification now user "totp" (confirm_totp now user (start_enroll user secret db))

  -- An enrollment that is started and confirmed with a code that is accepted brings ten recovery codes;
  -- the user is enrolled, with ten codes in all and ten left; and each of the ten codes lets the user in,
  -- at any later time, if the password hash accepts the texts that it was made of.
  pub enroll-verify :
      (now later user : ℕ) (draw : ℕ → Draw) (secret code : String) (db : Db)
      → Totp.verify env.host now secret code ≡ true
      → let r = confirm_enroll env now draw user code (start_enroll user secret db) in
        (codes : List String) × (r.0 ≡ ok codes)
        × (length codes ≡ 10)
        × ((recovery_status user r.1).enrolled ≡ true)
        × ((recovery_status user r.1).all ≡ 10)
        × ((recovery_status user r.1).remaining ≡ 10)
        × ((c : String)
            → Memᴰ c codes
            → (used : Option ℕ) × ((verify_for_login env later user c r.1).0 ≡ ok used))
  unfolding confirm_enroll mint_recovery_codes recovery_status
  enroll-verify now later user draw secret code db accepted =
      let (t, e, (s, n)) = started-totp user secret db in
      let right : Totp.verify env.host now t.secret code ≡ true =
        subst (λ x. Totp.verify env.host now x code ≡ true) (sym s) accepted in
      let db' = on now user secret db in
      let kept = delete_where (is_recovery_of user) db'.recovery_codes in
      let batch = mint_recovery_codes env user draw db' in
      let enrolled : is_confirmed (find_totp user batch.1) ≡ true =
        confirmed-totp now user (start_enroll user secret db) t e in
      let status = minted_status env now user draw db' in
      rw (e, right)
        (
          batch.0,
          refl,
          mint-length env user 10 draw kept,
          enrolled,
          status.0,
          status.1,
          λ c m.
              lets_in env later user c batch.1
                (All-mem (λ x. trim_space x ≡ x) batch.0 c (mint-trim env user 10 draw kept) m)
                enrolled (minted-fits env checks user 10 draw kept c m),
        )
