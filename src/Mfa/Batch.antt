-- ===== src/Mfa/Batch.antt =====
-- Batches of recovery codes (mintRecoveryCodes) and the rows of enrollments.
use mathlib.Core.List.{Memᴰ}
use mathlib.Core.List.Memᴰ
use qeet_id.Base.{
  ℕ, zero, suc, ◌+◌, String, Bool, true, false, Option, none, some, List, [], ◌∷◌, ◌++◌, any,
  length, count, count-append, is_some, ◌≡◌, refl, subst, arith, Bool-cases, Option-cases, inl, inr,
  trim_space, NoSpace, trim_space-NoSpace, mem_cases, All,
}
use qeet_id.Errs.{ok}
use qeet_id.Rbac.Roles.{delete_where}
use qeet_id.Mfa.Numeric.{numeric, IsNumeral}
use qeet_id.Mfa.Digits.{numeric-IsNumeral}
use qeet_id.Mfa.Totp
use qeet_id.Mfa.Rows.{
  Totp as TotpRow, RecoveryCode, Db, is_totp_of, find_totp, confirm_totp, is_recovery_of,
}
use qeet_id.Mfa.Factors.{
  Env, Draw, start_enroll, mint, recovery_row, is_confirmed, fits, verify, verify_for_login,
}
use qeet_id.Mfa.Counting.{any-append}
use qeet_id.Mfa.Found.{find-upsert, find-updated, find_last-some}

pub started-totp :
    (user : ℕ) (secret : String) (db : Db)
    → (t : TotpRow) × (find_totp user (start_enroll user secret db) ≡ some t)
      × ((t.secret ≡ secret) × (t.confirmed_at ≡ none))
unfolding start_enroll
started-totp user secret db =
    find-upsert (is_totp_of user) (λ t. (t.secret ≡ secret) × (t.confirmed_at ≡ none))
      (λ (t : TotpRow). record t { secret = secret; confirmed_at = none })
      (record { user = user; secret = secret; confirmed_at = none }) db.totps
      (λ t h. (h, (refl, refl))) (ground arith) (refl, refl)

pub confirmed-totp :
    (now user : ℕ) (db : Db) (t : TotpRow)
    → find_totp user db ≡ some t
    → is_confirmed (find_totp user (confirm_totp now user db)) ≡ true
confirmed-totp now user db t e =
    let (s, g, p) =
      find-updated (is_totp_of user) (λ s. is_some s.confirmed_at ≡ true)
        (λ (s : TotpRow). record s { confirmed_at = some now }) db.totps t (λ s h. (h, refl)) e in
    rw g p

-- A batch: how many, all of ten digits, and each stored.
pub mint-length :
    (env : Env) (user n : ℕ) (draw : ℕ → Draw) (rows : List RecoveryCode)
    → length (mint env user n draw rows).0 ≡ n
unfolding mint
mint-length env user zero draw rows = refl
mint-length env user (suc n) draw rows =
    let rest =
      mint-length env user n (λ i. draw (suc i)) (rows ++ recovery_row env user (draw 0) ∷ []) in
    omega (arith, rest)

pub count-mint_const :
    (p : RecoveryCode → Bool) (env : Env) (user n : ℕ) (draw : ℕ → Draw) (rows : List RecoveryCode)
    → ((d : Draw) → p (recovery_row env user d) ≡ true)
    → count p (mint env user n draw rows).1 ≡ count p rows + n
unfolding mint count
count-mint_const p env user zero draw rows all = omega arith
count-mint_const p env user (suc n) draw rows all = grind (
  arith,
  count-mint_const p env user n (λ i. draw (suc i)) (rows ++ recovery_row env user (draw 0) ∷ [])
      all,
  count-append p rows (recovery_row env user (draw 0) ∷ []),
  all (draw 0),
)

any-mint :
    (p : RecoveryCode → Bool) (env : Env) (user n : ℕ) (draw : ℕ → Draw) (rows : List RecoveryCode)
    → any p rows ≡ true
    → any p (mint env user n draw rows).1 ≡ true
unfolding mint
any-mint p env user zero draw rows h = h
any-mint p env user (suc n) draw rows h =
    any-mint p env user n (λ i. draw (suc i)) (rows ++ recovery_row env user (draw 0) ∷ [])
      (ground (arith, any-append p rows (recovery_row env user (draw 0) ∷ []), h))

module _ (env : Env)
    (checks : (salt : ℕ) (c : String)
      → env.verify_password (env.hash_password salt c) c ≡ true) where
  fresh :
      (user : ℕ) (draw : ℕ → Draw) (rows : List RecoveryCode) (c : String)
      → c ≡ numeric 10 (draw 0).random
      → any (fits env user c) (rows ++ recovery_row env user (draw 0) ∷ []) ≡ true
  fresh user draw rows c e = ground (
    arith,
    any-append (fits env user c) rows (recovery_row env user (draw 0) ∷ []),
    subst (λ x. env.verify_password (env.hash_password (draw 0).salt x) c ≡ true) e
        (checks (draw 0).salt c),
  )

  pub minted-fits :
      (user n : ℕ) (draw : ℕ → Draw) (rows : List RecoveryCode) (c : String)
      → Memᴰ c (mint env user n draw rows).0
      → any (fits env user c) (mint env user n draw rows).1 ≡ true
  unfolding mint
  minted-fits user zero draw rows c m = absurd (Memᴰ.not-nil m)
  minted-fits user (suc n) draw rows c m = elim (mem_cases m) [
    | inl e ↦
        any-mint (fits env user c) env user n (λ i. draw (suc i))
          (rows ++ recovery_row env user (draw 0) ∷ []) (fresh user draw rows c e)
    | inr later ↦
        minted-fits user n (λ i. draw (suc i)) (rows ++ recovery_row env user (draw 0) ∷ []) c later
  ]

pub none_left :
    (user : ℕ) (p : RecoveryCode → Bool) (xs : List RecoveryCode)
    → ((x : RecoveryCode) → is_recovery_of user x ≡ false → p x ≡ false)
    → count p (delete_where (is_recovery_of user) xs) ≡ 0
unfolding count delete_where
none_left user p [] own = refl
none_left user p (x ∷ xs) own = elim (Bool-cases (is_recovery_of user x)) [
  | inl gone ↦ rw gone (none_left user p xs own)
  | inr kept ↦ rw kept (grind (arith, own x kept, none_left user p xs own))
]

-- The codes of a batch are digits, which the trimming of the input leaves alone.
numeral-NoSpace : (k : ℕ) (s : String) → IsNumeral k s → NoSpace s
numeral-NoSpace zero String.[] h = _
numeral-NoSpace zero (String.◌∷◌ c s) h = absurd h
numeral-NoSpace (suc k) String.[] h = absurd h
numeral-NoSpace (suc k) (String.◌∷◌ c s) (d, h) = (ground (arith, d), numeral-NoSpace k s h)

pub mint-trim :
    (env : Env) (user n : ℕ) (draw : ℕ → Draw) (rows : List RecoveryCode)
    → All (λ c. trim_space c ≡ c) (mint env user n draw rows).0
unfolding mint
mint-trim env user zero draw rows = _
mint-trim env user (suc n) draw rows = (
  trim_space-NoSpace (numeric 10 (draw 0).random) (
      numeral-NoSpace 10 (numeric 10 (draw 0).random)
        (numeric-IsNumeral 10 (draw 0).random (omega arith) (omega arith)).0),
  mint-trim env user n (λ i. draw (suc i)) (rows ++ recovery_row env user (draw 0) ∷ []),
)

-- A code that fits an unused row lets a user with a confirmed enrollment in.
pub lets_in :
    (env : Env) (later user : ℕ) (c : String) (db : Db)
    → trim_space c ≡ c
    → is_confirmed (find_totp user db) ≡ true
    → any (fits env user c) db.recovery_codes ≡ true
    → (used : Option ℕ) × ((verify_for_login env later user c db).0 ≡ ok used)
unfolding verify_for_login verify
lets_in env later user c db plain confirmed fit = elim (Option-cases (find_totp user db)) [
  | inl n ↦ absurd (ground (arith, n, confirmed))
  | inr (t, e) ↦
      let since : is_some t.confirmed_at ≡ true = rw e at confirmed in
      let (rc, found) = find_last-some (fits env user c) db.recovery_codes fit in
      elim (Bool-cases (Totp.verify env.host later t.secret c)) [
        | inl by_time ↦ (none, rw (plain, e, since, by_time) refl)
        | inr not_by_time ↦ (some rc.id, rw (plain, e, since, not_by_time, found) refl)
      ]
]
