-- ===== src/Mfa/Rows.antt =====
-- The tables of second factors with the statements on them (internal/access/mfa/dbgen/queries.sql.go).
-- Ids are numbers, times are seconds; a table keeps its rows in the order of insertion.
use qeet_id.Base.{
  ℕ, String, Bool, not, ◌&&◌, Option, none, some, List, [], ◌∷◌, ◌++◌, str_eq, ◌==◌, ltb,
  if◌then◌else◌, any, is_some,
}
use qeet_id.Device.Rows.{find}
use qeet_id.Rbac.Roles.{delete_where}

pub record Totp : Type 0 where
  pub user : ℕ
  pub secret : String
  pub confirmed_at : Option ℕ

pub record RecoveryCode : Type 0 where
  pub id : ℕ
  pub user : ℕ
  pub code_hash : String
  pub used_at : Option ℕ

pub record OtpFactor : Type 0 where
  pub id : ℕ
  pub user : ℕ
  pub channel : String
  pub destination : String
  pub verified_at : Option ℕ

pub record OtpCode : Type 0 where
  pub id : ℕ
  pub factor : ℕ
  pub code_hash : String
  pub expires_at : ℕ
  pub used_at : Option ℕ

pub record Verification : Type 0 where
  pub user : ℕ
  pub method : String
  pub verified_at : ℕ

pub record Db : Type 0 where
  pub totps : List Totp
  pub recovery_codes : List RecoveryCode
  pub factors : List OtpFactor
  pub otp_codes : List OtpCode
  pub verifications : List Verification

-- UPDATE … WHERE test
unfoldable pub update_where {ℓ} : {A : Type ℓ} → (A → Bool) → (A → A) → List A → List A
update_where test f [] = []
update_where test f (x ∷ xs) = (if test x then f x else x) ∷ update_where test f xs

-- INSERT … ON CONFLICT DO UPDATE, where `test` finds the row in conflict.
abbrev pub upsert {ℓ} : {A : Type ℓ} → (A → Bool) → (A → A) → A → List A → List A
upsert test f x xs = if any test xs then update_where test f xs else xs ++ x ∷ []

-- The last row that passes a test.
unfoldable pub find_last {ℓ} : {A : Type ℓ} → (A → Bool) → List A → Option A
find_last test [] = none
find_last test (x ∷ xs) = elim (find_last test xs) [
  | some y ↦ some y
  | none ↦ if test x then some x else none
]

abbrev pub is_totp_of : ℕ → Totp → Bool
is_totp_of user t = t.user == user

-- GetMFATOTPFull, and GetMFATOTPSecret and GetMFATOTPConfirmed, which read one column each
abbrev pub find_totp : ℕ → Db → Option Totp
find_totp user db = find (is_totp_of user) db.totps

-- UpsertMFATOTP
abbrev pub upsert_totp : ℕ → String → Db → Db
upsert_totp user secret db = record db {
  totps =
      upsert (is_totp_of user) (λ (t : Totp). record t { secret = secret; confirmed_at = none })
        (record { user = user; secret = secret; confirmed_at = none }) db.totps;
}

-- ConfirmMFATOTP
abbrev pub confirm_totp : ℕ → ℕ → Db → Db
confirm_totp now user db = record db {
  totps =
      update_where (is_totp_of user) (λ (t : Totp). record t { confirmed_at = some now }) db.totps;
}

-- DeleteMFATOTP
abbrev pub delete_totp : ℕ → Db → Db
delete_totp user db = record db { totps = delete_where (is_totp_of user) db.totps }

abbrev pub is_recovery_of : ℕ → RecoveryCode → Bool
is_recovery_of user rc = rc.user == user

-- The rows of ListUnusedRecoveryCodes.
abbrev pub is_unused_of : ℕ → RecoveryCode → Bool
is_unused_of user rc = is_recovery_of user rc && not (is_some rc.used_at)

-- DeleteMFARecoveryCodes
abbrev pub delete_recovery_codes : ℕ → Db → Db
delete_recovery_codes user db = record db {
  recovery_codes = delete_where (is_recovery_of user) db.recovery_codes;
}

-- MarkRecoveryCodeUsed
abbrev pub mark_recovery_used : ℕ → ℕ → Db → Db
mark_recovery_used now id db = record db {
  recovery_codes =
      update_where (λ (rc : RecoveryCode). rc.id == id)
        (λ (rc : RecoveryCode). record rc { used_at = some now }) db.recovery_codes;
}

-- UpsertMFAVerification
abbrev pub record_verification : ℕ → ℕ → String → Db → Db
record_verification now user method db = record db {
  verifications =
      upsert (λ (v : Verification). v.user == user)
        (λ (v : Verification). record v { method = method; verified_at = now })
        (record { user = user; method = method; verified_at = now }) db.verifications;
}

abbrev pub is_channel : ℕ → String → String → OtpFactor → Bool
is_channel user channel destination f =
    (f.user == user && str_eq f.channel channel) && str_eq f.destination destination

-- UpsertMFAOTPFactor, with a fresh id; the id of the row is the answer.
unfoldable pub upsert_factor : ℕ → ℕ → String → String → Db → ℕ × Db
upsert_factor id user channel destination db =
    let db' : Db = record db {
      factors =
          upsert (is_channel user channel destination)
            (λ (f : OtpFactor). record f { verified_at = none })
            (record {
              id = id;
              user = user;
              channel = channel;
              destination = destination;
              verified_at = none;
            })
            db.factors;
    } in
    elim (find (is_channel user channel destination) db.factors) [
      | some f ↦ (f.id, db')
      | none ↦ (id, db')
    ]

abbrev pub is_factor_of : ℕ → ℕ → OtpFactor → Bool
is_factor_of id user f = f.id == id && f.user == user

-- InsertMFAOTPCode
abbrev pub insert_otp_code : OtpCode → Db → Db
insert_otp_code c db = record db { otp_codes = db.otp_codes ++ c ∷ [] }

abbrev pub is_open : ℕ → String → OtpCode → Bool
is_open now hash c = (str_eq c.code_hash hash && not (is_some c.used_at)) && ltb now c.expires_at

-- GetOTPCodeForConfirm
abbrev pub code_for_confirm : ℕ → ℕ → ℕ → String → Db → Option OtpCode
code_for_confirm now id user hash db =
    find_last
      (λ (c : OtpCode).
        (c.factor == id && any (is_factor_of id user) db.factors) && is_open now hash c)
      db.otp_codes

abbrev pub is_verified_of : ℕ → ℕ → OtpFactor → Bool
is_verified_of id user f = is_factor_of id user f && is_some f.verified_at

-- GetOTPCodeForVerify
abbrev pub code_for_verify : ℕ → ℕ → String → Db → Option OtpCode
code_for_verify now user hash db =
    find_last (λ (c : OtpCode). any (is_verified_of c.factor user) db.factors && is_open now hash c)
      db.otp_codes

-- MarkOTPCodeUsed
abbrev pub mark_otp_used : ℕ → ℕ → Db → Db
mark_otp_used now id db = record db {
  otp_codes =
      update_where (λ (c : OtpCode). c.id == id) (λ (c : OtpCode). record c { used_at = some now })
        db.otp_codes;
}

-- MarkOTPFactorVerified
abbrev pub mark_factor_verified : ℕ → ℕ → Db → Db
mark_factor_verified now id db = record db {
  factors =
      update_where (λ (f : OtpFactor). f.id == id)
        (λ (f : OtpFactor). record f { verified_at = some now }) db.factors;
}

-- Deletes factors, and by the foreign key the codes of the factors that go.
abbrev pub delete_factors : (OtpFactor → Bool) → Db → Db
delete_factors test db = record db {
  factors = delete_where test db.factors;
  otp_codes =
      delete_where (λ (c : OtpCode). any (λ (f : OtpFactor). test f && f.id == c.factor) db.factors)
        db.otp_codes;
}
