-- ===== src/Errs.antt =====
-- The API errors (internal/platform/http/errs/errs.go) and fallible results. `storage` stands for
-- whatever error the database driver returns; the HTTP status and code follow from the constructor.
use Prim.Native.String.{String}
use qeet_id.Base.{Bool, if◌then◌else◌}

pub data Error : Type 0 where
  not_found : Error
  bad_request unauthorized forbidden conflict unprocessable too_many_requests storage :
      String → Error

-- What a Go function with results (T, error) returns.
pub data Result {ℓ} (T : Type ℓ) : Type ℓ where
  err : Error → Result T
  ok : T → Result T

-- `if err != nil { return nil, err }`
abbrev pub and_then {ℓ κ} : {T : Type ℓ} {U : Type κ} → (T → Result U) → Result T → Result U
and_then next (err failure) = err failure
and_then next (ok value) = next value

infixl 5 ◌>>=◌
abbrev pub ◌>>=◌ {ℓ κ} : {T : Type ℓ} {U : Type κ} → Result T → (T → Result U) → Result U
result >>= next = and_then next result

infixl 5 ◌>>◌
abbrev pub ◌>>◌ {ℓ} : {U : Type ℓ} → Result (Unit {0}) → Result U → Result U
check >> later = and_then (λ done. later) check

-- `if !test { return nil, failure }`
abbrev pub guard : Bool → Error → Result (Unit {0})
guard test failure = if test then ok tt else err failure
