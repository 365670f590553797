-- ===== src/Mfa/Totp.antt =====
-- Time-based codes (internal/platform/crypto/encryption/totp/totp.go). Times are seconds since 1970; the
-- bytes of a sum are numbers below 256, and the disjoint bits that the code joins with | are added.
use qeet_id.Base.{
  ℕ, zero, suc, ◌+◌, ◌-◌, ◌*◌, ◌/◌, ◌%◌, ◌^◌, String, Bool, false, Option, none, some, List, [],
  ◌∷◌, str_eq, any, length,
}
use qeet_id.Mfa.Numeric.{padded, power}

-- base32 decoding of the secret in upper case, and HMAC-SHA1 of a key and a counter of 8 bytes.
pub record Host : Type 0 where
  pub decode : String → Option (List ℕ)
  pub hmac : List ℕ → ℕ → List ℕ

-- What Code answers; `panicked` is an index out of range.
pub data Coded : Type 0 where
  panicked : Coded
  undecodable : Coded
  coded : String → Coded

abbrev pub get_elem? : List ℕ → ℕ → Option ℕ
get_elem? [] i = none
get_elem? (x ∷ xs) zero = some x
get_elem? (x ∷ xs) (suc i) = get_elem? xs i

infixl 5 ◌>>=◌
abbrev ◌>>=◌ : Option ℕ → (ℕ → Option ℕ) → Option ℕ
none >>= f = none
some n >>= f = f n

abbrev pub four_bytes : List ℕ → ℕ → Option ℕ
four_bytes sum offset = do
  a ← get_elem? sum offset
  b ← get_elem? sum (offset + 1)
  c ← get_elem? sum (offset + 2)
  d ← get_elem? sum (offset + 3)
  some ((a % 128) * 2 ^ 24 + b * 2 ^ 16 + c * 2 ^ 8 + d)

unfoldable pub truncated : List ℕ → Option ℕ
truncated sum = do last ← get_elem? sum (length sum - 1); four_bytes sum (last % 16)

abbrev pub six_digits : Option ℕ → Coded
six_digits none = panicked
six_digits (some bin) = coded (padded 6 (bin % power 32 6) "")

abbrev pub code_of : Host → Option (List ℕ) → ℕ → Coded
code_of host none counter = undecodable
code_of host (some key) counter = six_digits (truncated (host.hmac key counter))

-- Code
unfoldable pub code_at : Host → String → ℕ → Coded
code_at host secret t = code_of host (host.decode secret) ((t / 30) % 2 ^ 64)

-- totp.Code panics only on a hash that is shorter than the 20 bytes of SHA-1.
abbrev pub accepts : String → Coded → Bool
accepts code panicked = false
accepts code undecodable = false
accepts code (coded want) = str_eq want code

-- Verify, at a time.
unfoldable pub verify : Host → ℕ → String → String → Bool
verify host now secret code =
    any (λ t. accepts code (code_at host secret t)) (now ∷ (now - 30) ∷ (now + 30) ∷ [])
