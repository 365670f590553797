-- ===== src/Mfa/Numeric.antt =====
-- Numeric codes (internal/platform/http/codes/codes.go): a random 64-bit number, reduced and padded.
use Prim.Native.String.{[], ◌∷◌}
use qeet_id.Base.{
  ℕ, zero, suc, ◌+◌, ◌-◌, ◌*◌, ◌/◌, ◌%◌, ◌^◌, Char, code, String, ◌&&◌, ◌||◌, ◌==◌, leb, ltb,
  if◌then◌else◌, ◌≡◌, true,
}

abbrev pub char_of : ℕ → String → Char
char_of n [] = "0"
char_of zero (c ∷ s) = c
char_of (suc n) (c ∷ s) = char_of n s

-- The character of a number below ten.
abbrev pub digit : ℕ → Char
digit n = char_of n "0123456789"

-- `fmt.Sprintf("%0*d", k, n)` for n below 10 ^ k, in front of a text.
unfoldable pub padded : ℕ → ℕ → String → String
padded zero n s = s
padded (suc k) n s = padded k (n / 10) (digit (n % 10) ∷ s)

-- The loop `mod *= 10` on unsigned integers of a width.
unfoldable pub power : ℕ → ℕ → ℕ
power width zero = 1
power width (suc k) = (power width k * 10) % 2 ^ width

abbrev pub code_length : ℕ → ℕ
code_length length = if length == 0 || ltb 12 length then 6 else length

-- Numeric, for the random number that it reads.
unfoldable pub numeric : ℕ → ℕ → String
numeric length random = let k = code_length length in padded k (random % power 64 k) []

-- A text of so many decimal digits.
abbrev pub IsNumeral : ℕ → String → Type 0
IsNumeral zero [] = Unit
IsNumeral zero (c ∷ s) = ⊥
IsNumeral (suc k) [] = ⊥
IsNumeral (suc k) (c ∷ s) = ((leb 48 (code c) && leb (code c) 57) ≡ true) × IsNumeral k s

-- The number that a text of digits says, after another.
unfoldable pub value_from : ℕ → String → ℕ
value_from n [] = n
value_from n (c ∷ s) = value_from (n * 10 + (code c - 48)) s
