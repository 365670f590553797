-- ===== src/Mfa/Digits.antt =====
-- Numeric codes have all their digits, and say the random number modulo a power of ten.
use Prim.Native.String.{[], ◌∷◌}
use native.Mathlib.Nat.{mod-lt, pow-le-pow_right}
use qeet_id.Base.{
  ℕ, zero, suc, ◌+◌, ◌/◌, ◌%◌, ◌^◌, ◌≤◌, ◌<◌, code, String, ◌&&◌, leb, ◌≡◌, refl, ap, ◌∙◌, subst,
  arith, true,
}
use qeet_id.Mfa.Numeric.{code_length, digit, padded, power, numeric, IsNumeral, value_from}

code-digit : (n : ℕ) → n < 10 → code (digit n) ≡ 48 + n
code-digit zero h = refl
code-digit (suc zero) h = refl
code-digit (suc (suc zero)) h = refl
code-digit (suc (suc (suc zero))) h = refl
code-digit (suc (suc (suc (suc zero)))) h = refl
code-digit (suc (suc (suc (suc (suc zero))))) h = refl
code-digit (suc (suc (suc (suc (suc (suc zero)))))) h = refl
code-digit (suc (suc (suc (suc (suc (suc (suc zero))))))) h = refl
code-digit (suc (suc (suc (suc (suc (suc (suc (suc zero)))))))) h = refl
code-digit (suc (suc (suc (suc (suc (suc (suc (suc (suc zero))))))))) h = refl
code-digit (suc (suc (suc (suc (suc (suc (suc (suc (suc (suc n)))))))))) h =
    absurd (omega (arith, h))

digit-numeral : (n : ℕ) → n < 10 → (leb 48 (code (digit n)) && leb (code (digit n)) 57) ≡ true
digit-numeral n h = ground (arith, code-digit n h)

pub padded-IsNumeral : (k j n : ℕ) (s : String) → IsNumeral j s → IsNumeral (k + j) (padded k n s)
unfolding padded
padded-IsNumeral zero j n s h = subst (λ m. IsNumeral m s) (omega arith) h
padded-IsNumeral (suc k) j n s h =
    subst (λ m. IsNumeral m (padded k (n / 10) (digit (n % 10) ∷ s))) (omega arith)
      (padded-IsNumeral k (suc j) (n / 10) (digit (n % 10) ∷ s)
        (digit-numeral (n % 10) (omega arith), h))

pub value-padded :
    (k n : ℕ) (s : String) → n < 10 ^ k → value_from 0 (padded k n s) ≡ value_from n s
unfolding padded value_from
value-padded zero n s h = ap (λ m. value_from m s) (omega (arith, h))
value-padded (suc k) n s h =
    value-padded k (n / 10) (digit (n % 10) ∷ s) (omega (arith, h))
    ∙ ap (λ m. value_from m s) (omega (arith, code-digit (n % 10) (omega arith)))

power-exact : (width k : ℕ) → 10 ^ k < 2 ^ width → power width k ≡ 10 ^ k
unfolding power
power-exact width zero h = refl
power-exact width (suc k) h = grind (arith, h, power-exact width k (omega (arith, h)))

ten_grows : (i j : ℕ) → i ≤ j → 10 ^ i ≤ 10 ^ j
ten_grows i j h = pow-le-pow_right (omega arith) h

power_ten : (width k m : ℕ) → k ≤ m → 10 ^ m < 2 ^ width → power width k ≡ 10 ^ k
power_ten width k m h big = power-exact width k (omega (arith, big, ten_grows k m h))

-- A text that Numeric makes of a random number, for one to twelve digits, has exactly as many digits,
-- and they say the random number modulo the power of ten.
pub numeric-IsNumeral :
    (length random : ℕ)
    → 1 ≤ length
    → length ≤ 12
    → IsNumeral length (numeric length random)
      × (value_from 0 (numeric length random) ≡ random % 10 ^ length)
unfolding numeric value_from
numeric-IsNumeral length random low high =
    let k : code_length length ≡ length = ground (arith, low, high) in
    let p : power 64 length ≡ 10 ^ length = power_ten 64 length 12 high (omega arith) in
    rw (k, p)
      (
        subst (λ m. IsNumeral m (padded length (random % 10 ^ length) [])) (omega arith)
            (padded-IsNumeral length 0 (random % 10 ^ length) [] tt),
        value-padded length (random % 10 ^ length) []
            (mod-lt random (omega (arith, ten_grows 1 length low))),
      )
