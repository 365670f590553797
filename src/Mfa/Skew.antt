-- ===== src/Mfa/Skew.antt =====
-- What the time-based codes are: six digits, accepted for thirty seconds either way.
use qeet_id.Base.{
  ℕ, zero, suc, ◌+◌, ◌-◌, ◌*◌, ◌/◌, ◌%◌, ◌^◌, ◌≤◌, ◌<◌, String, ◌==◌, true, some, List, [], ◌∷◌,
  length, str_eq_iff, ◌≡◌, ◌↔◌, ◌≢◌, ◌∙◌, sym, Bool, refl, ap, arith, Bool-cases, inl, inr,
}
use qeet_id.Mfa.Numeric.{padded, power, IsNumeral}
use qeet_id.Mfa.Digits.{padded-IsNumeral}
use qeet_id.Mfa.Totp.{
  Host, Coded, coded, panicked, undecodable, get_elem?, four_bytes, truncated, code_at, verify,
  accepts,
}

get_elem-total : (xs : List ℕ) (i : ℕ) → i < length xs → (n : ℕ) × (get_elem? xs i ≡ some n)
get_elem-total [] i h = absurd (omega (arith, h))
get_elem-total (x ∷ xs) zero h = (x, refl)
get_elem-total (x ∷ xs) (suc i) h = get_elem-total xs i (omega (arith, h))

four_bytes-total :
    (sum : List ℕ) (offset : ℕ)
    → length sum ≡ 20
    → offset < 16
    → (n : ℕ) × (four_bytes sum offset ≡ some n)
four_bytes-total sum offset twenty low =
    let (a, ea) = get_elem-total sum offset (omega (arith, twenty, low)) in
    let (b, eb) = get_elem-total sum (offset + 1) (omega (arith, twenty, low)) in
    let (c, ec) = get_elem-total sum (offset + 2) (omega (arith, twenty, low)) in
    let (d, ed) = get_elem-total sum (offset + 3) (omega (arith, twenty, low)) in
    ((a % 128) * 2 ^ 24 + b * 2 ^ 16 + c * 2 ^ 8 + d, rw (ea, eb, ec, ed) refl)

truncated-total : (sum : List ℕ) → length sum ≡ 20 → (n : ℕ) × (truncated sum ≡ some n)
unfolding truncated
truncated-total sum twenty =
    let (last, e) = get_elem-total sum (length sum - 1) (omega (arith, twenty)) in
    let (n, f) = four_bytes-total sum (last % 16) twenty (omega arith) in (n, rw e f)

-- Where the secret decodes and every sum has the 20 bytes of SHA-1, Code does not index out of range:
-- it gives six digits at any time.
pub code_at-IsNumeral :
    (host : Host) (secret : String) (key : List ℕ) (t : ℕ)
    → ((k : List ℕ) (counter : ℕ) → length (host.hmac k counter) ≡ 20)
    → host.decode secret ≡ some key
    → (c : String) × (code_at host secret t ≡ coded c) × IsNumeral 6 c
unfolding code_at
code_at-IsNumeral host secret key t twenty decodes =
    let (bin, e) = truncated-total (host.hmac key ((t / 30) % 2 ^ 64)) (twenty key _) in
    (
      padded 6 (bin % power 32 6) "",
      rw (decodes, e) refl,
      padded-IsNumeral 6 0 (bin % power 32 6) "" tt,
    )

same_window :
    (host : Host) (secret : String) (s t : ℕ)
    → s / 30 ≡ t / 30
    → code_at host secret s ≡ code_at host secret t
unfolding code_at
same_window host secret s t e = rw e refl

window :
    (t now : ℕ)
    → 30 ≤ now
    → t ≤ now + 30
    → now ≤ t + 30
    → t / 30 ≢ now / 30
    → t / 30 ≢ (now - 30) / 30
    → t / 30 ≡ (now + 30) / 30
window t now late below above a b = omega (arith, late, below, above, a, b)

accepts_iff : (code : String) (c : Coded) → (accepts code c ≡ true) ↔ (c ≡ coded code)
accepts_iff code panicked = (λ h. absurd (ground (arith, h)), λ h. absurd (ground (arith, h)))
accepts_iff code undecodable = (λ h. absurd (ground (arith, h)), λ h. absurd (ground (arith, h)))
accepts_iff code (coded want) =
    (λ h. ap coded ((str_eq_iff want code).0 h), λ h. ground (arith, h, str_eq_iff want code))

module _ (host : Host) (now : ℕ) (secret code : String) where
  abbrev Near : Type 0
  Near = (t : ℕ) × (t ≤ now + 30) × (now ≤ t + 30) × (code_at host secret t ≡ coded code)

  abbrev takes : ℕ → Bool
  takes t = accepts code (code_at host secret t)

  verify-near : verify host now secret code ≡ true → Near
  unfolding verify
  verify-near h = elim (Bool-cases (takes now)) [
    | inl a ↦ (now, omega arith, omega arith, (accepts_iff code (code_at host secret now)).0 a)
    | inr na ↦ elim (Bool-cases (takes (now - 30))) [
      | inl b ↦ (
        now - 30,
        omega arith,
        omega arith,
        (accepts_iff code (code_at host secret (now - 30))).0 b,
      )
      | inr nb ↦ (
        now + 30,
        omega arith,
        omega arith,
        (accepts_iff code (code_at host secret (now + 30))).0 (ground (arith, h, na, nb)),
      )
    ]
  ]

  taken : (t s : ℕ) → t / 30 ≡ s / 30 → code_at host secret t ≡ coded code → takes s ≡ true
  taken t s e c =
      (accepts_iff code (code_at host secret s)).1 (sym (same_window host secret t s e) ∙ c)

  near-verify : 30 ≤ now → Near → verify host now secret code ≡ true
  unfolding verify
  near-verify late (t, below, above, c) = elim (Bool-cases (t / 30 == now / 30)) [
    | inl e ↦ ground (arith, taken t now (ground (arith, e)) c)
    | inr ne ↦ elim (Bool-cases (t / 30 == (now - 30) / 30)) [
      | inl e ↦ ground (arith, taken t (now - 30) (ground (arith, e)) c)
      | inr nf ↦ ground (
        arith,
        taken t (now + 30) (window t now late below above (ground (arith, ne)) (ground (arith, nf)))
            c,
      )
    ]
  ]

-- At a time thirty seconds or more after 1970 began, Verify accepts exactly the codes that Code gives for some
-- time at most thirty seconds before or after.
pub verify_iff :
    (host : Host) (now : ℕ) (secret code : String)
    → 30 ≤ now
    → (verify host now secret code ≡ true)
      ↔ ((t : ℕ) × (t ≤ now + 30) × (now ≤ t + 30) × (code_at host secret t ≡ coded code))
unfolding verify
verify_iff host now secret code late =
    (verify-near host now secret code, near-verify host now secret code late)
