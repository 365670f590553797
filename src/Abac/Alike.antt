-- ===== src/Abac/Alike.antt =====
-- The tests of a leaf decide what the leaf says: equality, order and texts (abac.go, `equal`).
use text.Mathlib.Text.{starts_with}
use text.Mathlib.TextEquality.{starts_with_iff}
use qeet_id.Base.{
  ℕ, ◌≡◌, ◌⊎◌, ◌↔◌, refl, ap, subst, inl, inr, String, Bool, true, false, not, str_eq, str_eq_iff,
  if◌then◌else◌, arith, Bool-cases,
}
use qeet_id.Abac.Json.{Json, null, boolean, number, string, Items, nil, item}
use qeet_id.Abac.Compare.{
  Host, Outcome, ok, err, panicked, out_of_fuel, ◌>>=◌, to_float64, with_floats, any_equal,
  has_suffix, contains_text, ordered, go_eq, equal,
}
use qeet_id.Abac.Related.{NotNumber, Somewhere, IsSuffix, IsInfix, Numbers, Alike}

-- Where the outcome is a Boolean, it says whether `P` holds.
abbrev pub Decides : Outcome → Type 0 → Type 0
Decides o P = (r : Bool) → o ≡ ok r → (r ≡ true) ↔ P

pub negated : (o : Outcome) (P : Type 0) → Decides o P → Decides (o >>= λ b. ok (not b)) (P → ⊥)
negated (ok true) P d r h =
    (λ t. absurd (ground (arith, h, t)), λ n. absurd (n ((d true refl).0 refl)))
negated (ok false) P d r h =
    (λ t p. absurd (ground (arith, (d false refl).1 p)), λ n. ground (arith, h))
negated (err x) P d r h = absurd (ground (arith, h))
negated panicked P d r h = absurd (ground (arith, h))
negated out_of_fuel P d r h = absurd (ground (arith, h))

pub plain : (b : Bool) (P : Type 0) → (b ≡ true) ↔ P → Decides (ok b) P
plain b P i r h = let e : b ≡ r = ground (arith, h) in subst (λ c. (c ≡ true) ↔ P) e i

pub any_equal-Decides :
    (test : Json → Outcome) (P : Json → Type 0)
    → ((c : Json) → Decides (test c) (P c))
    → (els : Items) → Decides (any_equal test els) (Somewhere P els)
unfolding any_equal
any_equal-Decides test P d nil r h = (λ t. absurd (ground (arith, h, t)), λ n. absurd n)
any_equal-Decides test P d (item c cs) r h = go (test c) refl h (any_equal-Decides test P d cs)
  where
    go :
        (o : Outcome)
        → test c ≡ o
        → (o >>= λ hit. if hit then ok true else any_equal test cs) ≡ ok r
        → Decides (any_equal test cs) (Somewhere P cs)
        → (r ≡ true) ↔ (P c ⊎ Somewhere P cs)
    go (ok true) e h ih = (λ t. inl ((d c true e).0 refl), λ s. ground (arith, h))
    go (ok false) e h ih = (
      λ t. inr ((ih r h).0 t),
      λ s. elim s [
        | inl p ↦ absurd (ground (arith, (d c false e).1 p))
        | inr later ↦ (ih r h).1 later
      ],
    )
    go (err x) e h ih = absurd (ground (arith, h))
    go panicked e h ih = absurd (ground (arith, h))
    go out_of_fuel e h ih = absurd (ground (arith, h))

pub has_suffix_iff : (s t : String) → (has_suffix s t ≡ true) ↔ IsSuffix t s
unfolding has_suffix
has_suffix_iff String.[] t = str_eq_iff String.[] t
has_suffix_iff (String.◌∷◌ c s) t = (
  λ h. elim (Bool-cases (str_eq (String.◌∷◌ c s) t)) [
    | inl whole ↦ inl ((str_eq_iff (String.◌∷◌ c s) t).0 whole)
    | inr part ↦ inr ((has_suffix_iff s t).0 (ground (arith, h, part)))
  ],
  λ o. elim o [
    | inl e ↦ ground (arith, (str_eq_iff (String.◌∷◌ c s) t).1 e)
    | inr later ↦ ground (arith, (has_suffix_iff s t).1 later)
  ],
)

pub contains_text_iff : (s t : String) → (contains_text s t ≡ true) ↔ IsInfix t s
unfolding contains_text
contains_text_iff String.[] t = starts_with_iff String.[] t
contains_text_iff (String.◌∷◌ c s) t = (
  λ h. elim (Bool-cases (starts_with (String.◌∷◌ c s) t)) [
    | inl start ↦ inl ((starts_with_iff (String.◌∷◌ c s) t).0 start)
    | inr part ↦ inr ((contains_text_iff s t).0 (ground (arith, h, part)))
  ],
  λ o. elim o [
    | inl e ↦ ground (arith, (starts_with_iff (String.◌∷◌ c s) t).1 e)
    | inr later ↦ ground (arith, (contains_text_iff s t).1 later)
  ],
)

-- The tests of two numbers, with what holds where one at least is no number.
with_floats_iff :
    (f : ℕ → ℕ → Bool) (other : Bool) (P : Type 0) (a b : Json)
    → (other ≡ true) ↔ P
    → (with_floats f (to_float64 a) (to_float64 b) other ≡ true)
      ↔ (Numbers (λ x y. f x y ≡ true) a b ⊎ ((NotNumber a ⊎ NotNumber b) × P))
with_floats_iff f other P (number x) (number y) i = (
  λ h. inl (x, y, refl, refl, h),
  λ o. elim o [
    | inl (u, w, e, e', h) ↦ ground (arith, e, e', h)
    | inr (n, p) ↦ elim n [ inl z ↦ absurd z | inr z ↦ absurd z ]
  ],
)
with_floats_iff f other P (number x) b i = (
  λ h. inr (inr tt, i.0 h),
  λ o. elim o [ inl (u, w, e, e', h) ↦ absurd (ground (arith, e')) | inr (n, p) ↦ i.1 p ],
)
with_floats_iff f other P a b i = (
  λ h. inr (inl tt, i.0 h),
  λ o. elim o [ inl (u, w, e, e', h) ↦ absurd (ground (arith, e)) | inr (n, p) ↦ i.1 p ],
)

pub ordered-Decides :
    (f : ℕ → ℕ → Bool) (a b : Json) → Decides (ordered f a b) (Numbers (λ x y. f x y ≡ true) a b)
ordered-Decides f a b =
    let i = with_floats_iff f false ⊥ a b (λ h. absurd (ground (arith, h)), λ z. absurd z) in
    plain (with_floats f (to_float64 a) (to_float64 b) false) _
      (λ h. elim (i.0 h) [ inl n ↦ n | inr (_, z) ↦ absurd z ], λ n. i.1 (inl n))

module _ (host : Host) where
  -- Values that Go's == finds the same are alike.
  go_eq-Alike : (a b : Json) → go_eq host a b ≡ ok true → Alike host a b
  unfolding go_eq
  go_eq-Alike null null h = inr (inl tt, refl)
  go_eq-Alike (boolean true) (boolean b) h =
      inr (inl tt, ap (λ x. host.sprint (boolean x)) (ground (arith, h)))
  go_eq-Alike (boolean false) (boolean b) h =
      inr (inl tt, ap (λ x. host.sprint (boolean x)) (ground (arith, h)))
  go_eq-Alike (number x) (number y) h = inl (x, y, refl, refl, ground (arith, h))
  go_eq-Alike (string s) (string t) h =
      inr (inl tt, ap (λ x. host.sprint (string x)) ((str_eq_iff s t).0 (ground (arith, h))))
  go_eq-Alike _ _ h = absurd (ground (arith, h))

  pub equal-Decides : (a b : Json) → Decides (equal host a b) (Alike host a b)
  unfolding equal
  equal-Decides a b = go (go_eq host a b) refl
    where
      printed : Bool
      printed = str_eq (host.sprint a) (host.sprint b)

      go :
          (o : Outcome)
          → go_eq host a b ≡ o
          → Decides
              (o >>= λ same.
                if same
                then ok true
                else ok (with_floats host.float_eq (to_float64 a) (to_float64 b) printed))
              (Alike host a b)
      go (ok true) e r h = (λ t. go_eq-Alike a b e, λ l. ground (arith, h))
      go (ok false) e r h =
          plain (with_floats host.float_eq (to_float64 a) (to_float64 b) printed) _
            (with_floats_iff host.float_eq printed _ a b
              (str_eq_iff (host.sprint a) (host.sprint b)))
            r h
      go (err x) e r h = absurd (ground (arith, h))
      go panicked e r h = absurd (ground (arith, h))
      go out_of_fuel e r h = absurd (ground (arith, h))
