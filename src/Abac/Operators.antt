-- ===== src/Abac/Operators.antt =====
-- The tests of a leaf decide what the leaf says: the operators (abac.go, `compare`).
use text.Mathlib.Text.{starts_with}
use text.Mathlib.TextEquality.{starts_with_iff}
use mathlib.Core.Option.{some-injective}
use qeet_id.Base.{
  ◌≡◌, refl, sym, ap, ◌∙◌, subst, inl, inr, String, Bool, true, Option, some, str_eq, str_eq_iff,
  if◌then◌else◌, arith, Bool-cases, Option-cases,
}
use qeet_id.Abac.Json.{Json, string, array, Items}
use qeet_id.Abac.Compare.{
  Host, ok, any_equal, as_text, has_suffix, contains_text, Operator, eq, ne, in_list, nin, has, gt,
  gte, lt, lte, exists, prefix, suffix, regex, operator_of, equal, is_in, not_in, contains, matches,
  apply,
}
use qeet_id.Abac.Related.{text_in, name, Somewhere, IsInfix, Alike, Related}
use qeet_id.Abac.Alike.{
  Decides, negated, plain, any_equal-Decides, has_suffix_iff, contains_text_iff, ordered-Decides,
  equal-Decides,
}

as_text_lem : (a : Json) → as_text a ≡ text_in a
as_text_lem (string s) = refl
as_text_lem _ = refl

array_inj : {els els' : Items} → array els ≡ array els' → els' ≡ els
array_inj e = ground (arith, e)

string_inj : {s t : String} → string s ≡ string t → s ≡ t
string_inj e = ground (arith, e)

module _ (host : Host) where
  is_in-Decides : (a v : Json) → Decides (is_in host a v) (Related host in_list a v)
  unfolding is_in
  is_in-Decides a (array els) r h =
      let d = any_equal-Decides (equal host a) (Alike host a) (equal-Decides host a) els r h in
      (
        λ t. (els, refl, d.0 t),
        λ (els', e, s). d.1 (subst (Somewhere (Alike host a)) (array_inj e) s),
      )
  is_in-Decides a _ r h = absurd (ground (arith, h))

  not_in-Decides : (a v : Json) → Decides (not_in host a v) (Related host nin a v)
  unfolding not_in
  not_in-Decides a (array els) r h =
      let d =
        negated (any_equal (equal host a) els) (Somewhere (Alike host a) els)
          (any_equal-Decides (equal host a) (Alike host a) (equal-Decides host a) els) r h in
      (
        λ t. (els, refl, d.0 t),
        λ (els', e, n). d.1 (λ s. n (subst (Somewhere (Alike host a)) (sym (array_inj e)) s)),
      )
  not_in-Decides a _ r h = absurd (ground (arith, h))

  contains-Decides : (a v : Json) → Decides (contains host a v) (Related host has a v)
  unfolding contains
  contains-Decides (string s) (string t) r h =
      plain (contains_text s t) _
        (
          λ h. inl (s, t, refl, refl, (contains_text_iff s t).0 h),
          λ o. elim o [
            | inl (s', t', e, e', i) ↦ (contains_text_iff s t).1 (
                subst (λ x. IsInfix x s) (sym (string_inj e'))
                  (subst (IsInfix t') (sym (string_inj e)) i))
            | inr (els, e, _) ↦ absurd (ground (arith, e))
          ],
        )
        r h
  contains-Decides (array els) v r h =
      let d =
        any_equal-Decides (λ el. equal host el v) (λ el. Alike host el v)
          (λ el. equal-Decides host el v) els r h in
      (
        λ t. inr (els, refl, d.0 t),
        λ o. elim o [
          | inl (s, t, e, _, _) ↦ absurd (ground (arith, e))
          | inr (els', e, i) ↦ d.1 (subst (Somewhere (λ el. Alike host el v)) (array_inj e) i)
        ],
      )
  contains-Decides _ _ r h = (
    λ t. absurd (ground (arith, h, t)),
    λ o. elim o [
      | inl (s, t, e, e', _) ↦ absurd (ground (arith, e, e'))
      | inr (els, e, _) ↦ absurd (ground (arith, e))
    ],
  )

  matches-Decides : (a v : Json) → Decides (matches host a v) (Related host regex a v)
  unfolding matches
  matches-Decides (string s) (string p) r h = elim (Option-cases (host.regex p)) [
    | inl bad ↦ (
      λ t. absurd (ground (arith, h, t, bad)),
      λ (s', p', f, e, e', good, _).
          absurd (ground (arith, bad, good, ap host.regex (string_inj e'))),
    )
    | inr (f, good) ↦ (
      λ t. (s, p, f, refl, refl, good, ground (arith, h, t, good)),
      λ (s', p', f', e, e', good', fits).
          subst (λ b. b ≡ true) (matched s p f r good h)
            (subst (λ (g : String → Bool). g s ≡ true)
              (same_matcher (host.regex p) f f' good (ap host.regex (string_inj e') ∙ good'))
              (subst (λ x. f' x ≡ true) (sym (string_inj e)) fits)),
    )
  ]
    where
      same_matcher :
          (o : Option (String → Bool)) (f f' : String → Bool) → o ≡ some f → o ≡ some f' → f' ≡ f
      same_matcher o f f' e e' = some-injective f' f (sym e' ∙ e)

      matched :
          (s p : String) (f : String → Bool) (r : Bool)
          → host.regex p ≡ some f
          → matches host (string s) (string p) ≡ ok r
          → f s ≡ r
      matched s p f r e h = ground (arith, e, h)
  matches-Decides _ _ r h =
      (λ t. absurd (ground (arith, h, t)), λ (s, p, f, e, e', _, _). absurd (ground (arith, e, e')))

  pub apply-Decides : (o : Operator) (a v : Json) → Decides (apply host o a v) (Related host o a v)
  unfolding apply
  apply-Decides eq a v r h = equal-Decides host a v r h
  apply-Decides ne a v r h = negated (equal host a v) (Alike host a v) (equal-Decides host a v) r h
  apply-Decides in_list a v r h = is_in-Decides a v r h
  apply-Decides nin a v r h = not_in-Decides a v r h
  apply-Decides has a v r h = contains-Decides a v r h
  apply-Decides gt a v r h = ordered-Decides (λ x y. host.float_lt y x) a v r h
  apply-Decides gte a v r h = ordered-Decides (λ x y. host.float_le y x) a v r h
  apply-Decides lt a v r h = ordered-Decides host.float_lt a v r h
  apply-Decides lte a v r h = ordered-Decides host.float_le a v r h
  apply-Decides prefix a v r h =
      plain (starts_with (as_text a) (as_text v)) _
        (rw (as_text_lem a, as_text_lem v) (starts_with_iff (text_in a) (text_in v))) r h
  apply-Decides suffix a v r h =
      plain (has_suffix (as_text a) (as_text v)) _
        (rw (as_text_lem a, as_text_lem v) (has_suffix_iff (text_in a) (text_in v))) r h
  apply-Decides regex a v r h = matches-Decides a v r h
  apply-Decides exists a v r h = absurd (ground (arith, h))

-- The chain of tests on the name, from one of them on.
next_name :
    (op : String) (n o : Operator) (rest : Option Operator)
    → (rest ≡ some o → name o ≡ op)
    → (if str_eq op (name n) then some n else rest) ≡ some o
    → name o ≡ op
next_name op n o rest later h = elim (Bool-cases (str_eq op (name n))) [
  | inl is ↦
      let same : n ≡ o = ground (arith, h, is) in
      ap name (sym same) ∙ sym ((str_eq_iff op (name n)).0 is)
  | inr other ↦ later (ground (arith, h, other))
]

pub operator_of-name : (op : String) (o : Operator) → operator_of op ≡ some o → name o ≡ op
unfolding operator_of
operator_of-name op o = next_name op eq o _ (
    next_name op ne o _ (
      next_name op in_list o _ (
        next_name op nin o _ (
          next_name op has o _ (
            next_name op gt o _ (
              next_name op gte o _ (
                next_name op lt o _ (
                  next_name op lte o _ (
                    next_name op exists o _ (
                      next_name op prefix o _ (
                        next_name op suffix o _
                          (next_name op regex o _ (λ h. absurd (ground (arith, h)))))))))))))))

name-operator_of : (o : Operator) → operator_of (name o) ≡ some o
unfolding operator_of
name-operator_of eq = refl
name-operator_of ne = refl
name-operator_of in_list = refl
name-operator_of nin = refl
name-operator_of has = refl
name-operator_of gt = refl
name-operator_of gte = refl
name-operator_of lt = refl
name-operator_of lte = refl
name-operator_of exists = refl
name-operator_of prefix = refl
name-operator_of suffix = refl
name-operator_of regex = refl

-- A name stands for one operator.
pub same_operator : (op : String) (o p : Operator) → operator_of op ≡ some o → name p ≡ op → p ≡ o
same_operator op o p e n =
    let q : some p ≡ some o = sym (name-operator_of p) ∙ (ap operator_of n ∙ e) in ground (arith, q)
