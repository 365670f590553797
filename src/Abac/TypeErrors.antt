-- ===== src/Abac/TypeErrors.antt =====
-- The errors that an operator can return.
use qeet_id.Base.{◌≡◌, refl, subst, ◌≢◌, String, false, some, arith, str_eq}
use qeet_id.Abac.Json.{Json, null, boolean, number, string, array, braces, object, Items, nil, item}
use qeet_id.Abac.Compare.{
  Host, CondError, in_not_array, nin_not_array, in_all, in_any, in_not, Outcome, err, go_eq, equal,
  any_equal, is_in, not_in, contains, matches, apply, operator_of, Operator, eq, ne, in_list, nin,
  has, exists, regex,
}

-- Somewhere in the tree 'in' or 'nin' was given a value that is no array.
abbrev pub IsTypeError : CondError → Type 0
IsTypeError in_not_array = Unit {0}
IsTypeError nin_not_array = Unit {0}
IsTypeError (in_all i e) = IsTypeError e
IsTypeError (in_any i e) = IsTypeError e
IsTypeError (in_not e) = IsTypeError e
IsTypeError _ = ⊥

-- An outcome that is an error only if it is a type error.
abbrev pub TypeErrorOnly : Outcome → Type 0
TypeErrorOnly o = (e : CondError) → o ≡ err e → IsTypeError e

module _ (host : Host) where
  go_eq-ne-err : (a b : Json) (e : CondError) → go_eq host a b ≢ err e
  unfolding go_eq
  go_eq-ne-err null b e = ground arith
  go_eq-ne-err (boolean x) b e = ground arith
  go_eq-ne-err (number x) b e = ground arith
  go_eq-ne-err (string x) b e = ground arith
  go_eq-ne-err (array x) b e = ground arith
  go_eq-ne-err braces b e = ground arith
  go_eq-ne-err (object x) b e = ground arith

  equal-ne-err : (a b : Json) (e : CondError) → equal host a b ≢ err e
  unfolding equal
  equal-ne-err a b e = ground (arith, go_eq-ne-err a b e)

  any_equal-ne-err :
      (test : Json → Outcome) (els : Items) (e : CondError)
      → ((el : Json) → test el ≢ err e)
      → any_equal test els ≢ err e
  unfolding any_equal
  any_equal-ne-err test nil e h = ground arith
  any_equal-ne-err test (item el els) e h = ground (arith, h el, any_equal-ne-err test els e h)

  is_in-TypeErrorOnly : (a b : Json) → TypeErrorOnly (is_in host a b)
  unfolding is_in
  is_in-TypeErrorOnly a (array els) e h =
      absurd (any_equal-ne-err _ els e (λ el. equal-ne-err a el e) h)
  is_in-TypeErrorOnly a _ e h =
      let same : in_not_array ≡ e = ground arith in subst IsTypeError same tt

  not_in-TypeErrorOnly : (a b : Json) → TypeErrorOnly (not_in host a b)
  unfolding not_in
  not_in-TypeErrorOnly a (array els) e h =
      absurd (ground (arith, any_equal-ne-err (equal host a) els e (λ el. equal-ne-err a el e)))
  not_in-TypeErrorOnly a _ e h =
      let same : nin_not_array ≡ e = ground arith in subst IsTypeError same tt

  contains-ne-err : (a b : Json) (e : CondError) → contains host a b ≢ err e
  unfolding contains
  contains-ne-err (string v) b e = ground arith
  contains-ne-err (array els) b e = any_equal-ne-err _ els e (λ el. equal-ne-err el b e)
  contains-ne-err _ b e = ground arith

  matches-ne-err : (a b : Json) (e : CondError) → matches host a b ≢ err e
  unfolding matches
  matches-ne-err (string v) b e = ground arith
  matches-ne-err _ b e = ground arith

  pub apply-TypeErrorOnly :
      (o : Operator) (a b : Json) → o ≢ exists → TypeErrorOnly (apply host o a b)
  unfolding apply
  apply-TypeErrorOnly eq a b n e h = absurd (equal-ne-err a b e h)
  apply-TypeErrorOnly ne a b n e h = absurd (ground (arith, equal-ne-err a b e))
  apply-TypeErrorOnly in_list a b n e h = is_in-TypeErrorOnly a b e h
  apply-TypeErrorOnly nin a b n e h = not_in-TypeErrorOnly a b e h
  apply-TypeErrorOnly has a b n e h = absurd (contains-ne-err a b e h)
  apply-TypeErrorOnly regex a b n e h = absurd (matches-ne-err a b e h)
  apply-TypeErrorOnly exists a b n e h = absurd (n refl)
  apply-TypeErrorOnly _ a b n e h = absurd (ground arith)

pub operator_of-ne-exists :
    (op : String) → str_eq op "exists" ≡ false → operator_of op ≢ some exists
unfolding operator_of
operator_of-ne-exists op h = ground arith
