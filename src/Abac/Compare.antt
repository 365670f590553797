-- ===== src/Abac/Compare.antt =====
-- The comparison operators of a condition leaf (abac.go, `equal` and `compare`). What Go's runtime
-- and library do with a float64, with `%v` and with a regular expression is a parameter.
use text.Mathlib.Text.{starts_with}
use qeet_id.Base.{
  ℕ, String, Bool, true, false, not, ◌||◌, Option, none, some, str_eq, if◌then◌else◌,
}
use qeet_id.Abac.Json.{Json, null, boolean, number, string, array, braces, object, Items, nil, item}

pub record Host : Type 0 where
  -- == < <= on float64
  pub float_eq : ℕ → ℕ → Bool
  pub float_lt : ℕ → ℕ → Bool
  pub float_le : ℕ → ℕ → Bool
  -- fmt.Sprintf("%v", x)
  pub sprint : Json → String
  -- regexp.Compile, then MatchString; `none` for a bad pattern
  pub regex : String → Option (String → Bool)

pub data CondError : Type 0 where
  not_an_object bad_attr missing_op op_not_string no_key all_not_array any_not_array : CondError
  in_not_array nin_not_array : CondError
  unknown_operator : String → CondError
  in_all in_any : ℕ → CondError → CondError
  in_not : CondError → CondError

-- `panicked` is a run-time panic, `out_of_fuel` is shown impossible in `Abac/Total`.
pub data Outcome : Type 0 where
  ok : Bool → Outcome
  err : CondError → Outcome
  panicked : Outcome
  out_of_fuel : Outcome

infixl 5 ◌>>=◌
abbrev pub ◌>>=◌ : Outcome → (Bool → Outcome) → Outcome
ok b >>= f = f b
err e >>= f = err e
panicked >>= f = panicked
out_of_fuel >>= f = out_of_fuel

abbrev pub to_float64 : Json → Option ℕ
to_float64 (number x) = some x
to_float64 _ = none

abbrev pub with_floats : (ℕ → ℕ → Bool) → Option ℕ → Option ℕ → Bool → Bool
with_floats f (some x) (some y) other = f x y
with_floats f _ _ other = other

-- `for _, el := range arr { if equal(…) { return … } }`: the first hit ends the loop.
unfoldable pub any_equal : (Json → Outcome) → Items → Outcome
any_equal test nil = ok false
any_equal test (item el els) =
    let rest = any_equal test els in do hit ← test el; if hit then ok true else rest

abbrev pub as_text : Json → String
as_text (string s) = s
as_text _ = String.[]

-- `strings.HasSuffix`
unfoldable pub has_suffix : String → String → Bool
has_suffix String.[] t = str_eq String.[] t
has_suffix (String.◌∷◌ c s) t = str_eq (String.◌∷◌ c s) t || has_suffix s t

-- `strings.Contains`
unfoldable pub contains_text : String → String → Bool
contains_text String.[] t = starts_with String.[] t
contains_text (String.◌∷◌ c s) t = starts_with (String.◌∷◌ c s) t || contains_text s t

abbrev pub ordered : (ℕ → ℕ → Bool) → Json → Json → Outcome
ordered f a b = ok (with_floats f (to_float64 a) (to_float64 b) false)

-- The operators, `has` for "contains" and `in_list` for "in".
pub data Operator : Type 0 where
  eq ne in_list nin has gt gte lt lte exists prefix suffix regex : Operator

-- The operator that a name stands for: the keys of `validOps`.
unfoldable pub operator_of : String → Option Operator
operator_of op =
    if str_eq op "eq"
    then some eq
    else if str_eq op "ne"
    then some ne
    else if str_eq op "in"
    then some in_list
    else if str_eq op "nin"
    then some nin
    else if str_eq op "contains"
    then some has
    else if str_eq op "gt"
    then some gt
    else if str_eq op "gte"
    then some gte
    else if str_eq op "lt"
    then some lt
    else if str_eq op "lte"
    then some lte
    else if str_eq op "exists"
    then some exists
    else if str_eq op "prefix"
    then some prefix
    else if str_eq op "suffix"
    then some suffix
    else if str_eq op "regex"
    then some regex
    else none

module _ (host : Host) where
  -- `a == b` on two values of type `any`: false at different dynamic types, and a panic at two
  -- slices or two maps.
  unfoldable pub go_eq : Json → Json → Outcome
  go_eq null null = ok true
  go_eq (boolean true) (boolean b) = ok b
  go_eq (boolean false) (boolean b) = ok (not b)
  go_eq (number x) (number y) = ok (host.float_eq x y)
  go_eq (string s) (string t) = ok (str_eq s t)
  go_eq (array _) (array _) = panicked
  go_eq braces braces = panicked
  go_eq braces (object _) = panicked
  go_eq (object _) braces = panicked
  go_eq (object _) (object _) = panicked
  go_eq _ _ = ok false

  unfoldable pub equal : Json → Json → Outcome
  unfolding go_eq
  equal a b = go_eq a b >>= λ same.
      if same
      then ok true
      else ok (
          with_floats host.float_eq (to_float64 a) (to_float64 b)
            (str_eq (host.sprint a) (host.sprint b)))

  unfoldable pub is_in : Json → Json → Outcome
  unfolding any_equal equal
  is_in attr_val (array els) = any_equal (equal attr_val) els
  is_in attr_val _ = err in_not_array

  unfoldable pub not_in : Json → Json → Outcome
  unfolding any_equal equal
  not_in attr_val (array els) = do hit ← any_equal (equal attr_val) els; ok (not hit)
  not_in attr_val _ = err nin_not_array

  unfoldable pub contains : Json → Json → Outcome
  unfolding any_equal equal contains_text
  contains (string v) (string s) = ok (contains_text v s)
  contains (array els) value = any_equal (λ el. equal el value) els
  contains _ _ = ok false

  unfoldable pub matches : Json → Json → Outcome
  matches (string v) (string pattern) = elim (host.regex pattern) [
    | none ↦ ok false
    | some matcher ↦ ok (matcher v)
  ]
  matches _ _ = ok false

  -- The cases of the `switch` in `compare`; 'exists' never gets here.
  unfoldable pub apply : Operator → Json → Json → Outcome
  apply eq a b = equal a b
  apply ne a b = equal a b >>= λ same. ok (not same)
  apply in_list a b = is_in a b
  apply nin a b = not_in a b
  apply has a b = contains a b
  apply gt a b = ordered (λ x y. host.float_lt y x) a b
  apply gte a b = ordered (λ x y. host.float_le y x) a b
  apply lt a b = ordered host.float_lt a b
  apply lte a b = ordered host.float_le a b
  apply prefix a b = ok (starts_with (as_text a) (as_text b))
  apply suffix a b = ok (has_suffix (as_text a) (as_text b))
  apply regex a b = matches a b
  apply exists a b = err (unknown_operator "exists")

  unfoldable pub compare : String → Json → Json → Outcome
  compare op a b = elim (operator_of op) [ none ↦ err (unknown_operator op) | some o ↦ apply o a b ]
