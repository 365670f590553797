-- ===== src/Abac/Related.antt =====
-- What the leaves of a condition say, by the names of the operators and apart from the code that tests
-- them (abac.go, `evalLeaf`, `equal` and `compare`).
use text.Mathlib.TextBridge.{IsPrefix}
use qeet_id.Base.{ℕ, ◌≡◌, ◌⊎◌, ◌↔◌, String, Bool, true, Option, none, some}
use qeet_id.Abac.Json.{
  Json, number, string, array, Items, nil, item, Members, get, AttributeBag, resolve_path,
}
use qeet_id.Abac.Compare.{
  Host, Operator, eq, ne, in_list, nin, has, gt, gte, lt, lte, exists, prefix, suffix, regex,
}
use qeet_id.Abac.Condition.{as_string, or_null}

abbrev pub name : Operator → String
name eq = "eq"
name ne = "ne"
name in_list = "in"
name nin = "nin"
name has = "contains"
name gt = "gt"
name gte = "gte"
name lt = "lt"
name lte = "lte"
name exists = "exists"
name prefix = "prefix"
name suffix = "suffix"
name regex = "regex"

abbrev pub NotNumber : Json → Type 0
NotNumber (number x) = ⊥
NotNumber _ = Unit {0}

abbrev pub Somewhere : (Json → Type 0) → Items → Type 0
Somewhere P nil = ⊥
Somewhere P (item c cs) = P c ⊎ Somewhere P cs

-- The text is a rest of the other one.
abbrev pub IsSuffix : String → String → Type 0
IsSuffix t String.[] = String.[] ≡ t
IsSuffix t (String.◌∷◌ c s) = (String.◌∷◌ c s ≡ t) ⊎ IsSuffix t s

-- The other text or a rest of it starts with the text.
abbrev pub IsInfix : String → String → Type 0
IsInfix t String.[] = IsPrefix t String.[]
IsInfix t (String.◌∷◌ c s) = IsPrefix t (String.◌∷◌ c s) ⊎ IsInfix t s

-- The text of a string, and the empty one of any other value.
abbrev pub text_in : Json → String
text_in (string s) = s
text_in _ = ""

-- Two numbers in the relation.
abbrev pub Numbers : (ℕ → ℕ → Type 0) → Json → Json → Type 0
Numbers R a b = (x : ℕ) × (y : ℕ) × (a ≡ number x) × (b ≡ number y) × R x y

module _ (host : Host) where
  -- Equal numbers, or values that print the same of which one at least is no number.
  abbrev pub Alike : Json → Json → Type 0
  Alike a b =
      Numbers (λ x y. host.float_eq x y ≡ true) a b
      ⊎ ((NotNumber a ⊎ NotNumber b) × (host.sprint a ≡ host.sprint b))

  -- The value of the attribute is in the relation to the value of the leaf.
  abbrev pub Related : Operator → Json → Json → Type 0
  Related eq a v = Alike a v
  Related ne a v = Alike a v → ⊥
  Related in_list a v = (els : Items) × (v ≡ array els) × Somewhere (λ el. Alike a el) els
  Related nin a v = (els : Items) × (v ≡ array els) × (Somewhere (λ el. Alike a el) els → ⊥)
  Related has a v =
      ((s : String) × (t : String) × (a ≡ string s) × (v ≡ string t) × IsInfix t s)
      ⊎ ((els : Items) × (a ≡ array els) × Somewhere (λ el. Alike el v) els)
  Related gt a v = Numbers (λ x y. host.float_lt y x ≡ true) a v
  Related gte a v = Numbers (λ x y. host.float_le y x ≡ true) a v
  Related lt a v = Numbers (λ x y. host.float_lt x y ≡ true) a v
  Related lte a v = Numbers (λ x y. host.float_le x y ≡ true) a v
  Related exists a v = Unit {0}
  Related prefix a v = IsPrefix (text_in v) (text_in a)
  Related suffix a v = IsSuffix (text_in v) (text_in a)
  Related regex a v =
      (s : String) × (p : String) × (matcher : String → Bool) × (a ≡ string s)
      × (v ≡ string p)
      × (host.regex p ≡ some matcher)
      × (matcher s ≡ true)

  -- Without the attribute only "nin" holds.
  abbrev pub Tested : String → Option Json → Json → Type 0
  Tested op none v = op ≡ "nin"
  Tested op (some a) v = (o : Operator) × (name o ≡ op) × Related o a v

-- The leaf with this attribute path and these members holds just where the Boolean says so.
pub record LeafMeans (host : Host) (bag : AttributeBag) (attr : Json) (m : Members) (b : Bool)
    : Type 0 where
  pub path : String
  pub named : as_string attr ≡ some path
  pub op_text : Json
  pub has_op : get "op" m ≡ some op_text
  pub op : String
  pub is_op : as_string op_text ≡ some op
  pub holds : (b ≡ true) ↔ Tested host op (resolve_path path bag) (or_null (get "value" m))
