-- ===== src/Abac/Condition.antt =====
-- The condition evaluator (abac.go, `evalLeaf`, `evaluateNode`, `EvaluateCondition`). Fuel bounds the
-- depth of the tree: see `Abac/Total`. The texts of the errors are left out.
use Prim.Native.Nat.{max}
use qeet_id.Base.{ℕ, zero, suc, String, true, false, not, Option, none, some, str_eq, if◌then◌else◌}
use qeet_id.Abac.Json.{
  Json, null, string, array, braces, object, Items, nil, item, Members, end, member, get,
  AttributeBag, resolve_path,
}
use qeet_id.Abac.Compare.{
  Host, CondError, not_an_object, bad_attr, missing_op, op_not_string, no_key, all_not_array,
  any_not_array, in_all, in_any, in_not, Outcome, ok, err, out_of_fuel, ◌>>=◌, compare,
}

-- A json.RawMessage: no bytes at all, bytes that are no JSON, or JSON. What one holds inside an
-- object or an array is always JSON.
pub data Raw : Type 0 where
  blank : Raw
  malformed : Raw
  json : Json → Raw

-- `json.Unmarshal` of a value into a string: null leaves it empty.
abbrev pub as_string : Json → Option String
as_string (string s) = some s
as_string null = some String.[]
as_string _ = none

-- `json.Unmarshal` of a value into a []json.RawMessage: null leaves it empty.
abbrev pub as_children : Json → Option Items
as_children (array els) = some els
as_children null = some nil
as_children _ = none

-- The error context "all[i]: …" of the child that failed.
abbrev pub within : (CondError → CondError) → Outcome → Outcome
within f (err e) = err (f e)
within f o = o

-- An absent "value" leaves the `any` nil.
abbrev pub or_null : Option Json → Json
or_null none = null
or_null (some v) = v

module _ (host : Host) (bag : AttributeBag) where
  -- The leaf once 'attr' and 'op' are read.
  abbrev pub test_leaf : String → String → Option Json → Option Json → Outcome
  test_leaf attr op none value = if str_eq op "nin" then ok true else ok false
  test_leaf attr op (some attr_val) value = compare host op attr_val (or_null value)

  abbrev pub leaf_with_op : String → Option String → Option Json → Outcome
  leaf_with_op attr none value = err op_not_string
  leaf_with_op attr (some op) value =
      if str_eq op "exists"
      then elim (resolve_path attr bag) [ none ↦ ok false | some _ ↦ ok true ]
      else test_leaf attr op (resolve_path attr bag) value

  abbrev pub leaf_with_attr : Option String → Members → Outcome
  leaf_with_attr none m = err bad_attr
  leaf_with_attr (some attr) m = if str_eq attr "" then err bad_attr else elim (get "op" m) [
    | none ↦ err missing_op
    | some op ↦ leaf_with_op attr (as_string op) (get "value" m)
  ]

  -- `evalLeaf`, called when "attr" is present.
  unfoldable pub eval_leaf : Json → Members → Outcome
  eval_leaf attr m = leaf_with_attr (as_string attr) m

  -- The loops over the children, from index `i` on.
  unfoldable pub eval_all : (Json → Outcome) → ℕ → Items → Outcome
  eval_all eval i nil = ok true
  eval_all eval i (item c cs) =
      let rest = eval_all eval (suc i) cs in
      within (in_all i) (eval c) >>= λ holds. if holds then rest else ok false

  unfoldable pub eval_any : (Json → Outcome) → ℕ → Items → Outcome
  eval_any eval i nil = ok false
  eval_any eval i (item c cs) =
      let rest = eval_any eval (suc i) cs in
      within (in_any i) (eval c) >>= λ holds. if holds then ok true else rest

  abbrev pub over_children : (Items → Outcome) → CondError → Option Items → Outcome
  over_children f e none = err e
  over_children f e (some cs) = f cs

  -- The `switch` over the keys of an object, in the order of its cases.
  abbrev pub by_key :
      (Json → Outcome) → Members → Option Json → Option Json → Option Json → Option Json → Outcome
  by_key eval m (some v) any_v not_v attr =
      over_children (eval_all eval zero) all_not_array (as_children v)
  by_key eval m none (some v) not_v attr =
      over_children (eval_any eval zero) any_not_array (as_children v)
  by_key eval m none none (some c) attr = within in_not (eval c) >>= λ holds. ok (not holds)
  by_key eval m none none none (some attr) = eval_leaf attr m
  by_key eval m none none none none = err no_key

  unfoldable pub evaluate_node : ℕ → Json → Outcome
  unfolding eval_all eval_any
  evaluate_node zero j = out_of_fuel
  evaluate_node (suc fuel) null = ok true
  evaluate_node (suc fuel) braces = ok true
  evaluate_node (suc fuel) (object m) =
      by_key (λ c. evaluate_node fuel c) m (get "all" m) (get "any" m) (get "not" m) (get "attr" m)
  evaluate_node (suc fuel) _ = err not_an_object

unfoldable mutual
  pub depth : Json → ℕ
  depth (array cs) = suc (depth_items cs)
  depth (object m) = suc (depth_members m)
  depth _ = 0

  pub depth_items : Items → ℕ
  depth_items nil = 0
  depth_items (item c cs) = max (depth c) (depth_items cs)

  pub depth_members : Members → ℕ
  depth_members end = 0
  depth_members (member k v ms) = max (depth v) (depth_members ms)

unfoldable pub evaluate_condition : Host → AttributeBag → Raw → Outcome
evaluate_condition host bag blank = ok true
evaluate_condition host bag malformed = err not_an_object
evaluate_condition host bag (json j) = evaluate_node host bag (suc (depth j)) j
