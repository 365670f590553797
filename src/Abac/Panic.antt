-- ===== src/Abac/Panic.antt =====
-- A condition that `Create` accepts and that panics (abac.go, `equal`).
use qeet_id.Base.{◌≡◌, ◌≢◌, String, some, arith, str_eq_iff}
use qeet_id.Abac.Json.{
  string, array, object, Items, Members, end, member, get, AttributeBag, resolve_path,
}
use qeet_id.Abac.Compare.{Host, panicked, go_eq, equal, compare, operator_of, apply}
use qeet_id.Abac.Condition.{json, evaluate_condition, evaluate_node, eval_leaf}
use qeet_id.Abac.Validate.{valid, validate_condition, validate_node}

-- { "attr": path, "op": "eq", "value": ys }
abbrev pub eq_leaf : String → Items → Members
eq_leaf path ys =
    member "attr" (string path) (member "op" (string "eq") (member "value" (array ys) end))

-- A leaf that tests an attribute for equality with an array is accepted by the structural check, and
-- its evaluation panics on every request where the attribute is an array too, equal or not.
pub array_equality_panics :
    (host : Host) (bag : AttributeBag) (path : String) (xs ys : Items)
    → path ≢ ""
    → resolve_path path bag ≡ some (array xs)
    → (validate_condition (json (object (eq_leaf path ys))) ≡ valid)
      × (evaluate_condition host bag (json (object (eq_leaf path ys))) ≡ panicked)
unfolding validate_condition validate_node evaluate_condition evaluate_node get operator_of
    eval_leaf compare equal apply go_eq
array_equality_panics host bag path xs ys named found =
    (ground (arith, str_eq_iff path ""), ground (arith, found, str_eq_iff path ""))
