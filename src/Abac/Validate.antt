-- ===== src/Abac/Validate.antt =====
-- The structural check of a condition (abac.go, `validateCondition`). The texts of the errors are
-- left out; which check fails, and where in the tree, is kept.
use qeet_id.Base.{ℕ, zero, suc, String, Option, none, some, str_eq, if◌then◌else◌}
use qeet_id.Abac.Json.{Json, null, braces, object, Items, nil, item, Members, get}
use qeet_id.Abac.Compare.{
  CondError, not_an_object, bad_attr, missing_op, op_not_string, no_key, all_not_array,
  any_not_array, unknown_operator, in_all, in_any, in_not, operator_of,
}
use qeet_id.Abac.Condition.{Raw, blank, malformed, json, as_string, as_children, depth}

pub data Verdict : Type 0 where
  valid : Verdict
  invalid : CondError → Verdict
  out_of_fuel : Verdict

abbrev pub at : (CondError → CondError) → Verdict → Verdict
at f (invalid e) = invalid (f e)
at f v = v

-- `if err := …; err != nil { return err }`
infixl 5 ◌then_check◌
abbrev pub ◌then_check◌ : Verdict → Verdict → Verdict
valid then_check v = v
invalid e then_check v = invalid e
out_of_fuel then_check v = out_of_fuel

abbrev pub check_op : Option String → Verdict
check_op none = invalid op_not_string
check_op (some op) = elim (operator_of op) [ none ↦ invalid (unknown_operator op) | some _ ↦ valid ]

abbrev pub check_op_member : Option Json → Verdict
check_op_member none = invalid missing_op
check_op_member (some op) = check_op (as_string op)

abbrev pub check_leaf : Option String → Members → Verdict
check_leaf none m = invalid bad_attr
check_leaf (some attr) m = if str_eq attr "" then invalid bad_attr else check_op_member (get "op" m)

unfoldable pub check_children : (Json → Verdict) → (ℕ → CondError → CondError) → ℕ → Items → Verdict
check_children check f i nil = valid
check_children check f i (item c cs) =
    let rest = check_children check f (suc i) cs in at (f i) (check c) then_check rest

abbrev pub check_list :
    (Json → Verdict) → (ℕ → CondError → CondError) → CondError → Option Items → Verdict
check_list check f e none = invalid e
check_list check f e (some cs) = check_children check f zero cs

abbrev pub check_key :
    (Json → Verdict) → Members → Option Json → Option Json → Option Json → Option Json → Verdict
check_key check m (some v) any_v not_v attr = check_list check in_all all_not_array (as_children v)
check_key check m none (some v) not_v attr = check_list check in_any any_not_array (as_children v)
check_key check m none none (some c) attr = at in_not (check c)
check_key check m none none none (some attr) = check_leaf (as_string attr) m
check_key check m none none none none = invalid no_key

unfoldable pub validate_node : ℕ → Json → Verdict
unfolding check_children
validate_node zero j = out_of_fuel
validate_node (suc fuel) null = valid
validate_node (suc fuel) braces = valid
validate_node (suc fuel) (object m) =
    check_key (λ c. validate_node fuel c) m (get "all" m) (get "any" m) (get "not" m) (get "attr" m)
validate_node (suc fuel) _ = invalid not_an_object

unfoldable pub validate_condition : Raw → Verdict
validate_condition blank = valid
validate_condition malformed = invalid not_an_object
validate_condition (json j) = validate_node (suc (depth j)) j
