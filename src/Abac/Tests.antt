-- ===== src/Abac/Tests.antt =====
-- The conditions and policies of two sample rules, and the results at them.
use qeet_id.Base.{
  ℕ, ◌≡◌, refl, ◌≢◌, ◌↔◌, String, true, false, Option, none, some, List, [], ◌∷◌, ltb, leb, ◌==◌,
  arith, trim_space, str_eq_iff, not, ◌&&◌, any, cut,
}
use qeet_id.Errs.{Result}
use qeet_id.Abac.Json.{
  Json, string, array, braces, object, nil, item, end, member, get, resolve_path, split_dots,
  walk_path,
}
use qeet_id.Abac.Compare.{
  Host, ok, err, panicked, in_not_array, compare, apply, equal, go_eq, operator_of, is_in,
  any_equal, contains,
}
use qeet_id.Abac.Condition.{
  json, evaluate_condition, evaluate_node, eval_leaf, depth, eval_all, eval_any,
}
use qeet_id.Abac.Meaning.{Means}
use qeet_id.Abac.Faithful.{evaluate_condition_iff}
use qeet_id.Abac.Validate.{valid, validate_condition, validate_node}
use qeet_id.Abac.TypeErrors.{IsTypeError}
use qeet_id.Abac.Validated.{validate-evaluate}
use qeet_id.Abac.Panic.{eq_leaf, array_equality_panics}
use qeet_id.Abac.Decide.{
  Policy, EvaluationInput, attribute_bag, Decision, decided, evaluate, tally, on_match, matched,
  explicitly_denied,
}
use qeet_id.Abac.DenyWins.{evaluate_decision, denies, allows, first, or_id}

-- Floats by their patterns, and a %v that prints nothing of use.
abbrev host : Host
host = record {
  float_eq = λ x y. x == y;
  float_lt = ltb;
  float_le = leb;
  sprint = λ j. "";
  regex = λ p. none;
}

abbrev leaf : String → String → Json → Json
leaf path op value =
    object (member "attr" (string path) (member "op" (string op) (member "value" value end)))

abbrev tags : Json
tags = array (item (string "blue") (item (string "red") nil))

abbrev request : EvaluationInput
request = record {
  subject = object (member "team" (string "eng") (member "tags" tags end));
  resource_type = "doc";
  resource_id = "readme";
  resource_attrs = end;
  action = "edit";
  context = braces;
}

abbrev in_team : Json
in_team = leaf "subject.team" "in" (array (item (string "ops") (item (string "eng") nil)))

abbrev not_red : Json
not_red = object (member "not" (leaf "subject.tags" "contains" (string "red")) end)

abbrev both : Json
both = object (member "all" (array (item in_team (item not_red nil))) end)

abbrev bad_in : Json
bad_in = leaf "subject.team" "in" (string "eng")

both_fail : evaluate_condition host (attribute_bag request) (json both) ≡ ok false
unfolding evaluate_condition evaluate_node eval_all eval_any eval_leaf compare apply is_in any_equal
    equal go_eq operator_of get attribute_bag resolve_path walk_path split_dots depth cut contains
both_fail = refl

evaluate_condition_iff_example : Means host (attribute_bag request) both false ↔ (false ≡ false)
evaluate_condition_iff_example =
    evaluate_condition_iff host (attribute_bag request) both false false both_fail

bad_in_valid : validate_condition (json bad_in) ≡ valid
unfolding validate_condition validate_node get operator_of depth
bad_in_valid = refl

bad_in_fails : evaluate_condition host (attribute_bag request) (json bad_in) ≡ err in_not_array
unfolding evaluate_condition evaluate_node eval_leaf compare apply is_in operator_of get
    attribute_bag resolve_path walk_path split_dots depth cut
bad_in_fails = refl

validate-evaluate_example : IsTypeError in_not_array
validate-evaluate_example =
    validate-evaluate host (attribute_bag request) (json bad_in) in_not_array bad_in_valid
      bad_in_fails

tags_found :
    resolve_path "subject.tags" (attribute_bag request)
    ≡ some (array (item (string "blue") (item (string "red") nil)))
unfolding resolve_path walk_path split_dots get attribute_bag cut
tags_found = refl

named : ◌≢◌ {A = String} "subject.tags" ""
named = ground (arith, str_eq_iff "subject.tags" "")

array_equality_panics_example :
    (validate_condition (json (object (eq_leaf "subject.tags" nil))) ≡ valid)
    × (evaluate_condition host (attribute_bag request) (json (object (eq_leaf "subject.tags" nil)))
        ≡ panicked)
array_equality_panics_example =
    array_equality_panics host (attribute_bag request) "subject.tags"
      (item (string "blue") (item (string "red") nil)) nil named tags_found

abbrev policy : ℕ → String → String → Json → Policy
policy id name effect condition = record {
  id = id;
  tenant = 7;
  name = name;
  effect = effect;
  resource_type = "doc";
  action = "edit";
  condition = json condition;
  priority = 10;
  enabled = true;
}

-- The team may edit, but what is tagged red may not be edited.
abbrev rules : List Policy
rules =
    policy 1 "team" "allow" in_team
    ∷ policy 2 "red" "deny" (leaf "subject.tags" "contains" (string "red"))
    ∷ []

abbrev refusal : Decision
refusal = record {
  allow = false;
  effect = "deny";
  matched_policy_id = some 2;
  reason = explicitly_denied "red" 10;
  trace = matched "team" "allow" 10 ∷ matched "red" "deny" 10 ∷ [];
}

red_refused : evaluate host request rules ≡ Result.ok (decided refusal)
unfolding evaluate tally on_match evaluate_condition evaluate_node eval_leaf compare apply is_in
    any_equal equal go_eq operator_of get attribute_bag resolve_path walk_path split_dots depth cut
    contains trim_space
red_refused = refl

evaluate_decision_example :
    let eval = λ (p : Policy). evaluate_condition host (attribute_bag request) p.condition in
    (false ≡ (not (any (denies eval) rules) && any (allows eval) rules))
    × (◌≡◌ {A = Option ℕ} (some 2) (or_id (first (denies eval) rules) (first (allows eval) rules)))
evaluate_decision_example = evaluate_decision host request rules refusal red_refused

action_given : trim_space request.action ≢ ""
unfolding trim_space
action_given = ground (arith, str_eq_iff "edit" "")

team_calm : evaluate_condition host (attribute_bag request) (json in_team) ≢ panicked
unfolding evaluate_condition evaluate_node eval_leaf compare apply is_in any_equal equal go_eq
    operator_of get attribute_bag resolve_path walk_path split_dots depth cut
team_calm = ground arith
