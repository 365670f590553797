-- ===== src/Abac/ServiceTests.antt =====
-- Changes of the table of policies, and the results at them.
use qeet_id.Base.{
  ℕ, ◌≡◌, refl, ◌⊎◌, String, true, false, none, List, [], ◌∷◌, ◌++◌, ltb, leb, ◌==◌, trim_space,
}
use qeet_id.Abac.Json.{Json, string, object, braces, member, end, get}
use qeet_id.Abac.Compare.{Host, operator_of}
use qeet_id.Abac.Condition.{json, depth}
use qeet_id.Abac.Validate.{validate_condition, validate_node}
use qeet_id.Abac.Decide.{Policy, EvaluationInput, list_candidates}
use qeet_id.Abac.Service.{Input, Entry, create, delete, check_input}
use qeet_id.Abac.Stored.{Op, creates, deletes, apply_op, apply_all, no_policies}
use qeet_id.Abac.Effects.{apply_op-isolated, apply_op-log}

abbrev host : Host
host = record {
  float_eq = λ x y. x == y;
  float_lt = ltb;
  float_le = leb;
  sprint = λ j. "";
  regex = λ p. none;
}

abbrev request : EvaluationInput
request = record {
  subject = object (member "team" (string "eng") end);
  resource_type = "doc";
  resource_id = "readme";
  resource_attrs = end;
  action = "edit";
  context = braces;
}

abbrev bad_in : Json
bad_in = object (
    member "attr" (string "subject.team")
      (member "op" (string "in") (member "value" (string "eng") end)))

abbrev policy : ℕ → String → String → Json → Policy
policy id name effect condition = record {
  id = id;
  tenant = 7;
  name = name;
  effect = effect;
  resource_type = "doc";
  action = "edit";
  condition = json condition;
  priority = 10;
  enabled = true;
}

-- Creating a rule, taking its name a second time, and deleting it for the wrong tenant.
abbrev team_input : Input
team_input = record {
  name = "team";
  effect = "allow";
  resource_type = "doc";
  action = "edit";
  condition = json bad_in;
  priority = 10;
  enabled = true;
}

abbrev changes : List Op
changes = creates 1 7 team_input ∷ creates 2 7 team_input ∷ deletes 1 8 ∷ []

team_stored :
    (apply_all changes no_policies).policies
    ≡ record {
      id = 1;
      tenant = 7;
      name = "team";
      effect = "allow";
      resource_type = "doc";
      action = "edit";
      condition = json bad_in;
      priority = 10;
      enabled = true;
    }
      ∷ []
unfolding apply_all apply_op create delete check_input validate_condition validate_node get
    operator_of depth trim_space
team_stored = refl

apply_op-isolated_example :
    list_candidates 8 request (apply_op (creates 1 7 team_input) no_policies).1.policies
    ≡ list_candidates 8 request no_policies.policies
apply_op-isolated_example = apply_op-isolated (creates 1 7 team_input) no_policies 8 request refl

apply_op-log_example :
    (((apply_op (deletes 1 8) no_policies).0 ≡ true)
      × ((e : Entry) × ((apply_op (deletes 1 8) no_policies).1.log ≡ no_policies.log ++ e ∷ [])
          × (e.tenant ≡ 8)))
    ⊎ (((apply_op (deletes 1 8) no_policies).0 ≡ false)
        × ((apply_op (deletes 1 8) no_policies).1 ≡ no_policies))
apply_op-log_example = apply_op-log (deletes 1 8) no_policies
