-- ===== src/Abac/Decide.antt =====
-- The decision over a tenant's policies (abac.go, `Evaluate`). The texts of reasons and of trace lines
-- are kept as the data that they are formatted from.
use qeet_id.Base.{
  ℕ, String, Bool, true, false, not, ◌&&◌, ◌||◌, Option, none, some, List, [], ◌∷◌, ◌++◌, str_eq,
  ◌==◌, if◌then◌else◌, trim_space, is_some,
}
use qeet_id.Errs.{Result, ok, err, unprocessable}
use qeet_id.Abac.Json.{Json, null, string, braces, object, Members, end, member, AttributeBag}
use qeet_id.Abac.Compare.{Host, CondError, Outcome, panicked, out_of_fuel}
use qeet_id.Abac.Condition.{Raw, evaluate_condition}

pub record Policy : Type 0 where
  pub id : ℕ
  pub tenant : ℕ
  pub name : String
  pub effect : String
  pub resource_type : String
  pub action : String
  pub condition : Raw
  pub priority : ℕ
  pub enabled : Bool

-- `null` stands for a nil map.
pub record EvaluationInput : Type 0 where
  pub subject : Json
  pub resource_type : String
  pub resource_id : String
  pub resource_attrs : Members
  pub action : String
  pub context : Json

-- The WHERE clause of ListEvaluationCandidates.
abbrev pub is_candidate : ℕ → EvaluationInput → Policy → Bool
is_candidate tenant input p =
    p.tenant == tenant
    && (p.enabled
        && ((str_eq p.resource_type input.resource_type || str_eq p.resource_type "*")
            && (str_eq p.action input.action || str_eq p.action "*")))

unfoldable pub list_candidates : ℕ → EvaluationInput → List Policy → List Policy
list_candidates tenant input [] = []
list_candidates tenant input (p ∷ ps) =
    let rest = list_candidates tenant input ps in
    if is_candidate tenant input p then p ∷ rest else rest

-- `if subject == nil { subject = map[string]any{} }`
abbrev pub or_empty : Json → Json
or_empty null = braces
or_empty j = j

-- The attributes of the request override "type" and "id", since the last member of a key counts.
unfoldable pub attribute_bag : EvaluationInput → AttributeBag
attribute_bag input = member "subject" (or_empty input.subject) (
    member "resource"
      (object (
        member "type" (string input.resource_type)
          (member "id" (string input.resource_id) input.resource_attrs)))
      (member "context" (or_empty input.context) end))

pub data TraceLine : Type 0 where
  failed : String → CondError → TraceLine
  matched not_matched : String → String → ℕ → TraceLine
  default_deny : TraceLine

pub data Reason : Type 0 where
  condition_error : String → CondError → Reason
  explicitly_denied allowed_by : String → ℕ → Reason
  no_matching_allow : Reason

pub record Decision : Type 0 where
  pub allow : Bool
  pub effect : String
  pub matched_policy_id : Option ℕ
  pub reason : Reason
  pub trace : List TraceLine

-- What the loop keeps: the first policy that denies and the first that allows, with the reasons.
pub record Tally : Type 0 where
  pub deny : Option (ℕ × Reason)
  pub allow : Option (ℕ × Reason)
  pub trace : List TraceLine

abbrev pub or_first : Option (ℕ × Reason) → ℕ → Reason → Option (ℕ × Reason)
or_first (some a) id r = some a
or_first none id r = some (id, r)

-- One round for a policy whose condition evaluated to an error, to true, or to false.
unfoldable pub on_error : Policy → CondError → Tally → Tally
on_error p e t = record t {
  trace = t.trace ++ failed p.name e ∷ [];
  deny = or_first t.deny p.id (condition_error p.name e);
}

unfoldable pub on_match : Policy → Tally → Tally
on_match p t =
    let line = matched p.name p.effect p.priority in
    if str_eq p.effect "deny" && not (is_some t.deny)
    then record t {
      trace = t.trace ++ line ∷ [];
      deny = some (p.id, explicitly_denied p.name p.priority);
    }
    else if str_eq p.effect "allow" && not (is_some t.allow)
    then record t {
      trace = t.trace ++ line ∷ [];
      allow = some (p.id, allowed_by p.name p.priority);
    }
    else record t { trace = t.trace ++ line ∷ [] }

unfoldable pub on_mismatch : Policy → Tally → Tally
on_mismatch p t = record t { trace = t.trace ++ not_matched p.name p.effect p.priority ∷ [] }

-- A panic in a condition ends the request.
pub data Verdict : Type 0 where
  crashed : Verdict
  decided : Decision → Verdict

abbrev pub conclude : Option (ℕ × Reason) → Option (ℕ × Reason) → List TraceLine → Decision
conclude (some (id, r)) allow trace = record {
  allow = false;
  effect = "deny";
  matched_policy_id = some id;
  reason = r;
  trace = trace;
}
conclude none (some (id, r)) trace = record {
  allow = true;
  effect = "allow";
  matched_policy_id = some id;
  reason = r;
  trace = trace;
}
conclude none none trace = record {
  allow = false;
  effect = "deny";
  matched_policy_id = none;
  reason = no_matching_allow;
  trace = trace ++ default_deny ∷ [];
}

-- The loop, then the decision.
unfoldable pub tally : (Policy → Outcome) → List Policy → Tally → Verdict
unfolding on_error on_match on_mismatch
tally eval [] t = decided (conclude t.deny t.allow t.trace)
tally eval (p ∷ ps) t = elim (eval p) [
  | Outcome.ok true ↦ tally eval ps (on_match p t)
  | Outcome.ok false ↦ tally eval ps (on_mismatch p t)
  | Outcome.err e ↦ tally eval ps (on_error p e t)
  | panicked ↦ crashed
  | out_of_fuel ↦ crashed
]

abbrev pub no_tally : Tally
no_tally = record { deny = none; allow = none; trace = [] }

-- `rows` are the candidates in the order in which the database returns them, by falling priority.
unfoldable pub evaluate : Host → EvaluationInput → List Policy → Result Verdict
evaluate host input rows =
    if str_eq (trim_space input.action) ""
    then err (unprocessable "action is required")
    else ok (tally (λ p. evaluate_condition host (attribute_bag input) p.condition) rows no_tally)
