-- ===== src/Rebac/Resolve.antt =====
-- The recursive Check (rebac.go, `resolve`). The map of visited keys is passed on from call to call,
-- as the list of its keys. Fuel bounds the nesting of the calls: see `Rebac/Total`.
use qeet_id.Base.{
  ℕ, zero, suc, ◌+◌, String, Bool, false, ◌&&◌, ◌||◌, List, [], ◌∷◌, str_eq, ltb, if◌then◌else◌,
}
use qeet_id.Errs.{Error, Result, ok, err}
use qeet_id.Rebac.Refs.{Node, key, subject_string, ◌+s◌}

abbrev pub max_depth : ℕ
max_depth = 25

-- The subject side of a relationship.
pub record Tuple : Type 0 where
  pub subject_type : String
  pub subject_id : String
  pub subject_relation : String

abbrev pub Fetcher : Type 0
Fetcher = Node → Result (List Tuple)

pub record ExplainStep : Type 0 where
  pub object : String
  pub relation : String
  pub subject : String
  pub depth : ℕ

-- (false, nil, err), (true, path, nil), and (false, nil, nil) with the visited set as it is left.
pub data Search : Type 0 where
  failed : Error → Search
  found : List ExplainStep → Search
  missed : List String → Search
  out_of_fuel : Search

unfoldable pub has : List String → String → Bool
has [] k = false
has (j ∷ js) k = str_eq j k || has js k

abbrev pub userset : Tuple → Node
userset t = record {
  object_type = t.subject_type;
  object_id = t.subject_id;
  relation = t.subject_relation;
}

unfoldable pub explain_step : Node → Tuple → ℕ → ExplainStep
unfolding subject_string
explain_step n t depth = record {
  object = n.object_type +s ":" +s n.object_id;
  relation = n.relation;
  subject = subject_string t.subject_type t.subject_id t.subject_relation;
  depth = depth;
}

-- `t.subjectRelation == ""`
abbrev pub is_direct : Tuple → Bool
is_direct t = str_eq t.subject_relation ""

abbrev pub is_user : String → Tuple → Bool
is_user user t = str_eq t.subject_type "user" && str_eq t.subject_id user

-- The loop over the fetched tuples; `descend` is the recursive call.
unfoldable pub walk :
    (Node → List String → Search) → Node → String → ℕ → List Tuple → List String → Search
walk descend n user depth [] visited = missed visited
walk descend n user depth (t ∷ ts) visited =
    let skip = walk descend n user depth ts visited in
    let via : Search = elim (descend (userset t) visited) [
      | failed e ↦ failed e
      | found path ↦ found (explain_step n t depth ∷ path)
      | missed visited' ↦ walk descend n user depth ts visited'
      | out_of_fuel ↦ out_of_fuel
    ] in
    if is_direct t
    then (if is_user user t then found (explain_step n t depth ∷ []) else skip)
    else via

-- What follows the two guards: the key is marked, then the tuples are fetched.
abbrev pub fetched : Result (List Tuple) → (List Tuple → Search) → Search
fetched (err e) k = failed e
fetched (ok ts) k = k ts

unfoldable pub resolve : Fetcher → ℕ → Node → String → List String → ℕ → Search
unfolding walk
resolve fetch zero n user visited depth = out_of_fuel
resolve fetch (suc fuel) n user visited depth =
    let below = λ (m : Node) (v : List String). resolve fetch fuel m user v (depth + 1) in
    if ltb max_depth depth || has visited (key n)
    then missed visited
    else fetched (fetch n) (λ ts. walk below n user depth ts (key n ∷ visited))
