-- ===== src/Rebac/Expand.antt =====
-- The relationship graph of Expand (rebac.go, `expand`). The maps of visited keys and of nodes are
-- lists, the slice behind `edges` is a list, and the three are passed on as one record.
use qeet_id.Base.{
  ℕ, zero, suc, ◌+◌, String, Bool, false, ◌||◌, List, [], ◌∷◌, ◌++◌, str_eq, ltb, if◌then◌else◌,
  not, trim_space,
}
use qeet_id.Errs.{Error, Result, ok, err, ◌>>=◌, ◌>>◌, guard, unprocessable}
use qeet_id.Rebac.Refs.{Node, key, ◌+s◌, parse_object}
use qeet_id.Rebac.Resolve.{Tuple, Fetcher, has, userset, is_direct}
use qeet_id.Rebac.Store.{or_unprocessable, object_detail, as_node}

abbrev pub max_expand_depth : ℕ
max_expand_depth = 10

pub record GraphNode : Type 0 where
  pub id : String
  pub type : String
  pub label : String

pub record GraphEdge : Type 0 where
  pub from : String
  pub to : String
  pub relation : String

pub record Graph : Type 0 where
  pub visited : List String
  pub nodes : List GraphNode
  pub edges : List GraphEdge

pub data Expansion : Type 0 where
  aborted : Error → Expansion
  expanded : Graph → Expansion
  out_of_fuel : Expansion

abbrev pub graph_node_id : String → String → String
graph_node_id type id = type +s ":" +s id

unfoldable pub has_node : List GraphNode → String → Bool
has_node [] id = false
has_node (n ∷ ns) id = str_eq n.id id || has_node ns id

-- `if _, ok := nodes[id]; !ok { nodes[id] = … }`
unfoldable pub add_node : String → String → List GraphNode → List GraphNode
unfolding has_node
add_node type id nodes =
    let n = graph_node_id type id in
    if has_node nodes n then nodes else record { id = n; type = type; label = id } ∷ nodes

unfoldable pub edge : Node → Tuple → GraphEdge
edge n t = record {
  from = graph_node_id n.object_type n.object_id;
  to = graph_node_id t.subject_type t.subject_id;
  relation = if is_direct t then n.relation else n.relation +s " → " +s t.subject_relation;
}

-- The body of the loop, up to the recursive call.
unfoldable pub add_tuple : Node → Tuple → Graph → Graph
unfolding add_node edge
add_tuple n t g = record g {
  nodes = add_node t.subject_type t.subject_id g.nodes;
  edges = g.edges ++ edge n t ∷ [];
}

unfoldable pub expand_tuples : (Node → Graph → Expansion) → Node → List Tuple → Graph → Expansion
unfolding add_tuple
expand_tuples descend n [] g = expanded g
expand_tuples descend n (t ∷ ts) g =
    let skip = expand_tuples descend n ts (add_tuple n t g) in
    let into : Expansion = elim (descend (userset t) (add_tuple n t g)) [
      | aborted e ↦ aborted e
      | expanded g' ↦ expand_tuples descend n ts g'
      | out_of_fuel ↦ out_of_fuel
    ] in
    if is_direct t then skip else into

abbrev pub fetched : Result (List Tuple) → (List Tuple → Expansion) → Expansion
fetched (err e) k = aborted e
fetched (ok ts) k = k ts

unfoldable pub enter : Node → Graph → Graph
unfolding add_node
enter n g = record g {
  visited = key n ∷ g.visited;
  nodes = add_node n.object_type n.object_id g.nodes;
}

unfoldable pub expand : Fetcher → ℕ → Node → ℕ → Graph → Expansion
unfolding expand_tuples enter
expand fetch zero n depth g = out_of_fuel
expand fetch (suc fuel) n depth g =
    let below = λ (m : Node) (h : Graph). expand fetch fuel m (depth + 1) h in
    if ltb max_expand_depth depth || has g.visited (key n)
    then expanded g
    else fetched (fetch n) (λ ts. expand_tuples below n ts (enter n g))

abbrev pub no_graph : Graph
no_graph = record { visited = []; nodes = []; edges = [] }

abbrev pub expand_fuel : ℕ
expand_fuel = 12

-- `Expand`. The source clamps its `depth` argument and then passes 0 to the recursion: the argument
-- is read by nothing, so it is left out.
unfoldable pub expand_object : Fetcher → String → String → Result Expansion
expand_object fetch object relation = do
  o ← or_unprocessable object_detail (parse_object object)
  guard (not (str_eq (trim_space relation) "")) (unprocessable "relation is required")
  ok (expand fetch expand_fuel (as_node o relation) 0 no_graph)
