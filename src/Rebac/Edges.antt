-- ===== src/Rebac/Edges.antt =====
-- The graph of Expand shows stored tuples only, and all their ends.
use mathlib.Core.List.{Memᴰ}
use qeet_id.Base.{
  ℕ, zero, suc, ◌+◌, ◌≡◌, refl, subst, inl, inr, String, true, false, ◌||◌, List, [], ◌∷◌, arith,
  str_eq_refl, ltb, Bool-cases, All, All-append, Option, none, some,
}
use qeet_id.Errs.{Result, ok, err}
use qeet_id.Rebac.Refs.{ObjectRef, Node, key, parse_object}
use qeet_id.Rebac.Store.{as_node}
use qeet_id.Rebac.Resolve.{Tuple, Fetcher, has, userset, is_direct}
use qeet_id.Rebac.Sound.{Stored}
use qeet_id.Rebac.Expand.{
  GraphNode, GraphEdge, Graph, Expansion, aborted, expanded, out_of_fuel, graph_node_id, has_node,
  add_node, edge, add_tuple, expand_tuples, enter, expand, expand_object, expand_fuel, no_graph,
  max_expand_depth,
}

-- The edge stands for a stored tuple, and both its ends are nodes of the graph.
pub record IsShown (fetch : Fetcher) (nodes : List GraphNode) (e : GraphEdge) : Type 0 where
  pub node : Node
  pub tuple : Tuple
  pub stored : Stored fetch node tuple
  pub drawn : e ≡ edge node tuple
  pub from_known : has_node nodes e.from ≡ true
  pub to_known : has_node nodes e.to ≡ true

has_node-add_node :
    (type id : String) (nodes : List GraphNode) (k : String)
    → has_node nodes k ≡ true
    → has_node (add_node type id nodes) k ≡ true
unfolding add_node
has_node-add_node type id nodes k h = ground arith

has_node-add_node_self :
    (type id : String) (nodes : List GraphNode)
    → has_node (add_node type id nodes) (graph_node_id type id) ≡ true
unfolding add_node
has_node-add_node_self type id nodes = ground (arith, str_eq_refl (graph_node_id type id))

-- Nodes are never lost.
abbrev pub Keeps : Graph → Graph → Type 0
Keeps g h = (k : String) → has_node g.nodes k ≡ true → has_node h.nodes k ≡ true

module _ (fetch : Fetcher) where
  abbrev pub Shown : Graph → Type 0
  Shown g = All (IsShown fetch g.nodes) g.edges

  IsShown-mono :
      (ms ns : List GraphNode)
      → ((k : String) → has_node ms k ≡ true → has_node ns k ≡ true)
      → (es : List GraphEdge) → All (IsShown fetch ms) es
      → All (IsShown fetch ns) es
  IsShown-mono ms ns keep [] _ = tt
  IsShown-mono ms ns keep (e ∷ es) (s, rest) = (
    record {
      node = s.node;
      tuple = s.tuple;
      stored = s.stored;
      drawn = s.drawn;
      from_known = keep e.from s.from_known;
      to_known = keep e.to s.to_known;
    },
    IsShown-mono ms ns keep es rest,
  )

  add_tuple-Keeps : (n : Node) (t : Tuple) (g : Graph) → Keeps g (add_tuple n t g)
  unfolding add_tuple
  add_tuple-Keeps n t g k = has_node-add_node t.subject_type t.subject_id g.nodes k

  add_tuple-Shown :
      (n : Node) (t : Tuple) (g : Graph)
      → Stored fetch n t
      → has_node g.nodes (graph_node_id n.object_type n.object_id) ≡ true
      → Shown g
      → Shown (add_tuple n t g)
  unfolding add_tuple edge
  add_tuple-Shown n t g stored known shown =
      All-append (IsShown fetch _) g.edges (edge n t ∷ [])
        (IsShown-mono g.nodes _ (add_tuple-Keeps n t g) g.edges shown)
        (
          record {
            node = n;
            tuple = t;
            stored = stored;
            drawn = refl;
            from_known = add_tuple-Keeps n t g _ known;
            to_known = has_node-add_node_self t.subject_type t.subject_id g.nodes;
          },
          tt,
        )

  abbrev Draws : (Node → Graph → Expansion) → Type 0
  Draws descend =
      (m : Node) (g h : Graph) → Shown g → descend m g ≡ expanded h → Shown h × Keeps g h

  data Past (descend : Node → Graph → Expansion) (n : Node) (t : Tuple) (ts : List Tuple)
      (g h : Graph) : Type 0 where
    past_direct :
        expand_tuples descend n ts (add_tuple n t g) ≡ expanded h → Past descend n t ts g h
    past_userset :
        (mid : Graph)
        → descend (userset t) (add_tuple n t g) ≡ expanded mid
        → expand_tuples descend n ts mid ≡ expanded h
        → Past descend n t ts g h

  expand_tuples-Past :
      (descend : Node → Graph → Expansion) (n : Node) (t : Tuple) (ts : List Tuple) (g h : Graph)
      → expand_tuples descend n (t ∷ ts) g ≡ expanded h
      → Past descend n t ts g h
  unfolding expand_tuples
  expand_tuples-Past descend n t ts g h e = elim (Bool-cases (is_direct t)) [
    | inl plain ↦ past_direct (ground arith)
    | inr nested ↦ go nested (descend (userset t) (add_tuple n t g)) refl
  ]
    where
      go :
          is_direct t ≡ false
          → (r : Expansion) → descend (userset t) (add_tuple n t g) ≡ r
          → Past descend n t ts g h
      go i (aborted x) q = absurd (ground arith)
      go i (expanded mid) q = past_userset mid q (ground arith)
      go i out_of_fuel q = absurd (ground arith)

  expand_tuples-Draws :
      (descend : Node → Graph → Expansion) (n : Node) (all : List Tuple)
      → fetch n ≡ ok all
      → Draws descend
      → (ts : List Tuple) (g h : Graph) → ((t : Tuple) → Memᴰ t ts → Memᴰ t all)
      → has_node g.nodes (graph_node_id n.object_type n.object_id) ≡ true
      → Shown g
      → expand_tuples descend n ts g ≡ expanded h
      → Shown h × Keeps g h
  unfolding expand_tuples
  expand_tuples-Draws descend n all e draws [] g h sub known shown q =
      let same : g ≡ h = ground arith in subst (λ x. Shown x × Keeps g x) same (shown, λ k p. p)
  expand_tuples-Draws descend n all e draws (t ∷ ts) g h sub known shown q =
      let keep = add_tuple-Keeps n t g in
      let shown' =
        add_tuple-Shown n t g
          (record { tuples = all; fetches = e; member = sub t (Memᴰ.head refl) }) known shown in
      elim (expand_tuples-Past descend n t ts g h q) [
        | past_direct r ↦
            let (s, k) =
              expand_tuples-Draws descend n all e draws ts (add_tuple n t g) h
                (λ u m. sub u (Memᴰ.tail m)) (keep _ known) shown' r in
            (s, λ j p. k j (keep j p))
        | past_userset mid r r' ↦
            let (s, k) = draws (userset t) (add_tuple n t g) mid shown' r in
            let (s', k') =
              expand_tuples-Draws descend n all e draws ts mid h (λ u m. sub u (Memᴰ.tail m))
                (k _ (keep _ known)) s r' in
            (s', λ j p. k' j (k j (keep j p)))
      ]

  expand-Draws : (fuel d : ℕ) → Draws (λ m g. expand fetch fuel m d g)
  unfolding expand
  expand-Draws zero d m g h shown q = absurd (ground arith)
  expand-Draws (suc fuel) d m g h shown q =
      elim (Bool-cases (ltb max_expand_depth d || has g.visited (key m))) [
        | inl stopped ↦
            let same : g ≡ h = ground arith in
            subst (λ x. Shown x × Keeps g x) same (shown, λ k p. p)
        | inr going ↦ go going (fetch m) refl (expand-Draws fuel (d + 1))
      ]
    where
      keep : Keeps g (enter m g)
      keep k p = unfold enter in has_node-add_node m.object_type m.object_id g.nodes k p

      go :
          (ltb max_expand_depth d || has g.visited (key m)) ≡ false
          → (r : Result (List Tuple)) → fetch m ≡ r
          → Draws (λ k x. expand fetch fuel k (d + 1) x)
          → Shown h × Keeps g h
      go i (err x) r ih = absurd (ground arith)
      go i (ok ts) r ih =
          let (s, k) =
            expand_tuples-Draws _ m ts r ih ts (enter m g) h (λ _ z. z)
              (unfold enter in has_node-add_node_self m.object_type m.object_id g.nodes)
              (unfold enter in IsShown-mono g.nodes _ keep g.edges shown)
              (rw (i, r, expand) at q) in
          (s, λ j p. k j (keep j p))

  expand-Shown :
      (fuel : ℕ) (n : Node) (h : Graph) → expand fetch fuel n 0 no_graph ≡ expanded h → Shown h
  expand-Shown fuel n h e = (expand-Draws fuel 0 n no_graph h tt e).0

-- Every edge of the graph that Expand returns is a stored tuple, drawn between two of its nodes.
pub expand_object-Shown :
    (fetch : Fetcher) (object relation : String) (h : Graph)
    → expand_object fetch object relation ≡ ok (expanded h)
    → Shown fetch h
unfolding expand_object
expand_object-Shown fetch object relation h e = go (parse_object object) refl
  where
    go : (o : Option ObjectRef) → parse_object object ≡ o → Shown fetch h
    go none q = absurd (ground arith)
    go (some o) q = expand-Shown fetch expand_fuel (as_node o relation) h (ground arith)
