-- ===== src/Abac/Total.antt =====
-- The fuel of the evaluator is enough: one more than the depth of the tree.
use qeet_id.Base.{
  ℕ, zero, suc, ◌≤◌, ◌<◌, ◌≡◌, refl, ◌≢◌, ◌⊎◌, ap, String, Bool, true, false, Option, none, some,
  arith, str_eq, Option-cases, inl, inr,
}
use qeet_id.Abac.Json.{
  Json, null, boolean, number, string, array, braces, object, Items, nil, item, Members, end,
  member, get, or_else, when, AttributeBag, resolve_path,
}
use qeet_id.Abac.Compare.{
  Host, CondError, Outcome, err, out_of_fuel, missing_op, go_eq, equal, any_equal, is_in, not_in,
  contains, matches, compare, apply, operator_of, Operator, eq, ne, in_list, nin, has, regex,
}
use qeet_id.Abac.Condition.{
  eval_leaf, eval_all, eval_any, evaluate_node, evaluate_condition, Raw, blank, malformed, json,
  depth, depth_items, depth_members, as_children, as_string, over_children, by_key, test_leaf,
  leaf_with_op, leaf_with_attr, or_null,
}

module _ (host : Host) where
  go_eq-ne-fuel : (a b : Json) → go_eq host a b ≢ out_of_fuel
  unfolding go_eq
  go_eq-ne-fuel null b = ground arith
  go_eq-ne-fuel (boolean x) b = ground arith
  go_eq-ne-fuel (number x) b = ground arith
  go_eq-ne-fuel (string x) b = ground arith
  go_eq-ne-fuel (array x) b = ground arith
  go_eq-ne-fuel braces b = ground arith
  go_eq-ne-fuel (object x) b = ground arith

  equal-ne-fuel : (a b : Json) → equal host a b ≢ out_of_fuel
  unfolding equal
  equal-ne-fuel a b = ground (arith, go_eq-ne-fuel a b)

  any_equal-ne-fuel :
      (test : Json → Outcome) (els : Items)
      → ((el : Json) → test el ≢ out_of_fuel)
      → any_equal test els ≢ out_of_fuel
  unfolding any_equal
  any_equal-ne-fuel test nil h = ground arith
  any_equal-ne-fuel test (item el els) h = ground (arith, h el, any_equal-ne-fuel test els h)

  is_in-ne-fuel : (a b : Json) → is_in host a b ≢ out_of_fuel
  unfolding is_in
  is_in-ne-fuel a (array els) = any_equal-ne-fuel _ els (equal-ne-fuel a)
  is_in-ne-fuel a _ = ground arith

  not_in-ne-fuel : (a b : Json) → not_in host a b ≢ out_of_fuel
  unfolding not_in
  not_in-ne-fuel a (array els) =
      ground (arith, any_equal-ne-fuel (equal host a) els (equal-ne-fuel a))
  not_in-ne-fuel a _ = ground arith

  contains-ne-fuel : (a b : Json) → contains host a b ≢ out_of_fuel
  unfolding contains
  contains-ne-fuel (string v) b = ground arith
  contains-ne-fuel (array els) b = any_equal-ne-fuel _ els (λ el. equal-ne-fuel el b)
  contains-ne-fuel _ b = ground arith

  matches-ne-fuel : (a b : Json) → matches host a b ≢ out_of_fuel
  unfolding matches
  matches-ne-fuel (string v) b = ground arith
  matches-ne-fuel _ b = ground arith

  apply-ne-fuel : (op : Operator) (a b : Json) → apply host op a b ≢ out_of_fuel
  unfolding apply
  apply-ne-fuel eq a b = equal-ne-fuel a b
  apply-ne-fuel ne a b = ground (arith, equal-ne-fuel a b)
  apply-ne-fuel in_list a b = is_in-ne-fuel a b
  apply-ne-fuel nin a b = not_in-ne-fuel a b
  apply-ne-fuel has a b = contains-ne-fuel a b
  apply-ne-fuel regex a b = matches-ne-fuel a b
  apply-ne-fuel _ a b = ground arith

  compare-ne-fuel : (op : String) (a b : Json) → compare host op a b ≢ out_of_fuel
  unfolding compare
  compare-ne-fuel op a b = elim (Option-cases (operator_of op)) [
    | inl unknown ↦ rw (unknown, compare) (ground arith)
    | inr (o, known) ↦ rw (known, compare) (apply-ne-fuel o a b)
  ]

  module _ (bag : AttributeBag) where
    test_leaf-ne-fuel :
        (attr op : String) (a v : Option Json) → test_leaf host bag attr op a v ≢ out_of_fuel
    test_leaf-ne-fuel attr op none v = ground arith
    test_leaf-ne-fuel attr op (some a) v = compare-ne-fuel op a (or_null v)

    leaf_with_op-ne-fuel :
        (attr : String) (op : Option String) (v : Option Json)
        → leaf_with_op host bag attr op v ≢ out_of_fuel
    leaf_with_op-ne-fuel attr none v = ground arith
    leaf_with_op-ne-fuel attr (some op) v =
        ground (arith, test_leaf-ne-fuel attr op (resolve_path attr bag) v)

    eval_leaf-ne-fuel : (attr : Json) (m : Members) → eval_leaf host bag attr m ≢ out_of_fuel
    unfolding eval_leaf
    eval_leaf-ne-fuel attr m = go (as_string attr) (get "op" m)
      where
        with_op :
            (a : String) (op : Option Json)
            → elim op as (λ _. Outcome) [
              | none ↦ err missing_op
              | some o ↦ leaf_with_op host bag a (as_string o) (get "value" m)
            ]
              ≢ out_of_fuel
        with_op a none = ground arith
        with_op a (some o) = leaf_with_op-ne-fuel a (as_string o) (get "value" m)

        go : (a : Option String) (op : Option Json) → leaf_with_attr host bag a m ≢ out_of_fuel
        go none op = ground arith
        go (some a) op = ground (arith, with_op a (get "op" m))

    eval_all-ne-fuel :
        (eval : Json → Outcome) (k i : ℕ) (cs : Items)
        → ((c : Json) → depth c ≤ k → eval c ≢ out_of_fuel)
        → depth_items cs ≤ k
        → eval_all host bag eval i cs ≢ out_of_fuel
    unfolding eval_all depth
    eval_all-ne-fuel eval k i nil h d = ground arith
    eval_all-ne-fuel eval k i (item c cs) h d =
        ground (arith, h c (omega arith), eval_all-ne-fuel eval k (suc i) cs h (omega arith))

    eval_any-ne-fuel :
        (eval : Json → Outcome) (k i : ℕ) (cs : Items)
        → ((c : Json) → depth c ≤ k → eval c ≢ out_of_fuel)
        → depth_items cs ≤ k
        → eval_any host bag eval i cs ≢ out_of_fuel
    unfolding eval_any depth
    eval_any-ne-fuel eval k i nil h d = ground arith
    eval_any-ne-fuel eval k i (item c cs) h d =
        ground (arith, h c (omega arith), eval_any-ne-fuel eval k (suc i) cs h (omega arith))

pub or_else-cases :
    (o : Option Json) (b : Bool) (w v : Json)
    → or_else o (when b w) ≡ some v
    → (o ≡ some v) ⊎ (w ≡ v)
or_else-cases none true w v h = inr (ground arith)
or_else-cases none false w v h = absurd (ground arith)
or_else-cases (some u) b w v h = inl h

pub depth-get : (k : String) (m : Members) (v : Json) → get k m ≡ some v → depth v ≤ depth_members m
unfolding get depth
depth-get k end v h = absurd (ground arith)
depth-get k (member j w m) v h = elim (or_else-cases (get k m) (str_eq j k) w v h) [
  | inl later ↦ omega (arith, depth-get k m v later)
  | inr here ↦ omega (arith, ap depth here)
]

pub depth-as_children : (v : Json) (cs : Items) → as_children v ≡ some cs → depth_items cs ≤ depth v
unfolding depth
depth-as_children null cs h = let e : nil ≡ cs = ground arith in rw (← e) (omega arith)
depth-as_children (array els) cs h = let e : els ≡ cs = ground arith in rw (← e) (omega arith)
depth-as_children _ cs h = absurd (ground arith)

module _ (host : Host) (bag : AttributeBag) where
  over_children-ne-fuel :
      (f : Items → Outcome) (e : CondError) (o : Option Items)
      → ((cs : Items) → o ≡ some cs → f cs ≢ out_of_fuel)
      → over_children host bag f e o ≢ out_of_fuel
  over_children-ne-fuel f e none h = ground arith
  over_children-ne-fuel f e (some cs) h = h cs refl

  by_key-ne-fuel :
      (eval : Json → Outcome) (m : Members) (k : ℕ)
      → ((c : Json) → depth c ≤ k → eval c ≢ out_of_fuel)
      → (all_v any_v not_v attr : Option Json) → ((v : Json) → all_v ≡ some v → depth v ≤ k)
      → ((v : Json) → any_v ≡ some v → depth v ≤ k)
      → ((v : Json) → not_v ≡ some v → depth v ≤ k)
      → by_key host bag eval m all_v any_v not_v attr ≢ out_of_fuel
  by_key-ne-fuel eval m k h (some v) any_v not_v attr da dy dn =
      over_children-ne-fuel _ _ (as_children v) λ cs e.
        eval_all-ne-fuel host bag eval k zero cs h
          (omega (arith, depth-as_children v cs e, da v refl))
  by_key-ne-fuel eval m k h none (some v) not_v attr da dy dn =
      over_children-ne-fuel _ _ (as_children v) λ cs e.
        eval_any-ne-fuel host bag eval k zero cs h
          (omega (arith, depth-as_children v cs e, dy v refl))
  by_key-ne-fuel eval m k h none none (some v) attr da dy dn = ground (arith, h v (dn v refl))
  by_key-ne-fuel eval m k h none none none (some attr) da dy dn = eval_leaf-ne-fuel host bag attr m
  by_key-ne-fuel eval m k h none none none none da dy dn = ground arith

  evaluate_node-ne-fuel :
      (fuel : ℕ) (j : Json) → depth j < fuel → evaluate_node host bag fuel j ≢ out_of_fuel
  unfolding evaluate_node depth
  evaluate_node-ne-fuel zero j h = absurd (omega arith)
  evaluate_node-ne-fuel (suc fuel) (object m) h =
      by_key-ne-fuel _ m (depth_members m) (λ c d. evaluate_node-ne-fuel fuel c (omega arith))
        (get "all" m) (get "any" m) (get "not" m) (get "attr" m) (depth-get "all" m)
        (depth-get "any" m) (depth-get "not" m)
  evaluate_node-ne-fuel (suc fuel) null h = ground arith
  evaluate_node-ne-fuel (suc fuel) _ h = ground arith

-- The evaluation of a condition ends, within calls nested one deeper than the condition itself.
pub evaluate_condition_total :
    (host : Host) (bag : AttributeBag) (raw : Raw) → evaluate_condition host bag raw ≢ out_of_fuel
unfolding evaluate_condition
evaluate_condition_total host bag blank = ground arith
evaluate_condition_total host bag malformed = ground arith
evaluate_condition_total host bag (json j) =
    evaluate_node-ne-fuel host bag (suc (depth j)) j (omega arith)
