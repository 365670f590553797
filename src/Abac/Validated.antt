-- ===== src/Abac/Validated.antt =====
-- What validation rules out at evaluation.
use qeet_id.Base.{
  ℕ, zero, suc, ◌≡◌, refl, subst, ap, ◌∙◌, ◌≢◌, String, true, false, Option, none, some, arith,
  str_eq, inl, inr, Option-cases, Bool-cases,
}
use qeet_id.Abac.Json.{
  Json, null, braces, object, Items, nil, item, Members, get, AttributeBag, resolve_path,
}
use qeet_id.Abac.Compare.{
  Host, CondError, in_all, in_any, in_not, all_not_array, any_not_array, Outcome, ok, err, panicked,
  out_of_fuel, compare, operator_of, Operator, exists,
}
use qeet_id.Abac.Condition.{
  eval_leaf, eval_all, eval_any, evaluate_node, evaluate_condition, Raw, blank, malformed, json,
  as_children, as_string, over_children, by_key, test_leaf, leaf_with_op, leaf_with_attr, or_null,
  depth,
}
use qeet_id.Abac.Validate.{
  Verdict, valid, check_op, check_leaf, check_children, check_list, check_key, validate_node,
  validate_condition,
}
use qeet_id.Abac.TypeErrors.{IsTypeError, TypeErrorOnly, apply-TypeErrorOnly, operator_of-ne-exists}

module _ (host : Host) (bag : AttributeBag) where
  test_leaf-TypeErrorOnly :
      (attr op : String) (o : Operator) (a v : Option Json)
      → operator_of op ≡ some o
      → o ≢ exists
      → TypeErrorOnly (test_leaf host bag attr op a v)
  unfolding compare
  test_leaf-TypeErrorOnly attr op o none v known n e h = absurd (ground arith)
  test_leaf-TypeErrorOnly attr op o (some a) v known n e h =
      apply-TypeErrorOnly host o a (or_null v) n e (rw (known, compare) at h)

  leaf_with_op-TypeErrorOnly :
      (attr : String) (op : Option String) (v : Option Json)
      → check_op op ≡ valid
      → TypeErrorOnly (leaf_with_op host bag attr op v)
  leaf_with_op-TypeErrorOnly attr none v c e h = absurd (ground arith)
  leaf_with_op-TypeErrorOnly attr (some op) v c e h = elim (Option-cases (operator_of op)) [
    | inl unknown ↦ absurd (ground arith)
    | inr (o, known) ↦ elim (Bool-cases (str_eq op "exists")) [
      | inl is_exists ↦ absurd (ground arith)
      | inr other ↦
          test_leaf-TypeErrorOnly attr op o (resolve_path attr bag) v known
            (λ same. operator_of-ne-exists op other (known ∙ ap some same)) e (ground arith)
    ]
  ]

  eval_leaf-TypeErrorOnly :
      (attr : Json) (m : Members)
      → check_leaf (as_string attr) m ≡ valid
      → TypeErrorOnly (eval_leaf host bag attr m)
  unfolding eval_leaf
  eval_leaf-TypeErrorOnly attr m c e h = go (as_string attr) (get "op" m) refl c h
    where
      go :
          (a : Option String) (op : Option Json)
          → get "op" m ≡ op
          → check_leaf a m ≡ valid
          → leaf_with_attr host bag a m ≡ err e
          → IsTypeError e
      go none op q c h = absurd (ground arith)
      go (some a) none q c h = absurd (ground arith)
      go (some a) (some op) q c h =
          leaf_with_op-TypeErrorOnly a (as_string op) (get "value" m) (ground arith) e
            (ground arith)

  -- A child that passes validation makes type errors only.
  abbrev IsGuarded : (Json → Verdict) → (Json → Outcome) → Type 0
  IsGuarded check eval = (c : Json) → check c ≡ valid → TypeErrorOnly (eval c)

  eval_all-TypeErrorOnly :
      (check : Json → Verdict) (eval : Json → Outcome)
      → IsGuarded check eval
      → (f : ℕ → CondError → CondError) (i : ℕ) (cs : Items) → check_children check f i cs ≡ valid
      → TypeErrorOnly (eval_all host bag eval i cs)
  unfolding check_children eval_all
  eval_all-TypeErrorOnly check eval g f i nil c e h = absurd (ground arith)
  eval_all-TypeErrorOnly check eval g f i (item x xs) c e h =
      go (eval x) refl (g x (ground arith))
        (eval_all-TypeErrorOnly check eval g f (suc i) xs (ground arith))
    where
      go :
          (o : Outcome)
          → eval x ≡ o
          → TypeErrorOnly (eval x)
          → TypeErrorOnly (eval_all host bag eval (suc i) xs)
          → IsTypeError e
      go (ok true) q t ih = ih e (ground arith)
      go (ok false) q t ih = absurd (ground arith)
      go (err y) q t ih = let same : in_all i y ≡ e = ground arith in subst IsTypeError same (t y q)
      go panicked q t ih = absurd (ground arith)
      go out_of_fuel q t ih = absurd (ground arith)

  eval_any-TypeErrorOnly :
      (check : Json → Verdict) (eval : Json → Outcome)
      → IsGuarded check eval
      → (f : ℕ → CondError → CondError) (i : ℕ) (cs : Items) → check_children check f i cs ≡ valid
      → TypeErrorOnly (eval_any host bag eval i cs)
  unfolding check_children eval_any
  eval_any-TypeErrorOnly check eval g f i nil c e h = absurd (ground arith)
  eval_any-TypeErrorOnly check eval g f i (item x xs) c e h =
      go (eval x) refl (g x (ground arith))
        (eval_any-TypeErrorOnly check eval g f (suc i) xs (ground arith))
    where
      go :
          (o : Outcome)
          → eval x ≡ o
          → TypeErrorOnly (eval x)
          → TypeErrorOnly (eval_any host bag eval (suc i) xs)
          → IsTypeError e
      go (ok true) q t ih = absurd (ground arith)
      go (ok false) q t ih = ih e (ground arith)
      go (err y) q t ih = let same : in_any i y ≡ e = ground arith in subst IsTypeError same (t y q)
      go panicked q t ih = absurd (ground arith)
      go out_of_fuel q t ih = absurd (ground arith)

  by_key-TypeErrorOnly :
      (check : Json → Verdict) (eval : Json → Outcome)
      → IsGuarded check eval
      → (m : Members) (a y n l : Option Json) → check_key check m a y n l ≡ valid
      → TypeErrorOnly (by_key host bag eval m a y n l)
  by_key-TypeErrorOnly check eval g m (some v) y n l c e h = go (as_children v) c h
    where
      go :
          (o : Option Items)
          → check_list check in_all all_not_array o ≡ valid
          → over_children host bag (eval_all host bag eval zero) all_not_array o ≡ err e
          → IsTypeError e
      go none p q = absurd (ground arith)
      go (some cs) p q = eval_all-TypeErrorOnly check eval g in_all zero cs p e q
  by_key-TypeErrorOnly check eval g m none (some v) n l c e h = go (as_children v) c h
    where
      go :
          (o : Option Items)
          → check_list check in_any any_not_array o ≡ valid
          → over_children host bag (eval_any host bag eval zero) any_not_array o ≡ err e
          → IsTypeError e
      go none p q = absurd (ground arith)
      go (some cs) p q = eval_any-TypeErrorOnly check eval g in_any zero cs p e q
  by_key-TypeErrorOnly check eval g m none none (some v) l c e h =
      go (eval v) refl (g v (ground arith))
    where
      go : (o : Outcome) → eval v ≡ o → TypeErrorOnly (eval v) → IsTypeError e
      go (ok b) q t = absurd (ground arith)
      go (err x) q t = let same : in_not x ≡ e = ground arith in subst IsTypeError same (t x q)
      go panicked q t = absurd (ground arith)
      go out_of_fuel q t = absurd (ground arith)
  by_key-TypeErrorOnly check eval g m none none none (some attr) c e h =
      eval_leaf-TypeErrorOnly attr m c e h
  by_key-TypeErrorOnly check eval g m none none none none c e h = absurd (ground arith)

  evaluate_node-TypeErrorOnly :
      (fuel : ℕ) → IsGuarded (λ c. validate_node fuel c) (λ c. evaluate_node host bag fuel c)
  unfolding validate_node evaluate_node
  evaluate_node-TypeErrorOnly zero j c e h = absurd (ground arith)
  evaluate_node-TypeErrorOnly (suc fuel) null c e h = absurd (ground arith)
  evaluate_node-TypeErrorOnly (suc fuel) braces c e h = absurd (ground arith)
  evaluate_node-TypeErrorOnly (suc fuel) (object m) c e h =
      by_key-TypeErrorOnly _ _ (evaluate_node-TypeErrorOnly fuel) m (get "all" m) (get "any" m)
        (get "not" m) (get "attr" m) c e h
  evaluate_node-TypeErrorOnly (suc fuel) _ c e h = absurd (ground arith)

-- A condition that passes validation fails to evaluate, on any attributes, only because some 'in' or
-- 'nin' in it has a value that is no array: it is well formed, and all its operators are known.
pub validate-evaluate :
    (host : Host) (bag : AttributeBag) (raw : Raw) (e : CondError)
    → validate_condition raw ≡ valid
    → evaluate_condition host bag raw ≡ err e
    → IsTypeError e
unfolding validate_condition evaluate_condition
validate-evaluate host bag blank e c h = absurd (ground arith)
validate-evaluate host bag malformed e c h = absurd (ground arith)
validate-evaluate host bag (json j) e c h =
    evaluate_node-TypeErrorOnly host bag (suc (depth j)) j c e h
