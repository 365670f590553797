-- ===== src/Abac/Leaves.antt =====
-- A leaf that evaluates (abac.go, `evalLeaf`) means what it evaluates to, and nothing else.
use mathlib.Core.Option.{some-injective}
use qeet_id.Base.{
  ◌≡◌, ◌↔◌, refl, sym, ◌∙◌, subst, inl, inr, String, Bool, true, false, Option, none, some, str_eq,
  str_eq_iff, arith, Bool-cases, Option-cases,
}
use qeet_id.Abac.Json.{Json, Members, get, AttributeBag, resolve_path}
use qeet_id.Abac.Compare.{Host, ok, exists, operator_of, compare}
use qeet_id.Abac.Condition.{as_string, or_null, eval_leaf, test_leaf, leaf_with_op}
use qeet_id.Abac.Related.{Related, Tested, LeafMeans}
use qeet_id.Abac.Alike.{Decides}
use qeet_id.Abac.Operators.{apply-Decides, operator_of-name, same_operator}

module _ (host : Host) (bag : AttributeBag) where
  compare-Decides :
      (op : String) (a v : Json) → Decides (compare host op a v) (Tested host op (some a) v)
  unfolding compare
  compare-Decides op a v r h = elim (Option-cases (operator_of op)) [
    | inl unknown ↦ absurd (ground (arith, h, unknown))
    | inr (o, e) ↦
        let d = apply-Decides host o a v r (ground (arith, h, e)) in
        (
          λ t. (o, operator_of-name op o e, d.0 t),
          λ (p, n, rel). d.1 (subst (λ q. Related host q a v) (same_operator op o p e n) rel),
        )
  ]

  test_leaf-Decides :
      (attr op : String) (found : Option Json) (value : Option Json)
      → Decides (test_leaf host bag attr op found value) (Tested host op found (or_null value))
  test_leaf-Decides attr op none value r h = (
    λ t. (str_eq_iff op "nin").0 (ground (arith, h, t)),
    λ e. ground (arith, h, (str_eq_iff op "nin").1 e),
  )
  test_leaf-Decides attr op (some a) value r h = compare-Decides op a (or_null value) r h

  exists-Decides :
      (op : String) (found : Option Json) (v : Json)
      → str_eq op "exists" ≡ true
      → Decides (elim found [ none ↦ ok false | some _ ↦ ok true ]) (Tested host op found v)
  exists-Decides op none v e r h =
      let is = (str_eq_iff op "exists").0 e in
      (λ t. absurd (ground (arith, h, t)), λ n. absurd (not_nin (sym is ∙ n)))
    where
      not_nin : ◌≡◌ {A = String} "exists" "nin" → ⊥
      not_nin c = absurd (ground (arith, (str_eq_iff "exists" "nin").1 c))
  exists-Decides op (some a) v e r h =
      (λ t. (exists, sym ((str_eq_iff op "exists").0 e), tt), λ s. ground (arith, h))

  op-Decides :
      (path op : String) (value : Option Json)
      → Decides
          (leaf_with_op host bag path (some op) value)
          (Tested host op (resolve_path path bag) (or_null value))
  op-Decides path op value r h = elim (Bool-cases (str_eq op "exists")) [
    | inl is ↦ exists-Decides op (resolve_path path bag) (or_null value) is r (rw is at h)
    | inr other ↦ test_leaf-Decides path op (resolve_path path bag) value r (rw other at h)
  ]

  -- A leaf that evaluates to a Boolean means that Boolean.
  pub eval_leaf-means :
      (attr : Json) (m : Members) (b : Bool)
      → eval_leaf host bag attr m ≡ ok b
      → LeafMeans host bag attr m b
  unfolding eval_leaf
  eval_leaf-means attr m b h = elim (Option-cases (as_string attr)) [
    | inl bad ↦ absurd (ground (arith, h, bad))
    | inr (path, named) ↦ elim (Bool-cases (str_eq path "")) [
      | inl empty ↦ absurd (ground (arith, h, named, empty))
      | inr given ↦ elim (Option-cases (get "op" m)) [
        | inl missing ↦ absurd (ground (arith, h, named, given, missing))
        | inr (op_text, has_op) ↦ elim (Option-cases (as_string op_text)) [
          | inl bad_op ↦ absurd (ground (arith, h, named, given, has_op, bad_op))
          | inr (op, is_op) ↦ record {
            path = path;
            named = named;
            op_text = op_text;
            has_op = has_op;
            op = op;
            is_op = is_op;
            holds = op-Decides path op (get "value" m) b (rw (named, given, has_op, is_op) at h);
          }
        ]
      ]
    ]
  ]

  same_text : (o : Option String) (s t : String) → o ≡ some s → o ≡ some t → s ≡ t
  same_text o s t e e' = some-injective s t (sym e ∙ e')

  same_Bool : (b d : Bool) (P : Type 0) → (b ≡ true) ↔ P → (d ≡ true) ↔ P → b ≡ d
  same_Bool true d P i j = sym (j.1 (i.0 refl))
  same_Bool false true P i j = i.1 (j.0 refl)
  same_Bool false false P i j = refl

  -- A leaf means one Boolean at most.
  pub one_leaf :
      (attr : Json) (m : Members) (b d : Bool)
      → LeafMeans host bag attr m b
      → LeafMeans host bag attr m d
      → b ≡ d
  one_leaf attr m b d l k =
      let paths = same_text (as_string attr) k.path l.path k.named l.named in
      let texts = some-injective k.op_text l.op_text (sym k.has_op ∙ l.has_op) in
      let ops =
        same_text (as_string l.op_text) k.op l.op
          (subst (λ j. as_string j ≡ some k.op) texts k.is_op) l.is_op in
      same_Bool b d _ l.holds (
        subst
          (λ op. (d ≡ true) ↔ Tested host op (resolve_path l.path bag) (or_null (get "value" m)))
          ops
          (subst (λ p. (d ≡ true) ↔ Tested host k.op (resolve_path p bag) (or_null (get "value" m)))
            paths k.holds))
