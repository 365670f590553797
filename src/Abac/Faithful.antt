-- ===== src/Abac/Faithful.antt =====
-- The evaluator agrees with the meaning of conditions, and a condition means one thing only.
use qeet_id.Base.{
  ℕ, zero, suc, ◌≡◌, refl, sym, ap, ◌∙◌, subst, ◌↔◌, Bool, true, false, not, Option, none, some,
  arith,
}
use qeet_id.Abac.Json.{Json, null, braces, object, Items, nil, item, Members, get, AttributeBag}
use qeet_id.Abac.Compare.{
  Host, CondError, Outcome, in_not, all_not_array, any_not_array, ok, err, panicked, out_of_fuel,
  ◌>>=◌,
}
use qeet_id.Abac.Condition.{
  eval_all, eval_any, evaluate_node, evaluate_condition, json, depth, as_children, over_children,
  by_key, within,
}
use qeet_id.Abac.Related.{LeafMeans}
use qeet_id.Abac.Leaves.{eval_leaf-means, one_leaf}
use qeet_id.Abac.Meaning.{
  Means, null_means, braces_mean, all_means, any_means, not_means, leaf_means, Every, no_child,
  and_child, child_fails, later_fails, Some, none_left, nor_child, child_holds, later_holds,
}

-- Where the outcome is a Boolean, it is one that `P` allows.
abbrev pub Agrees : Outcome → (Bool → Type 0) → Type 0
Agrees o P = (b : Bool) → o ≡ ok b → P b

module _ (host : Host) (bag : AttributeBag) where
  abbrev IsFaithful : (Json → Outcome) → Type 0
  IsFaithful eval = (c : Json) → Agrees (eval c) (Means host bag c)

  eval_all-Agrees :
      (eval : Json → Outcome)
      → IsFaithful eval
      → (i : ℕ) (cs : Items) → Agrees (eval_all host bag eval i cs) (Every host bag cs)
  unfolding eval_all
  eval_all-Agrees eval f i nil true h = no_child
  eval_all-Agrees eval f i nil false h = absurd (ground arith)
  eval_all-Agrees eval f i (item c cs) b h =
      go (eval c) refl b h (eval_all-Agrees eval f (suc i) cs)
    where
      go :
          (o : Outcome)
          → eval c ≡ o
          → (b : Bool) → eval_all host bag eval i (item c cs) ≡ ok b
          → Agrees (eval_all host bag eval (suc i) cs) (Every host bag cs)
          → Every host bag (item c cs) b
      go (ok true) e true h ih = and_child (f c true e) (ih true (ground arith))
      go (ok true) e false h ih = later_fails (ih false (ground arith))
      go (ok false) e true h ih = absurd (ground arith)
      go (ok false) e false h ih = child_fails (f c false e)
      go (err x) e b h ih = absurd (ground arith)
      go panicked e b h ih = absurd (ground arith)
      go out_of_fuel e b h ih = absurd (ground arith)

  eval_any-Agrees :
      (eval : Json → Outcome)
      → IsFaithful eval
      → (i : ℕ) (cs : Items) → Agrees (eval_any host bag eval i cs) (Some host bag cs)
  unfolding eval_any
  eval_any-Agrees eval f i nil false h = none_left
  eval_any-Agrees eval f i nil true h = absurd (ground arith)
  eval_any-Agrees eval f i (item c cs) b h =
      go (eval c) refl b h (eval_any-Agrees eval f (suc i) cs)
    where
      go :
          (o : Outcome)
          → eval c ≡ o
          → (b : Bool) → eval_any host bag eval i (item c cs) ≡ ok b
          → Agrees (eval_any host bag eval (suc i) cs) (Some host bag cs)
          → Some host bag (item c cs) b
      go (ok true) e true h ih = child_holds (f c true e)
      go (ok true) e false h ih = absurd (ground arith)
      go (ok false) e true h ih = later_holds (ih true (ground arith))
      go (ok false) e false h ih = nor_child (f c false e) (ih false (ground arith))
      go (err x) e b h ih = absurd (ground arith)
      go panicked e b h ih = absurd (ground arith)
      go out_of_fuel e b h ih = absurd (ground arith)

  children-Agrees :
      (e : CondError) (f : Items → Outcome) (o : Option Items) (P : Items → Bool → Type 0)
      → ((cs : Items) → Agrees (f cs) (P cs))
      → Agrees (over_children host bag f e o) (λ b. (cs : Items) × (o ≡ some cs) × P cs b)
  children-Agrees e f none P g b h = absurd (ground arith)
  children-Agrees e f (some cs) P g b h = (cs, refl, g cs b h)

  not-Agrees :
      (o : Outcome) (P : Bool → Type 0)
      → Agrees o P
      → Agrees (within in_not o >>= λ b. ok (not b)) (λ b. (d : Bool) × P d × (b ≡ not d))
  not-Agrees (ok d) P g b h = (d, g d refl, ground arith)
  not-Agrees (err x) P g b h = absurd (ground arith)
  not-Agrees panicked P g b h = absurd (ground arith)
  not-Agrees out_of_fuel P g b h = absurd (ground arith)

  by_key-Agrees :
      (eval : Json → Outcome)
      → IsFaithful eval
      → (m : Members) (a y n l : Option Json) → get "all" m ≡ a
      → get "any" m ≡ y
      → get "not" m ≡ n
      → get "attr" m ≡ l
      → Agrees (by_key host bag eval m a y n l) (Means host bag (object m))
  by_key-Agrees eval f m (some v) y n l ea ey en el b h =
      let (cs, e, p) =
        children-Agrees all_not_array _ (as_children v) _ (eval_all-Agrees eval f zero) b h in
      all_means ea e p
  by_key-Agrees eval f m none (some v) n l ea ey en el b h =
      let (cs, e, p) =
        children-Agrees any_not_array _ (as_children v) _ (eval_any-Agrees eval f zero) b h in
      any_means ea ey e p
  by_key-Agrees eval f m none none (some v) l ea ey en el b h =
      let (d, p, e) = not-Agrees (eval v) _ (f v) b h in not_means ea ey en p e
  by_key-Agrees eval f m none none none (some attr) ea ey en el b h =
      leaf_means ea ey en el (eval_leaf-means host bag attr m b h)
  by_key-Agrees eval f m none none none none ea ey en el b h = absurd (ground arith)

  evaluate_node-IsFaithful : (fuel : ℕ) → IsFaithful (λ c. evaluate_node host bag fuel c)
  unfolding evaluate_node
  evaluate_node-IsFaithful zero c b h = absurd (ground arith)
  evaluate_node-IsFaithful (suc fuel) null true h = null_means
  evaluate_node-IsFaithful (suc fuel) null false h = absurd (ground arith)
  evaluate_node-IsFaithful (suc fuel) braces true h = braces_mean
  evaluate_node-IsFaithful (suc fuel) braces false h = absurd (ground arith)
  evaluate_node-IsFaithful (suc fuel) (object m) b h =
      by_key-Agrees _ (evaluate_node-IsFaithful fuel) m _ _ _ _ refl refl refl refl b h
  evaluate_node-IsFaithful (suc fuel) _ b h = absurd (ground arith)

same_some : (a b : Json) (o : Option Json) → o ≡ some a → o ≡ some b → a ≡ b
same_some a b o p q = cc

clash {ℓ} : {A : Type ℓ} (a : Json) (o : Option Json) → o ≡ some a → o ≡ none → A
clash a o p q = absurd (cc)

same_children :
    (v w : Json) (cs ds : Items)
    → v ≡ w
    → as_children v ≡ some cs
    → as_children w ≡ some ds
    → cs ≡ ds
same_children v w cs ds e p q =
    let r : some cs ≡ some ds = sym p ∙ (ap as_children e ∙ q) in ground arith

module _ (host : Host) (bag : AttributeBag) where
  mutual
    -- A condition means one Boolean at most.
    one_meaning :
        {j : Json} {b : Bool} → Means host bag j b → {d : Bool} → Means host bag j d → b ≡ d
    one_meaning null_means null_means = refl
    one_meaning braces_mean braces_mean = refl
    one_meaning (all_means a c p) (all_means {b = d} a' c' p') =
        one-Every p
          (subst (λ cs. Every host bag cs d) (same_children _ _ _ _ (same_some _ _ _ a' a) c' c) p')
    one_meaning (all_means a _ _) (any_means a' _ _ _) = clash _ _ a a'
    one_meaning (all_means a _ _) (not_means a' _ _ _ _) = clash _ _ a a'
    one_meaning (all_means a _ _) (leaf_means a' _ _ _ _) = clash _ _ a a'
    one_meaning (any_means a _ _ _) (all_means a' _ _) = clash _ _ a' a
    one_meaning (any_means _ y c p) (any_means {b = d} _ y' c' p') =
        one-Some p
          (subst (λ cs. Some host bag cs d) (same_children _ _ _ _ (same_some _ _ _ y' y) c' c) p')
    one_meaning (any_means _ y _ _) (not_means _ y' _ _ _) = clash _ _ y y'
    one_meaning (any_means _ y _ _) (leaf_means _ y' _ _ _) = clash _ _ y y'
    one_meaning (not_means a _ _ _ _) (all_means a' _ _) = clash _ _ a' a
    one_meaning (not_means _ y _ _ _) (any_means _ y' _ _) = clash _ _ y' y
    one_meaning (not_means _ _ n p e) (not_means {d = x} _ _ n' p' e') =
        e
        ∙ (ap not (one_meaning p (subst (λ c. Means host bag c x) (same_some _ _ _ n' n) p'))
            ∙ sym e')
    one_meaning (not_means _ _ n _ _) (leaf_means _ _ n' _ _) = clash _ _ n n'
    one_meaning (leaf_means a _ _ _ _) (all_means a' _ _) = clash _ _ a' a
    one_meaning (leaf_means _ y _ _ _) (any_means _ y' _ _) = clash _ _ y' y
    one_meaning (leaf_means _ _ n _ _) (not_means _ _ n' _ _) = clash _ _ n' n
    one_meaning (leaf_means {m} _ _ _ l p) (leaf_means {b = d} _ _ _ l' p') =
        one_leaf host bag _ m _ _ p
          (subst (λ a. LeafMeans host bag a m d) (same_some _ _ _ l' l) p')

    one-Every :
        {cs : Items} {b : Bool} → Every host bag cs b → {d : Bool} → Every host bag cs d → b ≡ d
    one-Every no_child no_child = refl
    one-Every (and_child p q) (and_child p' q') = refl
    one-Every (and_child p q) (child_fails p') = one_meaning p p'
    one-Every (and_child p q) (later_fails q') = one-Every q q'
    one-Every (child_fails p) (and_child p' q') = one_meaning p p'
    one-Every (child_fails p) (child_fails p') = refl
    one-Every (child_fails p) (later_fails q') = refl
    one-Every (later_fails q) (and_child p' q') = one-Every q q'
    one-Every (later_fails q) (child_fails p') = refl
    one-Every (later_fails q) (later_fails q') = refl

    one-Some :
        {cs : Items} {b : Bool} → Some host bag cs b → {d : Bool} → Some host bag cs d → b ≡ d
    one-Some none_left none_left = refl
    one-Some (nor_child p q) (nor_child p' q') = refl
    one-Some (nor_child p q) (child_holds p') = one_meaning p p'
    one-Some (nor_child p q) (later_holds q') = one-Some q q'
    one-Some (child_holds p) (nor_child p' q') = one_meaning p p'
    one-Some (child_holds p) (child_holds p') = refl
    one-Some (child_holds p) (later_holds q') = refl
    one-Some (later_holds q) (nor_child p' q') = one-Some q q'
    one-Some (later_holds q) (child_holds p') = refl
    one-Some (later_holds q) (later_holds q') = refl

-- Where a condition evaluates to a Boolean, that is the one that the condition means: 'all' is
-- whether every child holds, 'any' whether some child does, 'not' the negation; and a leaf holds where
-- the value at the attribute's path is in the relation that its operator names to the value of the
-- leaf, or, without the attribute, where the operator is 'nin'.
pub evaluate_condition_iff :
    (host : Host) (bag : AttributeBag) (j : Json) (b d : Bool)
    → evaluate_condition host bag (json j) ≡ ok b
    → Means host bag j d ↔ (d ≡ b)
unfolding evaluate_condition
evaluate_condition_iff host bag j b d h =
    let meant = evaluate_node-IsFaithful host bag (suc (depth j)) j b h in
    (λ m. one_meaning host bag m meant, λ e. subst (Means host bag j) (sym e) meant)
