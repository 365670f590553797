-- ===== src/Abac/Stored.antt =====
-- What the table of policies keeps (abac.go, `Create`, `Update`, `Delete`).
use mathlib.Core.List.{Memᴰ}
use qeet_id.Base.{
  ℕ, ◌≡◌, refl, ◌⊎◌, inl, inr, String, Bool, true, false, ◌||◌, Option, none, some, List, [], ◌∷◌,
  str_eq_iff, ◌==◌, any, arith, Bool-cases, All, All-append, All-mem,
}
use qeet_id.Errs.{Result, ok, err}
use qeet_id.Abac.Json.{AttributeBag}
use qeet_id.Abac.Compare.{Host, CondError, Outcome}
use qeet_id.Abac.Condition.{evaluate_condition}
use qeet_id.Abac.Validate.{Verdict, valid, invalid, out_of_fuel, validate_condition}
use qeet_id.Abac.TypeErrors.{IsTypeError}
use qeet_id.Abac.Validated.{validate-evaluate}
use qeet_id.Abac.Decide.{Policy}
use qeet_id.Abac.Service.{
  Input, State, or_braces, is_valid, check_input, as_policy, is_row, insert_policy, when_checked,
  create, replace, update_policy, update, remove, delete, name_taken,
}

-- A policy that was checked before it was stored.
pub record IsStored (p : Policy) : Type 0 where
  pub effect : (p.effect ≡ "allow") ⊎ (p.effect ≡ "deny")
  pub condition : validate_condition p.condition ≡ valid

is_valid_lem : (v : Verdict) → is_valid v ≡ true → v ≡ valid
is_valid_lem valid h = refl
is_valid_lem (invalid e) h = absurd (ground arith)
is_valid_lem out_of_fuel h = absurd (ground arith)

check_input-IsStored :
    (id tenant : ℕ) (i : Input) → check_input i ≡ none → IsStored (as_policy id tenant i)
unfolding check_input
check_input-IsStored id tenant i h = record {
  effect = ground (arith, h, str_eq_iff i.effect "allow", str_eq_iff i.effect "deny");
  condition = is_valid_lem (validate_condition (or_braces i.condition)) (ground (arith, h));
}

replace-IsStored :
    (id tenant : ℕ) (q : Policy) (ps : List Policy)
    → IsStored q
    → All IsStored ps
    → All IsStored (replace id tenant q ps)
unfolding replace
replace-IsStored id tenant q [] k a = _
replace-IsStored id tenant q (p ∷ ps) k (l, a) = elim (Bool-cases (is_row id tenant p)) [
  | inl e ↦ rw e (k, replace-IsStored id tenant q ps k a)
  | inr e ↦ rw e (l, replace-IsStored id tenant q ps k a)
]

remove-IsStored :
    (id tenant : ℕ) (ps : List Policy) → All IsStored ps → All IsStored (remove id tenant ps)
unfolding remove
remove-IsStored id tenant [] a = _
remove-IsStored id tenant (p ∷ ps) (l, a) = elim (Bool-cases (is_row id tenant p)) [
  | inl e ↦ rw e (remove-IsStored id tenant ps a)
  | inr e ↦ rw e (l, remove-IsStored id tenant ps a)
]

-- The operations.
pub data Op : Type 0 where
  creates : ℕ → ℕ → Input → Op
  updates : ℕ → ℕ → Input → Op
  deletes : ℕ → ℕ → Op

-- Whether the operation succeeded, and the state after it.
abbrev pub succeeded {ℓ} : {A : Type ℓ} → Result A → Bool
succeeded (ok a) = true
succeeded (err e) = false

unfoldable pub apply_op : Op → State → Bool × State
unfolding create update delete
apply_op (creates fresh tenant i) s =
    (succeeded (create fresh tenant i s).0, (create fresh tenant i s).1)
apply_op (updates id tenant i) s = (succeeded (update id tenant i s).0, (update id tenant i s).1)
apply_op (deletes id tenant) s = (succeeded (delete id tenant s).0, (delete id tenant s).1)

apply_op-IsStored :
    (op : Op) (s : State) → All IsStored s.policies → All IsStored (apply_op op s).1.policies
unfolding apply_op create update delete
apply_op-IsStored (creates fresh tenant i) s a = go (check_input i) refl
  where
    go :
        (o : Option String)
        → check_input i ≡ o
        → All IsStored (when_checked o (insert_policy fresh tenant i s) s).1.policies
    go (some d) e = a
    go none e =
        elim (Bool-cases
          (any (λ (p : Policy). p.id == fresh || name_taken fresh tenant i.name p) s.policies)) [
            | inl t ↦ rw t a
            | inr t ↦ rw t (
                All-append IsStored s.policies (as_policy fresh tenant i ∷ []) a
                  (check_input-IsStored fresh tenant i e, _))
          ]
apply_op-IsStored (updates id tenant i) s a = go (check_input i) refl
  where
    go :
        (o : Option String)
        → check_input i ≡ o
        → All IsStored (when_checked o (update_policy id tenant i s) s).1.policies
    go (some d) e = a
    go none e = elim (Bool-cases (any (is_row id tenant) s.policies)) [
      | inr t ↦ rw t a
      | inl t ↦ elim (Bool-cases (any (name_taken id tenant i.name) s.policies)) [
        | inl u ↦ rw (t, u) a
        | inr u ↦
            rw (t, u)
              (replace-IsStored id tenant (as_policy id tenant i) s.policies
                (check_input-IsStored id tenant i e) a)
      ]
    ]
apply_op-IsStored (deletes id tenant) s a = elim (Bool-cases (any (is_row id tenant) s.policies)) [
  | inl t ↦ rw t (remove-IsStored id tenant s.policies a)
  | inr t ↦ rw t a
]

unfoldable pub apply_all : List Op → State → State
unfolding apply_op
apply_all [] s = s
apply_all (op ∷ ops) s = apply_all ops (apply_op op s).1

apply_all-IsStored :
    (ops : List Op) (s : State) → All IsStored s.policies → All IsStored (apply_all ops s).policies
unfolding apply_all
apply_all-IsStored [] s a = a
apply_all-IsStored (op ∷ ops) s a =
    apply_all-IsStored ops (apply_op op s).1 (apply_op-IsStored op s a)

abbrev pub no_policies : State
no_policies = record { policies = []; log = [] }

-- Every policy that stands in the table after any creations, updates and deletions has effect "allow"
-- or "deny", and its condition fails to evaluate, on any attributes, only on the type of the value of
-- an 'in' or 'nin'.
pub stored_policies_evaluate :
    (ops : List Op) (p : Policy) (host : Host) (bag : AttributeBag)
    → Memᴰ p (apply_all ops no_policies).policies
    → ((p.effect ≡ "allow") ⊎ (p.effect ≡ "deny"))
      × ((e : CondError) → evaluate_condition host bag p.condition ≡ Outcome.err e → IsTypeError e)
stored_policies_evaluate ops p host bag m =
    let kept =
      All-mem IsStored (apply_all ops no_policies).policies p (apply_all-IsStored ops no_policies _)
        m in
    (kept.effect, λ e h. validate-evaluate host bag p.condition e kept.condition h)
