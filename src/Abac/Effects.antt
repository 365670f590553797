-- ===== src/Abac/Effects.antt =====
-- What an operation on the policies touches (abac.go, `Create`, `Update`, `Delete`).
use qeet_id.Base.{
  ℕ, ◌≡◌, refl, ◌⊎◌, inl, inr, String, true, false, ◌||◌, Option, none, some, List, [], ◌∷◌, ◌++◌,
  ◌==◌, any, arith, Bool-cases,
}
use qeet_id.Abac.Decide.{Policy, EvaluationInput, list_candidates}
use qeet_id.Abac.Service.{
  State, Entry, check_input, as_policy, is_row, insert_policy, when_checked, create, replace,
  update_policy, update, remove, delete, name_taken,
}
use qeet_id.Abac.Stored.{Op, creates, updates, deletes, apply_op, succeeded}

-- The other tenants' policies that apply to a request.
list_candidates-append :
    (t : ℕ) (input : EvaluationInput) (ps : List Policy) (q : Policy)
    → (q.tenant == t) ≡ false
    → list_candidates t input (ps ++ q ∷ []) ≡ list_candidates t input ps
unfolding list_candidates
list_candidates-append t input [] q h = ground (arith, h)
list_candidates-append t input (p ∷ ps) q h = ground (arith, list_candidates-append t input ps q h)

list_candidates-replace :
    (t id tenant : ℕ) (input : EvaluationInput) (q : Policy) (ps : List Policy)
    → (q.tenant == t) ≡ false
    → (tenant == t) ≡ false
    → list_candidates t input (replace id tenant q ps) ≡ list_candidates t input ps
unfolding list_candidates replace
list_candidates-replace t id tenant input q [] h k = refl
list_candidates-replace t id tenant input q (p ∷ ps) h k = elim (Bool-cases (is_row id tenant p)) [
  | inl e ↦
      let here : p.tenant ≡ tenant = ground (arith, e) in
      ground (arith, e, h, k, here, list_candidates-replace t id tenant input q ps h k)
  | inr e ↦ ground (arith, e, list_candidates-replace t id tenant input q ps h k)
]

list_candidates-remove :
    (t id tenant : ℕ) (input : EvaluationInput) (ps : List Policy)
    → (tenant == t) ≡ false
    → list_candidates t input (remove id tenant ps) ≡ list_candidates t input ps
unfolding list_candidates remove
list_candidates-remove t id tenant input [] k = refl
list_candidates-remove t id tenant input (p ∷ ps) k = elim (Bool-cases (is_row id tenant p)) [
  | inl e ↦
      let here : p.tenant ≡ tenant = ground (arith, e) in
      ground (arith, e, k, here, list_candidates-remove t id tenant input ps k)
  | inr e ↦ ground (arith, e, list_candidates-remove t id tenant input ps k)
]

abbrev pub tenant_of : Op → ℕ
tenant_of (creates fresh tenant i) = tenant
tenant_of (updates id tenant i) = tenant
tenant_of (deletes id tenant) = tenant

-- An operation of one tenant changes the policies of no request of another.
pub apply_op-isolated :
    (op : Op) (s : State) (t : ℕ) (input : EvaluationInput)
    → (tenant_of op == t) ≡ false
    → list_candidates t input (apply_op op s).1.policies ≡ list_candidates t input s.policies
unfolding apply_op create update delete
apply_op-isolated (creates fresh tenant i) s t input k = go (check_input i)
  where
    go :
        (o : Option String)
        → list_candidates t input (when_checked o (insert_policy fresh tenant i s) s).1.policies
          ≡ list_candidates t input s.policies
    go (some d) = refl
    go none =
        elim (Bool-cases
          (any (λ (p : Policy). p.id == fresh || name_taken fresh tenant i.name p) s.policies)) [
            | inl u ↦ rw u refl
            | inr u ↦ rw u (list_candidates-append t input s.policies (as_policy fresh tenant i) k)
          ]
apply_op-isolated (updates id tenant i) s t input k = go (check_input i)
  where
    go :
        (o : Option String)
        → list_candidates t input (when_checked o (update_policy id tenant i s) s).1.policies
          ≡ list_candidates t input s.policies
    go (some d) = refl
    go none = elim (Bool-cases (any (is_row id tenant) s.policies)) [
      | inr u ↦ rw u refl
      | inl u ↦ elim (Bool-cases (any (name_taken id tenant i.name) s.policies)) [
        | inl v ↦ rw (u, v) refl
        | inr v ↦
            rw (u, v)
              (list_candidates-replace t id tenant input (as_policy id tenant i) s.policies k k)
      ]
    ]
apply_op-isolated (deletes id tenant) s t input k =
    elim (Bool-cases (any (is_row id tenant) s.policies)) [
      | inl u ↦ rw u (list_candidates-remove t id tenant input s.policies k)
      | inr u ↦ rw u refl
    ]

-- An operation that succeeds adds one entry, of its own tenant, to the end of the log, which stands for
-- the audit row and the event; one that fails leaves the policies and the log as they were.
pub apply_op-log :
    (op : Op) (s : State)
    → (((apply_op op s).0 ≡ true)
        × ((e : Entry) × ((apply_op op s).1.log ≡ s.log ++ e ∷ []) × (e.tenant ≡ tenant_of op)))
      ⊎ (((apply_op op s).0 ≡ false) × ((apply_op op s).1 ≡ s))
unfolding apply_op create update delete
apply_op-log (creates fresh tenant i) s = go (check_input i)
  where
    go :
        (o : Option String)
        → let r = when_checked o (insert_policy fresh tenant i s) s in
          ((succeeded r.0 ≡ true)
            × ((e : Entry) × (r.1.log ≡ s.log ++ e ∷ []) × (e.tenant ≡ tenant)))
          ⊎ ((succeeded r.0 ≡ false) × (r.1 ≡ s))
    go (some d) = inr (refl, refl)
    go none =
        elim (Bool-cases
          (any (λ (p : Policy). p.id == fresh || name_taken fresh tenant i.name p) s.policies)) [
            | inl u ↦ rw u (inr (refl, refl))
            | inr u ↦ rw u (inl (refl, (_, refl, refl)))
          ]
apply_op-log (updates id tenant i) s = go (check_input i)
  where
    go :
        (o : Option String)
        → let r = when_checked o (update_policy id tenant i s) s in
          ((succeeded r.0 ≡ true)
            × ((e : Entry) × (r.1.log ≡ s.log ++ e ∷ []) × (e.tenant ≡ tenant)))
          ⊎ ((succeeded r.0 ≡ false) × (r.1 ≡ s))
    go (some d) = inr (refl, refl)
    go none = elim (Bool-cases (any (is_row id tenant) s.policies)) [
      | inr u ↦ rw u (inr (refl, refl))
      | inl u ↦ elim (Bool-cases (any (name_taken id tenant i.name) s.policies)) [
        | inl v ↦ rw (u, v) (inr (refl, refl))
        | inr v ↦ rw (u, v) (inl (refl, (_, refl, refl)))
      ]
    ]
apply_op-log (deletes id tenant) s = elim (Bool-cases (any (is_row id tenant) s.policies)) [
  | inl u ↦ rw u (inl (refl, (_, refl, refl)))
  | inr u ↦ rw u (inr (refl, refl))
]
