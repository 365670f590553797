-- ===== src/Abac/DenyWins.antt =====
-- What Evaluate decides, by the outcomes of the conditions (abac.go, `Evaluate`).
use qeet_id.Base.{
  ℕ, ◌≡◌, refl, sym, ◌∙◌, subst, ◌≢◌, inl, inr, Bool, true, false, not, ◌&&◌, ◌||◌, Option, none,
  some, List, [], ◌∷◌, str_eq, str_eq_iff, any, is_some, trim_space, arith, All, Bool-cases,
  if◌then◌else◌,
}
use qeet_id.Errs.{Result}
use qeet_id.Abac.Compare.{Host, Outcome, panicked, out_of_fuel, CondError}
use qeet_id.Abac.Condition.{evaluate_condition}
use qeet_id.Abac.Total.{evaluate_condition_total}
use qeet_id.Abac.Decide.{
  Policy, EvaluationInput, attribute_bag, Decision, Tally, decided, tally, no_tally, Reason,
  TraceLine, conclude, on_error, on_match, on_mismatch, or_first, evaluate,
}

-- Whether a policy, by itself, denies or allows: an error in its condition denies.
abbrev pub outcome_denies : Outcome → Policy → Bool
outcome_denies (Outcome.ok true) p = str_eq p.effect "deny"
outcome_denies (Outcome.ok false) p = false
outcome_denies (Outcome.err e) p = true
outcome_denies _ p = false

abbrev pub outcome_allows : Outcome → Policy → Bool
outcome_allows (Outcome.ok true) p = str_eq p.effect "allow"
outcome_allows _ p = false

-- The id of the first policy that a test picks.
unfoldable pub first : (Policy → Bool) → List Policy → Option ℕ
first test [] = none
first test (p ∷ ps) = if test p then some p.id else first test ps

abbrev pub or_id : Option ℕ → Option ℕ → Option ℕ
or_id (some a) b = some a
or_id none b = b

abbrev id_of : Option (ℕ × Reason) → Option ℕ
id_of none = none
id_of (some (id, r)) = some id

module _ (eval : Policy → Outcome) where
  abbrev pub denies : Policy → Bool
  denies p = outcome_denies (eval p) p

  abbrev pub allows : Policy → Bool
  allows p = outcome_allows (eval p) p

  -- The decision that the tally leads to, in terms of the policies still to come.
  abbrev pub IsDecision :
      Option (ℕ × Reason) → Option (ℕ × Reason) → List Policy → Decision → Type 0
  IsDecision deny allow ps d =
      (d.allow ≡ (not (is_some deny || any denies ps) && (is_some allow || any allows ps)))
      × (d.matched_policy_id
          ≡ or_id (or_id (id_of deny) (first denies ps)) (or_id (id_of allow) (first allows ps)))

  conclude-IsDecision :
      (deny allow : Option (ℕ × Reason)) (trace : List TraceLine)
      → IsDecision deny allow [] (conclude deny allow trace)
  unfolding first
  conclude-IsDecision none none trace = (refl, refl)
  conclude-IsDecision none (some (id, r)) trace = (refl, refl)
  conclude-IsDecision (some (id, r)) none trace = (refl, refl)
  conclude-IsDecision (some (id, r)) (some _) trace = (refl, refl)

  match-IsDecision :
      (p : Policy) (ps : List Policy) (deny allow : Option (ℕ × Reason)) (trace : List TraceLine)
      (d : Decision)
      → eval p ≡ Outcome.ok true
      → (let t = on_match p (record { deny = deny; allow = allow; trace = trace }) in
          IsDecision t.deny t.allow ps d)
      → IsDecision deny allow (p ∷ ps) d
  unfolding first on_match
  match-IsDecision p ps none none trace d e h =
      ground (arith, str_eq_iff p.effect "deny", str_eq_iff p.effect "allow")
  match-IsDecision p ps none (some a) trace d e h =
      ground (arith, str_eq_iff p.effect "deny", str_eq_iff p.effect "allow")
  match-IsDecision p ps (some a) none trace d e h =
      ground (arith, str_eq_iff p.effect "deny", str_eq_iff p.effect "allow")
  match-IsDecision p ps (some a) (some b) trace d e h =
      ground (arith, str_eq_iff p.effect "deny", str_eq_iff p.effect "allow")

  mismatch-IsDecision :
      (p : Policy) (ps : List Policy) (deny allow : Option (ℕ × Reason)) (d : Decision)
      → eval p ≡ Outcome.ok false
      → IsDecision deny allow ps d
      → IsDecision deny allow (p ∷ ps) d
  unfolding first
  mismatch-IsDecision p ps deny allow d e h = ground arith

  error-IsDecision :
      (p : Policy) (ps : List Policy) (deny allow : Option (ℕ × Reason)) (x : CondError)
      (r : Reason) (d : Decision)
      → eval p ≡ Outcome.err x
      → IsDecision (or_first deny p.id r) allow ps d
      → IsDecision deny allow (p ∷ ps) d
  unfolding first
  error-IsDecision p ps none allow x r d e h = ground arith
  error-IsDecision p ps (some a) allow x r d e h = ground arith

  on_true :
      (p : Policy) (ps : List Policy) (t : Tally)
      → eval p ≡ Outcome.ok true
      → tally eval (p ∷ ps) t ≡ tally eval ps (on_match p t)
  unfolding tally
  on_true p ps t e = rw (e, tally) refl

  on_false :
      (p : Policy) (ps : List Policy) (t : Tally)
      → eval p ≡ Outcome.ok false
      → tally eval (p ∷ ps) t ≡ tally eval ps (on_mismatch p t)
  unfolding tally
  on_false p ps t e = rw (e, tally) refl

  on_err :
      (p : Policy) (ps : List Policy) (t : Tally) (x : CondError)
      → eval p ≡ Outcome.err x
      → tally eval (p ∷ ps) t ≡ tally eval ps (on_error p x t)
  unfolding tally
  on_err p ps t x e = rw (e, tally) refl

  -- One round, given what the later rounds do.
  step-IsDecision :
      (p : Policy) (ps : List Policy)
      → ((deny allow : Option (ℕ × Reason)) (trace : List TraceLine) (d : Decision)
          → tally eval ps (record { deny = deny; allow = allow; trace = trace }) ≡ decided d
          → IsDecision deny allow ps d)
      → (o : Outcome) → eval p ≡ o
      → (deny allow : Option (ℕ × Reason)) (trace : List TraceLine) (d : Decision)
      → tally eval (p ∷ ps) (record { deny = deny; allow = allow; trace = trace }) ≡ decided d
      → IsDecision deny allow (p ∷ ps) d
  unfolding tally on_mismatch on_error
  step-IsDecision p ps ih (Outcome.ok true) e deny allow trace d h =
      match-IsDecision p ps deny allow trace d e (ih _ _ _ d (sym (on_true p ps _ e) ∙ h))
  step-IsDecision p ps ih (Outcome.ok false) e deny allow trace d h =
      mismatch-IsDecision p ps deny allow d e (ih _ _ _ d (sym (on_false p ps _ e) ∙ h))
  step-IsDecision p ps ih (Outcome.err x) e deny allow trace d h =
      error-IsDecision p ps deny allow x _ d e (ih _ _ _ d (sym (on_err p ps _ x e) ∙ h))
  step-IsDecision p ps ih panicked e deny allow trace d h = absurd (ground (arith, e, h))
  step-IsDecision p ps ih out_of_fuel e deny allow trace d h = absurd (ground (arith, e, h))

  tally-IsDecision :
      (ps : List Policy) (deny allow : Option (ℕ × Reason)) (trace : List TraceLine) (d : Decision)
      → tally eval ps (record { deny = deny; allow = allow; trace = trace }) ≡ decided d
      → IsDecision deny allow ps d
  unfolding tally
  tally-IsDecision [] deny allow trace d h =
      subst (IsDecision deny allow []) (conclude-same h) (conclude-IsDecision deny allow trace)
    where
      conclude-same :
          decided (conclude deny allow trace) ≡ decided d → conclude deny allow trace ≡ d
      conclude-same e = ground arith
  tally-IsDecision (p ∷ ps) deny allow trace d h =
      step-IsDecision p ps (tally-IsDecision ps) (eval p) refl deny allow trace d h

  step-decided :
      (p : Policy) (ps : List Policy)
      → ((t : Tally) → (d : Decision) × (tally eval ps t ≡ decided d))
      → (o : Outcome) → eval p ≡ o
      → (eval p ≢ panicked)
      → (eval p ≢ out_of_fuel)
      → (t : Tally) → (d : Decision) × (tally eval (p ∷ ps) t ≡ decided d)
  unfolding tally
  step-decided p ps ih (Outcome.ok true) e a b t = rw (e, tally) (ih _)
  step-decided p ps ih (Outcome.ok false) e a b t = rw (e, tally) (ih _)
  step-decided p ps ih (Outcome.err x) e a b t = rw (e, tally) (ih _)
  step-decided p ps ih panicked e a b t = absurd (a e)
  step-decided p ps ih out_of_fuel e a b t = absurd (b e)

  -- The loop ends with a decision unless a condition panics.
  tally-decided :
      (ps : List Policy) (t : Tally)
      → All (λ p. (eval p ≢ panicked) × (eval p ≢ out_of_fuel)) ps
      → (d : Decision) × (tally eval ps t ≡ decided d)
  tally-decided [] t h = unfold tally in (_, refl)
  tally-decided (p ∷ ps) t ((calm, total), hs) =
      step-decided p ps (λ s. tally-decided ps s hs) (eval p) refl calm total t

-- Whenever Evaluate decides, it allows exactly when some candidate whose condition holds has effect
-- "allow" and no candidate denies, where one denies when its condition holds and its effect is
-- "deny" or when its condition fails with an error. The policy that it names is the first that
-- denies, else the first that allows.
pub evaluate_decision :
    (host : Host) (input : EvaluationInput) (rows : List Policy) (d : Decision)
    → evaluate host input rows ≡ Result.ok (decided d)
    → let eval = λ (p : Policy). evaluate_condition host (attribute_bag input) p.condition in
      (d.allow ≡ (not (any (denies eval) rows) && any (allows eval) rows))
      × (d.matched_policy_id ≡ or_id (first (denies eval) rows) (first (allows eval) rows))
unfolding evaluate
evaluate_decision host input rows d h = elim (Bool-cases (str_eq (trim_space input.action) "")) [
  | inl e ↦ absurd (ground (arith, e, h))
  | inr e ↦ tally-IsDecision _ rows none none [] d (ground (arith, e, h))
]

-- With an action, and where no candidate's condition panics, Evaluate comes to a decision.
pub evaluate_decides :
    (host : Host) (input : EvaluationInput) (rows : List Policy)
    → trim_space input.action ≢ ""
    → All
        (λ (p : Policy). evaluate_condition host (attribute_bag input) p.condition ≢ panicked)
        rows
    → (d : Decision) × (evaluate host input rows ≡ Result.ok (decided d))
unfolding evaluate
evaluate_decides host input rows named calm =
    let (d, e) =
      tally-decided (λ p. evaluate_condition host (attribute_bag input) p.condition) rows no_tally
        (calm_total rows calm) in
    (d, ground (arith, e, named, str_eq_iff (trim_space input.action) ""))
  where
    calm_total :
        (ps : List Policy)
        → All
            (λ (p : Policy). evaluate_condition host (attribute_bag input) p.condition ≢ panicked)
            ps
        → All
            (λ (p : Policy).
              (evaluate_condition host (attribute_bag input) p.condition ≢ panicked)
              × (evaluate_condition host (attribute_bag input) p.condition ≢ out_of_fuel))
            ps
    calm_total [] h = h
    calm_total (p ∷ ps) (h, hs) =
        ((h, evaluate_condition_total host (attribute_bag input) p.condition), calm_total ps hs)
