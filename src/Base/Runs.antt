-- ===== src/Base/Runs.antt =====
-- Runs of a transition function over a list of operations, and the rule by which something that a
-- step can give is given at most once in a run.
use Prim.Native.Nat.{ℕ, ◌+◌, ◌≤◌}
use mathlib.Core.Path.{◌≡◌, refl}
use mathlib.Core.Logic.{◌⊎◌, inl, inr}
use mathlib.Core.Bool.{Bool}
use mathlib.Core.List.{List, [], ◌∷◌, ◌++◌}
use native.Mathlib.Omega.{arith}
use qeet_id.Base.Tests.{if◌then◌else◌}
use qeet_id.Base.Lists.{All, All-append}

module _ {A : Type 0} where
  unfoldable pub count : (A → Bool) → List A → ℕ
  count test [] = 0
  count test (x ∷ xs) = (if test x then 1 else 0) + count test xs

  pub count-append :
      (test : A → Bool) (xs ys : List A) → count test (xs ++ ys) ≡ count test xs + count test ys
  unfolding count
  count-append test [] ys = omega arith
  count-append test (x ∷ xs) ys = omega (arith, count-append test xs ys)

module _ {A : Type 0} where
  unfoldable pub total : (A → ℕ) → List A → ℕ
  total f [] = 0
  total f (x ∷ xs) = f x + total f xs

module _ {S Op Out : Type 0} (step : Op → S → List Out × S) where
  -- All that is given in a run, and the last state.
  unfoldable pub run : List Op → S → List Out × S
  run [] s = ([], s)
  run (op ∷ ops) s = let (out, s') = step op s in let (outs, end) = run ops s' in (out ++ outs, end)

  -- Once something is given the state is closed, and a closed state stays closed and gives no more.
  pub record IsOnce (test : Out → Bool) (Closed : S → Type 0) : Type 0 where
    pub silent : (op : Op) (s : S) → Closed s → count test (step op s).0 ≡ 0
    pub stays : (op : Op) (s : S) → Closed s → Closed (step op s).1
    pub closes :
        (op : Op) (s : S)
        → (count test (step op s).0 ≡ 0) ⊎ ((count test (step op s).0 ≤ 1) × Closed (step op s).1)

  module _ (test : Out → Bool) (Closed : S → Type 0) (once : IsOnce test Closed) where
    count-run :
        (op : Op) (ops : List Op) (s : S)
        → count test (run (op ∷ ops) s).0
          ≡ count test (step op s).0 + count test (run ops (step op s).1).0
    unfolding run
    count-run op ops s = count-append test (step op s).0 (run ops (step op s).1).0

    pub none_after : (ops : List Op) (s : S) → Closed s → count test (run ops s).0 ≡ 0
    none_after [] s c = unfold run count in refl
    none_after (op ∷ ops) s c = omega (
      arith,
      count-run op ops s,
      once.silent op s c,
      none_after ops (step op s).1 (once.stays op s c),
    )

    pub at_most_once : (ops : List Op) (s : S) → count test (run ops s).0 ≤ 1
    at_most_once [] s = unfold run count in omega arith
    at_most_once (op ∷ ops) s = elim (once.closes op s) [
      | inl n ↦ omega (arith, count-run op ops s, n, at_most_once ops (step op s).1)
      | inr (b, c) ↦ omega (arith, count-run op ops s, b, none_after ops (step op s).1 c)
    ]

  -- What every step keeps, for operations of one kind, and what it gives.
  pub record Keeps (Allowed : Op → Type 0) (Inv : S → Type 0) (Good : Out → Type 0) : Type 0 where
    pub keeps : (op : Op) (s : S) → Allowed op → Inv s → Inv (step op s).1
    pub gives : (op : Op) (s : S) → Allowed op → Inv s → All Good (step op s).0

  module _ (Allowed : Op → Type 0) (Inv : S → Type 0) (Good : Out → Type 0)
      (k : Keeps Allowed Inv Good) where
    pub run-All : (ops : List Op) (s : S) → All Allowed ops → Inv s → All Good (run ops s).0
    unfolding run
    run-All [] s a i = _
    run-All (op ∷ ops) s (a, rest) i =
        All-append Good (step op s).0 (run ops (step op s).1).0 (k.gives op s a i)
          (run-All ops (step op s).1 rest (k.keeps op s a i))

  -- What is left to spend, which only the gain of an operation adds to, pays for what a step gives.
  abbrev pub IsPaid : (Out → Bool) → (S → ℕ) → (Op → ℕ) → Type 0
  IsPaid test left gain =
      (op : Op) (s : S) → count test (step op s).0 + left (step op s).1 ≤ left s + gain op

  module _ (test : Out → Bool) (left : S → ℕ) (gain : Op → ℕ) (paid : IsPaid test left gain) where
    pub run_paid :
        (ops : List Op) (s : S)
        → count test (run ops s).0 + left (run ops s).1 ≤ left s + total gain ops
    unfolding run count total
    run_paid [] s = omega arith
    run_paid (op ∷ ops) s =
        let rest = run_paid ops (step op s).1 in
        omega (arith, count-append test (step op s).0 (run ops (step op s).1).0, paid op s, rest)
