-- ===== src/Rebac/Sound.antt =====
-- A Check that answers yes has a chain of stored tuples from the object to the user.
use mathlib.Core.List.{Memᴰ}
use qeet_id.Base.{
  ℕ, zero, suc, ◌+◌, ◌≡◌, refl, subst, inl, inr, String, true, false, List, [], ◌∷◌, arith, ltb,
  ◌||◌, Bool-cases,
}
use qeet_id.Errs.{Result, ok, err}
use qeet_id.Rebac.Refs.{Node, key}
use qeet_id.Rebac.Resolve.{
  Tuple, Fetcher, ExplainStep, Search, failed, found, missed, out_of_fuel, has, userset,
  explain_step, is_direct, is_user, walk, resolve, max_depth,
}

-- The tuple `t` is stored on the object and relation `n`.
pub record Stored (fetch : Fetcher) (n : Node) (t : Tuple) : Type 0 where
  pub tuples : List Tuple
  pub fetches : fetch n ≡ ok tuples
  pub member : Memᴰ t tuples

-- A chain of tuples that ends at the user, with the explanation it reads as from depth `d` on.
pub data Chain (fetch : Fetcher) (user : String) : Node → ℕ → List ExplainStep → Type 0 where
  direct :
      {n : Node} {d : ℕ} (t : Tuple)
      → Stored fetch n t
      → is_direct t ≡ true
      → is_user user t ≡ true
      → Chain fetch user n d (explain_step n t d ∷ [])
  via :
      {n : Node} {d : ℕ} {path : List ExplainStep} (t : Tuple)
      → Stored fetch n t
      → is_direct t ≡ false
      → Chain fetch user (userset t) (d + 1) path
      → Chain fetch user n d (explain_step n t d ∷ path)

module _ (fetch : Fetcher) (user : String) where
  abbrev Sound : (Node → List String → Search) → ℕ → Type 0
  Sound descend d =
      (m : Node) (v : List String) (path : List ExplainStep)
      → descend m v ≡ found path
      → Chain fetch user m d path

  -- How a loop over `t ∷ ts` can find a path: by `t` itself, below `t`, or among `ts`.
  data Found (descend : Node → List String → Search) (n : Node) (d : ℕ) (t : Tuple)
      (ts : List Tuple) (visited : List String) : List ExplainStep → Type 0 where
    here :
        is_direct t ≡ true
        → is_user user t ≡ true
        → Found descend n d t ts visited (explain_step n t d ∷ [])
    below :
        (path : List ExplainStep)
        → is_direct t ≡ false
        → descend (userset t) visited ≡ found path
        → Found descend n d t ts visited (explain_step n t d ∷ path)
    later :
        (visited' : List String) {path : List ExplainStep}
        → walk descend n user d ts visited' ≡ found path
        → Found descend n d t ts visited path

  walk_cases :
      (descend : Node → List String → Search) (n : Node) (d : ℕ) (t : Tuple) (ts : List Tuple)
      (visited : List String) (path : List ExplainStep)
      → walk descend n user d (t ∷ ts) visited ≡ found path
      → Found descend n d t ts visited path
  unfolding walk
  walk_cases descend n d t ts visited path h = elim (Bool-cases (is_direct t)) [
    | inl plain ↦ elim (Bool-cases (is_user user t)) [
      | inl mine ↦ subst (Found descend n d t ts visited) (ground arith) (here plain mine)
      | inr other ↦ later visited (ground arith)
    ]
    | inr indirect ↦ go indirect (descend (userset t) visited) refl
  ]
    where
      go :
          is_direct t ≡ false
          → (r : Search) → descend (userset t) visited ≡ r
          → Found descend n d t ts visited path
      go i (failed e) q = absurd (ground arith)
      go i (found p) q = subst (Found descend n d t ts visited) (ground arith) (below p i q)
      go i (missed v) q = later v (ground arith)
      go i out_of_fuel q = absurd (ground arith)

  walk-Sound :
      (descend : Node → List String → Search) (n : Node) (d : ℕ) (all : List Tuple)
      → fetch n ≡ ok all
      → Sound descend (d + 1)
      → (ts : List Tuple) (visited : List String) (path : List ExplainStep)
      → ((t : Tuple) → Memᴰ t ts → Memᴰ t all)
      → walk descend n user d ts visited ≡ found path
      → Chain fetch user n d path
  unfolding walk
  walk-Sound descend n d all e sound [] visited path sub h = absurd (ground arith)
  walk-Sound descend n d all e sound (t ∷ ts) visited path sub h =
      by_cases (walk_cases descend n d t ts visited path h)
        (λ v p. walk-Sound descend n d all e sound ts v p (λ s m. sub s (Memᴰ.tail m)))
    where
      stored : Stored fetch n t
      stored = record { tuples = all; fetches = e; member = sub t (Memᴰ.head refl) }

      by_cases :
          {q : List ExplainStep}
          → Found descend n d t ts visited q
          → ((v : List String) (p : List ExplainStep)
              → walk descend n user d ts v ≡ found p
              → Chain fetch user n d p)
          → Chain fetch user n d q
      by_cases (here direct_t mine) ih = direct t stored direct_t mine
      by_cases (below p indirect r) ih = via t stored indirect (sound (userset t) visited p r)
      by_cases (later v {path = p} r) ih = ih v p r

  pub resolve_sound :
      (fuel : ℕ) (n : Node) (visited : List String) (d : ℕ) (path : List ExplainStep)
      → resolve fetch fuel n user visited d ≡ found path
      → Chain fetch user n d path
  unfolding resolve
  resolve_sound zero n visited d path h = absurd (ground arith)
  resolve_sound (suc fuel) n visited d path h =
      elim (Bool-cases (ltb max_depth d || has visited (key n))) [
        | inl stopped ↦ absurd (ground arith)
        | inr going ↦ go going (fetch n) refl (λ m v p q. resolve_sound fuel m v (d + 1) p q)
      ]
    where
      go :
          (ltb max_depth d || has visited (key n)) ≡ false
          → (r : Result (List Tuple)) → fetch n ≡ r
          → Sound (λ m v. resolve fetch fuel m user v (d + 1)) (d + 1)
          → Chain fetch user n d path
      go g (err e) q ih = absurd (ground arith)
      go g (ok ts) q ih =
          walk-Sound _ n d ts q ih ts (key n ∷ visited) path (λ _ m. m) (rw (g, q, resolve) at h)
