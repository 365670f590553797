-- ===== src/Rebac/Total.antt =====
-- The fuel of a Check is enough: the nesting is cut at the depth cap.
use qeet_id.Base.{
  ℕ, zero, suc, ◌+◌, ◌≤◌, ◌≡◌, refl, ◌≢◌, inl, inr, String, false, List, [], ◌∷◌, arith, ltb, ◌||◌,
  Bool-cases,
}
use qeet_id.Errs.{Result, ok, err}
use qeet_id.Rebac.Refs.{Node, key}
use qeet_id.Rebac.Resolve.{
  Tuple, Fetcher, Search, failed, found, missed, out_of_fuel, has, userset, walk, resolve,
  max_depth,
}

module _ (fetch : Fetcher) (user : String) where
  walk_total :
      (descend : Node → List String → Search) (n : Node) (d : ℕ)
      → ((m : Node) (v : List String) → descend m v ≢ out_of_fuel)
      → (ts : List Tuple) (visited : List String) → walk descend n user d ts visited ≢ out_of_fuel
  unfolding walk
  walk_total descend n d total [] visited = λ e. cc
  walk_total descend n d total (t ∷ ts) visited =
      λ e. go (descend (userset t) visited) refl (λ v. walk_total descend n d total ts v) e
    where
      go :
          (r : Search)
          → descend (userset t) visited ≡ r
          → ((v : List String) → walk descend n user d ts v ≢ out_of_fuel)
          → walk descend n user d (t ∷ ts) visited ≢ out_of_fuel
      go (failed x) q ih = ground (arith, ih visited)
      go (found p) q ih = ground (arith, ih visited)
      go (missed v) q ih = ground (arith, ih visited, ih v)
      go out_of_fuel q ih = absurd (total (userset t) visited q)

  pub resolve_total :
      (fuel : ℕ) (n : Node) (visited : List String) (d : ℕ)
      → d ≤ 26
      → 27 ≤ fuel + d
      → resolve fetch fuel n user visited d ≢ out_of_fuel
  unfolding resolve
  resolve_total zero n visited d low enough = absurd (omega arith)
  resolve_total (suc fuel) n visited d low enough =
      elim (Bool-cases (ltb max_depth d || has visited (key n))) [
        | inl stopped ↦ ground arith
        | inr going ↦
            go going (fetch n) refl
              (λ m v. resolve_total fuel m v (d + 1) (ground arith) (omega arith))
      ]
    where
      go :
          (ltb max_depth d || has visited (key n)) ≡ false
          → (r : Result (List Tuple)) → fetch n ≡ r
          → ((m : Node) (v : List String) → resolve fetch fuel m user v (d + 1) ≢ out_of_fuel)
          → resolve fetch (suc fuel) n user visited d ≢ out_of_fuel
      go g (err e) q ih = ground arith
      go g (ok ts) q ih = λ e. walk_total _ n d ih ts (key n ∷ visited) (rw (g, q, resolve) at e)
