-- ===== src/Oidc/PassedOn.antt =====
-- A property of grants (user, tenant, client, scopes) that holds of all rows is kept by the statements
-- of oidc.go on codes and refresh tokens.
use qeet_id.Base.{
  ℕ, ◌≡◌, subst, inl, inr, String, Bool, some, List, [], ◌∷◌, ◌++◌, any, arith, Bool-cases, All,
  All-append,
}
use qeet_id.Oidc.Rows.{
  Code, Refresh, has_code_hash, clashes, insert_code, insert_refresh, mark_code_used, update_where,
  revoke,
}
use qeet_id.Oidc.Changes.{Change, unchanged, inserts, spends, revokes, both, OfCode, OfRefresh}

module _ (A : ℕ → ℕ → String → List String → Type 0) where
  pub mark-All :
      (h : String) (now : ℕ) (cs : List Code)
      → All (OfCode A) cs
      → All (OfCode A) (mark_code_used h now cs)
  unfolding mark_code_used
  mark-All h now [] all = _
  mark-All h now (c ∷ cs) (p, ps) = elim (Bool-cases (has_code_hash h c)) [
    | inl is ↦ (rw is p, mark-All h now cs ps)
    | inr other ↦ (rw other p, mark-All h now cs ps)
  ]

  update-All :
      (test : Refresh → Bool) (f : Refresh → Refresh) (rs : List Refresh)
      → ((r : Refresh) → OfRefresh A r → OfRefresh A (f r))
      → All (OfRefresh A) rs
      → All (OfRefresh A) (update_where test f rs)
  unfolding update_where
  update-All test f [] keep all = _
  update-All test f (r ∷ rs) keep (p, ps) = elim (Bool-cases (test r)) [
    | inl is ↦ (rw is (keep r p), update-All test f rs keep ps)
    | inr other ↦ (rw other p, update-All test f rs keep ps)
  ]

  pub insert_code-All :
      (c : Code) (cs ds : List Code)
      → insert_code c cs ≡ some ds
      → OfCode A c
      → All (OfCode A) cs
      → All (OfCode A) ds
  unfolding insert_code
  insert_code-All c cs ds e p all = elim (Bool-cases (any (has_code_hash c.code_hash) cs)) [
    | inl clash ↦ absurd (ground (arith, clash))
    | inr free ↦
        let joined : cs ++ c ∷ [] ≡ ds = ground (arith, free) in
        subst (All (OfCode A)) joined (All-append (OfCode A) cs (c ∷ []) all (p, _))
  ]

  insert_refresh-All :
      (r : Refresh) (rs ss : List Refresh)
      → insert_refresh r rs ≡ some ss
      → OfRefresh A r
      → All (OfRefresh A) rs
      → All (OfRefresh A) ss
  unfolding insert_refresh
  insert_refresh-All r rs ss e p all = elim (Bool-cases (any (clashes r) rs)) [
    | inl clash ↦ absurd (ground (arith, clash))
    | inr free ↦
        let joined : rs ++ r ∷ [] ≡ ss = ground (arith, free) in
        subst (All (OfRefresh A)) joined (All-append (OfRefresh A) rs (r ∷ []) all (p, _))
  ]

  pub Change-All :
      (rs ss : List Refresh)
      → Change (OfRefresh A) rs ss
      → All (OfRefresh A) rs
      → All (OfRefresh A) ss
  Change-All rs _ (unchanged _) all = all
  Change-All rs ss (inserts r _ _ new e) all = insert_refresh-All r rs ss e new all
  Change-All rs _ (spends id new now _) all = update-All _ _ rs (λ r p. p) all
  Change-All rs _ (revokes test now _) all = update-All test (revoke now) rs (λ r p. p) all
  Change-All rs ss (both {ss = ts} a b) all = Change-All ts ss b (Change-All rs ts a all)
