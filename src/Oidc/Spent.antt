-- ===== src/Oidc/Spent.antt =====
-- The table of authorization codes once a code is used (oidc.go, ExchangeCode).
use qeet_id.Base.{
  ℕ, ◌≡◌, refl, ◌∙◌, subst, inl, inr, String, Bool, true, false, not, ◌&&◌, some, List, [], ◌∷◌,
  ◌++◌, str_eq, str_eq_iff, any, is_some, if◌then◌else◌, arith, Bool-cases,
}
use qeet_id.Errs.{Result}
use qeet_id.Device.Rows.{Clock, find}
use qeet_id.Oidc.Rows.{Code, Env, Db, has_code_hash, find_code, insert_code, mark_code_used}
use qeet_id.Oidc.Codes.{redeem, Tokens, Draw, CodeRequest}
use qeet_id.Oidc.Refreshing.{refresh_token, revoke_token, revoke_grant}
use qeet_id.Oidc.Outcomes.{Refreshed, refresh_token-Refreshed}

abbrev pub is_unused : String → Code → Bool
is_unused h c = has_code_hash h c && not (is_some c.used_at)

-- A row with the hash is there, and all such rows are used.
pub record IsSpent (h : String) (cs : List Code) : Type 0 where
  pub there : any (has_code_hash h) cs ≡ true
  pub used : any (is_unused h) cs ≡ false

pub mark-there :
    (h g : String) (now : ℕ) (cs : List Code)
    → any (has_code_hash h) (mark_code_used g now cs) ≡ any (has_code_hash h) cs
unfolding mark_code_used
mark-there h g now [] = refl
mark-there h g now (c ∷ cs) = ground (arith, mark-there h g now cs)

pub mark-used :
    (h g : String) (now : ℕ) (cs : List Code)
    → any (is_unused h) cs ≡ false
    → any (is_unused h) (mark_code_used g now cs) ≡ false
unfolding mark_code_used
mark-used h g now [] u = refl
mark-used h g now (c ∷ cs) u = ground (arith, mark-used h g now cs)

pub mark-all :
    (h : String) (now : ℕ) (cs : List Code) → any (is_unused h) (mark_code_used h now cs) ≡ false
unfolding mark_code_used
mark-all h now [] = refl
mark-all h now (c ∷ cs) = ground (arith, mark-all h now cs)

pub find-there :
    (h client : String) (cs : List Code) (c : Code)
    → find_code h client cs ≡ some c
    → any (has_code_hash h) cs ≡ true
unfolding find
find-there h client [] c e = absurd (ground arith)
find-there h client (d ∷ cs) c e = ground (arith, find-there h client cs c)

pub find-used :
    (h client : String) (cs : List Code) (c : Code)
    → any (is_unused h) cs ≡ false
    → find_code h client cs ≡ some c
    → is_some c.used_at ≡ true
unfolding find
find-used h client [] c u e = absurd (ground arith)
find-used h client (d ∷ cs) c u e = ground (arith, find-used h client cs c)

any-append :
    (test : Code → Bool) (cs : List Code) (c : Code)
    → any test (cs ++ c ∷ []) ≡ (if any test cs then true else test c)
any-append test [] c = ground arith
any-append test (d ∷ cs) c = ground (arith, any-append test cs c)

pub mark-IsSpent :
    (h g : String) (now : ℕ) (cs : List Code) → IsSpent h cs → IsSpent h (mark_code_used g now cs)
mark-IsSpent h g now cs s = record {
  there = mark-there h g now cs ∙ s.there;
  used = mark-used h g now cs s.used;
}

pub insert-IsSpent :
    (h : String) (c : Code) (cs ds : List Code)
    → insert_code c cs ≡ some ds
    → IsSpent h cs
    → IsSpent h ds
unfolding insert_code
insert-IsSpent h c cs ds e s = elim (Bool-cases (any (has_code_hash c.code_hash) cs)) [
  | inl clash ↦ absurd (ground (arith, clash))
  | inr free ↦
      let same : cs ++ c ∷ [] ≡ ds = ground (arith, free) in
      subst (IsSpent h) same (record {
        there = any-append (has_code_hash h) cs c ∙ (ground (arith, s.there));
        used = any-append (is_unused h) cs c ∙ (ground (arith, s.used, new));
      })
]
  where
    new : any (has_code_hash c.code_hash) cs ≡ false → is_unused h c ≡ false
    new free = elim (Bool-cases (str_eq c.code_hash h)) [
      | inr other ↦ ground (arith, other)
      | inl same ↦
          let e : c.code_hash ≡ h = (str_eq_iff c.code_hash h).0 same in
          absurd (ground (arith, s.there, subst (λ g. any (has_code_hash g) cs ≡ false) e free))
    ]

pub redeem-codes :
    (env : Env) (clock : Clock) (draw : Draw) (r : CodeRequest) (grant_types : List String)
    (db : Db) (c : Code)
    → (redeem env clock draw r grant_types db c).1.codes
      ≡ mark_code_used (env.hash r.code) clock.db db.codes
redeem-codes env clock draw r grant_types db c = ground arith

pub refresh_token-codes :
    (env : Env) (clock : Clock) (draw : Draw) (client secret raw resource : String) (db : Db)
    → (refresh_token env clock draw client secret raw resource db).1.codes ≡ db.codes
refresh_token-codes env clock draw client secret raw resource db =
    go _ (refresh_token-Refreshed env clock draw client secret raw resource db)
  where
    go :
        (x : Result Tokens × Db)
        → Refreshed env clock draw client secret raw resource db x
        → x.1.codes ≡ db.codes
    go _ (Refreshed.refused e) = refl
    go _ (Refreshed.replayed r found own kept used) = refl
    go _ (Refreshed.rotates r found own kept new early) = ground arith

pub revoke_token-codes :
    (env : Env) (clock : Clock) (client secret token hint : String) (db : Db)
    → (revoke_token env clock client secret token hint db).1.codes ≡ db.codes
unfolding revoke_token
revoke_token-codes env clock client secret token hint db = ground arith

pub revoke_grant-codes :
    (clock : Clock) (tenant id : ℕ) (db : Db) → (revoke_grant clock tenant id db).1.codes ≡ db.codes
unfolding revoke_grant
revoke_grant-codes clock tenant id db = ground arith
