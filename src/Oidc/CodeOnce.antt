-- ===== src/Oidc/CodeOnce.antt =====
-- An authorization code (oidc.go) is exchanged at most once.
use qeet_id.Base.{
  ℕ, ◌≤◌, ◌≡◌, refl, sym, ◌∙◌, subst, ◌⊎◌, inl, inr, String, false, none, some, List, str_eq,
  str_eq_iff, is_some, arith, Bool-cases, count, at_most_once,
}
use qeet_id.Errs.{Result, ok, err}
use qeet_id.Device.Rows.{Clock}
use qeet_id.Oidc.Rows.{Code, Env, Db, find_code, mark_code_used}
use qeet_id.Oidc.Codes.{
  new_code, code_fails, Tokens, Draw, AuthRequest, CodeRequest, authorize, exchange_code,
  grant_consent,
}
use qeet_id.Oidc.Outcomes.{Authorized, authorize-Authorized, Exchanged, exchange_code-Exchanged}
use qeet_id.Oidc.Spent.{
  IsSpent, mark-there, mark-all, mark-IsSpent, insert-IsSpent, find-there, find-used, redeem-codes,
  refresh_token-codes, revoke_token-codes, revoke_grant-codes,
}
use qeet_id.Oidc.Granted.{grant_refresh-codes}
use qeet_id.Oidc.Run.{
  Op, consents, authorizes, exchanges, refreshes, revokes_token, revokes_grant, grants, step,
  is_for_code, run_ops, issue, for_code, for_refresh,
}

module _ (env : Env) (h : String) where
  abbrev Closed : Db → Type 0
  Closed db = IsSpent h db.codes

  authorize-IsSpent :
      (clock : Clock) (raw : String) (user : ℕ) (a : AuthRequest) (db : Db)
      → Closed db
      → Closed (authorize env clock raw user a db).1
  authorize-IsSpent clock raw user a db s = go _ (authorize-Authorized env clock raw user a db)
    where
      go : (x : Result (String × ℕ) × Db) → Authorized env clock raw user a db x → Closed x.1
      go _ (Authorized.refused e) = s
      go _ (Authorized.authorizes info cs known uri scopes ins) =
          insert-IsSpent h (new_code env clock raw user info.tenant a) db.codes cs ins s

  exchange-IsSpent :
      (clock : Clock) (draw : Draw) (r : CodeRequest) (db : Db)
      → Closed db
      → Closed (exchange_code env clock draw r db).1
  exchange-IsSpent clock draw r db s = go _ (exchange_code-Exchanged env clock draw r db)
    where
      go : (x : Result Tokens × Db) → Exchanged env clock draw r db x → Closed x.1
      go _ (Exchanged.refused e) = s
      go _ (Exchanged.redeems grant_types c auth found fails) =
          rw (redeem-codes env clock draw r grant_types db c)
            (mark-IsSpent h (env.hash r.code) clock.db db.codes s)

  exchanged-other :
      (r : CodeRequest) (t : Result Tokens)
      → str_eq (env.hash r.code) h ≡ false
      → count (is_for_code h) (issue (for_code (env.hash r.code)) t) ≡ 0
  unfolding count
  exchanged-other r (err e) other = refl
  exchanged-other r (ok t) other = ground (arith, other)

  exchanged-le :
      (r : CodeRequest) (t : Result Tokens)
      → count (is_for_code h) (issue (for_code (env.hash r.code)) t) ≤ 1
  unfolding count
  exchanged-le r (err e) = omega arith
  exchanged-le r (ok t) = ground arith

  unused :
      (clock : Clock) (r : CodeRequest) (c : Code)
      → code_fails env clock r c ≡ none
      → is_some c.used_at ≡ false
  unused clock r c fails = ground (arith, fails)

  found_unspent :
      (clock : Clock) (r : CodeRequest) (db : Db) (c : Code)
      → Closed db
      → find_code (env.hash r.code) r.client_id db.codes ≡ some c
      → code_fails env clock r c ≡ none
      → str_eq (env.hash r.code) h ≡ false
  found_unspent clock r db c s found fails = elim (Bool-cases (str_eq (env.hash r.code) h)) [
    | inr other ↦ other
    | inl same ↦
        let e : env.hash r.code ≡ h = (str_eq_iff (env.hash r.code) h).0 same in
        let here = subst (λ g. find_code g r.client_id db.codes ≡ some c) e found in
        absurd
          (ground (arith, unused clock r c fails, find-used h r.client_id db.codes c s.used here))
  ]

  exchange-silent :
      (clock : Clock) (draw : Draw) (r : CodeRequest) (db : Db)
      → Closed db
      → count
          (is_for_code h)
          (issue (for_code (env.hash r.code)) (exchange_code env clock draw r db).0)
        ≡ 0
  exchange-silent clock draw r db s = go _ (exchange_code-Exchanged env clock draw r db)
    where
      go :
          (x : Result Tokens × Db)
          → Exchanged env clock draw r db x
          → count (is_for_code h) (issue (for_code (env.hash r.code)) x.0) ≡ 0
      go _ (Exchanged.refused e) = unfold count in refl
      go _ (Exchanged.redeems grant_types c auth found fails) =
          exchanged-other r _ (found_unspent clock r db c s found fails)

  exchange-closes :
      (clock : Clock) (draw : Draw) (r : CodeRequest) (db : Db)
      → (count
            (is_for_code h)
            (issue (for_code (env.hash r.code)) (exchange_code env clock draw r db).0)
          ≡ 0)
        ⊎ ((count
                (is_for_code h)
                (issue (for_code (env.hash r.code)) (exchange_code env clock draw r db).0)
              ≤ 1)
            × Closed (exchange_code env clock draw r db).1)
  exchange-closes clock draw r db = go _ (exchange_code-Exchanged env clock draw r db)
    where
      go :
          (x : Result Tokens × Db)
          → Exchanged env clock draw r db x
          → (count (is_for_code h) (issue (for_code (env.hash r.code)) x.0) ≡ 0)
            ⊎ ((count (is_for_code h) (issue (for_code (env.hash r.code)) x.0) ≤ 1) × Closed x.1)
      go _ (Exchanged.refused e) = inl (unfold count in refl)
      go _ (Exchanged.redeems grant_types c auth found fails) =
          elim (Bool-cases (str_eq (env.hash r.code) h)) [
            | inr other ↦ inl (exchanged-other r _ other)
            | inl same ↦ inr (
              exchanged-le r _,
              rw (redeem-codes env clock draw r grant_types db c) (
                  subst (λ g. IsSpent h (mark_code_used g clock.db db.codes))
                    (sym ((str_eq_iff (env.hash r.code) h).0 same))
                    (record {
                      there =
                          mark-there h h clock.db db.codes
                          ∙ find-there h r.client_id db.codes c (
                              subst (λ g. find_code g r.client_id db.codes ≡ some c)
                                ((str_eq_iff (env.hash r.code) h).0 same) found);
                      used = mark-all h clock.db db.codes;
                    })),
            )
          ]

  refreshed-silent :
      (g : String) (t : Result Tokens) → count (is_for_code h) (issue (for_refresh g) t) ≡ 0
  unfolding count
  refreshed-silent g (err e) = refl
  refreshed-silent g (ok t) = refl

  step-silent : (op : Op) (db : Db) → Closed db → count (is_for_code h) (step env op db).0 ≡ 0
  unfolding step count
  step-silent (consents user client scopes) db s = refl
  step-silent (authorizes clock raw user a) db s = refl
  step-silent (exchanges clock draw r) db s = exchange-silent clock draw r db s
  step-silent (refreshes clock draw client secret raw resource) db s = refreshed-silent _ _
  step-silent (revokes_token clock client secret token hint) db s = refl
  step-silent (revokes_grant clock tenant id) db s = refl
  step-silent (grants clock draw user tenant client scopes) db s = refl

  same_codes : (cs ds : List Code) → ds ≡ cs → IsSpent h cs → IsSpent h ds
  same_codes cs ds e s = subst (IsSpent h) (sym e) s

  step-stays : (op : Op) (db : Db) → Closed db → Closed (step env op db).1
  unfolding step grant_consent
  step-stays (consents user client scopes) db s = s
  step-stays (authorizes clock raw user a) db s = authorize-IsSpent clock raw user a db s
  step-stays (exchanges clock draw r) db s = exchange-IsSpent clock draw r db s
  step-stays (refreshes clock draw client secret raw resource) db s =
      same_codes db.codes _ (refresh_token-codes env clock draw client secret raw resource db) s
  step-stays (revokes_token clock client secret token hint) db s =
      same_codes db.codes _ (revoke_token-codes env clock client secret token hint db) s
  step-stays (revokes_grant clock tenant id) db s =
      same_codes db.codes _ (revoke_grant-codes clock tenant id db) s
  step-stays (grants clock draw user tenant client scopes) db s =
      same_codes db.codes _ (grant_refresh-codes env clock draw user tenant client scopes db) s

  step-closes :
      (op : Op) (db : Db)
      → (count (is_for_code h) (step env op db).0 ≡ 0)
        ⊎ ((count (is_for_code h) (step env op db).0 ≤ 1) × Closed (step env op db).1)
  unfolding step count
  step-closes (consents user client scopes) db = inl refl
  step-closes (authorizes clock raw user a) db = inl refl
  step-closes (exchanges clock draw r) db = exchange-closes clock draw r db
  step-closes (refreshes clock draw client secret raw resource) db = inl (refreshed-silent _ _)
  step-closes (revokes_token clock client secret token hint) db = inl refl
  step-closes (revokes_grant clock tenant id) db = inl refl
  step-closes (grants clock draw user tenant client scopes) db = inl refl

  -- Over any sequence of consents, authorizations, exchanges, refreshes, revocations and refresh tokens
  -- of other grants, of any clients and users and with any clocks, an authorization code brings tokens at most once.
  pub code_at_most_once :
      (ops : List Op) (db : Db) → count (is_for_code h) (run_ops env ops db).0 ≤ 1
  code_at_most_once =
      at_most_once (step env) (is_for_code h) Closed
        (record { silent = step-silent; stays = step-stays; closes = step-closes })
