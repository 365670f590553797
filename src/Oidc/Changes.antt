-- ===== src/Oidc/Changes.antt =====
-- What the operations of oidc.go do to the table of refresh tokens, and a property of all grants
-- that they pass on from row to row.
use qeet_id.Base.{
  ℕ, ◌≡◌, refl, sym, subst, inl, inr, String, Bool, true, ◌||◌, Option, none, some, List, [], ◌∷◌,
  str_eq, str_eq_iff, arith, Bool-cases, All,
}
use qeet_id.Errs.{Result, ok, err}
use qeet_id.Device.Rows.{Clock, find}
use qeet_id.Device.Flow.{contains}
use qeet_id.Oidc.Rows.{
  Code, Refresh, Env, Db, has_token_hash, find_refresh, insert_refresh, update_where,
  mark_refresh_used, revoke, is_code, mark_code_used,
}
use qeet_id.Oidc.Codes.{
  authenticate_client, Tokens, Draw, AuthRequest, CodeRequest, new_refresh, with_refresh,
  code_tokens, redeem, exchange_code, authorize, grant_consent,
}
use qeet_id.Oidc.Refreshing.{
  revoke_as, rotated, bound_resource, refresh_token, revoke_token, revoke_grant,
}
use qeet_id.Oidc.Outcomes.{
  Exchanged, exchange_code-Exchanged, Refreshed, refresh_token-Refreshed, revoke_grant_cases,
}
use qeet_id.Oidc.Run.{
  Op, consents, authorizes, exchanges, refreshes, revokes_token, revokes_grant, grants, step,
  grant_refresh, with_refreshes,
}

pub find-All {ℓ} :
    {X : Type ℓ} (P : X → Type 0) (test : X → Bool) (xs : List X) (x : X)
    → All P xs
    → find test xs ≡ some x
    → P x × (test x ≡ true)
unfolding find
find-All P test [] x h e = absurd (ground arith)
find-All P test (y ∷ ys) x (p, ps) e = elim (Bool-cases (test y)) [
  | inl t ↦
      let same : y ≡ x = ground (arith, e, t) in (subst P same p, subst (λ z. test z ≡ true) same t)
  | inr n ↦ find-All P test ys x ps (ground (arith, e, n))
]

-- A change of rows where `New` holds of the rows that are added.
pub data Change (New : Refresh → Type 0) : List Refresh → List Refresh → Type 0 where
  unchanged : (rs : List Refresh) → Change New rs rs
  inserts :
      (r : Refresh) (rs ss : List Refresh)
      → New r
      → insert_refresh r rs ≡ some ss
      → Change New rs ss
  spends : (id new now : ℕ) (rs : List Refresh) → Change New rs (mark_refresh_used id new now rs)
  revokes :
      (test : Refresh → Bool) (now : ℕ) (rs : List Refresh)
      → Change New rs (update_where test (revoke now) rs)
  both : {rs ss ts : List Refresh} → Change New rs ss → Change New ss ts → Change New rs ts

module _ (A : ℕ → ℕ → String → List String → Type 0) where
  abbrev pub OfCode : Code → Type 0
  OfCode c = A c.user c.tenant c.client_id c.scopes

  abbrev pub OfRefresh : Refresh → Type 0
  OfRefresh r = A r.user r.tenant r.client_id r.scopes

  abbrev pub OfTokens : Tokens → Type 0
  OfTokens t = A t.user t.tenant t.client_id t.scopes

  pub record AllOf (db : Db) : Type 0 where
    pub codes : All OfCode db.codes
    pub refreshes : All OfRefresh db.refreshes

  pub code_found :
      (h client : String) (cs : List Code) (c : Code)
      → All OfCode cs
      → find (is_code h client) cs ≡ some c
      → A c.user c.tenant client c.scopes
  code_found h client cs c all e =
      let (p, t) = find-All OfCode (is_code h client) cs c all e in
      subst (λ k. A c.user c.tenant k c.scopes)
        ((str_eq_iff c.client_id client).0 (ground (arith, t))) p

  pub refresh_found :
      (h client : String) (rs : List Refresh) (r : Refresh)
      → All OfRefresh rs
      → find_refresh h rs ≡ some r
      → str_eq r.client_id client ≡ true
      → A r.user r.tenant client r.scopes
  refresh_found h client rs r all e own =
      let (p, t) = find-All OfRefresh (has_token_hash h) rs r all e in
      subst (λ k. A r.user r.tenant k r.scopes) ((str_eq_iff r.client_id client).0 own) p

  -- What another grant gives a refresh token for is allowed.
  abbrev pub OfGrant : Op → Type 0
  OfGrant (grants clock draw user tenant client scopes) = A user tenant client scopes
  OfGrant _ = Unit {0}

  module _ (env : Env) where
    redeem-Change :
        (clock : Clock) (draw : Draw) (r : CodeRequest) (grant_types : List String) (db : Db)
        (c : Code)
        → A c.user c.tenant r.client_id c.scopes
        → Change OfRefresh db.refreshes (redeem env clock draw r grant_types db c).1.refreshes
    redeem-Change clock draw r grant_types db c a =
        elim (Bool-cases (contains grant_types "refresh_token")) [
          | inr no_token ↦ rw no_token (unchanged db.refreshes)
          | inl token ↦ rw token (go (insert_refresh new db.refreshes) refl)
        ]
      where
        new : Refresh
        new = new_refresh env clock draw r.client_id c.user c.tenant c.scopes r.resource

        go :
            (o : Option (List Refresh))
            → insert_refresh
                (new_refresh env clock draw r.client_id c.user c.tenant c.scopes r.resource)
                db.refreshes
              ≡ o
            → Change OfRefresh db.refreshes
                (with_refresh draw
                  (code_tokens r c)
                  (record db { codes = mark_code_used (env.hash r.code) clock.db db.codes })
                  o).1.refreshes
        go none e = unchanged db.refreshes
        go (some rs) e = inserts _ db.refreshes rs a e

    rotate-Change :
        (clock : Clock) (draw : Draw) (client resource : String) (r : Refresh) (db : Db)
        (o : Option (List Refresh))
        → A r.user r.tenant client r.scopes
        → insert_refresh
            (new_refresh env clock draw client r.user r.tenant r.scopes resource)
            db.refreshes
          ≡ o
        → Change OfRefresh db.refreshes (rotated clock draw client r resource db o).1.refreshes
    rotate-Change clock draw client resource r db none a e = unchanged db.refreshes
    rotate-Change clock draw client resource r db (some rs) a e =
        both (inserts _ db.refreshes rs a e) (spends r.id draw.id clock.db rs)

    exchange_code-Change :
        (clock : Clock) (draw : Draw) (r : CodeRequest) (db : Db)
        → AllOf db
        → Change OfRefresh db.refreshes (exchange_code env clock draw r db).1.refreshes
    exchange_code-Change clock draw r db all = go _ (exchange_code-Exchanged env clock draw r db)
      where
        go :
            (x : Result Tokens × Db)
            → Exchanged env clock draw r db x
            → Change OfRefresh db.refreshes x.1.refreshes
        go _ (Exchanged.refused e) = unchanged db.refreshes
        go _ (Exchanged.redeems grant_types c auth found fails) =
            redeem-Change clock draw r grant_types db c
              (code_found (env.hash r.code) r.client_id db.codes c all.codes found)

    refresh_token-Change :
        (clock : Clock) (draw : Draw) (client secret raw resource : String) (db : Db)
        → AllOf db
        → Change OfRefresh db.refreshes
            (refresh_token env clock draw client secret raw resource db).1.refreshes
    refresh_token-Change clock draw client secret raw resource db all =
        go _ (refresh_token-Refreshed env clock draw client secret raw resource db)
      where
        go :
            (x : Result Tokens × Db)
            → Refreshed env clock draw client secret raw resource db x
            → Change OfRefresh db.refreshes x.1.refreshes
        go _ (Refreshed.refused e) = unchanged db.refreshes
        go _ (Refreshed.replayed r found own kept used) = revokes _ clock.db db.refreshes
        go _ (Refreshed.rotates r found own kept new early) =
            rotate-Change clock draw client (bound_resource resource r.resource) r db _
              (refresh_found (env.hash_refresh raw) client db.refreshes r all.refreshes found own)
              refl

    revoke_token-Change :
        (clock : Clock) (client secret token hint : String) (db : Db)
        → Change OfRefresh db.refreshes
            (revoke_token env clock client secret token hint db).1.refreshes
    unfolding revoke_token
    revoke_token-Change clock client secret token hint db =
        go (authenticate_client env client secret)
      where
        go :
            (o : Result (List String))
            → Change OfRefresh db.refreshes (revoke_as env clock client token hint db o).1.refreshes
        go (err e) = unchanged db.refreshes
        go (ok grant_types) = elim (Bool-cases (str_eq token "" || str_eq hint "access_token")) [
          | inl skip ↦ rw skip (unchanged db.refreshes)
          | inr given ↦ rw given (revokes _ clock.db db.refreshes)
        ]

    authorize-refreshes :
        (clock : Clock) (raw : String) (user : ℕ) (a : AuthRequest) (db : Db)
        → (authorize env clock raw user a db).1.refreshes ≡ db.refreshes
    unfolding authorize
    authorize-refreshes clock raw user a db = ground arith

    revoke_grant-Change :
        (clock : Clock) (tenant id : ℕ) (db : Db)
        → Change OfRefresh db.refreshes (revoke_grant clock tenant id db).1.refreshes
    revoke_grant-Change clock tenant id db = elim (revoke_grant_cases clock tenant id db) [
      | inl e ↦ rw e (unchanged db.refreshes)
      | inr (r, e) ↦ rw e (revokes _ clock.db db.refreshes)
    ]

    grant_refresh-Change :
        (clock : Clock) (draw : Draw) (user tenant : ℕ) (client : String) (scopes : List String)
        (db : Db)
        → A user tenant client scopes
        → Change OfRefresh db.refreshes
            (grant_refresh env clock draw user tenant client scopes db).refreshes
    unfolding grant_refresh
    grant_refresh-Change clock draw user tenant client scopes db granted =
        go (insert_refresh new db.refreshes) refl
      where
        new : Refresh
        new = new_refresh env clock draw client user tenant scopes ""

        go :
            (o : Option (List Refresh))
            → insert_refresh (new_refresh env clock draw client user tenant scopes "") db.refreshes
              ≡ o
            → Change OfRefresh db.refreshes (with_refreshes db o).refreshes
        go none e = unchanged db.refreshes
        go (some rs) e = inserts _ db.refreshes rs granted e

    pub step-Change :
        (op : Op) (db : Db)
        → OfGrant op
        → AllOf db
        → Change OfRefresh db.refreshes (step env op db).1.refreshes
    unfolding step grant_consent
    step-Change (consents user client scopes) db granted all = unchanged db.refreshes
    step-Change (authorizes clock raw user a) db granted all =
        subst (Change OfRefresh db.refreshes) (sym (authorize-refreshes clock raw user a db))
          (unchanged db.refreshes)
    step-Change (exchanges clock draw r) db granted all = exchange_code-Change clock draw r db all
    step-Change (refreshes clock draw client secret raw resource) db granted all =
        refresh_token-Change clock draw client secret raw resource db all
    step-Change (revokes_token clock client secret token hint) db granted all =
        revoke_token-Change clock client secret token hint db
    step-Change (revokes_grant clock tenant id) db granted all =
        revoke_grant-Change clock tenant id db
    step-Change (grants clock draw user tenant client scopes) db granted all =
        grant_refresh-Change clock draw user tenant client scopes db granted
