-- ===== src/Oidc/Backed.antt =====
-- All tokens of oidc.go go back to an authorization request or to another grant: for its user, its
-- client and its scopes, never more.
use mathlib.Core.List.{Memᴰ}
use qeet_id.Base.{
  ℕ, ◌≡◌, refl, ◌⊎◌, inl, inr, String, true, Option, none, some, List, [], ◌∷◌, Bool-cases, All,
  Keeps, run-All,
}
use qeet_id.Errs.{Result}
use qeet_id.Device.Rows.{Clock, Consent}
use qeet_id.Device.Flow.{contains, not_permitted}
use qeet_id.Oidc.Rows.{Client, Code, Refresh, Env, Db, find_client}
use qeet_id.Oidc.Codes.{
  Tokens, Draw, AuthRequest, CodeRequest, new_code, with_refresh, code_tokens, authorize, redeem,
  exchange_code, grant_consent,
}
use qeet_id.Oidc.Refreshing.{rotated, bound_resource, refresh_token}
use qeet_id.Oidc.Outcomes.{
  Authorized, authorize-Authorized, Exchanged, exchange_code-Exchanged, Refreshed,
  refresh_token-Refreshed,
}
use qeet_id.Oidc.PassedOn.{mark-All, insert_code-All, Change-All}
use qeet_id.Oidc.Changes.{AllOf, OfGrant, OfCode, OfTokens, code_found, refresh_found, step-Change}
use qeet_id.Oidc.Spent.{redeem-codes, refresh_token-codes, revoke_token-codes, revoke_grant-codes}
use qeet_id.Oidc.Granted.{grant_refresh-codes}
use qeet_id.Oidc.Run.{
  Op, consents, authorizes, exchanges, refreshes, revokes_token, revokes_grant, grants, Issue,
  for_code, for_refresh, issue, tokens_of, step, run_ops,
}

-- The request that a grant goes back to.
pub record IsAsked (env : Env) (history : List Op) (user tenant : ℕ) (client : String)
    (scopes : List String) : Type 0 where
  pub clock : Clock
  pub raw : String
  pub request : AuthRequest
  pub asked : Memᴰ (authorizes clock raw user request) history
  pub same_client : request.client_id ≡ client
  pub same_scopes : request.scopes ≡ scopes
  pub info : Client
  pub known : find_client request.client_id env ≡ some info
  pub same_tenant : info.tenant ≡ tenant
  pub registered : contains info.redirect_uris request.redirect_uri ≡ true
  pub permitted : not_permitted info.scopes request.scopes ≡ none

-- The device or CIBA grant that gave the first refresh token.
abbrev pub IsGranted : List Op → ℕ → ℕ → String → List String → Type 0
IsGranted history user tenant client scopes =
    (clock : Clock) × (draw : Draw) × Memᴰ (grants clock draw user tenant client scopes) history

abbrev pub IsBacked : Env → List Op → ℕ → ℕ → String → List String → Type 0
IsBacked env history user tenant client scopes =
    IsAsked env history user tenant client scopes ⊎ IsGranted history user tenant client scopes

module _ (A : ℕ → ℕ → String → List String → Type 0) (env : Env) where
  abbrev IsGood : Issue → Type 0
  IsGood i = OfTokens A (tokens_of i)

  with_refresh-All :
      (h : String) (draw : Draw) (r : CodeRequest) (c : Code) (db : Db) (o : Option (List Refresh))
      → A c.user c.tenant r.client_id c.scopes
      → All IsGood (issue (for_code h) (with_refresh draw (code_tokens r c) db o).0)
  with_refresh-All h draw r c db none a = _
  with_refresh-All h draw r c db (some rs) a = (a, _)

  redeem-All :
      (clock : Clock) (draw : Draw) (r : CodeRequest) (grant_types : List String) (db : Db)
      (c : Code)
      → A c.user c.tenant r.client_id c.scopes
      → All IsGood (issue (for_code (env.hash r.code)) (redeem env clock draw r grant_types db c).0)
  redeem-All clock draw r grant_types db c a =
      elim (Bool-cases (contains grant_types "refresh_token")) [
        | inl token ↦ rw token (with_refresh-All (env.hash r.code) draw r c _ _ a)
        | inr no_token ↦ rw no_token (a, _)
      ]

  rotated-All :
      (h : String) (clock : Clock) (draw : Draw) (client resource : String) (r : Refresh) (db : Db)
      (o : Option (List Refresh))
      → A r.user r.tenant client r.scopes
      → All IsGood (issue (for_refresh h) (rotated clock draw client r resource db o).0)
  rotated-All h clock draw client resource r db none a = _
  rotated-All h clock draw client resource r db (some rs) a = (a, _)

  exchange_code-All :
      (clock : Clock) (draw : Draw) (r : CodeRequest) (db : Db)
      → AllOf A db
      → All IsGood (issue (for_code (env.hash r.code)) (exchange_code env clock draw r db).0)
  exchange_code-All clock draw r db all = go _ (exchange_code-Exchanged env clock draw r db)
    where
      go :
          (x : Result Tokens × Db)
          → Exchanged env clock draw r db x
          → All IsGood (issue (for_code (env.hash r.code)) x.0)
      go _ (Exchanged.refused e) = _
      go _ (Exchanged.redeems grant_types c auth found fails) =
          redeem-All clock draw r grant_types db c
            (code_found A (env.hash r.code) r.client_id db.codes c all.codes found)

  refresh_token-All :
      (clock : Clock) (draw : Draw) (client secret raw resource : String) (db : Db)
      → AllOf A db
      → All IsGood (
          issue
            (for_refresh (env.hash_refresh raw))
            (refresh_token env clock draw client secret raw resource db).0)
  refresh_token-All clock draw client secret raw resource db all =
      go _ (refresh_token-Refreshed env clock draw client secret raw resource db)
    where
      go :
          (x : Result Tokens × Db)
          → Refreshed env clock draw client secret raw resource db x
          → All IsGood (issue (for_refresh (env.hash_refresh raw)) x.0)
      go _ (Refreshed.refused e) = _
      go _ (Refreshed.replayed r found own kept used) = _
      go _ (Refreshed.rotates r found own kept new early) =
          rotated-All (env.hash_refresh raw) clock draw client (bound_resource resource r.resource)
            r db _
            (refresh_found A (env.hash_refresh raw) client db.refreshes r all.refreshes found own)

  step-gives : (op : Op) (db : Db) → AllOf A db → All IsGood (step env op db).0
  unfolding step
  step-gives (consents user client scopes) db all = _
  step-gives (authorizes clock raw user a) db all = _
  step-gives (exchanges clock draw r) db all = exchange_code-All clock draw r db all
  step-gives (refreshes clock draw client secret raw resource) db all =
      refresh_token-All clock draw client secret raw resource db all
  step-gives (revokes_token clock client secret token hint) db all = _
  step-gives (revokes_grant clock tenant id) db all = _
  step-gives (grants clock draw user tenant client scopes) db all = _

  exchange_code-codes :
      (clock : Clock) (draw : Draw) (r : CodeRequest) (db : Db)
      → All (OfCode A) db.codes
      → All (OfCode A) (exchange_code env clock draw r db).1.codes
  exchange_code-codes clock draw r db all = go _ (exchange_code-Exchanged env clock draw r db)
    where
      go : (x : Result Tokens × Db) → Exchanged env clock draw r db x → All (OfCode A) x.1.codes
      go _ (Exchanged.refused e) = all
      go _ (Exchanged.redeems grant_types c auth found fails) =
          rw (redeem-codes env clock draw r grant_types db c)
            (mark-All A (env.hash r.code) clock.db db.codes all)

module _ (env : Env) (history : List Op) where
  abbrev Backed : ℕ → ℕ → String → List String → Type 0
  Backed user tenant client scopes = IsBacked env history user tenant client scopes

  authorize-codes :
      (clock : Clock) (raw : String) (user : ℕ) (a : AuthRequest) (db : Db)
      → Memᴰ (authorizes clock raw user a) history
      → All (OfCode Backed) db.codes
      → All (OfCode Backed) (authorize env clock raw user a db).1.codes
  authorize-codes clock raw user a db m all = go _ (authorize-Authorized env clock raw user a db)
    where
      go :
          (x : Result (String × ℕ) × Db)
          → Authorized env clock raw user a db x
          → All (OfCode Backed) x.1.codes
      go _ (Authorized.refused e) = all
      go _ (Authorized.authorizes info cs known uri scopes ins) =
          insert_code-All Backed (new_code env clock raw user info.tenant a) db.codes cs ins
            (inl (record {
              clock = clock;
              raw = raw;
              request = a;
              asked = m;
              same_client = refl;
              same_scopes = refl;
              info = info;
              known = known;
              same_tenant = refl;
              registered = uri;
              permitted = scopes;
            }))
            all

  step-codes :
      (op : Op) (db : Db)
      → Memᴰ op history
      → All (OfCode Backed) db.codes
      → All (OfCode Backed) (step env op db).1.codes
  unfolding step grant_consent
  step-codes (consents user client scopes) db m all = all
  step-codes (authorizes clock raw user a) db m all = authorize-codes clock raw user a db m all
  step-codes (exchanges clock draw r) db m all = exchange_code-codes Backed env clock draw r db all
  step-codes (refreshes clock draw client secret raw resource) db m all =
      rw (refresh_token-codes env clock draw client secret raw resource db) all
  step-codes (revokes_token clock client secret token hint) db m all =
      rw (revoke_token-codes env clock client secret token hint db) all
  step-codes (revokes_grant clock tenant id) db m all =
      rw (revoke_grant-codes clock tenant id db) all
  step-codes (grants clock draw user tenant client scopes) db m all =
      rw (grant_refresh-codes env clock draw user tenant client scopes db) all

  of_grant : (op : Op) → Memᴰ op history → OfGrant Backed op
  of_grant (consents user client scopes) m = _
  of_grant (authorizes clock raw user a) m = _
  of_grant (exchanges clock draw r) m = _
  of_grant (refreshes clock draw client secret raw resource) m = _
  of_grant (revokes_token clock client secret token hint) m = _
  of_grant (revokes_grant clock tenant id) m = _
  of_grant (grants clock draw user tenant client scopes) m = inr (clock, draw, m)

  kept : Keeps (step env) (λ (op : Op). Memᴰ op history) (AllOf Backed) (IsGood Backed env)
  kept = record {
    keeps = λ op db m all. record {
      codes = step-codes op db m all.codes;
      refreshes =
          Change-All Backed _ _ (step-Change Backed env op db (of_grant op m) all) all.refreshes;
    };
    gives = λ op db m all. step-gives Backed env op db all;
  }

all_members :
    (ops history : List Op)
    → ((op : Op) → Memᴰ op ops → Memᴰ op history)
    → All (λ (op : Op). Memᴰ op history) ops
all_members [] history inside = _
all_members (op ∷ ops) history inside =
    (inside op (Memᴰ.head refl), all_members ops history (λ x m. inside x (Memᴰ.tail m)))

-- From empty tables of codes and refresh tokens, all tokens that any sequence of consents,
-- authorizations, exchanges, refreshes, revocations and refresh tokens of other grants brings for codes
-- and refresh tokens are for the user, the tenant, the client and the scopes of one of its
-- authorization requests, in the tenant of that client, whose redirect_uri and scopes the client has
-- registered, or of one of those other grants. No refresh widens them.
pub issued-IsBacked :
    (env : Env) (ops : List Op) (given : List Consent)
    → All
        (λ (i : Issue).
          let t = tokens_of i in IsBacked env ops t.user t.tenant t.client_id t.scopes)
        (run_ops env ops (record { codes = []; refreshes = []; consents = given })).0
issued-IsBacked env ops given =
    run-All (step env) (λ (op : Op). Memᴰ op ops) (AllOf (Backed env ops))
      (IsGood (Backed env ops) env) (kept env ops) ops _ (all_members ops ops (λ op m. m))
      (record { codes = _; refreshes = _ })
