-- ===== src/Oidc/Outcomes.antt =====
-- How each operation of oidc.go can end, with what its guards have established.
use qeet_id.Base.{
  ℕ, ◌≡◌, refl, ◌⊎◌, inl, inr, String, true, false, Option, none, some, List, str_eq, is_some,
  Bool-cases, if◌then◌else◌, ltb, ◌==◌, ◌&&◌,
}
use qeet_id.Errs.{Error, Result, ok, err, bad_request, unauthorized, storage}
use qeet_id.Device.Rows.{Clock, find}
use qeet_id.Device.Flow.{contains, not_permitted}
use qeet_id.Oidc.Rows.{
  Client, Code, Refresh, Env, Db, find_client, find_code, find_refresh, insert_code,
  revoke_grant_chain,
}
use qeet_id.Oidc.Codes.{
  Tokens, Draw, AuthRequest, CodeRequest, new_code, with_codes, authorize, authorize_client,
  authenticate_client, code_fails, redeem, checked, exchange_row, exchange_as, exchange_code,
}
use qeet_id.Oidc.Refreshing.{
  handle_refresh_reuse, rotate, bound_resource, refresh_row, refresh_as, refresh_token,
  revoke_found, revoke_grant,
}

module _ (env : Env) (clock : Clock) (raw : String) (user : ℕ) (a : AuthRequest) (db : Db) where
  pub data Authorized : Result (String × ℕ) × Db → Type 0 where
    refused : (e : Error) → Authorized (err e, db)
    authorizes :
        (info : Client) (cs : List Code)
        → find_client a.client_id env ≡ some info
        → contains info.redirect_uris a.redirect_uri ≡ true
        → not_permitted info.scopes a.scopes ≡ none
        → insert_code (new_code env clock raw user info.tenant a) db.codes ≡ some cs
        → Authorized (ok (raw, info.tenant), record db { codes = cs })

  pub authorize-Authorized : Authorized (authorize env clock raw user a db)
  unfolding authorize
  authorize-Authorized = client (find_client a.client_id env) refl
    where
      added :
          (info : Client) (o : Option (List Code))
          → find_client a.client_id env ≡ some info
          → contains info.redirect_uris a.redirect_uri ≡ true
          → not_permitted info.scopes a.scopes ≡ none
          → insert_code (new_code env clock raw user info.tenant a) db.codes ≡ o
          → Authorized (with_codes raw info.tenant db o)
      added info none known uri scopes e = refused (storage "23505")
      added info (some cs) known uri scopes e = authorizes info cs known uri scopes e

      scoped :
          (info : Client) (o : Option String)
          → find_client a.client_id env ≡ some info
          → contains info.redirect_uris a.redirect_uri ≡ true
          → not_permitted info.scopes a.scopes ≡ o
          → Authorized (
              if is_some o
              then (err (bad_request "scope not permitted"), db)
              else with_codes raw info.tenant db
                  (insert_code (new_code env clock raw user info.tenant a) db.codes))
      scoped info (some s) known uri e = refused (bad_request "scope not permitted")
      scoped info none known uri e = added info _ known uri e refl

      client :
          (o : Option Client)
          → find_client a.client_id env ≡ o
          → Authorized (authorize_client env clock raw user a db o)
      client none e = refused (bad_request "unknown client")
      client (some info) e = elim (Bool-cases (contains info.redirect_uris a.redirect_uri)) [
        | inl uri ↦ rw uri (scoped info (not_permitted info.scopes a.scopes) e uri refl)
        | inr other ↦ rw other (refused (bad_request "redirect_uri not registered"))
      ]

module _ (env : Env) (clock : Clock) (draw : Draw) (r : CodeRequest) (db : Db) where
  pub data Exchanged : Result Tokens × Db → Type 0 where
    refused : (e : Error) → Exchanged (err e, db)
    redeems :
        (grant_types : List String) (c : Code)
        → authenticate_client env r.client_id r.client_secret ≡ ok grant_types
        → find_code (env.hash r.code) r.client_id db.codes ≡ some c
        → code_fails env clock r c ≡ none
        → Exchanged (redeem env clock draw r grant_types db c)

  pub exchange_code-Exchanged : Exchanged (exchange_code env clock draw r db)
  unfolding exchange_code
  exchange_code-Exchanged = authenticated (authenticate_client env r.client_id r.client_secret) refl
    where
      passed :
          (grant_types : List String) (c : Code) (o : Option Error)
          → authenticate_client env r.client_id r.client_secret ≡ ok grant_types
          → find_code (env.hash r.code) r.client_id db.codes ≡ some c
          → code_fails env clock r c ≡ o
          → Exchanged (checked env clock draw r grant_types db c o)
      passed grant_types c (some e) auth found fails = refused e
      passed grant_types c none auth found fails = redeems grant_types c auth found fails

      row :
          (grant_types : List String) (o : Option Code)
          → authenticate_client env r.client_id r.client_secret ≡ ok grant_types
          → find_code (env.hash r.code) r.client_id db.codes ≡ o
          → Exchanged (exchange_row env clock draw r grant_types db o)
      row grant_types none auth found = refused (bad_request "invalid code")
      row grant_types (some c) auth found = passed grant_types c _ auth found refl

      authenticated :
          (o : Result (List String))
          → authenticate_client env r.client_id r.client_secret ≡ o
          → Exchanged (exchange_as env clock draw r db o)
      authenticated (err e) auth = refused e
      authenticated (ok grant_types) auth = row grant_types _ auth refl

module _ (env : Env) (clock : Clock) (draw : Draw) (client secret raw resource : String)
    (db : Db) where
  pub data Refreshed : Result Tokens × Db → Type 0 where
    refused : (e : Error) → Refreshed (err e, db)
    replayed :
        (r : Refresh)
        → find_refresh (env.hash_refresh raw) db.refreshes ≡ some r
        → str_eq r.client_id client ≡ true
        → is_some r.revoked_at ≡ false
        → is_some r.used_at ≡ true
        → Refreshed
            (err (unauthorized "refresh token reuse"), handle_refresh_reuse clock client r db)
    rotates :
        (r : Refresh)
        → find_refresh (env.hash_refresh raw) db.refreshes ≡ some r
        → str_eq r.client_id client ≡ true
        → is_some r.revoked_at ≡ false
        → is_some r.used_at ≡ false
        → ltb r.expires_at clock.app ≡ false
        → Refreshed (rotate env clock draw client r (bound_resource resource r.resource) db)

  pub refresh_token-Refreshed :
      Refreshed (refresh_token env clock draw client secret raw resource db)
  unfolding refresh_token
  refresh_token-Refreshed = authenticated (authenticate_client env client secret)
    where
      live :
          (r : Refresh)
          → find_refresh (env.hash_refresh raw) db.refreshes ≡ some r
          → str_eq r.client_id client ≡ true
          → is_some r.revoked_at ≡ false
          → Refreshed (
              if is_some r.used_at
              then (
                err (unauthorized "refresh token reuse"),
                handle_refresh_reuse clock client r db,
              )
              else if ltb r.expires_at clock.app
              then (err (unauthorized "refresh token expired"), db)
              else rotate env clock draw client r (bound_resource resource r.resource) db)
      live r found own kept = elim (Bool-cases (is_some r.used_at)) [
        | inl used ↦ rw used (replayed r found own kept used)
        | inr new ↦ elim (Bool-cases (ltb r.expires_at clock.app)) [
          | inl late ↦ rw (new, late) (refused (unauthorized "refresh token expired"))
          | inr early ↦ rw (new, early) (rotates r found own kept new early)
        ]
      ]

      row :
          (o : Option Refresh)
          → find_refresh (env.hash_refresh raw) db.refreshes ≡ o
          → Refreshed (refresh_row env clock draw client resource db o)
      row none found = refused (unauthorized "unknown refresh token")
      row (some r) found = elim (Bool-cases (str_eq r.client_id client)) [
        | inr other ↦ rw other (refused (unauthorized "client mismatch"))
        | inl own ↦ elim (Bool-cases (is_some r.revoked_at)) [
          | inl gone ↦ rw (own, gone) (refused (unauthorized "refresh token revoked"))
          | inr kept ↦ rw (own, kept) (live r found own kept)
        ]
      ]

      authenticated :
          (o : Result (List String))
          → Refreshed (refresh_as env clock draw client raw resource db o)
      authenticated (err e) = refused e
      authenticated (ok grant_types) = elim (Bool-cases (str_eq raw "")) [
        | inl empty ↦ rw empty (refused (bad_request "refresh_token required"))
        | inr given ↦ rw given (row _ refl)
      ]

-- RevokeGrant leaves the tables, or revokes the chain of a row.
pub revoke_grant_cases :
    (clock : Clock) (tenant id : ℕ) (db : Db)
    → ((revoke_grant clock tenant id db).1 ≡ db)
      ⊎ ((r : Refresh) × ((revoke_grant clock tenant id db).1 ≡ record db {
        refreshes = revoke_grant_chain r.client_id r.user tenant clock.db db.refreshes;
      }))
unfolding revoke_grant
revoke_grant_cases clock tenant id db =
    go (find (λ (r : Refresh). r.id == id && r.tenant == tenant) db.refreshes)
  where
    go :
        (o : Option Refresh)
        → ((revoke_found clock tenant db o).1 ≡ db)
          ⊎ ((r : Refresh) × ((revoke_found clock tenant db o).1 ≡ record db {
            refreshes = revoke_grant_chain r.client_id r.user tenant clock.db db.refreshes;
          }))
    go none = inl refl
    go (some r) = inr (r, refl)
