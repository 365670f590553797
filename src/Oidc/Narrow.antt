-- ===== src/Oidc/Narrow.antt =====
-- Token exchange (oidc.go, TokenExchange) never widens a scope.
use mathlib.Core.List.{Memᴰ}
use qeet_id.Oidc.Authentic.{IsAuthentic, authenticate_client-IsAuthentic}
use qeet_id.Oidc.Fields.{fields-join, downscope-within, contains-Mem, all-contains}
use qeet_id.Base.{
  ℕ, ◌≡◌, ◌⊎◌, refl, sym, ◌∙◌, ap, subst, inl, inr, String, true, Option, none, some, List, str_eq,
  str_eq_iff, All, arith, Bool-cases, Option-cases,
}
use qeet_id.Errs.{Result, ok, err}
use qeet_id.Device.Flow.{contains}
use qeet_id.Oidc.Rows.{Client, Env}
use qeet_id.Oidc.Codes.{authenticate_client}
use qeet_id.Oidc.Exchange.{
  Claims, Issuer, fields, join, downscope, may_exchange, token_exchange_grant, ExchangeRequest,
  Exchanged, actor_of, acted, narrowed, for_user, for_subject, exchange_for, token_exchange,
}

-- The client that has authenticated itself and may exchange.
pub record IsExchanger (env : Env) (id secret : String) (c : Client) : Type 0 where
  pub authentic : IsAuthentic env id secret c
  pub allowed :
      Memᴰ "token_exchange" c.grant_types
      ⊎ Memᴰ "urn:ietf:params:oauth:grant-type:token-exchange" c.grant_types

-- No actor token and no actor, or the subject of an actor token that verifies.
abbrev pub ActsFor : Issuer → String → String → Type 0
ActsFor issuer token actor =
    ((token ≡ "") × (actor ≡ ""))
    ⊎ ((a : Claims) × (issuer.verify_access token ≡ some a) × (actor ≡ a.subject))

-- What stands behind a token that an exchange brings.
pub record IsNarrowed (env : Env) (issuer : Issuer) (r : ExchangeRequest) (t : Exchanged)
    : Type 0 where
  pub client : Client
  pub exchanger : IsExchanger env r.client_id r.client_secret client
  pub claims : Claims
  pub verified : issuer.verify_access r.subject_token ≡ some claims
  pub same_user : issuer.parse_uuid claims.subject ≡ some t.user
  pub same_tenant : t.tenant ≡ claims.tenant
  pub within : All (λ s. Memᴰ s (fields claims.scope)) (fields t.scope)
  pub acts : ActsFor issuer r.actor_token t.actor

may_lem :
    (gs : List String)
    → may_exchange gs ≡ true
    → Memᴰ "token_exchange" gs ⊎ Memᴰ "urn:ietf:params:oauth:grant-type:token-exchange" gs
may_lem gs may = elim (Bool-cases (contains gs "token_exchange")) [
  | inl short ↦ inl (contains-Mem gs "token_exchange" short)
  | inr long ↦ inr (contains-Mem gs token_exchange_grant (ground (arith, may, long)))
]

acts_lem :
    (issuer : Issuer) (r : ExchangeRequest) (actor : String)
    → actor_of issuer r ≡ ok actor
    → ActsFor issuer r.actor_token actor
acts_lem issuer r actor h = elim (Bool-cases (str_eq r.actor_token "")) [
  | inl none_given ↦ inl ((str_eq_iff r.actor_token "").0 none_given, ground (arith, h, none_given))
  | inr given ↦ elim (Option-cases (issuer.verify_access r.actor_token)) [
    | inl bad ↦ absurd (ground (arith, h, given, bad))
    | inr (a, good) ↦ inr (a, good, ground (arith, h, given, good))
  ]
]

module _ (env : Env) (issuer : Issuer) (new_session : ℕ) (r : ExchangeRequest) (t : Exchanged) where
  acted-IsNarrowed :
      (c : Claims) (user : ℕ) (granted : List String) (o : Result String)
      → acted new_session r c user granted o ≡ ok t
      → (t.user ≡ user) × (t.tenant ≡ c.tenant) × (t.scope ≡ join granted) × (o ≡ ok t.actor)
  acted-IsNarrowed c user granted (err e) h = absurd (ground (arith, h))
  acted-IsNarrowed c user granted (ok a) h =
      (ground (arith, h), ground (arith, h), ground (arith, h), ground (arith, h))

  found_client :
      (grant_types : List String)
      → authenticate_client env r.client_id r.client_secret ≡ ok grant_types
      → may_exchange grant_types ≡ true
      → (c : Client) × IsExchanger env r.client_id r.client_secret c
  found_client gs auth may =
      let (c, authentic, same) =
        authenticate_client-IsAuthentic env r.client_id r.client_secret gs auth in
      (
        c,
        record {
          authentic = authentic;
          allowed = may_lem c.grant_types (subst (λ ts. may_exchange ts ≡ true) (sym same) may);
        },
      )

  for_subject-IsNarrowed :
      (grant_types : List String) (o : Option Claims)
      → authenticate_client env r.client_id r.client_secret ≡ ok grant_types
      → may_exchange grant_types ≡ true
      → issuer.verify_access r.subject_token ≡ o
      → for_subject issuer new_session r o ≡ ok t
      → IsNarrowed env issuer r t
  for_subject-IsNarrowed grant_types none auth may v h = absurd (ground (arith, h))
  for_subject-IsNarrowed grant_types (some c) auth may v h =
      user (issuer.parse_uuid c.subject) refl h
    where
      granted :
          (u : ℕ) (o : Option (List String))
          → issuer.parse_uuid c.subject ≡ some u
          → downscope (fields c.scope) r.scope ≡ o
          → narrowed issuer new_session r c u o ≡ ok t
          → IsNarrowed env issuer r t
      granted u none is d h = absurd (ground (arith, h))
      granted u (some g) is d h =
          let (same_user, same_tenant, same_scope, acts) =
            acted-IsNarrowed c u g (actor_of issuer r) h in
          let (ws, within) = downscope-within c.scope r.scope g d in
          let (client, exchanger) = found_client grant_types auth may in
          record {
            client = client;
            exchanger = exchanger;
            claims = c;
            verified = v;
            same_user = is ∙ ap some (sym same_user);
            same_tenant = same_tenant;
            within = rw (same_scope, fields-join g ws) (all-contains (fields c.scope) g within);
            acts = acts_lem issuer r t.actor acts;
          }

      user :
          (o : Option ℕ)
          → issuer.parse_uuid c.subject ≡ o
          → for_user issuer new_session r c o ≡ ok t
          → IsNarrowed env issuer r t
      user none is h = absurd (ground (arith, h))
      user (some u) is h = granted u _ is refl h

  -- A token exchange that succeeds comes from a known client that has the grant type under one of its
  -- two names and, if it is confidential, a secret that verifies, for a subject token that verifies.
  -- The new token is for the same user and tenant, has no scope that the subject token does not have,
  -- as the texts of both read, and its actor is the subject of an actor token that verifies, or empty
  -- without one.
  pub token_exchange-IsNarrowed :
      token_exchange env issuer new_session r ≡ ok t → IsNarrowed env issuer r t
  unfolding token_exchange
  token_exchange-IsNarrowed = go (authenticate_client env r.client_id r.client_secret) refl
    where
      go :
          (o : Result (List String))
          → authenticate_client env r.client_id r.client_secret ≡ o
          → exchange_for issuer new_session r o ≡ ok t
          → IsNarrowed env issuer r t
      go (err e) auth h = absurd (ground (arith, h))
      go (ok grant_types) auth h =
          for_subject-IsNarrowed grant_types (issuer.verify_access r.subject_token) auth
            (ground (arith, h)) refl (ground (arith, h))
