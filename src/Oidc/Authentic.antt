-- ===== src/Oidc/Authentic.antt =====
-- What authenticateClient (oidc.go) asks of a client.
use qeet_id.Base.{
  ◌≡◌, ◌≢◌, ◌⊎◌, refl, inl, inr, String, true, Option, none, some, List, str_eq, str_eq_iff, arith,
  Bool-cases, Option-cases,
}
use qeet_id.Errs.{ok}
use qeet_id.Oidc.Rows.{Client, Env, find_client}
use qeet_id.Oidc.Codes.{authenticate_client, grant_types_of, secret_fits}

-- The client that is known by the id, and that has the secret where it is confidential.
pub record IsAuthentic (env : Env) (id secret : String) (c : Client) : Type 0 where
  pub known : find_client id env ≡ some c
  pub proves :
      (c.client_type ≢ "confidential")
      ⊎ ((h : String) × (c.client_secret_hash ≡ some h) × (env.verify h secret ≡ true))

types_lem :
    (env : Env) (secret : String) (gs : List String) (c : Client)
    → grant_types_of env secret (some c) ≡ ok gs
    → c.grant_types ≡ gs
types_lem env secret gs c h = ground (arith, h)

proves_lem :
    (env : Env) (secret : String) (gs : List String) (c : Client)
    → grant_types_of env secret (some c) ≡ ok gs
    → (c.client_type ≢ "confidential")
      ⊎ ((h : String) × (c.client_secret_hash ≡ some h) × (env.verify h secret ≡ true))
proves_lem env secret gs c h = elim (Bool-cases (str_eq c.client_type "confidential")) [
  | inr public ↦
      inl (λ e. absurd (ground (arith, public, (str_eq_iff c.client_type "confidential").1 e)))
  | inl secretive ↦ elim (Option-cases c.client_secret_hash) [
    | inl no_hash ↦ absurd (ground (arith, h, secretive, no_hash))
    | inr (hash, e) ↦ inr (hash, e, fits hash c.client_secret_hash e (ground (arith, h, secretive)))
  ]
]
  where
    fits :
        (hash : String) (o : Option String)
        → o ≡ some hash
        → secret_fits env secret o ≡ true
        → env.verify hash secret ≡ true
    fits hash o e f = ground (arith, e, f)

grant_types_of-IsAuthentic :
    (env : Env) (id secret : String) (grant_types : List String) (o : Option Client)
    → find_client id env ≡ o
    → grant_types_of env secret o ≡ ok grant_types
    → (c : Client) × IsAuthentic env id secret c × (c.grant_types ≡ grant_types)
grant_types_of-IsAuthentic env id secret gs none e h = absurd (ground (arith, h))
grant_types_of-IsAuthentic env id secret gs (some c) e h =
    (c, record { known = e; proves = proves_lem env secret gs c h }, types_lem env secret gs c h)

pub authenticate_client-IsAuthentic :
    (env : Env) (id secret : String) (grant_types : List String)
    → authenticate_client env id secret ≡ ok grant_types
    → (c : Client) × IsAuthentic env id secret c × (c.grant_types ≡ grant_types)
unfolding authenticate_client
authenticate_client-IsAuthentic env id secret gs h =
    grant_types_of-IsAuthentic env id secret gs (find_client id env) refl h
