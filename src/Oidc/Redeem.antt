-- ===== src/Oidc/Redeem.antt =====
-- What ExchangeCode asks for (oidc.go), and that it answers a code that Authorize gave.
use qeet_id.Base.{
  ◌≤◌, ◌≡◌, ◌≢◌, ◌⊎◌, inl, inr, String, true, Option, none, some, List, str_eq, str_eq_iff, is_some,
  arith, Bool-cases,
}
use qeet_id.Errs.{Result, ok}
use qeet_id.Device.Rows.{Clock}
use qeet_id.Device.Flow.{contains}
use qeet_id.Oidc.Rows.{Client, Code, Refresh, Env, Db, find_code}
use qeet_id.Oidc.Codes.{
  Tokens, Draw, CodeRequest, authenticate_client, code_fails, pkce_fails, deref_str, redeem,
  with_refresh, code_tokens, exchange_code,
}
use qeet_id.Oidc.Authentic.{IsAuthentic, authenticate_client-IsAuthentic}
use qeet_id.Oidc.Outcomes.{Exchanged, exchange_code-Exchanged}

-- The proof key: no challenge, or one that is the S256 hash of the verifier.
abbrev pub ProvesKey : Env → String → Code → Type 0
ProvesKey env verifier c =
    (deref_str c.code_challenge ≡ "")
    ⊎ ((deref_str c.code_challenge_method ≡ "S256")
        × (verifier ≢ "")
        × (env.hash verifier ≡ deref_str c.code_challenge))

pub record IsRedeemed (env : Env) (clock : Clock) (r : CodeRequest) (db : Db) (t : Tokens)
    : Type 0 where
  pub grant_types : List String
  pub authenticated : authenticate_client env r.client_id r.client_secret ≡ ok grant_types
  pub client : Client
  pub authentic : IsAuthentic env r.client_id r.client_secret client
  pub same_grants : client.grant_types ≡ grant_types
  pub code : Code
  pub found : find_code (env.hash r.code) r.client_id db.codes ≡ some code
  pub unused : code.used_at ≡ none
  pub in_time : clock.app ≤ code.expires_at
  pub same_uri : code.redirect_uri ≡ r.redirect_uri
  pub proves : ProvesKey env r.code_verifier code
  pub same_user : t.user ≡ code.user
  pub same_tenant : t.tenant ≡ code.tenant
  pub same_client : t.client_id ≡ r.client_id
  pub same_scopes : t.scopes ≡ code.scopes
  pub refreshing : is_some t.refresh_token ≡ contains grant_types "refresh_token"

module _ (env : Env) (clock : Clock) (r : CodeRequest) (c : Code) where
  code_passes :
      code_fails env clock r c ≡ none
      → (c.used_at ≡ none) × (clock.app ≤ c.expires_at) × (c.redirect_uri ≡ r.redirect_uri)
  code_passes h = (
    ground (arith, h),
    ground (arith, h),
    (str_eq_iff c.redirect_uri r.redirect_uri).0 (ground (arith, h)),
  )

  code_proves : code_fails env clock r c ≡ none → ProvesKey env r.code_verifier c
  code_proves h = elim (Bool-cases (str_eq (deref_str c.code_challenge) "")) [
    | inl no_challenge ↦ inl ((str_eq_iff (deref_str c.code_challenge) "").0 no_challenge)
    | inr challenged ↦
        let p : pkce_fails env r.code_verifier c.code_challenge_method (deref_str c.code_challenge)
            ≡ none =
          ground (arith, h, challenged) in
        inr (
          (str_eq_iff (deref_str c.code_challenge_method) "S256").0 (ground (arith, p)),
          (λ e. absurd (ground (arith, p, (str_eq_iff r.code_verifier "").1 e))),
          (str_eq_iff (env.hash r.code_verifier) (deref_str c.code_challenge)).0
              (ground (arith, p)),
        )
  ]

module _ (env : Env) (clock : Clock) (draw : Draw) (r : CodeRequest) (db : Db) (t : Tokens) where
  abbrev SameGrant : List String → Code → Type 0
  SameGrant grant_types c =
      (t.user ≡ c.user)
      × (t.tenant ≡ c.tenant)
      × (t.client_id ≡ r.client_id)
      × (t.scopes ≡ c.scopes)
      × (is_some t.refresh_token ≡ contains grant_types "refresh_token")

  issued-SameGrant :
      (grant_types : List String) (c : Code) (used : Db) (o : Option (List Refresh))
      → contains grant_types "refresh_token" ≡ true
      → (with_refresh draw (code_tokens r c) used o).0 ≡ ok t
      → SameGrant grant_types c
  issued-SameGrant grant_types c used none is h = absurd (ground (arith, h))
  issued-SameGrant grant_types c used (some rs) is h = (
    ground (arith, h),
    ground (arith, h),
    ground (arith, h),
    ground (arith, h),
    ground (arith, h, is),
  )

  redeemed-SameGrant :
      (grant_types : List String) (c : Code)
      → (redeem env clock draw r grant_types db c).0 ≡ ok t
      → SameGrant grant_types c
  redeemed-SameGrant grant_types c = elim (Bool-cases (contains grant_types "refresh_token")) [
    | inl is ↦ λ h. issued-SameGrant grant_types c _ _ is (rw is at h)
    | inr other ↦ λ h. (
      ground (arith, h, other),
      ground (arith, h, other),
      ground (arith, h, other),
      ground (arith, h, other),
      ground (arith, h, other),
    )
  ]

  -- A code that brings tokens is of the client that asks, which is known and, if it is confidential,
  -- has shown a secret that verifies against its stored hash; the code is unused
  -- and in time, was given for the same redirect_uri, and if it has a challenge the verifier hashes to
  -- it by S256. The tokens are for the user, tenant and scopes of the code, and there is a refresh
  -- token exactly when the client has that grant type.
  pub exchange_code-IsRedeemed :
      (exchange_code env clock draw r db).0 ≡ ok t → IsRedeemed env clock r db t
  exchange_code-IsRedeemed = go _ (exchange_code-Exchanged env clock draw r db)
    where
      go :
          (x : Result Tokens × Db)
          → Exchanged env clock draw r db x
          → x.0 ≡ ok t
          → IsRedeemed env clock r db t
      go _ (Exchanged.refused e) h = absurd (ground (arith, h))
      go _ (Exchanged.redeems grant_types c auth found fails) h =
          let (unused, in_time, same_uri) = code_passes env clock r c fails in
          let (u, n, k, s, f) = redeemed-SameGrant grant_types c h in
          let (client, authentic, same) =
            authenticate_client-IsAuthentic env r.client_id r.client_secret grant_types auth in
          record {
            grant_types = grant_types;
            authenticated = auth;
            client = client;
            authentic = authentic;
            same_grants = same;
            code = c;
            found = found;
            unused = unused;
            in_time = in_time;
            same_uri = same_uri;
            proves = code_proves env clock r c fails;
            same_user = u;
            same_tenant = n;
            same_client = k;
            same_scopes = s;
            refreshing = f;
          }
