-- ===== src/Oidc/Codes.antt =====
-- Authorize, authenticateClient, ExchangeCode and issueRefreshToken (oidc.go). A transaction that
-- ends without a commit leaves the tables as they were. What is signed into tokens is kept as
-- `Tokens`; the statements are taken to fail only on constraints.
use qeet_id.Base.{
  ℕ, ◌+◌, ◌*◌, String, Bool, false, not, ◌&&◌, Option, none, some, List, str_eq, ◌==◌,
  if◌then◌else◌, ltb, is_some,
}
use qeet_id.Errs.{Error, Result, ok, err, bad_request, unauthorized, storage}
use qeet_id.Device.Rows.{Clock, Consent, second, upsert_consent, find}
use qeet_id.Device.Flow.{contains, not_permitted}
use qeet_id.Oidc.Rows.{
  Client, Code, Refresh, Env, Db, find_client, find_code, insert_code, mark_code_used,
  insert_refresh,
}

-- What the tokens of an answer are signed for. `id_token` is the nonce of the ID token.
pub record Tokens : Type 0 where
  pub user : ℕ
  pub tenant : ℕ
  pub client_id : String
  pub scopes : List String
  pub resource : String
  pub id_token : Option String
  pub refresh_token : Option String

-- What a call draws: a raw code or token, and the id of its row.
pub record Draw : Type 0 where
  pub raw : String
  pub id : ℕ

-- The request of a client to have a code exchanged.
pub record CodeRequest : Type 0 where
  pub client_id : String
  pub client_secret : String
  pub code : String
  pub redirect_uri : String
  pub code_verifier : String
  pub resource : String

-- `NULLIF(s, '')`, and a pointer to a text unless it is empty
abbrev pub non_empty : String → Option String
non_empty s = if str_eq s "" then none else some s

abbrev pub deref_str : Option String → String
deref_str none = ""
deref_str (some s) = s

abbrev pub covers : List String → Option Consent → Bool
covers scopes none = false
covers scopes (some c) = not (is_some (not_permitted c.scopes scopes))

unfoldable pub has_consent : ℕ → String → List String → Db → Bool
has_consent user client scopes db =
    covers scopes (find (λ (c : Consent). c.user == user && str_eq c.client_id client) db.consents)

unfoldable pub grant_consent : ℕ → String → List String → Db → Db
grant_consent user client scopes db = record db {
  consents =
      upsert_consent (record { user = user; client_id = client; scopes = scopes }) db.consents;
}

-- 10 minutes
abbrev pub code_ttl : ℕ
code_ttl = 600 * second

-- What a browser asks for.
pub record AuthRequest : Type 0 where
  pub client_id : String
  pub redirect_uri : String
  pub scopes : List String
  pub nonce : String
  pub challenge : String
  pub challenge_method : String

abbrev pub new_code : Env → Clock → String → ℕ → ℕ → AuthRequest → Code
new_code env clock raw user tenant a = record {
  code_hash = env.hash raw;
  client_id = a.client_id;
  user = user;
  tenant = tenant;
  redirect_uri = a.redirect_uri;
  scopes = a.scopes;
  nonce = non_empty a.nonce;
  code_challenge = non_empty a.challenge;
  code_challenge_method = non_empty a.challenge_method;
  expires_at = clock.db + code_ttl;
  used_at = none;
}

abbrev pub with_codes : String → ℕ → Db → Option (List Code) → Result (String × ℕ) × Db
with_codes raw tenant db none = (err (storage "23505"), db)
with_codes raw tenant db (some cs) = (ok (raw, tenant), record db { codes = cs })

abbrev pub authorize_client :
    Env → Clock → String → ℕ → AuthRequest → Db → Option Client → Result (String × ℕ) × Db
authorize_client env clock raw user a db none = (err (bad_request "unknown client"), db)
authorize_client env clock raw user a db (some info) =
    if not (contains info.redirect_uris a.redirect_uri)
    then (err (bad_request "redirect_uri not registered"), db)
    else if is_some (not_permitted info.scopes a.scopes)
    then (err (bad_request "scope not permitted"), db)
    else with_codes raw info.tenant db
        (insert_code (new_code env clock raw user info.tenant a) db.codes)

unfoldable pub authorize : Env → Clock → String → ℕ → AuthRequest → Db → Result (String × ℕ) × Db
authorize env clock raw user a db =
    authorize_client env clock raw user a db (find_client a.client_id env)

abbrev pub secret_fits : Env → String → Option String → Bool
secret_fits env secret none = false
secret_fits env secret (some h) = env.verify h secret

abbrev pub grant_types_of : Env → String → Option Client → Result (List String)
grant_types_of env secret none = err (unauthorized "unknown client")
grant_types_of env secret (some c) =
    if str_eq c.client_type "confidential" && not (secret_fits env secret c.client_secret_hash)
    then err (unauthorized "invalid client secret")
    else ok c.grant_types

unfoldable pub authenticate_client : Env → String → String → Result (List String)
authenticate_client env client secret = grant_types_of env secret (find_client client env)

-- The test of a PKCE verifier against the challenge of the code.
abbrev pub pkce_fails : Env → String → Option String → String → Option Error
pkce_fails env verifier method challenge =
    if str_eq verifier ""
    then some (bad_request "code_verifier required")
    else if not (str_eq (deref_str method) "S256")
    then some (bad_request "unsupported code_challenge_method")
    else if not (str_eq (env.hash verifier) challenge)
    then some (bad_request "invalid code_verifier")
    else none

abbrev pub code_fails : Env → Clock → CodeRequest → Code → Option Error
code_fails env clock r c =
    if is_some c.used_at
    then some (bad_request "code already used")
    else if ltb c.expires_at clock.app
    then some (bad_request "code expired")
    else if not (str_eq c.redirect_uri r.redirect_uri)
    then some (bad_request "redirect_uri mismatch")
    else if not (str_eq (deref_str c.code_challenge) "")
    then pkce_fails env r.code_verifier c.code_challenge_method (deref_str c.code_challenge)
    else none

abbrev pub new_refresh : Env → Clock → Draw → String → ℕ → ℕ → List String → String → Refresh
new_refresh env clock draw client user tenant scopes resource = record {
  id = draw.id;
  token_hash = env.hash_refresh draw.raw;
  client_id = client;
  user = user;
  tenant = tenant;
  scopes = scopes;
  expires_at = clock.app + env.refresh_ttl;
  used_at = none;
  replaced_by = none;
  revoked_at = none;
  resource = non_empty resource;
}

abbrev pub code_tokens : CodeRequest → Code → Option String → Tokens
code_tokens r c refresh = record {
  user = c.user;
  tenant = c.tenant;
  client_id = r.client_id;
  scopes = c.scopes;
  resource = r.resource;
  id_token = if contains c.scopes "openid" then some (deref_str c.nonce) else none;
  refresh_token = refresh;
}

-- issueRefreshToken, a statement of its own after the commit
abbrev pub with_refresh :
    Draw → (Option String → Tokens) → Db → Option (List Refresh) → Result Tokens × Db
with_refresh draw tokens db none = (err (storage "23505"), db)
with_refresh draw tokens db (some rs) = (ok (tokens (some draw.raw)), record db { refreshes = rs })

abbrev pub issue_refresh_token :
    Env → Clock → Draw → CodeRequest → Code → (Option String → Tokens) → Db → Result Tokens × Db
issue_refresh_token env clock draw r c tokens db = with_refresh draw tokens db (
    insert_refresh (new_refresh env clock draw r.client_id c.user c.tenant c.scopes r.resource)
      db.refreshes)

-- After the checks: the code is marked, then the tokens are made.
abbrev pub redeem : Env → Clock → Draw → CodeRequest → List String → Db → Code → Result Tokens × Db
redeem env clock draw r grant_types db c =
    let used : Db = record db { codes = mark_code_used (env.hash r.code) clock.db db.codes } in
    if contains grant_types "refresh_token"
    then issue_refresh_token env clock draw r c (code_tokens r c) used
    else (ok (code_tokens r c none), used)

abbrev pub checked :
    Env → Clock → Draw → CodeRequest → List String → Db → Code → Option Error → Result Tokens × Db
checked env clock draw r grant_types db c (some e) = (err e, db)
checked env clock draw r grant_types db c none = redeem env clock draw r grant_types db c

abbrev pub exchange_row :
    Env → Clock → Draw → CodeRequest → List String → Db → Option Code → Result Tokens × Db
exchange_row env clock draw r grant_types db none = (err (bad_request "invalid code"), db)
exchange_row env clock draw r grant_types db (some c) =
    checked env clock draw r grant_types db c (code_fails env clock r c)

abbrev pub exchange_as :
    Env → Clock → Draw → CodeRequest → Db → Result (List String) → Result Tokens × Db
exchange_as env clock draw r db (err e) = (err e, db)
exchange_as env clock draw r db (ok grant_types) =
    exchange_row env clock draw r grant_types db (find_code (env.hash r.code) r.client_id db.codes)

unfoldable pub exchange_code : Env → Clock → Draw → CodeRequest → Db → Result Tokens × Db
exchange_code env clock draw r db =
    exchange_as env clock draw r db (authenticate_client env r.client_id r.client_secret)
