-- ===== src/Oidc/Rows.antt =====
-- The tables of clients, authorization codes and refresh tokens, with the statements on them
-- (dbgen/queries.sql.go). Ids are numbers, times are nanoseconds.
use qeet_id.Base.{
  ℕ, String, Bool, not, ◌&&◌, ◌||◌, Option, none, some, List, [], ◌∷◌, ◌++◌, str_eq, ◌==◌,
  if◌then◌else◌, any, is_some,
}
use qeet_id.Device.Rows.{Consent, find}

pub record Client : Type 0 where
  pub client_id : String
  pub tenant : ℕ
  pub client_type : String
  pub client_secret_hash : Option String
  pub redirect_uris : List String
  pub grant_types : List String
  pub scopes : List String

pub record Code : Type 0 where
  pub code_hash : String
  pub client_id : String
  pub user : ℕ
  pub tenant : ℕ
  pub redirect_uri : String
  pub scopes : List String
  pub nonce : Option String
  pub code_challenge : Option String
  pub code_challenge_method : Option String
  pub expires_at : ℕ
  pub used_at : Option ℕ

pub record Refresh : Type 0 where
  pub id : ℕ
  pub token_hash : String
  pub client_id : String
  pub user : ℕ
  pub tenant : ℕ
  pub scopes : List String
  pub expires_at : ℕ
  pub used_at : Option ℕ
  pub replaced_by : Option ℕ
  pub revoked_at : Option ℕ
  pub resource : Option String

-- The clients, which the operations only read, with password.Verify, codes.Hash, tokens.HashRefresh
-- and the lifetime of refresh tokens.
pub record Env : Type 0 where
  pub clients : List Client
  pub verify : String → String → Bool
  pub hash : String → String
  pub hash_refresh : String → String
  pub refresh_ttl : ℕ

pub record Db : Type 0 where
  pub codes : List Code
  pub refreshes : List Refresh
  pub consents : List Consent

-- GetClientForAuth and GetClientRedirectInfo
abbrev pub find_client : String → Env → Option Client
find_client c env = find (λ (x : Client). str_eq x.client_id c) env.clients

abbrev pub has_code_hash : String → Code → Bool
has_code_hash h c = str_eq c.code_hash h

-- ConsumeAuthorizationCode
abbrev pub is_code : String → String → Code → Bool
is_code h client c = has_code_hash h c && str_eq c.client_id client

abbrev pub find_code : String → String → List Code → Option Code
find_code h client cs = find (is_code h client) cs

-- INSERT into a table whose key is `code_hash`; `none` is a unique_violation.
unfoldable pub insert_code : Code → List Code → Option (List Code)
insert_code c cs = if any (has_code_hash c.code_hash) cs then none else some (cs ++ c ∷ [])

-- MarkAuthorizationCodeUsed
unfoldable pub mark_code_used : String → ℕ → List Code → List Code
mark_code_used h now [] = []
mark_code_used h now (c ∷ cs) =
    (if has_code_hash h c then record c { used_at = some now } else c) ∷ mark_code_used h now cs

abbrev pub has_token_hash : String → Refresh → Bool
has_token_hash h r = str_eq r.token_hash h

-- LockRefreshToken and GetRefreshTokenForIntrospect
abbrev pub find_refresh : String → List Refresh → Option Refresh
find_refresh h rs = find (has_token_hash h) rs

-- InsertRefreshToken and InsertRotatedRefreshToken, with PRIMARY KEY (id) and UNIQUE (token_hash)
abbrev pub clashes : Refresh → Refresh → Bool
clashes r s = r.id == s.id || has_token_hash r.token_hash s

unfoldable pub insert_refresh : Refresh → List Refresh → Option (List Refresh)
insert_refresh r rs = if any (clashes r) rs then none else some (rs ++ r ∷ [])

-- UPDATE … WHERE test
unfoldable pub update_where : (Refresh → Bool) → (Refresh → Refresh) → List Refresh → List Refresh
update_where test f [] = []
update_where test f (r ∷ rs) = (if test r then f r else r) ∷ update_where test f rs

abbrev pub mark_refresh_used : ℕ → ℕ → ℕ → List Refresh → List Refresh
mark_refresh_used id new now rs =
    update_where (λ (r : Refresh). r.id == id)
      (λ (r : Refresh). record r { used_at = some now; replaced_by = some new }) rs

abbrev pub revoke : ℕ → Refresh → Refresh
revoke now r = record r { revoked_at = some now }

abbrev pub is_of : String → ℕ → Refresh → Bool
is_of client user r = str_eq r.client_id client && r.user == user

-- RevokeRefreshTokenChain
abbrev pub revoke_refresh_token_chain : String → ℕ → ℕ → List Refresh → List Refresh
revoke_refresh_token_chain client user now rs =
    update_where (λ (r : Refresh). is_of client user r && not (is_some r.revoked_at)) (revoke now)
      rs

-- RevokeGrantChain
abbrev pub revoke_grant_chain : String → ℕ → ℕ → ℕ → List Refresh → List Refresh
revoke_grant_chain client user tenant now rs =
    update_where
      (λ (r : Refresh). (is_of client user r && r.tenant == tenant) && not (is_some r.revoked_at))
      (revoke now) rs

-- RevokeRefreshTokenByHash
abbrev pub revoke_refresh_token_by_hash : String → String → ℕ → List Refresh → List Refresh
revoke_refresh_token_by_hash h client now rs =
    update_where
      (λ (r : Refresh).
        (has_token_hash h r && str_eq r.client_id client) && not (is_some r.revoked_at))
      (revoke now) rs
