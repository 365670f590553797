-- ===== src/Oidc/Exchange.antt =====
-- TokenExchange with `downscope`, and Introspect (oidc.go). `Issuer` has what jwt.go verifies a token
-- to, and uuid.Parse.
use qeet_id.Base.{
  ℕ, String, Char, Bool, not, ◌&&◌, ◌||◌, Option, none, some, List, [], ◌∷◌, str_eq, if◌then◌else◌,
  ltb, is_some, is_space, trim_space, ◌==◌,
}
use Prim.Native.String
use qeet_id.Errs.{Result, ok, err, bad_request, unauthorized, forbidden}
use qeet_id.Device.Rows.{Clock}
use qeet_id.Device.Flow.{contains, not_permitted}
use qeet_id.Oidc.Rows.{Refresh, Env, Db, find_refresh}
use qeet_id.Oidc.Codes.{authenticate_client}

-- The claims of an access token that the server reads. Session 0 stands for uuid.Nil.
pub record Claims : Type 0 where
  pub subject : String
  pub tenant : ℕ
  pub session : ℕ
  pub scope : String

pub record Issuer : Type 0 where
  pub verify_access : String → Option Claims
  pub parse_uuid : String → Option ℕ

abbrev pub push_word : String → List String → List String
push_word String.[] ws = ws
push_word (String.◌∷◌ c w) ws = (String.◌∷◌ c w) ∷ ws

abbrev pub next_char : Char → String × List String → String × List String
next_char c (w, ws) = if is_space c then ("", push_word w ws) else (String.◌∷◌ c w, ws)

-- The word that a text starts with, and the later words.
unfoldable pub words : String → String × List String
words String.[] = ("", [])
words (String.◌∷◌ c s) = next_char c (words s)

-- `strings.Fields`
unfoldable pub fields : String → List String
unfolding words
fields s = let (w, ws) = words s in push_word w ws

-- `strings.Join(granted, " ")`
unfoldable pub join : List String → String
join [] = ""
join (s ∷ []) = s
join (s ∷ t ∷ ss) = String.◌++◌ s (String.◌++◌ " " (join (t ∷ ss)))

-- The scopes to grant; `none` is `ok = false`.
unfoldable pub downscope : List String → String → Option (List String)
unfolding fields
downscope subject_scopes requested =
    if str_eq (trim_space requested) ""
    then some subject_scopes
    else if is_some (not_permitted subject_scopes (fields requested))
    then none
    else some (fields requested)

abbrev pub token_exchange_grant : String
token_exchange_grant = "urn:ietf:params:oauth:grant-type:token-exchange"

abbrev pub access_token_type : String
access_token_type = "urn:ietf:params:oauth:token-type:access_token"

-- `containsAny(grantTypes, "token_exchange", grantTypeTokenExchange)`
abbrev pub may_exchange : List String → Bool
may_exchange grant_types =
    contains grant_types "token_exchange" || contains grant_types token_exchange_grant

abbrev pub wrong_type : String → Bool
wrong_type t = not (str_eq t "") && not (str_eq t access_token_type)

pub record ExchangeRequest : Type 0 where
  pub client_id : String
  pub client_secret : String
  pub subject_token : String
  pub subject_token_type : String
  pub requested_token_type : String
  pub scope : String
  pub actor_token : String
  pub actor_token_type : String
  pub resource : String

-- What the new access token is signed for; an empty actor or resource is left out of it.
pub record Exchanged : Type 0 where
  pub user : ℕ
  pub tenant : ℕ
  pub session : ℕ
  pub scope : String
  pub actor : String
  pub resource : String

abbrev pub checked_actor : Option Claims → Result String
checked_actor none = err (unauthorized "invalid or expired actor_token")
checked_actor (some c) = ok c.subject

-- The subject of the actor token, or an empty text without one.
abbrev pub actor_of : Issuer → ExchangeRequest → Result String
actor_of issuer r =
    if str_eq r.actor_token ""
    then ok ""
    else if wrong_type r.actor_token_type
    then err (bad_request "only access_token actor_token_type is supported")
    else checked_actor (issuer.verify_access r.actor_token)

abbrev pub acted : ℕ → ExchangeRequest → Claims → ℕ → List String → Result String → Result Exchanged
acted new_session r c user granted (err e) = err e
acted new_session r c user granted (ok actor) = ok (record {
  user = user;
  tenant = c.tenant;
  session = if c.session == 0 then new_session else c.session;
  scope = join granted;
  actor = actor;
  resource = r.resource;
})

abbrev pub narrowed :
    Issuer → ℕ → ExchangeRequest → Claims → ℕ → Option (List String) → Result Exchanged
narrowed issuer new_session r c user none =
    err (forbidden "requested scope exceeds the subject token's scope")
narrowed issuer new_session r c user (some granted) =
    acted new_session r c user granted (actor_of issuer r)

abbrev pub for_user : Issuer → ℕ → ExchangeRequest → Claims → Option ℕ → Result Exchanged
for_user issuer new_session r c none = err (unauthorized "subject_token has no user subject")
for_user issuer new_session r c (some user) =
    narrowed issuer new_session r c user (downscope (fields c.scope) r.scope)

abbrev pub for_subject : Issuer → ℕ → ExchangeRequest → Option Claims → Result Exchanged
for_subject issuer new_session r none = err (unauthorized "invalid or expired subject_token")
for_subject issuer new_session r (some c) =
    for_user issuer new_session r c (issuer.parse_uuid c.subject)

abbrev pub exchange_for : Issuer → ℕ → ExchangeRequest → Result (List String) → Result Exchanged
exchange_for issuer new_session r (err e) = err e
exchange_for issuer new_session r (ok grant_types) =
    if not (may_exchange grant_types)
    then err (forbidden "client is not permitted the token-exchange grant")
    else if str_eq r.subject_token ""
    then err (bad_request "subject_token is required")
    else if wrong_type r.subject_token_type
    then err (bad_request "only access_token subject_token_type is supported")
    else if wrong_type r.requested_token_type
    then err (bad_request "only access_token requested_token_type is supported")
    else for_subject issuer new_session r (issuer.verify_access r.subject_token)

unfoldable pub token_exchange : Env → Issuer → ℕ → ExchangeRequest → Result Exchanged
token_exchange env issuer new_session r =
    exchange_for issuer new_session r (authenticate_client env r.client_id r.client_secret)

-- What Introspect says of a token.
pub data Introspection : Type 0 where
  inactive : Introspection
  active_access : Claims → Introspection
  active_refresh : Refresh → Introspection

abbrev pub introspect_refresh : Clock → Option Refresh → Introspection
introspect_refresh clock none = inactive
introspect_refresh clock (some r) =
    if is_some r.revoked_at || is_some r.used_at || not (ltb clock.app r.expires_at)
    then inactive
    else active_refresh r

abbrev pub unless_access : Env → Clock → String → String → Db → Option Claims → Introspection
unless_access env clock token hint db (some c) = active_access c
unless_access env clock token hint db none =
    if str_eq hint "access_token"
    then inactive
    else introspect_refresh clock (find_refresh (env.hash_refresh token) db.refreshes)

abbrev pub introspect_as :
    Env → Issuer → Clock → String → String → Db → Result (List String) → Result Introspection
introspect_as env issuer clock token hint db (err e) = err e
introspect_as env issuer clock token hint db (ok grant_types) =
    if str_eq token ""
    then ok inactive
    else ok (
        unless_access env clock token hint db
          (if str_eq hint "refresh_token" then none else issuer.verify_access token))

unfoldable pub introspect :
    Env → Issuer → Clock → String → String → String → String → Db → Result Introspection
introspect env issuer clock client secret token hint db =
    introspect_as env issuer clock token hint db (authenticate_client env client secret)
