-- ===== src/Ciba/Requests.antt =====
-- The table of requests of ciba.go with BackchannelAuthorize: auth.oidc_ciba_requests (dbgen/queries.sql.go). A transaction
-- that ends without a commit leaves the table as it was. What is signed into tokens is kept as a
-- `Grant`; signing and the refresh token, which follow the commit, are left out.
use Prim.Native.String
use qeet_id.Base.{
  ℕ, ◌+◌, ◌*◌, String, Bool, not, ◌&&◌, ◌||◌, Option, none, some, List, [], ◌∷◌, ◌++◌, str_eq, ◌==◌,
  if◌then◌else◌, any, trim_space,
}
use qeet_id.Errs.{Error, Result, ok, err}
use qeet_id.Device.Rows.{Status, pending, Clock, second, find}
use qeet_id.Device.Flow.{contains, not_permitted, or_default}
use qeet_id.Oidc.Rows
use qeet_id.Oidc.Codes.{authenticate_client}
use qeet_id.Oidc.Exchange.{fields}

pub record Request : Type 0 where
  pub id : ℕ
  pub auth_req_id_hash : String
  pub client_id : String
  pub tenant : ℕ
  pub user : ℕ
  pub scopes : List String
  pub binding_message : Option String
  pub status : Status
  pub interval_seconds : ℕ
  pub last_polled_at : Option ℕ
  pub expires_at : ℕ
  pub approved_at : Option ℕ
  pub consumed_at : Option ℕ

pub record User : Type 0 where
  pub id : ℕ
  pub tenant : ℕ
  pub email : String
  pub deleted : Bool

-- What the operations only read, with LOWER of the database.
pub record Env : Type 0 where
  pub oidc : Rows.Env
  pub users : List User
  pub lower : String → String

-- An error of the API, or one of the token endpoint by its code and description.
pub data Fail : Type 0 where
  api : Error → Fail
  oauth : (code description : String) → Fail

pub data Reply {ℓ} (T : Type ℓ) : Type ℓ where
  failed : Fail → Reply T
  replied : T → Reply T

abbrev pub ciba_grant : String
ciba_grant = "urn:openid:params:grant-type:ciba"

abbrev pub ciba_ttl : ℕ
ciba_ttl = 600 * second

abbrev pub ciba_poll_interval : ℕ
ciba_poll_interval = 5

-- GetUserByEmailInTenant
abbrev pub is_user : Env → ℕ → String → User → Bool
is_user env tenant email u =
    (u.tenant == tenant && str_eq (env.lower u.email) (env.lower email)) && not u.deleted

abbrev pub has_id : ℕ → Request → Bool
has_id id r = r.id == id

abbrev pub has_hash : String → Request → Bool
has_hash h r = str_eq r.auth_req_id_hash h

-- InsertCIBARequest; `none` is a unique_violation, of the id or of the hash.
unfoldable pub insert_request : Request → List Request → Option (List Request)
insert_request r rs =
    if any (has_id r.id) rs || any (has_hash r.auth_req_id_hash) rs
    then none
    else some (rs ++ r ∷ [])

pub record Asked : Type 0 where
  pub client_id : String
  pub client_secret : String
  pub login_hint : String
  pub scope : String
  pub binding_message : String

abbrev pub new_request : Env → Clock → ℕ → String → Asked → Rows.Client → ℕ → Request
new_request env clock id raw a c user = record {
  id = id;
  auth_req_id_hash = env.oidc.hash raw;
  client_id = a.client_id;
  tenant = c.tenant;
  user = user;
  scopes = or_default (fields a.scope) c.scopes;
  binding_message = if str_eq a.binding_message "" then none else some a.binding_message;
  status = pending;
  interval_seconds = ciba_poll_interval;
  last_polled_at = none;
  expires_at = clock.db + ciba_ttl;
  approved_at = none;
  consumed_at = none;
}

abbrev pub inserted : String → List Request → Option (List Request) → Reply String × List Request
inserted raw rs none = (failed (api (Error.storage "23505")), rs)
inserted raw rs (some rs') = (replied raw, rs')

abbrev pub for_user :
    Env
    → Clock
    → ℕ
    → String
    → Asked
    → Rows.Client
    → List Request
    → Option User
    → Reply String × List Request
for_user env clock id raw a c rs none =
    (failed (oauth "unknown_user_id" "login_hint does not resolve to a known user"), rs)
for_user env clock id raw a c rs (some u) =
    inserted raw rs (insert_request (new_request env clock id raw a c u.id) rs)

abbrev pub within_scopes :
    Env
    → Clock
    → ℕ
    → String
    → Asked
    → Rows.Client
    → List Request
    → Option String
    → Reply String × List Request
within_scopes env clock id raw a c rs (some scope) =
    (failed (oauth "invalid_scope" (String.◌++◌ "scope not permitted: " scope)), rs)
within_scopes env clock id raw a c rs none =
    for_user env clock id raw a c rs (find (is_user env c.tenant a.login_hint) env.users)

abbrev pub of_client :
    Env
    → Clock
    → ℕ
    → String
    → Asked
    → List Request
    → Option Rows.Client
    → Reply String × List Request
of_client env clock id raw a rs none = (failed (api (Error.storage "no rows")), rs)
of_client env clock id raw a rs (some c) =
    within_scopes env clock id raw a c rs
      (not_permitted c.scopes (or_default (fields a.scope) c.scopes))

abbrev pub ask_as :
    Env
    → Clock
    → ℕ
    → String
    → Asked
    → List Request
    → Result (List String)
    → Reply String × List Request
ask_as env clock id raw a rs (err e) = (failed (api e), rs)
ask_as env clock id raw a rs (ok grant_types) =
    if not (contains grant_types ciba_grant)
    then (failed (oauth "unauthorized_client" "client is not permitted the CIBA grant"), rs)
    else if str_eq (trim_space a.login_hint) ""
    then (failed (oauth "invalid_request" "login_hint is required"), rs)
    else of_client env clock id raw a rs (Rows.find_client a.client_id env.oidc)

-- BackchannelAuthorize, for the id and the auth_req_id that are drawn.
unfoldable pub backchannel_authorize :
    Env → Clock → ℕ → String → Asked → List Request → Reply String × List Request
backchannel_authorize env clock id raw a rs =
    ask_as env clock id raw a rs (authenticate_client env.oidc a.client_id a.client_secret)
