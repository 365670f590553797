-- ===== src/Ciba/Token.antt =====
-- DecideBackchannel and BackchannelToken of ciba.go. What is signed into tokens is kept as a `Grant`;
-- signing and the refresh token, which follow the commit, are left out.
use qeet_id.Base.{
  ℕ, String, Bool, true, false, not, Option, none, some, List, str_eq, ◌==◌, if◌then◌else◌, ltb,
  is_some,
}
use qeet_id.Errs.{Error, Result, ok, err, not_found, bad_request, forbidden, conflict}
use qeet_id.Device.Rows.{Status, pending, authorized, denied, Clock, find}
use qeet_id.Device.Flow.{contains}
use qeet_id.Device.Token.{Grant, too_soon}
use qeet_id.Oidc.Rows
use qeet_id.Mfa.Rows.{update_where}
use qeet_id.Ciba.Requests.{Request, Env, has_id, has_hash, Reply, failed, replied, api, oauth}

-- UPDATE … WHERE id = $1
abbrev pub update : ℕ → (Request → Request) → List Request → List Request
update id f rs = update_where (has_id id) f rs

abbrev pub deny : Request → Request
deny r = record r { status = denied }

abbrev pub approve : ℕ → Request → Request
approve now r = record r { status = authorized; approved_at = some now }

abbrev pub touch : ℕ → Request → Request
touch now r = record r { last_polled_at = some now }

abbrev pub consume : ℕ → Request → Request
consume now r = record r { consumed_at = some now }

abbrev pub is_pending : Status → Bool
is_pending pending = true
is_pending authorized = false
is_pending denied = false

abbrev pub decide_row :
    Clock → ℕ → ℕ → Bool → List Request → Option Request → Result (Unit {0}) × List Request
decide_row clock user id allow rs none = (err not_found, rs)
decide_row clock user id allow rs (some r) =
    if not (r.user == user)
    then (err (forbidden "not your sign-in request"), rs)
    else if ltb r.expires_at clock.app
    then (err (bad_request "request expired"), rs)
    else if not (is_pending r.status)
    then (err (conflict "request already decided"), rs)
    else if not allow
    then (ok tt, update id deny rs)
    else (ok tt, update id (approve clock.db) rs)

-- DecideBackchannel
unfoldable pub decide_backchannel :
    Clock → ℕ → ℕ → Bool → List Request → Result (Unit {0}) × List Request
decide_backchannel clock user id allow rs = decide_row clock user id allow rs (find (has_id id) rs)

abbrev pub redeem_for :
    Clock → Request → List Request → Option Rows.Client → Reply Grant × List Request
redeem_for clock r rs none = (failed (api (Error.storage "no rows")), rs)
redeem_for clock r rs (some c) = (
  replied (record {
    user = r.user;
    tenant = r.tenant;
    client_id = r.client_id;
    scopes = r.scopes;
    with_id_token = contains r.scopes "openid";
    with_refresh_token = contains c.grant_types "refresh_token";
  }),
  update r.id (consume clock.db) (update r.id (touch clock.db) rs),
)

abbrev pub by_status : Env → Clock → Request → List Request → Status → Reply Grant × List Request
by_status env clock r rs pending = (
  failed (oauth "authorization_pending" "the user has not yet completed authorization"),
  update r.id (touch clock.db) rs,
)
by_status env clock r rs denied = (
  failed (oauth "access_denied" "the user denied the authorization request"),
  update r.id (touch clock.db) rs,
)
by_status env clock r rs authorized = redeem_for clock r rs (Rows.find_client r.client_id env.oidc)

abbrev pub poll_row :
    Env → Clock → String → List Request → Option Request → Reply Grant × List Request
poll_row env clock client_id rs none = (failed (oauth "invalid_grant" "unknown auth_req_id"), rs)
poll_row env clock client_id rs (some r) =
    if not (str_eq r.client_id client_id)
    then (failed (oauth "invalid_grant" "client mismatch"), rs)
    else if is_some r.consumed_at
    then (failed (oauth "invalid_grant" "auth_req_id already used"), rs)
    else if too_soon clock r.interval_seconds r.last_polled_at
    then (failed (oauth "slow_down" "polling too frequently"), update r.id (touch clock.db) rs)
    else if ltb r.expires_at clock.app
    then (failed (oauth "expired_token" "auth_req_id expired"), update r.id (touch clock.db) rs)
    else by_status env clock r rs r.status

-- BackchannelToken
unfoldable pub backchannel_token :
    Env → Clock → String → String → List Request → Reply Grant × List Request
backchannel_token env clock client_id raw rs =
    if str_eq raw ""
    then (failed (oauth "invalid_request" "auth_req_id required"), rs)
    else poll_row env clock client_id rs (find (has_hash (env.oidc.hash raw)) rs)
