-- ===== src/Device/Token.antt =====
-- The token endpoint of the device grant and the revocation by an administrator (device.go,
-- `DeviceToken`, `RevokeDevice`).
use qeet_id.Base.{
  ℕ, ◌+◌, ◌*◌, String, Bool, false, not, ◌&&◌, Option, none, some, List, str_eq, ◌==◌,
  if◌then◌else◌, ltb, is_some,
}
use qeet_id.Errs.{Result, ok, err, not_found}
use qeet_id.Device.Rows.{
  Status, pending, authorized, denied, Device, Client, Env, Db, Clock, second, by_hash, find_client,
  update, touch, deny, consume, find,
}
use qeet_id.Device.Flow.{contains}

-- The errors of the token endpoint, by description and code.
pub data OauthError : Type 0 where
  device_code_required unknown_device_code client_mismatch already_used no_bound_user : OauthError
  slow_down expired_token authorization_pending access_denied unknown_client : OauthError

-- What the tokens are signed for.
pub record Grant : Type 0 where
  pub user : ℕ
  pub tenant : ℕ
  pub client_id : String
  pub scopes : List String
  pub with_id_token : Bool
  pub with_refresh_token : Bool

pub data Poll : Type 0 where
  refused : OauthError → Poll
  granted : Grant → Poll

-- `now.Sub(last) < interval`
abbrev pub too_soon : Clock → ℕ → Option ℕ → Bool
too_soon clock interval none = false
too_soon clock interval (some last) = ltb clock.app (last + interval * second)

abbrev pub redeem_for : Clock → Device → ℕ → Db → Option Client → Poll × Db
redeem_for clock dc user db none = (refused unknown_client, db)
redeem_for clock dc user db (some c) = (
  granted (record {
    user = user;
    tenant = dc.tenant;
    client_id = dc.client_id;
    scopes = dc.scopes;
    with_id_token = contains dc.scopes "openid";
    with_refresh_token = contains c.grant_types "refresh_token";
  }),
  record db {
    devices = update dc.id (consume clock.db) (update dc.id (touch clock.db) db.devices);
  },
)

abbrev pub redeem : Env → Clock → Device → Db → Option ℕ → Poll × Db
redeem env clock dc db none = (refused no_bound_user, db)
redeem env clock dc db (some user) = redeem_for clock dc user db (find_client dc.client_id env)

abbrev pub by_status : Env → Clock → Device → Db → Db → Status → Poll × Db
by_status env clock dc db polled pending = (refused authorization_pending, polled)
by_status env clock dc db polled denied = (refused access_denied, polled)
by_status env clock dc db polled authorized = redeem env clock dc db dc.user

abbrev pub poll_row : Env → Clock → String → Db → Option Device → Poll × Db
poll_row env clock client_id db none = (refused unknown_device_code, db)
poll_row env clock client_id db (some dc) =
    let polled : Db = record db { devices = update dc.id (touch clock.db) db.devices } in
    if not (str_eq dc.client_id client_id)
    then (refused client_mismatch, db)
    else if is_some dc.consumed_at
    then (refused already_used, db)
    else if too_soon clock dc.interval_seconds dc.last_polled_at
    then (refused slow_down, polled)
    else if ltb dc.expires_at clock.app
    then (refused expired_token, polled)
    else by_status env clock dc db polled dc.status

unfoldable pub device_token : Env → Clock → String → String → Db → Poll × Db
device_token env clock client_id raw db =
    if str_eq raw ""
    then (refused device_code_required, db)
    else poll_row env clock client_id db (by_hash (env.hash raw) db.devices)

-- RevokeDevice: UPDATE … WHERE id = $1 AND tenant_id = $2, where an id has one row.
abbrev pub revoke_row : Db → Option Device → Result (String × String) × Db
revoke_row db none = (err not_found, db)
revoke_row db (some d) =
    (ok (d.client_id, d.user_code), record db { devices = update d.id deny db.devices })

unfoldable pub revoke_device : ℕ → ℕ → Db → Result (String × String) × Db
revoke_device tenant id db =
    revoke_row db (find (λ (d : Device). d.id == id && d.tenant == tenant) db.devices)
