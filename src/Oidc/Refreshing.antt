-- ===== src/Oidc/Refreshing.antt =====
-- RefreshToken with its reuse detection, RevokeToken, RevokeGrant and the refresh-token half of
-- Introspect (oidc.go).
use qeet_id.Base.{
  ℕ, String, not, ◌&&◌, ◌||◌, Option, none, some, List, str_eq, ◌==◌, if◌then◌else◌, ltb, is_some,
}
use qeet_id.Errs.{Result, ok, err, not_found, bad_request, unauthorized, storage}
use qeet_id.Device.Rows.{Clock, find}
use qeet_id.Device.Flow.{contains}
use qeet_id.Oidc.Rows.{
  Refresh, Env, Db, find_refresh, insert_refresh, mark_refresh_used, revoke_refresh_token_chain,
  revoke_refresh_token_by_hash, revoke_grant_chain,
}
use qeet_id.Oidc.Codes.{Tokens, Draw, deref_str, new_refresh, authenticate_client}

-- The resource asked for, else the one of the old token.
abbrev pub bound_resource : String → Option String → String
bound_resource asked kept = if str_eq asked "" then deref_str kept else asked

abbrev pub refreshed : Draw → String → Refresh → String → Tokens
refreshed draw client r resource = record {
  user = r.user;
  tenant = r.tenant;
  client_id = client;
  scopes = r.scopes;
  resource = resource;
  id_token = if contains r.scopes "openid" then some "" else none;
  refresh_token = some draw.raw;
}

abbrev pub rotated :
    Clock → Draw → String → Refresh → String → Db → Option (List Refresh) → Result Tokens × Db
rotated clock draw client r resource db none = (err (storage "23505"), db)
rotated clock draw client r resource db (some rs) = (
  ok (refreshed draw client r resource),
  record db { refreshes = mark_refresh_used r.id draw.id clock.db rs },
)

abbrev pub rotate : Env → Clock → Draw → String → Refresh → String → Db → Result Tokens × Db
rotate env clock draw client r resource db = rotated clock draw client r resource db (
    insert_refresh (new_refresh env clock draw client r.user r.tenant r.scopes resource)
      db.refreshes)

-- The replay of a used token revokes every live token of the client and user.
abbrev pub handle_refresh_reuse : Clock → String → Refresh → Db → Db
handle_refresh_reuse clock client r db = record db {
  refreshes = revoke_refresh_token_chain client r.user clock.db db.refreshes;
}

abbrev pub refresh_row :
    Env → Clock → Draw → String → String → Db → Option Refresh → Result Tokens × Db
refresh_row env clock draw client resource db none =
    (err (unauthorized "unknown refresh token"), db)
refresh_row env clock draw client resource db (some r) =
    if not (str_eq r.client_id client)
    then (err (unauthorized "client mismatch"), db)
    else if is_some r.revoked_at
    then (err (unauthorized "refresh token revoked"), db)
    else if is_some r.used_at
    then (err (unauthorized "refresh token reuse"), handle_refresh_reuse clock client r db)
    else if ltb r.expires_at clock.app
    then (err (unauthorized "refresh token expired"), db)
    else rotate env clock draw client r (bound_resource resource r.resource) db

abbrev pub refresh_as :
    Env → Clock → Draw → String → String → String → Db → Result (List String) → Result Tokens × Db
refresh_as env clock draw client raw resource db (err e) = (err e, db)
refresh_as env clock draw client raw resource db (ok grant_types) =
    if str_eq raw ""
    then (err (bad_request "refresh_token required"), db)
    else refresh_row env clock draw client resource db
        (find_refresh (env.hash_refresh raw) db.refreshes)

unfoldable pub refresh_token :
    Env → Clock → Draw → String → String → String → String → Db → Result Tokens × Db
refresh_token env clock draw client secret raw resource db =
    refresh_as env clock draw client raw resource db (authenticate_client env client secret)

abbrev pub revoke_as :
    Env → Clock → String → String → String → Db → Result (List String) → Result (Unit {0}) × Db
revoke_as env clock client token hint db (err e) = (err e, db)
revoke_as env clock client token hint db (ok grant_types) =
    if str_eq token "" || str_eq hint "access_token" then (ok tt, db) else (
      ok tt,
      record db {
        refreshes =
            revoke_refresh_token_by_hash (env.hash_refresh token) client clock.db db.refreshes;
      },
    )

unfoldable pub revoke_token :
    Env → Clock → String → String → String → String → Db → Result (Unit {0}) × Db
revoke_token env clock client secret token hint db =
    revoke_as env clock client token hint db (authenticate_client env client secret)

-- GetGrantForRevoke and RevokeGrant
abbrev pub revoke_found : Clock → ℕ → Db → Option Refresh → Result (String × ℕ) × Db
revoke_found clock tenant db none = (err not_found, db)
revoke_found clock tenant db (some r) = (
  ok (r.client_id, r.user),
  record db { refreshes = revoke_grant_chain r.client_id r.user tenant clock.db db.refreshes },
)

unfoldable pub revoke_grant : Clock → ℕ → ℕ → Db → Result (String × ℕ) × Db
revoke_grant clock tenant id db =
    revoke_found clock tenant db
      (find (λ (r : Refresh). r.id == id && r.tenant == tenant) db.refreshes)
