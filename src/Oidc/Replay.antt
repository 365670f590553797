-- ===== src/Oidc/Replay.antt =====
-- The replay of a used refresh token ends every refresh token of its client and user (oidc.go,
-- RefreshToken and handleRefreshReuse), as does RevokeGrant.
use qeet_id.Base.{
  ℕ, ◌≡◌, refl, sym, ◌∙◌, ap, subst, String, Bool, true, false, not, ◌&&◌, Option, none, some, List,
  str_eq, str_eq_iff, ◌==◌, is_some, if◌then◌else◌, arith, count,
}
use qeet_id.Errs.{Result, ok, err, unauthorized}
use qeet_id.Device.Rows.{Clock, find}
use qeet_id.Oidc.Rows.{Refresh, Env, Db, find_refresh, update_where, revoke, is_of}
use qeet_id.Oidc.Codes.{Draw, authenticate_client}
use qeet_id.Oidc.Refreshing.{refresh_token, handle_refresh_reuse, revoke_grant, revoke_found}
use qeet_id.Oidc.RefreshOnce.{IsDead, find-update_where, revoke-IsTame, dead_run}
use qeet_id.Oidc.Run.{Op, run_ops, is_for_refresh}

chain-IsDead :
    (test : Refresh → Bool) (now : ℕ) (rs : List Refresh) (s : Refresh) (g : String)
    → find_refresh g rs ≡ some s
    → test s ≡ true
    → IsDead g
        (update_where (λ (x : Refresh). test x && not (is_some x.revoked_at)) (revoke now) rs)
chain-IsDead test now rs s g found is = record {
  row = if test s && not (is_some s.revoked_at) then revoke now s else s;
  found = find-update_where g _ (revoke now) rs s (revoke-IsTame now) found;
  dead = ground (arith, is);
}

is_of_lem :
    (client : String) (user : ℕ) (s : Refresh)
    → s.client_id ≡ client
    → s.user ≡ user
    → is_of client user s ≡ true
is_of_lem client user s c u = ground (arith, str_eq_iff s.client_id client)

refresh_token-replayed :
    (env : Env) (clock : Clock) (draw : Draw) (client secret raw resource : String) (db : Db)
    (grant_types : List String) (r : Refresh)
    → authenticate_client env client secret ≡ ok grant_types
    → str_eq raw "" ≡ false
    → find_refresh (env.hash_refresh raw) db.refreshes ≡ some r
    → str_eq r.client_id client ≡ true
    → is_some r.used_at ≡ true
    → is_some r.revoked_at ≡ false
    → refresh_token env clock draw client secret raw resource db
      ≡ (err (unauthorized "refresh token reuse"), handle_refresh_reuse clock client r db)
unfolding refresh_token
refresh_token-replayed env clock draw client secret raw resource db grant_types r auth given found
      own used kept =
    rw (auth, given, found, own, kept, used)

-- An unrevoked token that was used is refused, and afterwards no refresh token that its client
-- holds for its user brings tokens, whatever operations follow: neither the token that replaced it
-- nor any other that is in the table.
pub replay_ends_chain :
    (env : Env) (clock : Clock) (draw : Draw) (client secret raw resource : String) (db : Db)
    (grant_types : List String) (r s : Refresh) (g : String) (ops : List Op)
    → authenticate_client env client secret ≡ ok grant_types
    → str_eq raw "" ≡ false
    → find_refresh (env.hash_refresh raw) db.refreshes ≡ some r
    → r.client_id ≡ client
    → is_some r.used_at ≡ true
    → is_some r.revoked_at ≡ false
    → find_refresh g db.refreshes ≡ some s
    → s.client_id ≡ client
    → s.user ≡ r.user
    → let x = refresh_token env clock draw client secret raw resource db in
      (x.0 ≡ err (unauthorized "refresh token reuse"))
      × (count (is_for_refresh g) (run_ops env ops x.1).0 ≡ 0)
replay_ends_chain env clock draw client secret raw resource db grant_types r s g ops auth given
      found own used kept other same_client same_user =
    let e : refresh_token env clock draw client secret raw resource db
        ≡ (err (unauthorized "refresh token reuse"), handle_refresh_reuse clock client r db) =
      refresh_token-replayed env clock draw client secret raw resource db grant_types r auth given
        found ((str_eq_iff r.client_id client).1 own) used kept in
    rw e (
      refl,
      dead_run env g ops (handle_refresh_reuse clock client r db) (
          chain-IsDead (is_of client r.user) clock.db db.refreshes s g other
            (is_of_lem client r.user s same_client same_user)),
    )

-- RevokeGrant of a row ends every refresh token that the row's client holds for its user in that
-- tenant, whatever operations follow.
pub revoke_grant_ends_chain :
    (env : Env) (clock : Clock) (tenant id : ℕ) (db db' : Db) (names : String × ℕ) (s : Refresh)
    (g : String) (ops : List Op)
    → revoke_grant clock tenant id db ≡ (ok names, db')
    → find_refresh g db.refreshes ≡ some s
    → s.client_id ≡ names.0
    → s.user ≡ names.1
    → s.tenant ≡ tenant
    → count (is_for_refresh g) (run_ops env ops db').0 ≡ 0
unfolding revoke_grant
revoke_grant_ends_chain env clock tenant id db db' names s g ops h found same_client same_user
      same_tenant =
    go (find (λ (r : Refresh). r.id == id && r.tenant == tenant) db.refreshes) h
  where
    go :
        (o : Option Refresh)
        → revoke_found clock tenant db o ≡ (ok names, db')
        → count (is_for_refresh g) (run_ops env ops db').0 ≡ 0
    go none e = absurd (ground (arith, e))
    go (some r) e =
        let end = ap (λ (x : Result (String × ℕ) × Db). x.1) e in
        let c : r.client_id ≡ names.0 = ground (arith, e) in
        let u : r.user ≡ names.1 = ground (arith, e) in
        subst (λ (x : Db). count (is_for_refresh g) (run_ops env ops x).0 ≡ 0) end
          (dead_run env g ops _ (
            chain-IsDead (λ (x : Refresh). is_of r.client_id r.user x && x.tenant == tenant)
              clock.db db.refreshes s g found
              (ground
                (arith, is_of_lem r.client_id r.user s (same_client ∙ sym c) (same_user ∙ sym u)))))
