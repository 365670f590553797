-- ===== src/Oidc/Run.antt =====
-- Any sequence of the operations of oidc.go on codes and refresh tokens, in the order in which their
-- transactions lock the rows.
use qeet_id.Base.{ℕ, String, Bool, false, Option, none, some, List, [], ◌∷◌, str_eq, run}
use qeet_id.Errs.{Result, ok, err}
use qeet_id.Device.Rows.{Clock}
use qeet_id.Oidc.Rows.{Refresh, Env, Db, insert_refresh}
use qeet_id.Oidc.Codes.{
  Tokens, Draw, AuthRequest, CodeRequest, authorize, exchange_code, grant_consent, new_refresh,
}
use qeet_id.Oidc.Refreshing.{refresh_token, revoke_token, revoke_grant}

-- The grants of codes and refresh tokens of tokenCode, with Authorize, GrantConsent and the revocations;
-- and `grants`, the refresh token that the device and CIBA grants of tokenCode issue once they have
-- accepted their own code. TokenExchange writes to neither table.
pub data Op : Type 0 where
  consents : (user : ℕ) (client : String) (scopes : List String) → Op
  authorizes : (clock : Clock) (raw : String) (user : ℕ) (a : AuthRequest) → Op
  exchanges : (clock : Clock) (draw : Draw) (r : CodeRequest) → Op
  refreshes : (clock : Clock) (draw : Draw) (client secret raw resource : String) → Op
  revokes_token : (clock : Clock) (client secret token hint : String) → Op
  revokes_grant : (clock : Clock) (tenant id : ℕ) → Op
  grants :
      (clock : Clock) (draw : Draw) (user tenant : ℕ) (client : String) (scopes : List String) → Op

-- Tokens that are answered, with the hash of the code or refresh token that they were answered for.
pub data Issue : Type 0 where
  for_code : String → Tokens → Issue
  for_refresh : String → Tokens → Issue

abbrev pub issue : (Tokens → Issue) → Result Tokens → List Issue
issue as_issue (err e) = []
issue as_issue (ok t) = as_issue t ∷ []

abbrev pub with_refreshes : Db → Option (List Refresh) → Db
with_refreshes db none = db
with_refreshes db (some rs) = record db { refreshes = rs }

-- issueRefreshToken, as DeviceToken and BackchannelToken call it.
unfoldable pub grant_refresh : Env → Clock → Draw → ℕ → ℕ → String → List String → Db → Db
grant_refresh env clock draw user tenant client scopes db =
    with_refreshes db
      (insert_refresh (new_refresh env clock draw client user tenant scopes "") db.refreshes)

unfoldable pub step : Env → Op → Db → List Issue × Db
step env (consents user client scopes) db = ([], grant_consent user client scopes db)
step env (authorizes clock raw user a) db = ([], (authorize env clock raw user a db).1)
step env (exchanges clock draw r) db =
    let (t, db') = exchange_code env clock draw r db in (issue (for_code (env.hash r.code)) t, db')
step env (refreshes clock draw client secret raw resource) db =
    let (t, db') = refresh_token env clock draw client secret raw resource db in
    (issue (for_refresh (env.hash_refresh raw)) t, db')
step env (revokes_token clock client secret token hint) db =
    ([], (revoke_token env clock client secret token hint db).1)
step env (revokes_grant clock tenant id) db = ([], (revoke_grant clock tenant id db).1)
step env (grants clock draw user tenant client scopes) db =
    ([], grant_refresh env clock draw user tenant client scopes db)

-- Whether tokens were answered for a code, or for a refresh token.
abbrev pub is_for_code : String → Issue → Bool
is_for_code h (for_code g t) = str_eq g h
is_for_code h (for_refresh g t) = false

abbrev pub is_for_refresh : String → Issue → Bool
is_for_refresh h (for_code g t) = false
is_for_refresh h (for_refresh g t) = str_eq g h

abbrev pub tokens_of : Issue → Tokens
tokens_of (for_code h t) = t
tokens_of (for_refresh h t) = t

abbrev pub run_ops : Env → List Op → Db → List Issue × Db
run_ops env = run (step env)
