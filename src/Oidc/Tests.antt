-- ===== src/Oidc/Tests.antt =====
-- A web client that is authorized, exchanges its code and refreshes, and the results at that run.
use qeet_id.Base.{
  ◌++◌, ℕ, ◌*◌, ◌≤◌, ◌≡◌, refl, inr, String, none, some, List, [], ◌∷◌, arith, str_eq, str_eq_iff,
  trim_space, map, All, count, run, if◌then◌else◌,
}
use qeet_id.Errs.{ok, err, unauthorized}
use qeet_id.Device.Rows.{Clock, second, find, upsert_consent}
use qeet_id.Device.Flow.{contains, not_permitted}
use qeet_id.Oidc.Rows.{
  Client, Refresh, Env, Db, insert_code, mark_code_used, insert_refresh, update_where,
}
use qeet_id.Oidc.Codes.{
  Tokens, Draw, AuthRequest, CodeRequest, authorize, authenticate_client, exchange_code,
  grant_consent,
}
use qeet_id.Oidc.Refreshing.{refresh_token, revoke_grant}
use qeet_id.Oidc.Exchange.{
  Issuer, ExchangeRequest, Exchanged, token_exchange, fields, join, words, downscope, introspect,
  inactive, active_refresh,
}
use qeet_id.Oidc.Run.{
  grant_refresh, Op, consents, authorizes, exchanges, refreshes, grants, Issue, step, run_ops,
  is_for_code, is_for_refresh, tokens_of,
}
use qeet_id.Oidc.CodeOnce.{code_at_most_once}
use qeet_id.Oidc.RefreshOnce.{refresh_at_most_once}
use qeet_id.Oidc.Replay.{replay_ends_chain}
use qeet_id.Oidc.Backed.{IsBacked, issued-IsBacked}
use qeet_id.Oidc.Redeem.{IsRedeemed, exchange_code-IsRedeemed}
use qeet_id.Oidc.CodeFlow.{answer_to, authorize-exchange}
use qeet_id.Oidc.Narrow.{IsNarrowed, token_exchange-IsNarrowed}

abbrev web : Client
web = record {
  client_id = "web";
  tenant = 7;
  client_type = "confidential";
  client_secret_hash = some "s3cret";
  redirect_uris = "https://web/cb" ∷ [];
  grant_types = "refresh_token" ∷ "token_exchange" ∷ [];
  scopes = "openid" ∷ "mail" ∷ [];
}

abbrev env : Env
env = record {
  clients = web ∷ [];
  verify = str_eq;
  hash = λ s. s;
  hash_refresh = λ s. s;
  refresh_ttl = 1000 * second;
}

abbrev at : ℕ → Clock
at s = record { app = s * second; db = s * second }

abbrev empty : Db
empty = record { codes = []; refreshes = []; consents = [] }

abbrev asked : AuthRequest
asked = record {
  client_id = "web";
  redirect_uri = "https://web/cb";
  scopes = "openid" ∷ [];
  nonce = "n";
  challenge = "proof";
  challenge_method = "S256";
}

abbrev exchange : CodeRequest
exchange = answer_to "code" asked "s3cret" "proof" ""

abbrev drawn : ℕ → String → Draw
drawn id raw = record { raw = raw; id = id }

abbrev signed_in : List Op
signed_in =
    consents 1 "web" ("openid" ∷ [])
    ∷ authorizes (at 0) "code" 1 asked
    ∷ exchanges (at 10) (drawn 1 "r1") exchange
    ∷ exchanges (at 11) (drawn 2 "r2") exchange
    ∷ refreshes (at 20) (drawn 3 "r3") "web" "s3cret" "r1" ""
    ∷ []

-- The first exchange and the refresh bring tokens, the second exchange does not.
signed_in_issues :
    map tokens_of (run_ops env signed_in empty).0
    ≡ record {
      user = 1;
      tenant = 7;
      client_id = "web";
      scopes = "openid" ∷ [];
      resource = "";
      id_token = some "n";
      refresh_token = some "r1";
    }
      ∷ record {
        user = 1;
        tenant = 7;
        client_id = "web";
        scopes = "openid" ∷ [];
        resource = "";
        id_token = some "";
        refresh_token = some "r3";
      }
      ∷ []
unfolding run step authorize exchange_code refresh_token grant_consent authenticate_client
    insert_code mark_code_used insert_refresh update_where find contains not_permitted
    upsert_consent
signed_in_issues = refl

code_at_most_once_example : count (is_for_code "code") (run_ops env signed_in empty).0 ≤ 1
code_at_most_once_example = code_at_most_once env "code" signed_in empty

refresh_at_most_once_example : count (is_for_refresh "r1") (run_ops env signed_in empty).0 ≤ 1
refresh_at_most_once_example = refresh_at_most_once env "r1" signed_in empty

-- Then a device grant of another user, and the refresh of its token.
abbrev granted_too : List Op
granted_too =
    signed_in
    ++ (grants (at 30) (drawn 8 "d1") 2 7 "web" ("mail" ∷ [])
        ∷ refreshes (at 40) (drawn 9 "r9") "web" "s3cret" "d1" ""
        ∷ [])

device_token_refreshed : count (is_for_refresh "d1") (run_ops env granted_too empty).0 ≡ 1
unfolding count run step grant_refresh authorize exchange_code refresh_token grant_consent
    authenticate_client insert_code mark_code_used insert_refresh update_where find contains
    not_permitted upsert_consent
device_token_refreshed = refl

issued-IsBacked_example :
    All
      (λ (i : Issue).
        IsBacked env granted_too
          (tokens_of i).user
          (tokens_of i).tenant
          (tokens_of i).client_id
          (tokens_of i).scopes)
      (run_ops env granted_too empty).0
issued-IsBacked_example = issued-IsBacked env granted_too []

-- The tables after the run: `r1` is used and `r3` replaces it.
abbrev old_token : Refresh
old_token = record {
  id = 1;
  token_hash = "r1";
  client_id = "web";
  user = 1;
  tenant = 7;
  scopes = "openid" ∷ [];
  expires_at = 1010 * second;
  used_at = some (20 * second);
  replaced_by = some 3;
  revoked_at = none;
  resource = none;
}

abbrev new_one : Refresh
new_one = record old_token {
  id = 3;
  token_hash = "r3";
  expires_at = 1020 * second;
  used_at = none;
  replaced_by = none;
}

abbrev rotated_once : Db
rotated_once = record { codes = []; refreshes = old_token ∷ new_one ∷ []; consents = [] }

after_signed_in : (run_ops env signed_in empty).1.refreshes ≡ rotated_once.refreshes
unfolding run step authorize exchange_code refresh_token grant_consent authenticate_client
    insert_code mark_code_used insert_refresh update_where find contains not_permitted
    upsert_consent
after_signed_in = refl

abbrev thief : List Op
thief = refreshes (at 40) (drawn 5 "r5") "web" "s3cret" "r3" "" ∷ []

replay_ends_chain_example :
    let x = refresh_token env (at 30) (drawn 4 "r4") "web" "s3cret" "r1" "" rotated_once in
    (x.0 ≡ err (unauthorized "refresh token reuse"))
    × (count (is_for_refresh "r3") (run_ops env thief x.1).0 ≡ 0)
unfolding authenticate_client find
replay_ends_chain_example =
    replay_ends_chain env (at 30) (drawn 4 "r4") "web" "s3cret" "r1" "" rotated_once web.grant_types
      old_token new_one "r3" thief refl refl refl refl refl refl refl refl refl

abbrev revoked_once : Db
revoked_once = (revoke_grant (at 30) 7 1 rotated_once).1

abbrev authorized_once : Db
authorized_once = (authorize env (at 0) "code" 1 asked empty).1

abbrev first_tokens : Tokens
first_tokens = record {
  user = 1;
  tenant = 7;
  client_id = "web";
  scopes = "openid" ∷ [];
  resource = "";
  id_token = some "n";
  refresh_token = some "r1";
}

exchange_code-IsRedeemed_example : IsRedeemed env (at 10) exchange authorized_once first_tokens
unfolding authorize exchange_code authenticate_client insert_code mark_code_used insert_refresh find
    contains not_permitted
exchange_code-IsRedeemed_example =
    exchange_code-IsRedeemed env (at 10) (drawn 1 "r1") exchange authorized_once first_tokens refl

authorize-exchange_example :
    (t : Tokens) × ((exchange_code env (at 10) (drawn 1 "r1") exchange authorized_once).0 ≡ ok t)
    × (t.user ≡ 1)
    × (t.tenant ≡ 7)
    × (t.scopes ≡ "openid" ∷ [])
    × (t.id_token ≡ some "n")
unfolding authorize authenticate_client insert_code find contains not_permitted
authorize-exchange_example =
    authorize-exchange env (at 0) (at 10) (drawn 1 "r1") "code" "s3cret" "proof" "" 1 7 asked
      web.grant_types empty authorized_once refl refl (omega arith)
      (inr (refl, (λ e. absurd (ground (arith, e, (str_eq_iff "proof" "").1 e))), refl)) refl

abbrev issuer : Issuer
issuer = record {
  verify_access = λ s.
      if str_eq s "token"
      then some (record { subject = "1"; tenant = 7; session = 4; scope = "openid mail" })
      else none;
  parse_uuid = λ s. some 1;
}

abbrev narrowing : ExchangeRequest
narrowing = record {
  client_id = "web";
  client_secret = "s3cret";
  subject_token = "token";
  subject_token_type = "";
  requested_token_type = "";
  scope = " mail ";
  actor_token = "";
  actor_token_type = "";
  resource = "";
}

abbrev narrow_token : Exchanged
narrow_token = record {
  user = 1;
  tenant = 7;
  session = 4;
  scope = "mail";
  actor = "";
  resource = "";
}

token_exchange-IsNarrowed_example : IsNarrowed env issuer narrowing narrow_token
unfolding token_exchange authenticate_client find contains not_permitted downscope fields words join
    trim_space
token_exchange-IsNarrowed_example =
    token_exchange-IsNarrowed env issuer 9 narrowing narrow_token refl

-- Introspect calls the used token inactive and its successor active.
introspect_example :
    (introspect env issuer (at 30) "web" "s3cret" "r1" "" rotated_once ≡ ok inactive)
    × (introspect env issuer (at 30) "web" "s3cret" "r3" "" rotated_once
        ≡ ok (active_refresh new_one))
unfolding introspect authenticate_client find
introspect_example = (refl, refl)
