-- ===== src/Ciba/Tests.antt =====
-- Runs and instances of the model of backchannel authentication.
use qeet_id.Base.{
  ℕ, ◌*◌, ◌≤◌, ◌≡◌, ◌≢◌, refl, String, true, false, none, List, [], ◌∷◌, count, run, str_eq, All,
  arith, trim_space,
}
use qeet_id.Device.Rows.{Clock, second, find}
use qeet_id.Device.Flow.{contains, not_permitted}
use qeet_id.Oidc.Rows
use qeet_id.Oidc.Codes.{authenticate_client}
use qeet_id.Oidc.Exchange.{fields}
use qeet_id.Mfa.Rows.{update_where}
use qeet_id.Ciba.Requests.{Env, Asked, ciba_grant, backchannel_authorize, insert_request}
use qeet_id.Ciba.Token.{decide_backchannel, backchannel_token}
use qeet_id.Ciba.Run.{Op, asks, decides, polls, Issue, step, run_ops, is_for}
use qeet_id.Ciba.Once.{request_at_most_once}
use qeet_id.Ciba.Approved.{unapproved_ungranted}

abbrev bank : Rows.Client
bank = record {
  client_id = "bank";
  tenant = 7;
  client_type = "public";
  client_secret_hash = none;
  redirect_uris = [];
  grant_types = ciba_grant ∷ "refresh_token" ∷ [];
  scopes = "openid" ∷ "pay" ∷ [];
}

abbrev home : Env
home = record {
  oidc = record {
    clients = bank ∷ [];
    verify = str_eq;
    hash = λ s. s;
    hash_refresh = λ s. s;
    refresh_ttl = 100 * second;
  };
  users =
      record { id = 1; tenant = 7; email = "ann@b.c"; deleted = false }
      ∷ record { id = 2; tenant = 7; email = "bob@b.c"; deleted = false }
      ∷ [];
  lower = λ s. s;
}

abbrev at : ℕ → Clock
at s = record { app = s * second; db = s * second }

abbrev asked : String → Asked
asked hint = record {
  client_id = "bank";
  client_secret = "";
  login_hint = hint;
  scope = "pay ";
  binding_message = "Pay 5";
}

abbrev flow : List Op
flow =
    asks (at 0) 1 "req" (asked "ann@b.c")
    ∷ asks (at 0) 2 "other" (asked "bob@b.c")
    ∷ decides (at 10) 1 1 true
    ∷ decides (at 11) 2 2 false
    ∷ polls (at 20) "bank" "req"
    ∷ polls (at 30) "bank" "req"
    ∷ polls (at 40) "bank" "other"
    ∷ []

flow_grants : count (is_for "req") (run_ops home flow []).0 ≡ 1
unfolding count run step backchannel_authorize decide_backchannel backchannel_token insert_request
    update_where find authenticate_client contains not_permitted trim_space fields
flow_grants = refl

request_at_most_once_example : count (is_for "req") (run_ops home flow []).0 ≤ 1
unfolding count
request_at_most_once_example = request_at_most_once "req" home flow [] (omega arith)

unapproved_ungranted_example : All (λ (i : Issue). i.grant.user ≢ 2) (run_ops home flow []).0
unapproved_ungranted_example =
    unapproved_ungranted 2 home flow [] _ refl (_, (_, (refl, (refl, _))))
