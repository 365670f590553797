-- ===== src/Ciba/Run.antt =====
-- Any sequence of the operations of ciba.go, in the order in which they lock the row.
use qeet_id.Base.{ℕ, String, Bool, List, [], ◌∷◌, str_eq, run}
use qeet_id.Device.Rows.{Clock}
use qeet_id.Device.Token.{Grant}
use qeet_id.Ciba.Requests.{Request, Env, Asked, Reply, failed, replied, backchannel_authorize}
use qeet_id.Ciba.Token.{decide_backchannel, backchannel_token}

pub data Op : Type 0 where
  asks : (clock : Clock) (id : ℕ) (raw : String) (a : Asked) → Op
  decides : (clock : Clock) (user id : ℕ) (allow : Bool) → Op
  polls : (clock : Clock) (client raw : String) → Op

-- Tokens that are answered, with the hash of the request that they were answered for.
pub record Issue : Type 0 where
  pub request : String
  pub grant : Grant

abbrev pub issue : String → Reply Grant → List Issue
issue h (failed e) = []
issue h (replied g) = record { request = h; grant = g } ∷ []

unfoldable pub step : Env → Op → List Request → List Issue × List Request
step env (asks clock id raw a) rs = ([], (backchannel_authorize env clock id raw a rs).1)
step env (decides clock user id allow) rs = ([], (decide_backchannel clock user id allow rs).1)
step env (polls clock client raw) rs =
    let (g, rs') = backchannel_token env clock client raw rs in (issue (env.oidc.hash raw) g, rs')

abbrev pub run_ops : Env → List Op → List Request → List Issue × List Request
run_ops env = run (step env)

abbrev pub is_for : String → Issue → Bool
is_for h i = str_eq i.request h
