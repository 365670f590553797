-- ===== src/Oidc/Granted.antt =====
-- The refresh tokens that the device and CIBA grants issue (device.go, ciba.go) leave the table of codes
-- as it is.
use qeet_id.Base.{ℕ, ◌≡◌, refl, String, List, Option-cases, inl, inr}
use qeet_id.Device.Rows.{Clock}
use qeet_id.Oidc.Rows.{Env, Db, insert_refresh}
use qeet_id.Oidc.Codes.{Draw, new_refresh}
use qeet_id.Oidc.Run.{grant_refresh}

pub grant_refresh-codes :
    (env : Env) (clock : Clock) (draw : Draw) (user tenant : ℕ) (client : String)
    (scopes : List String) (db : Db)
    → (grant_refresh env clock draw user tenant client scopes db).codes ≡ db.codes
unfolding grant_refresh
grant_refresh-codes env clock draw user tenant client scopes db =
    elim (Option-cases
      (insert_refresh (new_refresh env clock draw client user tenant scopes "") db.refreshes)) [
        | inl clash ↦ rw clash refl
        | inr (rs, ins) ↦ rw ins refl
      ]
