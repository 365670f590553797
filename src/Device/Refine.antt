-- ===== src/Device/Refine.antt =====
-- Every operation refines the state machine of Device/Moves.
use qeet_id.Base.{
  ℕ, ◌≡◌, refl, inl, inr, String, Bool, true, false, ◌&&◌, Option, none, some, List, [], ◌∷◌, ◌==◌,
  Bool-cases, arith, Option-cases, ltb,
}
use qeet_id.Errs.{Result, ok, err}
use qeet_id.Device.Rows.{
  pending, Device, Env, Db, Clock, Client, find, deny, approve, insert_device, user_in_tenant,
  find_client, by_user_code,
}
use qeet_id.Device.Moves.{denies, approves, IdsApart, mem-find}
use qeet_id.Device.Flow.{
  Draws, device_authorize, decide_device, insert_attempts, open_row, decide_row, inserted,
  authorize_scopes, authorize_client, normalize_user_code, new_device, drawn_codes, not_permitted,
  or_default,
}
use qeet_id.Device.Token.{revoke_device, revoke_row}
use qeet_id.Device.Run.{
  Op, authorizes, decides, polls, revokes, step, Refines, IsNew, Refines-same, Refines-insert,
  Refines-update,
}
use qeet_id.Device.Poll.{device_token-Refines}

module _ (env : Env) where
  insert_attempts-Refines :
      (d : Device) (codes : List String) (ds es : List Device) (code : String)
      → insert_attempts d codes ds ≡ some (code, es)
      → IsNew env d
      → IdsApart ds
      → Refines env ds es
  unfolding insert_attempts
  insert_attempts-Refines d [] ds es code h new apart = absurd (ground arith)
  insert_attempts-Refines d (c ∷ codes) ds es code h new apart =
      elim (Option-cases (insert_device (record d { user_code = c }) ds)) [
        | inl e ↦ insert_attempts-Refines d codes ds es code (ground (arith, h, e)) new apart
        | inr (fs, e) ↦
            Refines-insert env (record d { user_code = c }) ds es (ground (arith, h, e))
              (record {
                undecided = new.undecided;
                unbound = new.unbound;
                client = new.client;
                known = new.known;
                tenant = new.tenant;
                permitted = new.permitted;
              })
              apart
      ]

  device_authorize-Refines :
      (clock : Clock) (draws : Draws) (client : String) (scopes : List String) (db : Db)
      → IdsApart db.devices
      → Refines env db.devices (device_authorize env clock draws client scopes db).1.devices
  unfolding device_authorize
  device_authorize-Refines clock draws client scopes db apart =
      by_client (find_client client env) refl
    where
      by_insert :
          (d : Device) (o : Option (String × List Device))
          → IsNew env d
          → insert_attempts d (drawn_codes draws) db.devices ≡ o
          → Refines env db.devices (inserted draws db o).1.devices
      by_insert d none new e = Refines-same env db.devices apart
      by_insert d (some (code, es)) new e =
          insert_attempts-Refines d (drawn_codes draws) db.devices es code e new apart

      by_scopes :
          (c : Client) (asked : List String) (o : Option String)
          → find_client client env ≡ some c
          → not_permitted c.scopes asked ≡ o
          → Refines env db.devices (authorize_scopes env clock draws c client asked db o).1.devices
      by_scopes c asked (some s) e q = Refines-same env db.devices apart
      by_scopes c asked none e q =
          by_insert (new_device env clock draws c client asked) _
            (record {
              undecided = refl;
              unbound = refl;
              client = c;
              known = e;
              tenant = refl;
              permitted = q;
            })
            refl

      by_client :
          (o : Option Client)
          → find_client client env ≡ o
          → Refines env db.devices (authorize_client env clock draws client scopes db o).1.devices
      by_client none e = Refines-same env db.devices apart
      by_client (some c) e =
          by_scopes c (or_default scopes c.scopes)
            (not_permitted c.scopes (or_default scopes c.scopes)) e refl

  open_row_lem :
      (clock : Clock) (o : Option Device) (d : Device)
      → open_row clock o ≡ ok d
      → (o ≡ some d) × (d.status ≡ pending) × (ltb d.expires_at clock.app ≡ false)
  open_row_lem clock none d h = absurd (ground arith)
  open_row_lem clock (some row) d h = ground arith

  decide_device-Refines :
      (clock : Clock) (user : ℕ) (code : String) (approved : Bool) (db : Db)
      → IdsApart db.devices
      → Refines env db.devices (decide_device env clock user code approved db).1.devices
  unfolding decide_device
  decide_device-Refines clock user code approved db apart =
      go approved (open_row clock (by_user_code (normalize_user_code env code) db.devices)) refl
    where
      go :
          (a : Bool) (o : Result Device)
          → open_row clock (by_user_code (normalize_user_code env code) db.devices) ≡ o
          → Refines env db.devices (decide_row env clock user a db o).1.devices
      go a (err x) e = Refines-same env db.devices apart
      go false (ok row) e =
          let (f, s, t) = open_row_lem clock _ row e in
          Refines-update env row deny db.devices (λ d. (refl, refl)) (mem-find _ db.devices row f).0
            (denies row) apart
      go true (ok row) e = elim (Bool-cases (user_in_tenant user row.tenant env)) [
        | inl u ↦
            let (f, s, t) = open_row_lem clock _ row e in
            rw u (
              Refines-update env row (approve user clock.db) db.devices (λ d. (refl, refl))
                (mem-find _ db.devices row f).0 (approves row user clock.db s u) apart)
        | inr u ↦ rw u (Refines-same env db.devices apart)
      ]

  revoke_device-Refines :
      (tenant id : ℕ) (db : Db)
      → IdsApart db.devices
      → Refines env db.devices (revoke_device tenant id db).1.devices
  unfolding revoke_device
  revoke_device-Refines tenant id db apart = go _ refl
    where
      go :
          (o : Option Device)
          → find (λ (d : Device). d.id == id && d.tenant == tenant) db.devices ≡ o
          → Refines env db.devices (revoke_row db o).1.devices
      go none e = Refines-same env db.devices apart
      go (some d) e =
          Refines-update env d deny db.devices (λ d. (refl, refl)) (mem-find _ db.devices d e).0
            (denies d) apart

  -- Every operation moves each row by a step of the state machine, keeps all rows, adds only new
  -- pending ones for scopes that the client may ask for, and keeps ids apart.
  pub step-Refines :
      (op : Op) (db : Db) → IdsApart db.devices → Refines env db.devices (step env op db).1.devices
  unfolding step
  step-Refines (authorizes clock draws client scopes) db apart =
      device_authorize-Refines clock draws client scopes db apart
  step-Refines (decides clock user code approved) db apart =
      decide_device-Refines clock user code approved db apart
  step-Refines (polls clock client raw) db apart =
      device_token-Refines env clock client db raw apart
  step-Refines (revokes tenant id) db apart = revoke_device-Refines tenant id db apart
