-- ===== src/Device/Promise.antt =====
-- The promises of the device grant (device.go) over all sequences of operations.
use qeet_id.Base.{
  ℕ, ◌≤◌, ◌≡◌, refl, sym, ◌∙◌, ap, subst, ◌⊎◌, inl, inr, String, ◌&&◌, Option, none, some, List, [],
  ◌∷◌, str_eq, ◌==◌, Bool-cases, arith, str_eq_iff,
}
use qeet_id.Errs.{Result, ok}
use qeet_id.Device.Rows.{Device, Env, Db, Clock, by_hash, find, at_id, update, touch, consume, deny}
use qeet_id.Device.Moves.{map_some, by_hash-update, IdsApart, mem-find, update-IdsApart}
use qeet_id.Device.Token.{Grant, Poll, granted, refused, device_token, revoke_device, revoke_row}
use qeet_id.Device.Run.{Op, authorizes, decides, polls, revokes, step, run, issued}
use qeet_id.Device.Refine.{step-Refines}
use qeet_id.Device.Poll.{device_token_granted, after_redeem}
use qeet_id.Device.Once.{
  IsUsed, IsDenied, IsUsed-IsClosed, IsDenied-IsClosed, none_after, grants, grants-run,
}

redeemed-IsUsed :
    (h : String) (clock : Clock) (dc : Device) (db : Db)
    → by_hash h db.devices ≡ some dc
    → (r : Device) × (by_hash h (after_redeem clock dc db).devices ≡ some r) × IsUsed r
redeemed-IsUsed h clock dc db found =
    let touches = at_id dc.id (touch clock.db) in
    let spends = at_id dc.id (consume clock.db) in
    (
      spends (touches dc),
      by_hash-update h dc.id (consume clock.db) (update dc.id (touch clock.db) db.devices)
            (λ d. (refl, refl))
          ∙ ap (map_some spends) (
              by_hash-update h dc.id (touch clock.db) db.devices (λ d. (refl, refl))
              ∙ ap (map_some touches) found),
      ground arith,
    )

abbrev pub StepOnce : Env → String → List (String × Grant) → Db → Type 0
StepOnce env h os db =
    (grants h os ≡ 0)
    ⊎ ((grants h os ≤ 1) × ((r : Device) × (by_hash h db.devices ≡ some r) × IsUsed r))

step-StepOnce :
    (env : Env) (h : String) (op : Op) (db : Db)
    → StepOnce env h (step env op db).0 (step env op db).1
unfolding step grants
step-StepOnce env h (authorizes clock draws client scopes) db = inl refl
step-StepOnce env h (decides clock user code approved) db = inl refl
step-StepOnce env h (revokes tenant id) db = inl refl
step-StepOnce env h (polls clock client raw) db =
    go (device_token env clock client raw db).0 (device_token env clock client raw db).1 refl
  where
    go :
        (p : Poll) (db' : Db)
        → device_token env clock client raw db ≡ (p, db')
        → StepOnce env h (issued env raw p) db'
    go (refused e) db' q = inl refl
    go (granted g) db' q = elim (Bool-cases (str_eq (env.hash raw) h)) [
      | inr n ↦ inl (ground (arith, n))
      | inl s ↦
          let (dc, found, can, is, end) = device_token_granted env clock client raw db db' g q in
          let here : by_hash h db.devices ≡ some dc =
            subst (λ k. by_hash k db.devices ≡ some dc) ((str_eq_iff (env.hash raw) h).0 s) found in
          inr (
            ground (arith, s),
            subst (λ (x : Db). (r : Device) × (by_hash h x.devices ≡ some r) × IsUsed r) (sym end)
                (redeemed-IsUsed h clock dc db here),
          )
    ]

-- Over any sequence of authorizations, decisions, polls and revocations, of any clients and users and
-- with any clocks, a device code brings tokens at most once, if the ids in the table are distinct.
pub grants_at_most_once :
    (env : Env) (h : String) (ops : List Op) (db : Db)
    → IdsApart db.devices
    → grants h (run env ops db).0 ≤ 1
grants_at_most_once env h [] db apart = unfold run grants in omega arith
grants_at_most_once env h (op ∷ ops) db apart =
    let ref = step-Refines env op db apart in
    elim (step-StepOnce env h op db) [
      | inl n ↦ omega (
        arith,
        grants-run env h op ops db,
        n,
        grants_at_most_once env h ops (step env op db).1 ref.apart,
      )
      | inr (b, (r, found, used)) ↦ omega (
        arith,
        grants-run env h op ops db,
        b,
        none_after env IsUsed (IsUsed-IsClosed env) h ops (step env op db).1 r ref.apart found used,
      )
    ]

-- After a successful RevokeDevice of a row, its device code brings no tokens in any sequence of later
-- operations.
pub revoke_device-grants :
    (env : Env) (tenant id : ℕ) (db db' : Db) (names : String × String) (d : Device) (ops : List Op)
    → IdsApart db.devices
    → by_hash d.device_code_hash db.devices ≡ some d
    → d.id ≡ id
    → revoke_device tenant id db ≡ (ok names, db')
    → grants d.device_code_hash (run env ops db').0 ≡ 0
unfolding revoke_device
revoke_device-grants env tenant id db db' names d ops apart found same h = go _ refl h
  where
    go :
        (o : Option Device)
        → find (λ (d : Device). d.id == id && d.tenant == tenant) db.devices ≡ o
        → revoke_row db o ≡ (ok names, db')
        → grants d.device_code_hash (run env ops db').0 ≡ 0
    go none e q = absurd (ground arith)
    go (some x) e q =
        let end = ap (λ (y : Result (String × String) × Db). y.1) q in
        let (m, t) = mem-find _ db.devices x e in
        let (n, u) = mem-find _ db.devices d found in
        let is : d ≡ x = apart d x n m (ground (arith, same, t)) in
        subst (λ (y : Db). grants d.device_code_hash (run env ops y).0 ≡ 0) end
          (none_after env IsDenied (IsDenied-IsClosed env) d.device_code_hash ops
            (record db { devices = update x.id deny db.devices }) (at_id x.id deny d)
            (update-IdsApart x.id deny db.devices (λ c. (refl, refl)) apart)
            (by_hash-update d.device_code_hash x.id deny db.devices (λ c. (refl, refl))
              ∙ ap (map_some (at_id x.id deny)) found)
            (ground (arith, ap (λ (y : Device). y.id) is)))
