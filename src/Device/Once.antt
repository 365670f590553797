-- ===== src/Device/Once.antt =====
-- What holds of every sequence of operations: a device code brings tokens at most once, and a denied
-- one never.
use qeet_id.Base.{
  ℕ, ◌+◌, ◌≡◌, ◌≢◌, refl, sym, ◌∙◌, ap, subst, String, true, none, some, List, [], ◌∷◌, ◌++◌,
  str_eq, if◌then◌else◌, arith, is_some, All, str_eq_iff,
}
use qeet_id.Device.Rows.{authorized, denied, Device, Env, Db, by_hash}
use qeet_id.Device.Moves.{Move, stays, touched, denies, approves, redeems, IdsApart}
use qeet_id.Device.Token.{Grant, Poll, granted, refused, device_token}
use qeet_id.Device.Run.{Op, authorizes, decides, polls, revokes, step, run, issued}
use qeet_id.Device.Refine.{step-Refines}
use qeet_id.Device.Poll.{device_token_granted, IsGrantOf}

-- A property of rows that lasts, and under which no poll brings tokens.
pub record IsClosed (env : Env) (P : Device → Type 0) : Type 1 where
  pub lasts : (r r' : Device) → Move env r r' → P r → P r'
  pub closed : (r : Device) → P r → r.status ≡ authorized → r.consumed_at ≢ none

-- A grant in the output of a step is one of a row that could be redeemed.
pub step_granted :
    (env : Env) (op : Op) (db : Db)
    → All
        (λ (o : String × Grant).
          (dc : Device) × (by_hash o.0 db.devices ≡ some dc)
          × (dc.consumed_at ≡ none)
          × (dc.status ≡ authorized)
          × IsGrantOf dc o.1)
        (step env op db).0
unfolding step
step_granted env (authorizes clock draws client scopes) db = _
step_granted env (decides clock user code approved) db = _
step_granted env (revokes tenant id) db = _
step_granted env (polls clock client raw) db =
    go (device_token env clock client raw db).0 (device_token env clock client raw db).1 refl
  where
    go :
        (p : Poll) (db' : Db)
        → device_token env clock client raw db ≡ (p, db')
        → All
            (λ (o : String × Grant).
              (dc : Device) × (by_hash o.0 db.devices ≡ some dc)
              × (dc.consumed_at ≡ none)
              × (dc.status ≡ authorized)
              × IsGrantOf dc o.1)
            (issued env raw p)
    go (refused e) db' h = _
    go (granted g) db' h =
        let (dc, found, can, is, end) = device_token_granted env clock client raw db db' g h in
        ((dc, found, can.unused, can.approved, is), _)

-- The number of grants for the device code with a hash.
unfoldable pub grants : String → List (String × Grant) → ℕ
grants h [] = 0
grants h (o ∷ os) = (if str_eq o.0 h then 1 else 0) + grants h os

grants-append :
    (h : String) (os ps : List (String × Grant)) → grants h (os ++ ps) ≡ grants h os + grants h ps
unfolding grants
grants-append h [] ps = omega arith
grants-append h (o ∷ os) ps = omega (arith, grants-append h os ps)

pub no_grants :
    (h : String) (os : List (String × Grant))
    → All (λ (o : String × Grant). o.0 ≢ h) os
    → grants h os ≡ 0
unfolding grants
no_grants h [] a = refl
no_grants h (o ∷ os) (n, a) = ground (arith, no_grants h os a, str_eq_iff o.0 h)

pub grants-run :
    (env : Env) (h : String) (op : Op) (ops : List Op) (db : Db)
    → grants h (run env (op ∷ ops) db).0
      ≡ grants h (step env op db).0 + grants h (run env ops (step env op db).1).0
unfolding run
grants-run env h op ops db = grants-append h (step env op db).0 (run env ops (step env op db).1).0

module _ (env : Env) (P : Device → Type 0) (c : IsClosed env P) (h : String) where
  closed_step :
      (op : Op) (db : Db) (r : Device)
      → by_hash h db.devices ≡ some r
      → P r
      → grants h (step env op db).0 ≡ 0
  closed_step op db r found p = no_grants h _ (others _ (step_granted env op db))
    where
      others :
          (os : List (String × Grant))
          → All
              (λ (o : String × Grant).
                (dc : Device) × (by_hash o.0 db.devices ≡ some dc)
                × (dc.consumed_at ≡ none)
                × (dc.status ≡ authorized)
                × IsGrantOf dc o.1)
              os
          → All (λ (o : String × Grant). o.0 ≢ h) os
      others [] a = _
      others (o ∷ os) ((dc, f, u, s, is), a) = (
        λ e.
            let same : some dc ≡ some r = sym f ∙ (ap (λ k. by_hash k db.devices) e ∙ found) in
            let q : dc ≡ r = ground arith in c.closed dc (subst P (sym q) p) s u,
        others os a,
      )

  -- Such a row brings no tokens in any run.
  pub none_after :
      (ops : List Op) (db : Db) (r : Device)
      → IdsApart db.devices
      → by_hash h db.devices ≡ some r
      → P r
      → grants h (run env ops db).0 ≡ 0
  none_after [] db r apart found p = unfold run grants in refl
  none_after (op ∷ ops) db r apart found p =
      let ref = step-Refines env op db apart in
      let (r', found', move) = ref.moves h r found in
      omega (
        arith,
        grants-run env h op ops db,
        closed_step op db r found p,
        none_after ops (step env op db).1 r' ref.apart found' (c.lasts r r' move p),
      )

abbrev pub IsUsed : Device → Type 0
IsUsed d = is_some d.consumed_at ≡ true

pub IsUsed-IsClosed : (env : Env) → IsClosed env IsUsed
IsUsed-IsClosed env = record { lasts = lasts; closed = λ r p s u. ground (arith, p, u) }
  where
    lasts : (r r' : Device) → Move env r r' → IsUsed r → IsUsed r'
    lasts r _ (stays _) p = p
    lasts r _ (touched _ t) p = p
    lasts r _ (denies _) p = p
    lasts r _ (approves _ u t s w) p = p
    lasts r _ (redeems _ t s u) p = refl

abbrev pub IsDenied : Device → Type 0
IsDenied d = d.status ≡ denied

pub IsDenied-IsClosed : (env : Env) → IsClosed env IsDenied
IsDenied-IsClosed env = record { lasts = lasts; closed = λ r p s u. ground (arith, p, s) }
  where
    lasts : (r r' : Device) → Move env r r' → IsDenied r → IsDenied r'
    lasts r _ (stays _) p = p
    lasts r _ (touched _ t) p = p
    lasts r _ (denies _) p = refl
    lasts r _ (approves _ u t s w) p = absurd (ground (arith, p, s))
    lasts r _ (redeems _ t s u) p = p
