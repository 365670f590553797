-- ===== src/Device/Poll.antt =====
-- What a poll of the token endpoint does to the table, and when it brings tokens (device.go,
-- `DeviceToken`).
use mathlib.Core.List.{Memᴰ}
use qeet_id.Base.{
  ℕ, ◌≡◌, refl, sym, ◌∙◌, ap, subst, inl, inr, String, false, Option, none, some, List, [], ◌∷◌,
  str_eq, Bool-cases, arith, is_some, ltb, str_eq_iff,
}
use qeet_id.Device.Rows.{
  Status, pending, authorized, denied, Device, Env, Db, Clock, Client, by_hash, update, touch,
  consume, find_client, has_hash,
}
use qeet_id.Device.Moves.{touched, redeems, KeepsKey, IdsApart, mem-find}
use qeet_id.Device.Token.{
  Grant, Poll, granted, refused, device_token, poll_row, redeem_for, redeem, by_status, too_soon,
  client_mismatch, already_used, slow_down, expired_token,
}
use qeet_id.Device.Run.{Refines, Refines-same, Refines-update}

update-update :
    (id : ℕ) (f g : Device → Device) (ds : List Device)
    → KeepsKey f
    → update id g (update id f ds) ≡ update id (λ d. g (f d)) ds
unfolding update
update-update id f g [] k = refl
update-update id f g (d ∷ ds) k = ground (arith, k d, update-update id f g ds k)

-- The tables after a poll that only notes its time, and after one that brings tokens.
abbrev pub after_touch : Clock → Device → Db → Db
after_touch clock dc db = record db { devices = update dc.id (touch clock.db) db.devices }

abbrev pub after_redeem : Clock → Device → Db → Db
after_redeem clock dc db = record db {
  devices = update dc.id (consume clock.db) (update dc.id (touch clock.db) db.devices);
}

-- A row that a poll turns into tokens.
pub record Redeemable (env : Env) (clock : Clock) (client_id : String) (dc : Device) : Type 0 where
  pub client : dc.client_id ≡ client_id
  pub unused : dc.consumed_at ≡ none
  pub slow_enough : too_soon clock dc.interval_seconds dc.last_polled_at ≡ false
  pub unexpired : ltb dc.expires_at clock.app ≡ false
  pub approved : dc.status ≡ authorized

-- A grant is for the user, the tenant, the client and the scopes of the row.
pub record IsGrantOf (dc : Device) (g : Grant) : Type 0 where
  pub user : dc.user ≡ some g.user
  pub tenant : g.tenant ≡ dc.tenant
  pub client_id : g.client_id ≡ dc.client_id
  pub scopes : g.scopes ≡ dc.scopes

-- The ways in which a poll of a row can end.
data Ending (env : Env) (clock : Clock) (client_id : String) (db : Db) (dc : Device) (r : Poll × Db)
    : Type 0 where
  rolled_back : (e : _) → r ≡ (refused e, db) → Ending env clock client_id db dc r
  noted : (e : _) → r ≡ (refused e, after_touch clock dc db) → Ending env clock client_id db dc r
  redeemed :
      (g : Grant)
      → r ≡ (granted g, after_redeem clock dc db)
      → Redeemable env clock client_id dc
      → IsGrantOf dc g
      → Ending env clock client_id db dc r

module _ (env : Env) (clock : Clock) (client_id : String) (db : Db) (dc : Device) where
  redeem_for-Ending :
      (user : ℕ) (o : Option Client)
      → dc.user ≡ some user
      → Redeemable env clock client_id dc
      → Ending env clock client_id db dc (redeem_for clock dc user db o)
  redeem_for-Ending user none e r = rolled_back _ refl
  redeem_for-Ending user (some c) e r =
      redeemed _ refl r (record { user = e; tenant = refl; client_id = refl; scopes = refl })

  redeem-Ending :
      (o : Option ℕ)
      → dc.user ≡ o
      → Redeemable env clock client_id dc
      → Ending env clock client_id db dc (redeem env clock dc db o)
  redeem-Ending none e r = rolled_back _ refl
  redeem-Ending (some user) e r = redeem_for-Ending user (find_client dc.client_id env) e r

  by_status-Ending :
      (s : Status)
      → (s ≡ authorized → Redeemable env clock client_id dc)
      → Ending env clock client_id db dc (by_status env clock dc db (after_touch clock dc db) s)
  by_status-Ending pending r = noted _ refl
  by_status-Ending denied r = noted _ refl
  by_status-Ending authorized r = redeem-Ending dc.user refl (r refl)

  poll_row-Ending : Ending env clock client_id db dc (poll_row env clock client_id db (some dc))
  poll_row-Ending = elim (Bool-cases (str_eq dc.client_id client_id)) [
    | inr c ↦ rolled_back client_mismatch (ground (arith, c))
    | inl c ↦ elim (Bool-cases (is_some dc.consumed_at)) [
      | inl u ↦ rolled_back already_used (ground (arith, c, u))
      | inr u ↦ elim (Bool-cases (too_soon clock dc.interval_seconds dc.last_polled_at)) [
        | inl s ↦ noted slow_down (ground (arith, c, u, s))
        | inr s ↦ elim (Bool-cases (ltb dc.expires_at clock.app)) [
          | inl x ↦ noted expired_token (ground (arith, c, u, s, x))
          | inr x ↦
              let reached : by_status env clock dc db (after_touch clock dc db) dc.status
                  ≡ poll_row env clock client_id db (some dc) =
                ground (arith, c, u, s, x) in
              subst (Ending env clock client_id db dc) reached (
                by_status-Ending dc.status λ a. record {
                  client = (str_eq_iff dc.client_id client_id).0 c;
                  unused = ground (arith, u);
                  slow_enough = s;
                  unexpired = x;
                  approved = a;
                })
        ]
      ]
    ]
  ]

module _ (env : Env) (clock : Clock) (client_id : String) (db : Db) where
  Ending-Refines :
      (dc : Device) (r : Poll × Db)
      → Ending env clock client_id db dc r
      → Memᴰ dc db.devices
      → IdsApart db.devices
      → Refines env db.devices r.1.devices
  Ending-Refines dc r (rolled_back e q) m apart = rw q (Refines-same env db.devices apart)
  Ending-Refines dc r (noted e q) m apart = rw q (
      Refines-update env dc (touch clock.db) db.devices (λ d. (refl, refl)) m (touched dc clock.db)
        apart)
  Ending-Refines dc r (redeemed g q can is) m apart =
      rw (q, update-update dc.id (touch clock.db) (consume clock.db) db.devices (λ d. (refl, refl)))
        (Refines-update env dc (λ d. consume clock.db (touch clock.db d)) db.devices
          (λ d. (refl, refl)) m (redeems dc clock.db can.approved can.unused) apart)

  poll_row-Refines :
      (h : String) (o : Option Device)
      → by_hash h db.devices ≡ o
      → IdsApart db.devices
      → Refines env db.devices (poll_row env clock client_id db o).1.devices
  poll_row-Refines h none e apart = Refines-same env db.devices apart
  poll_row-Refines h (some dc) e apart =
      Ending-Refines dc _ (poll_row-Ending env clock client_id db dc)
        (mem-find (has_hash h) db.devices dc e).0 apart

  pub device_token-Refines :
      (raw : String)
      → IdsApart db.devices
      → Refines env db.devices (device_token env clock client_id raw db).1.devices
  unfolding device_token
  device_token-Refines raw apart = elim (Bool-cases (str_eq raw "")) [
    | inl e ↦ rw e (Refines-same env db.devices apart)
    | inr e ↦ rw e (poll_row-Refines (env.hash raw) _ refl apart)
  ]

  IsGrantOf-Ending :
      (dc : Device) (r : Poll × Db) (g : Grant) (db' : Db)
      → Ending env clock client_id db dc r
      → r ≡ (granted g, db')
      → Redeemable env clock client_id dc × IsGrantOf dc g × (db' ≡ after_redeem clock dc db)
  IsGrantOf-Ending dc r g db' (rolled_back e q) h =
      let bad : refused e ≡ granted g = ap (λ (x : Poll × Db). x.0) (sym q ∙ h) in
      absurd (ground arith)
  IsGrantOf-Ending dc r g db' (noted e q) h =
      let bad : refused e ≡ granted g = ap (λ (x : Poll × Db). x.0) (sym q ∙ h) in
      absurd (ground arith)
  IsGrantOf-Ending dc r g db' (redeemed g' q can is) h =
      let polls : granted g' ≡ granted g = ap (λ (x : Poll × Db). x.0) (sym q ∙ h) in
      let same : g' ≡ g = ground arith in
      (can, subst (IsGrantOf dc) same is, ap (λ (x : Poll × Db). x.1) (sym h ∙ q))

-- DeviceToken brings tokens only for a known code of the same client that an approval authorized,
-- that is not expired and not used, and that is not polled within the interval. The tokens are for
-- the user, tenant and scopes of that code, and the code is used afterwards.
pub device_token_granted :
    (env : Env) (clock : Clock) (client_id raw : String) (db db' : Db) (g : Grant)
    → device_token env clock client_id raw db ≡ (granted g, db')
    → (dc : Device) × (by_hash (env.hash raw) db.devices ≡ some dc)
      × Redeemable env clock client_id dc
      × IsGrantOf dc g
      × (db' ≡ after_redeem clock dc db)
unfolding device_token
device_token_granted env clock client_id raw db db' g h = elim (Bool-cases (str_eq raw "")) [
  | inl e ↦ absurd (ground (arith, e, h))
  | inr e ↦ go (by_hash (env.hash raw) db.devices) refl (ground (arith, e, h))
]
  where
    go :
        (o : Option Device)
        → by_hash (env.hash raw) db.devices ≡ o
        → poll_row env clock client_id db o ≡ (granted g, db')
        → (dc : Device) × (by_hash (env.hash raw) db.devices ≡ some dc)
          × Redeemable env clock client_id dc
          × IsGrantOf dc g
          × (db' ≡ after_redeem clock dc db)
    go none e q = absurd (ground arith)
    go (some dc) e q =
        let (can, is, end) =
          IsGrantOf-Ending env clock client_id db dc _ g db'
            (poll_row-Ending env clock client_id db dc) q in
        (dc, e, can, is, end)
