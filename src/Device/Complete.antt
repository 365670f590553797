-- ===== src/Device/Complete.antt =====
-- A device code that is approved in time brings its tokens (device.go).
use qeet_id.Base.{
  ℕ, ◌+◌, ◌≤◌, ◌≡◌, ◌≢◌, refl, sym, ◌∙◌, ap, subst, inl, inr, String, Bool, true, false, Option,
  none, some, List, [], ◌∷◌, ◌++◌, any, Bool-cases, arith, ==_iff, str_eq_iff, str_eq_refl, ltb,
}
use qeet_id.Errs.{Result, ok}
use qeet_id.Device.Rows.{
  pending, authorized, Device, Client, Env, Db, Clock, by_hash, by_user_code, has_user_code,
  clashes, insert_device, find, has_hash, at_id, update, approve, user_in_tenant, find_client,
}
use qeet_id.Device.Moves.{map_some, by_hash-update}
use qeet_id.Device.Flow.{
  Draws, device_authorize, decide_device, or_default, insert_attempts, inserted, authorize_scopes,
  authorize_client, drawn_codes, new_device, normalize_user_code, device_code_ttl, contains,
}
use qeet_id.Device.Token.{Grant, granted, device_token}

find-last :
    (test : Device → Bool) (ds : List Device) (d : Device)
    → any test ds ≡ false
    → test d ≡ true
    → find test (ds ++ d ∷ []) ≡ some d
unfolding find
find-last test [] d n t = ground (arith, t)
find-last test (c ∷ ds) d n t = ground (arith, n, find-last test ds d (ground (arith, n)) t)

no_hash :
    (d : Device) (ds : List Device)
    → any (clashes d) ds ≡ false
    → any (has_hash d.device_code_hash) ds ≡ false
no_hash d [] h = refl
no_hash d (c ∷ ds) h = ground (
  arith,
  h,
  no_hash d ds (ground (arith, h)),
  str_eq_iff d.device_code_hash c.device_code_hash,
  str_eq_iff c.device_code_hash d.device_code_hash,
)

no_user_code :
    (d : Device) (ds : List Device)
    → any (clashes d) ds ≡ false
    → any (has_user_code d.user_code) ds ≡ false
no_user_code d [] h = refl
no_user_code d (c ∷ ds) h = ground (
  arith,
  h,
  no_user_code d ds (ground (arith, h)),
  str_eq_iff d.user_code c.user_code,
  str_eq_iff c.user_code d.user_code,
)

-- A row that was just inserted is found by its hash and by its user code.
pub record IsStored (d : Device) (code : String) (es : List Device) : Type 0 where
  pub hashed : by_hash d.device_code_hash es ≡ some (record d { user_code = code })
  pub coded : by_user_code code es ≡ some (record d { user_code = code })

insert_attempts-IsStored :
    (d : Device) (codes : List String) (ds es : List Device) (code : String)
    → insert_attempts d codes ds ≡ some (code, es)
    → IsStored d code es
unfolding insert_attempts insert_device
insert_attempts-IsStored d [] ds es code h = absurd (ground arith)
insert_attempts-IsStored d (c ∷ codes) ds es code h =
    let row : Device = record d { user_code = c } in
    elim (Bool-cases (any (clashes row) ds)) [
      | inl e ↦ insert_attempts-IsStored d codes ds es code (ground (arith, h, e))
      | inr e ↦
          let same : c ≡ code = ground (arith, h, e) in
          let end : ds ++ row ∷ [] ≡ es = ground (arith, h, e) in
          rw (← same, ← end)
            (record {
              hashed = find-last _ ds row (no_hash row ds e) (str_eq_refl d.device_code_hash);
              coded = find-last _ ds row (no_user_code row ds e) (str_eq_refl c);
            })
    ]

-- What a successful DeviceAuthorize leaves behind.
pub record IsAuthorized (env : Env) (t : Clock) (draws : Draws) (client_id : String)
    (scopes : List String) (out : String × String) (db : Db) : Type 0 where
  pub client : Client
  pub known : find_client client_id env ≡ some client
  pub raw : out.0 ≡ draws.raw
  pub stored :
      IsStored
        (new_device env t draws client client_id (or_default scopes client.scopes))
        out.1
        db.devices

ok_same : (a b : String × String) → Result.ok a ≡ ok b → a ≡ b
ok_same a b h = ground arith

module _ (env : Env) (t : Clock) (draws : Draws) (client_id : String) (scopes : List String)
    (db db' : Db) (out : String × String) where
  inserted-IsAuthorized :
      (c : Client) (o : Option (String × List Device))
      → find_client client_id env ≡ some c
      → insert_attempts
          (new_device env t draws c client_id (or_default scopes c.scopes))
          (drawn_codes draws)
          db.devices
        ≡ o
      → inserted draws db o ≡ (ok out, db')
      → IsAuthorized env t draws client_id scopes out db'
  inserted-IsAuthorized c none known e h = absurd (ground arith)
  inserted-IsAuthorized c (some (code, es)) known e h =
      let same =
        ok_same (draws.raw, code) out (ap (λ (x : Result (String × String) × Db). x.0) h) in
      let end = ap (λ (x : Result (String × String) × Db). x.1) h in
      record {
        client = c;
        known = known;
        raw = sym (ap (λ (x : String × String). x.0) same);
        stored =
            let row = new_device env t draws c client_id (or_default scopes c.scopes) in
            let at_end = insert_attempts-IsStored row (drawn_codes draws) db.devices es code e in
            subst (λ (x : Db). IsStored row out.1 x.devices) end
              (subst (λ (x : String × String). IsStored row x.1 es) same at_end);
      }

  device_authorize-IsAuthorized :
      device_authorize env t draws client_id scopes db ≡ (ok out, db')
      → IsAuthorized env t draws client_id scopes out db'
  unfolding device_authorize
  device_authorize-IsAuthorized = by_client (find_client client_id env) refl
    where
      by_scopes :
          (c : Client) (o : Option String)
          → find_client client_id env ≡ some c
          → authorize_scopes env t draws c client_id (or_default scopes c.scopes) db o
            ≡ (ok out, db')
          → IsAuthorized env t draws client_id scopes out db'
      by_scopes c (some s) known h = absurd (ground arith)
      by_scopes c none known h = inserted-IsAuthorized c _ known refl h

      by_client :
          (o : Option Client)
          → find_client client_id env ≡ o
          → authorize_client env t draws client_id scopes db o ≡ (ok out, db')
          → IsAuthorized env t draws client_id scopes out db'
      by_client none e h = absurd (ground arith)
      by_client (some c) e h = by_scopes c _ e h

decide_device_lem :
    (env : Env) (t : Clock) (user : ℕ) (typed : String) (db : Db) (row : Device)
    → by_user_code (normalize_user_code env typed) db.devices ≡ some row
    → row.status ≡ pending
    → ltb row.expires_at t.app ≡ false
    → user_in_tenant user row.tenant env ≡ true
    → (decide_device env t user typed true db).1.devices
      ≡ update row.id (approve user t.db) db.devices
unfolding decide_device
decide_device_lem env t user typed db row found p x u = rw found (ground (arith, p, x, u))

device_token_lem :
    (env : Env) (t : Clock) (client_id raw : String) (db : Db) (dc : Device) (c : Client) (user : ℕ)
    → by_hash (env.hash raw) db.devices ≡ some dc
    → raw ≢ ""
    → dc.client_id ≡ client_id
    → find_client dc.client_id env ≡ some c
    → dc.consumed_at ≡ none
    → dc.last_polled_at ≡ none
    → ltb dc.expires_at t.app ≡ false
    → dc.status ≡ authorized
    → dc.user ≡ some user
    → (g : Grant) × ((device_token env t client_id raw db).0 ≡ granted g)
      × (g.user ≡ user)
      × (g.tenant ≡ dc.tenant)
      × (g.scopes ≡ dc.scopes)
unfolding device_token
device_token_lem env t client_id raw db dc c user found r client known u l x s b = (
  record {
    user = user;
    tenant = dc.tenant;
    client_id = dc.client_id;
    scopes = dc.scopes;
    with_id_token = contains dc.scopes "openid";
    with_refresh_token = contains c.grant_types "refresh_token";
  },
  ground (arith, found, client, known, u, l, x, s, b, str_eq_iff raw "", str_eq_refl client_id),
  refl,
  refl,
  refl,
)

some_same : (a b : Client) → some a ≡ some b → a ≡ b
some_same a b h = ground arith

in_time : (now end : ℕ) → now ≤ end → ltb end now ≡ false
in_time now end h = ground (arith, h)

at_own : (d : Device) (f : Device → Device) → at_id d.id f d ≡ f d
at_own d f = ground (arith, (==_iff d.id d.id).1 refl)

-- When DeviceAuthorize answered with a device code and a user code, a user of the client's tenant
-- approves by any text that normalises to the user code, and the client then polls for the first
-- time, both within the ten minutes, the poll brings tokens for that user, the client's tenant and the
-- scopes asked for, or all the client's when none were asked for.
pub device_flow_completes :
    (env : Env) (t t' t'' : Clock) (draws : Draws) (client_id : String) (scopes : List String)
    (db db' : Db) (raw code typed : String) (c : Client) (user : ℕ)
    → device_authorize env t draws client_id scopes db ≡ (ok (raw, code), db')
    → find_client client_id env ≡ some c
    → raw ≢ ""
    → normalize_user_code env typed ≡ code
    → user_in_tenant user c.tenant env ≡ true
    → t'.app ≤ t.db + device_code_ttl
    → t''.app ≤ t.db + device_code_ttl
    → let approved = (decide_device env t' user typed true db').1 in
      (g : Grant) × ((device_token env t'' client_id raw approved).0 ≡ granted g)
      × (g.user ≡ user)
      × (g.tenant ≡ c.tenant)
      × (g.scopes ≡ or_default scopes c.scopes)
device_flow_completes env t t' t'' draws client_id scopes db db' raw code typed c user auth known
      named typed_ok member soon soon' =
    let made = device_authorize-IsAuthorized env t draws client_id scopes db db' (raw, code) auth in
    let client : made.client ≡ c = some_same made.client c (sym made.known ∙ known) in
    let stored =
      subst
        (λ (x : Client).
          IsStored (new_device env t draws x client_id (or_default scopes x.scopes)) code
            db'.devices)
        client made.stored in
    let base = new_device env t draws c client_id (or_default scopes c.scopes) in
    let row : Device = record base { user_code = code } in
    let decided =
      decide_device_lem env t' user typed db' row
        (ap (λ x. by_user_code x db'.devices) typed_ok ∙ stored.coded) refl
        (in_time t'.app (t.db + device_code_ttl) soon) member in
    let found : by_hash (env.hash raw) (decide_device env t' user typed true db').1.devices
        ≡ some (at_id row.id (approve user t'.db) row) =
      ap (by_hash (env.hash raw)) decided
      ∙ (by_hash-update (env.hash raw) row.id (approve user t'.db) db'.devices (λ d. (refl, refl))
          ∙ ap (map_some (at_id row.id (approve user t'.db)))
              (ap (λ x. by_hash (env.hash x) db'.devices) made.raw ∙ stored.hashed)) in
    device_token_lem env t'' client_id raw (decide_device env t' user typed true db').1
      (approve user t'.db row) c user (found ∙ ap some (at_own row (approve user t'.db))) named refl
      known refl refl (in_time t''.app (t.db + device_code_ttl) soon') refl refl
