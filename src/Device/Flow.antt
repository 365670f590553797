-- ===== src/Device/Flow.antt =====
-- The operations of the device authorization grant (device.go). A transaction that ends without a
-- commit leaves the tables as they were. What is signed into tokens is kept as a `Grant`; signing,
-- which follows the commit, is left out, and the statements are taken to succeed.
use Prim.Native.String
use qeet_id.Base.{
  ℕ, zero, suc, ◌+◌, ◌*◌, String, Bool, true, false, ◌||◌, Option, none, some, List, [], ◌∷◌,
  str_eq, if◌then◌else◌, ltb, map, trim_space,
}
use qeet_id.Errs.{Result, ok, err, not_found, bad_request, forbidden, conflict, storage}
use qeet_id.Device.Rows.{
  Status, pending, Device, Client, Env, Db, Clock, second, by_user_code, find_client,
  user_in_tenant, update, deny, approve, insert_device, upsert_consent,
}

-- 10 minutes, and 5 seconds between polls.
abbrev pub device_code_ttl : ℕ
device_code_ttl = 600 * second

abbrev pub device_poll_interval : ℕ
device_poll_interval = 5

abbrev pub user_code_alphabet : String
user_code_alphabet = "BCDFGHJKLMNPQRSTVWXZ"

-- `userCodeAlphabet[n]`; rand.Int draws n below its length.
unfoldable pub char_at : String → ℕ → String
char_at String.[] n = ""
char_at (String.◌∷◌ c s) zero = String.◌∷◌ c String.[]
char_at (String.◌∷◌ c s) (suc n) = char_at s n

abbrev pub group_of : (ℕ → ℕ) → ℕ → String
group_of draw i =
    let l = λ (k : ℕ). char_at user_code_alphabet (draw (i + k)) in
    String.◌++◌ (l 0) (String.◌++◌ (l 1) (String.◌++◌ (l 2) (l 3)))

-- Two groups of four letters, for eight draws.
unfoldable pub generate_user_code : (ℕ → ℕ) → String
unfolding char_at
generate_user_code draw = String.◌++◌ (group_of draw 0) (String.◌++◌ "-" (group_of draw 4))

abbrev pub normalize_user_code : Env → String → String
normalize_user_code env s = env.to_upper (trim_space s)

unfoldable pub contains : List String → String → Bool
contains [] s = false
contains (h ∷ hs) s = str_eq h s || contains hs s

-- The first scope that the client may not ask for.
unfoldable pub not_permitted : List String → List String → Option String
not_permitted allowed [] = none
not_permitted allowed (s ∷ ss) =
    let rest = not_permitted allowed ss in if contains allowed s then rest else some s

abbrev pub or_default : List String → List String → List String
or_default [] ss = ss
or_default (s ∷ ss) _ = s ∷ ss

-- The loop over at most five user codes; only a collision goes on to the next.
unfoldable pub insert_attempts : Device → List String → List Device → Option (String × List Device)
insert_attempts d [] ds = none
insert_attempts d (code ∷ codes) ds = elim (insert_device (record d { user_code = code }) ds) [
  | some ds' ↦ some (code, ds')
  | none ↦ insert_attempts d codes ds
]

-- What one call draws: the row's id, the device code and the letters of five user codes.
pub record Draws : Type 0 where
  pub id : ℕ
  pub raw : String
  pub letters : ℕ → ℕ → ℕ

abbrev pub drawn_codes : Draws → List String
drawn_codes d =
    map (λ (attempt : ℕ). generate_user_code (d.letters attempt)) (0 ∷ 1 ∷ 2 ∷ 3 ∷ 4 ∷ [])

abbrev pub new_device : Env → Clock → Draws → Client → String → List String → Device
new_device env clock draws info client_id scopes = record {
  id = draws.id;
  device_code_hash = env.hash draws.raw;
  user_code = "";
  client_id = client_id;
  tenant = info.tenant;
  user = none;
  scopes = scopes;
  status = pending;
  interval_seconds = device_poll_interval;
  last_polled_at = none;
  expires_at = clock.db + device_code_ttl;
  approved_at = none;
  consumed_at = none;
}

-- The raw device code and the user code.
abbrev pub inserted : Draws → Db → Option (String × List Device) → Result (String × String) × Db
inserted draws db none = (err (storage "23505"), db)
inserted draws db (some (code, ds)) = (ok (draws.raw, code), record db { devices = ds })

abbrev pub authorize_scopes :
    Env
    → Clock
    → Draws
    → Client
    → String
    → List String
    → Db
    → Option String
    → Result (String × String) × Db
authorize_scopes env clock draws info client_id scopes db (some s) =
    (err (bad_request "scope not permitted"), db)
authorize_scopes env clock draws info client_id scopes db none = inserted draws db (
    insert_attempts (new_device env clock draws info client_id scopes) (drawn_codes draws)
      db.devices)

abbrev pub authorize_client :
    Env → Clock → Draws → String → List String → Db → Option Client → Result (String × String) × Db
authorize_client env clock draws client_id scopes db none = (err (bad_request "unknown client"), db)
authorize_client env clock draws client_id scopes db (some info) =
    let asked = or_default scopes info.scopes in
    authorize_scopes env clock draws info client_id asked db (not_permitted info.scopes asked)

unfoldable pub device_authorize :
    Env → Clock → Draws → String → List String → Db → Result (String × String) × Db
device_authorize env clock draws client_id scopes db =
    authorize_client env clock draws client_id scopes db (find_client client_id env)

-- `row.Status != "pending"`
abbrev pub is_pending : Status → Bool
is_pending pending = true
is_pending _ = false

pub record DeviceVerificationContext : Type 0 where
  pub client_name : String
  pub scopes : List String

abbrev pub with_name : List String → Option Client → Result DeviceVerificationContext
with_name scopes none = err not_found
with_name scopes (some c) = ok (record { client_name = c.name; scopes = scopes })

abbrev pub open_row : Clock → Option Device → Result Device
open_row clock none = err not_found
open_row clock (some row) =
    if ltb row.expires_at clock.app
    then err (bad_request "user_code expired")
    else if is_pending row.status
    then ok row
    else err (conflict "device authorization already decided")

abbrev pub describe : Env → Result Device → Result DeviceVerificationContext
describe env (err e) = err e
describe env (ok row) = with_name row.scopes (find_client row.client_id env)

unfoldable pub lookup_device_by_user_code :
    Env → Clock → String → Db → Result DeviceVerificationContext
lookup_device_by_user_code env clock user_code db =
    describe env (open_row clock (by_user_code (normalize_user_code env user_code) db.devices))

-- The decision on a row that is pending and not expired.
abbrev pub decide_row : Env → Clock → ℕ → Bool → Db → Result Device → Result (Unit {0}) × Db
decide_row env clock user approved db (err e) = (err e, db)
decide_row env clock user false db (ok row) =
    (ok tt, record db { devices = update row.id deny db.devices })
decide_row env clock user true db (ok row) =
    if user_in_tenant user row.tenant env
    then (
      ok tt,
      record {
        devices = update row.id (approve user clock.db) db.devices;
        consents =
            upsert_consent (record { user = user; client_id = row.client_id; scopes = row.scopes })
              db.consents;
      },
    )
    else (err (forbidden "user does not belong to the client's tenant"), db)

unfoldable pub decide_device : Env → Clock → ℕ → String → Bool → Db → Result (Unit {0}) × Db
decide_device env clock user user_code approved db =
    decide_row env clock user approved db
      (open_row clock (by_user_code (normalize_user_code env user_code) db.devices))
