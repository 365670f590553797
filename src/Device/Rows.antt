-- ===== src/Device/Rows.antt =====
-- The table auth.oidc_device_codes and the statements on it (dbgen/queries.sql.go), with the tables
-- of clients, users and consents that they meet. Ids are numbers, times are nanoseconds.
use qeet_id.Base.{
  ℕ, String, Bool, ◌&&◌, ◌||◌, Option, none, some, List, [], ◌∷◌, ◌++◌, str_eq, ◌==◌, if◌then◌else◌,
  any,
}

-- The CHECK constraint on the column allows no other status.
pub data Status : Type 0 where
  pending authorized denied : Status

pub record Device : Type 0 where
  pub id : ℕ
  pub device_code_hash : String
  pub user_code : String
  pub client_id : String
  pub tenant : ℕ
  pub user : Option ℕ
  pub scopes : List String
  pub status : Status
  pub interval_seconds : ℕ
  pub last_polled_at : Option ℕ
  pub expires_at : ℕ
  pub approved_at : Option ℕ
  pub consumed_at : Option ℕ

pub record Client : Type 0 where
  pub client_id : String
  pub tenant : ℕ
  pub name : String
  pub scopes : List String
  pub grant_types : List String

pub record User : Type 0 where
  pub id : ℕ
  pub tenant : ℕ

pub record Consent : Type 0 where
  pub user : ℕ
  pub client_id : String
  pub scopes : List String

-- What the operations only read, with the hash of codes.Hash and strings.ToUpper.
pub record Env : Type 0 where
  pub clients : List Client
  pub users : List User
  pub hash : String → String
  pub to_upper : String → String

pub record Db : Type 0 where
  pub devices : List Device
  pub consents : List Consent

-- `time.Now()` of the service and `NOW()` of the database.
pub record Clock : Type 0 where
  pub app : ℕ
  pub db : ℕ

abbrev pub second : ℕ
second = 1000000000

unfoldable pub find {ℓ} : {A : Type ℓ} → (A → Bool) → List A → Option A
find test [] = none
find test (x ∷ xs) = let rest = find test xs in if test x then some x else rest

abbrev pub has_hash : String → Device → Bool
has_hash h d = str_eq d.device_code_hash h

abbrev pub has_user_code : String → Device → Bool
has_user_code c d = str_eq d.user_code c

-- LockDeviceByCode, and LockDeviceByUserCode and GetDeviceByUserCode
abbrev pub by_hash : String → List Device → Option Device
by_hash h ds = find (has_hash h) ds

abbrev pub by_user_code : String → List Device → Option Device
by_user_code c ds = find (has_user_code c) ds

abbrev pub find_client : String → Env → Option Client
find_client c env = find (λ (x : Client). str_eq x.client_id c) env.clients

-- CheckUserInDeviceTenant
abbrev pub user_in_tenant : ℕ → ℕ → Env → Bool
user_in_tenant u t env = any (λ (x : User). x.id == u && x.tenant == t) env.users

-- UPDATE … WHERE id = $1
abbrev pub at_id : ℕ → (Device → Device) → Device → Device
at_id id f d = if d.id == id then f d else d

unfoldable pub update : ℕ → (Device → Device) → List Device → List Device
update id f [] = []
update id f (d ∷ ds) = at_id id f d ∷ update id f ds

abbrev pub touch : ℕ → Device → Device
touch now d = record d { last_polled_at = some now }

abbrev pub deny : Device → Device
deny d = record d { status = denied }

abbrev pub approve : ℕ → ℕ → Device → Device
approve user now d = record d { status = authorized; user = some user; approved_at = some now }

abbrev pub consume : ℕ → Device → Device
consume now d = record d { consumed_at = some now }

-- The constraints PRIMARY KEY (id), UNIQUE (device_code_hash) and UNIQUE (user_code).
abbrev pub clashes : Device → Device → Bool
clashes d e =
    d.id == e.id || (str_eq d.device_code_hash e.device_code_hash || str_eq d.user_code e.user_code)

-- INSERT; `none` is a unique_violation.
unfoldable pub insert_device : Device → List Device → Option (List Device)
insert_device d ds = if any (clashes d) ds then none else some (ds ++ d ∷ [])

-- INSERT … ON CONFLICT (user_id, client_id) DO UPDATE
unfoldable pub upsert_consent : Consent → List Consent → List Consent
upsert_consent c [] = c ∷ []
upsert_consent c (x ∷ xs) =
    let rest = upsert_consent c xs in
    if x.user == c.user && str_eq x.client_id c.client_id then c ∷ xs else x ∷ rest
