-- ===== src/Device/Tests.antt =====
-- A television that is authorized, approved and polled, and the results at that run.
use mathlib.Core.List.{Memᴰ}
use mathlib.Core.List.Memᴰ
use qeet_id.Base.{
  ℕ, ◌*◌, ◌≤◌, ◌≡◌, ◌≢◌, refl, sym, String, true, none, some, List, [], ◌∷◌, arith, str_eq_iff, All,
  mem_cases, inl, inr, trim_space, ◌∙◌,
}
use qeet_id.Errs.{ok}
use qeet_id.Device.Rows.{
  pending, authorized, denied, Device, Client, Env, Db, Clock, second, by_hash, find, update,
  insert_device, find_client, upsert_consent,
}
use qeet_id.Device.Moves.{IdsApart}
use qeet_id.Device.Flow.{
  Draws, device_authorize, decide_device, insert_attempts, generate_user_code, char_at,
  not_permitted, contains, or_default, normalize_user_code,
}
use qeet_id.Device.Token.{Grant, granted, device_token, revoke_device}
use qeet_id.Device.Run.{Op, authorizes, decides, polls, step, run, Refines}
use qeet_id.Device.Refine.{step-Refines}
use qeet_id.Device.Poll.{after_redeem}
use qeet_id.Device.Once.{grants}
use qeet_id.Device.Promise.{grants_at_most_once}
use qeet_id.Device.Scoped.{run-IsLegitimate, IsLegitimate}
use qeet_id.Device.Complete.{device_flow_completes}

abbrev tv : Client
tv = record {
  client_id = "tv";
  tenant = 7;
  name = "Television";
  scopes = "openid" ∷ "profile" ∷ [];
  grant_types = "refresh_token" ∷ [];
}

abbrev home : Env
home = record {
  clients = tv ∷ [];
  users = record { id = 1; tenant = 7 } ∷ record { id = 2; tenant = 8 } ∷ [];
  hash = λ s. s;
  to_upper = λ s. s;
}

abbrev empty : Db
empty = record { devices = []; consents = [] }

abbrev at : ℕ → Clock
at s = record { app = s * second; db = s * second }

abbrev draws : Draws
draws = record { id = 5; raw = "secret"; letters = λ a i. i }

abbrev waiting : Device
waiting = record {
  id = 5;
  device_code_hash = "secret";
  user_code = "BCDF-GHJK";
  client_id = "tv";
  tenant = 7;
  user = none;
  scopes = "openid" ∷ [];
  status = pending;
  interval_seconds = 5;
  last_polled_at = none;
  expires_at = 1600000000000;
  approved_at = none;
  consumed_at = none;
}

abbrev one_row : Device → Db
one_row d = record { devices = d ∷ []; consents = [] }

authorized_tv :
    device_authorize home (at 1000) draws "tv" ("openid" ∷ []) empty
    ≡ (ok ("secret", "BCDF-GHJK"), one_row waiting)
unfolding device_authorize insert_attempts insert_device generate_user_code char_at not_permitted
    contains find
authorized_tv = refl

one_row-IdsApart : (d : Device) → IdsApart (one_row d).devices
one_row-IdsApart d a b ma mb e = only a ma ∙ sym (only b mb)
  where
    only : (x : Device) → Memᴰ x (d ∷ []) → x ≡ d
    only x m = elim (mem_cases m) [ inl q ↦ q | inr n ↦ absurd (Memᴰ.not-nil n) ]

named : ◌≢◌ {A = String} "secret" ""
named = ground (arith, str_eq_iff "secret" "")

found_tv : find_client "tv" home ≡ some tv
unfolding find
found_tv = refl

typed_tv : normalize_user_code home " BCDF-GHJK" ≡ "BCDF-GHJK"
unfolding trim_space
typed_tv = refl

device_flow_completes_example :
    let approved = (decide_device home (at 1010) 1 " BCDF-GHJK" true (one_row waiting)).1 in
    (g : Grant) × ((device_token home (at 1020) "tv" "secret" approved).0 ≡ granted g)
    × (g.user ≡ 1)
    × (g.tenant ≡ tv.tenant)
    × (g.scopes ≡ or_default ("openid" ∷ []) tv.scopes)
device_flow_completes_example =
    device_flow_completes home (at 1000) (at 1010) (at 1020) draws "tv" ("openid" ∷ []) empty
      (one_row waiting) "secret" "BCDF-GHJK" " BCDF-GHJK" tv 1 authorized_tv found_tv named typed_tv
      refl (omega arith) (omega arith)

abbrev approved_row : Device
approved_row = record waiting {
  status = authorized;
  user = some 1;
  approved_at = some 1010000000000;
}

abbrev tv_grant : Grant
tv_grant = record {
  user = 1;
  tenant = 7;
  client_id = "tv";
  scopes = "openid" ∷ [];
  with_id_token = true;
  with_refresh_token = true;
}

granted_tv :
    device_token home (at 1020) "tv" "secret" (one_row approved_row)
    ≡ (granted tv_grant, after_redeem (at 1020) approved_row (one_row approved_row))
unfolding device_token find contains
granted_tv = refl

-- Two polls at once after the approval, and a third one later.
abbrev evening : List Op
evening =
    authorizes (at 1000) draws "tv" []
    ∷ polls (at 1005) "tv" "secret"
    ∷ decides (at 1010) 1 "BCDF-GHJK" true
    ∷ polls (at 1020) "tv" "secret"
    ∷ polls (at 1021) "tv" "secret"
    ∷ polls (at 1030) "tv" "secret"
    ∷ []

evening_once : grants "secret" (run home evening empty).0 ≡ 1
unfolding grants run step device_authorize insert_attempts insert_device generate_user_code char_at
    not_permitted contains find device_token decide_device update trim_space upsert_consent
evening_once = refl

empty-IdsApart : IdsApart empty.devices
empty-IdsApart d e m n s = absurd (Memᴰ.not-nil m)

grants_at_most_once_example : grants "secret" (run home evening empty).0 ≤ 1
grants_at_most_once_example = grants_at_most_once home "secret" evening empty empty-IdsApart

run-IsLegitimate_example :
    All
      (λ (o : String × Grant). IsLegitimate home o.1)
      (run home evening (record { devices = []; consents = [] })).0
run-IsLegitimate_example = run-IsLegitimate home evening

step-Refines_example :
    Refines home
      (one_row approved_row).devices
      (step home (polls (at 1020) "tv" "secret") (one_row approved_row)).1.devices
step-Refines_example =
    step-Refines home (polls (at 1020) "tv" "secret") (one_row approved_row)
      (one_row-IdsApart approved_row)

revoked_tv :
    revoke_device 7 5 (one_row approved_row)
    ≡ (ok ("tv", "BCDF-GHJK"), one_row (record approved_row { status = denied }))
unfolding revoke_device find update
revoked_tv = refl

held_tv : by_hash approved_row.device_code_hash (one_row approved_row).devices ≡ some approved_row
unfolding find
held_tv = refl
