-- ===== src/Rbac/Tests.antt =====
-- A small organisation, and the results on it.
use mathlib.Core.List.{Memᴰ}
use qeet_id.Base.{ℕ, ◌≡◌, refl, ◌↔◌, String, Bool, true, ◌&&◌, ◌||◌, some, List, [], ◌∷◌, ◌==◌, cut}
use qeet_id.Errs.{Result, ok}
use qeet_id.Device.Flow.{contains}
use qeet_id.Rbac.Enforce.{Entry, Principal, enforce, serves, split_path, matches, is_param}
use qeet_id.Rbac.Table.{permission_map}
use qeet_id.Rbac.Gate.{enforce_gated}
use qeet_id.Rbac.Roles.{Db, check, assign_role, role_grants}
use qeet_id.Rbac.Explain.{explain, effective_permissions}
use qeet_id.Rbac.Agree.{IsReferential, answers_agree}
use qeet_id.Rbac.Assign.{check-assign_role}

abbrev no_order : List String → List String
no_order keys = keys

abbrev acme : Db
acme = record {
  permissions = record { id = 1; key = "user.read" } ∷ record { id = 2; key = "user.write" } ∷ [];
  roles =
      record { id = 10; tenant = 7; name = "member" }
      ∷ record { id = 11; tenant = 7; name = "admin" }
      ∷ record { id = 12; tenant = 8; name = "foreign" }
      ∷ [];
  role_permissions =
      record { role = 10; permission = 1 }
      ∷ record { role = 11; permission = 2 }
      ∷ record { role = 12; permission = 2 }
      ∷ [];
  user_roles = record { user = 1; tenant = 7; role = 10 } ∷ [];
  groups = record { id = 20; tenant = 7; name = "staff" } ∷ [];
  group_members = record { group = 20; tenant = 7; user = 2 } ∷ [];
  group_roles = record { tenant = 7; group = 20; role = 11 } ∷ [];
}

acme-IsReferential : IsReferential acme
acme-IsReferential = record { user_roles = (refl, _); group_roles = (refl, _); members = (refl, _) }

answers_agree_example :
    ((explain (λ s. s) acme 2 7 "user.write").allowed ≡ check acme 2 7 "user.write")
    × (contains (effective_permissions no_order acme 2 7) "user.write"
        ≡ check acme 2 7 "user.write")
answers_agree_example =
    answers_agree acme 2 7 "user.write" (λ s. s) no_order (λ s. refl) (λ keys k. refl)
      acme-IsReferential

by_group : check acme 2 7 "user.write" ≡ true
unfolding check
by_group = refl

-- A role of tenant 8 gives its permission in tenant 7.
check-assign_role_example :
    check (assign_role 1 7 12 acme).1 1 7 "user.write"
    ≡ (check acme 1 7 "user.write" || (1 == 1 && 7 == 7 && role_grants acme 12 "user.write"))
check-assign_role_example = check-assign_role acme 1 7 12 1 7 "user.write" refl

foreign_role : check (assign_role 1 7 12 acme).1 1 7 "user.write" ≡ true
unfolding check assign_role
foreign_role = refl

abbrev acme_check : ℕ → ℕ → String → Result Bool
acme_check user tenant key = ok (check acme user tenant key)

abbrev read_user : Entry
read_user = record { key = "GET /v1/tenants/{id}"; perm = "tenant.read" }

enforce_gated_example :
    let p : Principal = record { actor_type = "user"; user = some 1; tenant = some 7 } in
    (enforce acme_check permission_map (some p) "GET" "/v1/tenants/7" ≡ serves)
    ↔ (acme_check 1 7 "tenant.read" ≡ ok true)
unfolding permission_map cut split_path matches is_param
enforce_gated_example =
    enforce_gated permission_map (λ e. ((λ m. m), (λ m. m))) acme_check read_user "GET"
      "/v1/tenants/{id}" "/v1/tenants/7" 1 7 (Memᴰ.head refl) refl refl
