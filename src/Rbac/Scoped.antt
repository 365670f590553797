-- ===== src/Rbac/Scoped.antt =====
-- What every operation of rbac.go keeps of the tables: references to rows that are there, and groups
-- with roles of their own tenant only.
use qeet_id.Base.{ℕ, ◌≡◌, String, true, ◌&&◌, ◌==◌, any, All}
use qeet_id.Rbac.Roles.{
  Permission, RolePermission, GroupRole, Db, has_role, assign_role, in_tenant, assign_role_to_group,
  unassign_role, remove_role_from_group, create_role, grant_permission, revoke_permission,
}
use qeet_id.Rbac.Agree.{IsReferential}

pub data Op : Type 0 where
  creates_role : (id tenant : ℕ) (name : String) → Op
  grants revokes : (role permission : ℕ) → Op
  assigns unassigns : (user tenant role : ℕ) → Op
  assigns_to_group removes_from_group : (group tenant role : ℕ) → Op

unfoldable pub step : (String → String) → Op → Db → Db
step lower (creates_role id tenant name) db = (create_role lower id tenant name db).1
step lower (grants role permission) db = (grant_permission role permission db).1
step lower (revokes role permission) db = revoke_permission role permission db
step lower (assigns user tenant role) db = (assign_role user tenant role db).1
step lower (unassigns user tenant role) db = unassign_role user tenant role db
step lower (assigns_to_group group tenant role) db = (assign_role_to_group group tenant role db).1
step lower (removes_from_group group tenant role) db = remove_role_from_group group tenant role db

-- The role and the permission of a grant are there.
abbrev pub IsGranted : Db → RolePermission → Type 0
IsGranted db rp =
    (any (has_role rp.role) db.roles
      && any (λ (p : Permission). p.id == rp.permission) db.permissions)
    ≡ true

pub record IsSound (db : Db) : Type 0 where
  pub references : IsReferential db
  pub grants : All (IsGranted db) db.role_permissions
  pub scoped : All (λ (gr : GroupRole). in_tenant db gr ≡ true) db.group_roles
