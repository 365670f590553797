-- ===== src/Rbac/Roles.antt =====
-- The tables of roles, permissions and groups, with the operations of rbac.go on them and their
-- statements (dbgen/queries.sql.go). Ids are numbers. A reference to a row that is not there is refused
-- by the foreign keys; tenants are taken to be there. Descriptions, times, who granted, and the marks of
-- built-in roles, which no decision reads, are left out.
use qeet_id.Base.{
  ℕ, String, Bool, not, ◌&&◌, ◌||◌, List, [], ◌∷◌, ◌++◌, str_eq, ◌==◌, if◌then◌else◌, any,
}
use qeet_id.Errs.{Result, ok, err, not_found, conflict, storage}

pub record Permission : Type 0 where
  pub id : ℕ
  pub key : String

pub record Role : Type 0 where
  pub id : ℕ
  pub tenant : ℕ
  pub name : String

pub record RolePermission : Type 0 where
  pub role : ℕ
  pub permission : ℕ

pub record UserRole : Type 0 where
  pub user : ℕ
  pub tenant : ℕ
  pub role : ℕ

pub record Group : Type 0 where
  pub id : ℕ
  pub tenant : ℕ
  pub name : String

pub record GroupMember : Type 0 where
  pub group : ℕ
  pub tenant : ℕ
  pub user : ℕ

pub record GroupRole : Type 0 where
  pub tenant : ℕ
  pub group : ℕ
  pub role : ℕ

pub record Db : Type 0 where
  pub permissions : List Permission
  pub roles : List Role
  pub role_permissions : List RolePermission
  pub user_roles : List UserRole
  pub groups : List Group
  pub group_members : List GroupMember
  pub group_roles : List GroupRole

-- The rows that are left by `DELETE … WHERE test`.
unfoldable pub delete_where {ℓ} : {A : Type ℓ} → (A → Bool) → List A → List A
delete_where test [] = []
delete_where test (x ∷ xs) = let rest = delete_where test xs in if test x then rest else x ∷ rest

-- `ON CONFLICT DO NOTHING`
abbrev pub insert_new {ℓ} : {A : Type ℓ} → (A → A → Bool) → A → List A → List A
insert_new same x xs = if any (same x) xs then xs else xs ++ x ∷ []

abbrev pub has_key : Db → String → RolePermission → Bool
has_key db key rp =
    any (λ (p : Permission). p.id == rp.permission && str_eq p.key key) db.permissions

-- Whether a row of role_permissions gives a permission to a role.
abbrev pub gives : Db → ℕ → String → RolePermission → Bool
gives db role key rp = rp.role == role && has_key db key rp

abbrev pub role_grants : Db → ℕ → String → Bool
role_grants db role key = any (gives db role key) db.role_permissions

abbrev pub is_own : ℕ → ℕ → UserRole → Bool
is_own user tenant ur = ur.user == user && ur.tenant == tenant

abbrev pub is_member : ℕ → ℕ → GroupMember → Bool
is_member user tenant gm = gm.user == user && gm.tenant == tenant

abbrev pub of_member : GroupMember → GroupRole → Bool
of_member gm gr = gr.group == gm.group && gr.tenant == gm.tenant

-- CheckPermission
unfoldable pub check : Db → ℕ → ℕ → String → Bool
check db user tenant key =
    any (λ (ur : UserRole). is_own user tenant ur && role_grants db ur.role key) db.user_roles
    || any
        (λ (gm : GroupMember).
          is_member user tenant gm
          && any (λ (gr : GroupRole). of_member gm gr && role_grants db gr.role key) db.group_roles)
        db.group_members

abbrev pub has_role : ℕ → Role → Bool
has_role role ro = ro.id == role

abbrev pub same_user_role : UserRole → UserRole → Bool
same_user_role a b = is_own a.user a.tenant b && b.role == a.role

-- AssignUserRole
unfoldable pub assign_role : ℕ → ℕ → ℕ → Db → Result (Unit {0}) × Db
assign_role user tenant role db =
    if any (has_role role) db.roles
    then (
      ok tt,
      record db {
        user_roles =
            insert_new same_user_role (record { user = user; tenant = tenant; role = role })
              db.user_roles;
      },
    )
    else (err (storage "23503"), db)

-- UnassignUserRole
unfoldable pub unassign_role : ℕ → ℕ → ℕ → Db → Db
unassign_role user tenant role db = record db {
  user_roles =
      delete_where (same_user_role (record { user = user; tenant = tenant; role = role }))
        db.user_roles;
}

abbrev pub same_role_permission : RolePermission → RolePermission → Bool
same_role_permission a b = b.role == a.role && b.permission == a.permission

-- GrantPermission
unfoldable pub grant_permission : ℕ → ℕ → Db → Result (Unit {0}) × Db
grant_permission role permission db =
    if any (has_role role) db.roles && any (λ (p : Permission). p.id == permission) db.permissions
    then (
      ok tt,
      record db {
        role_permissions =
            insert_new same_role_permission (record { role = role; permission = permission })
              db.role_permissions;
      },
    )
    else (err (storage "23503"), db)

-- RevokePermission
unfoldable pub revoke_permission : ℕ → ℕ → Db → Db
revoke_permission role permission db = record db {
  role_permissions =
      delete_where (same_role_permission (record { role = role; permission = permission }))
        db.role_permissions;
}

-- CreateRole, for an id that is drawn. `lower` is LOWER of the unique index.
unfoldable pub create_role : (String → String) → ℕ → ℕ → String → Db → Result Role × Db
create_role lower id tenant name db =
    let r : Role = record { id = id; tenant = tenant; name = name } in
    if any (has_role id) db.roles
      || any (λ (x : Role). x.tenant == tenant && str_eq (lower x.name) (lower name)) db.roles
    then (err (conflict "role name exists for tenant"), db)
    else (ok r, record db { roles = db.roles ++ r ∷ [] })

-- The primary key (group_id, role_id).
abbrev pub same_group_role : GroupRole → GroupRole → Bool
same_group_role a b = b.group == a.group && b.role == a.role

abbrev pub in_tenant : Db → GroupRole → Bool
in_tenant db gr =
    any (λ (g : Group). g.id == gr.group && g.tenant == gr.tenant) db.groups
    && any (λ (ro : Role). ro.id == gr.role && ro.tenant == gr.tenant) db.roles

-- The statement with its snapshot: a new row, or one that was there.
abbrev pub group_role_valid : Db → GroupRole → Bool
group_role_valid db gr =
    in_tenant db gr && not (any (same_group_role gr) db.group_roles)
    || any (λ (x : GroupRole). same_group_role gr x && x.tenant == gr.tenant) db.group_roles

-- AssignRoleToGroup of the service, with `ErrNotFound` where the statement was not valid.
unfoldable pub assign_role_to_group : ℕ → ℕ → ℕ → Db → Result (Unit {0}) × Db
assign_role_to_group group tenant role db =
    let gr : GroupRole = record { tenant = tenant; group = group; role = role } in
    if group_role_valid db gr
    then (
      ok tt,
      record db {
        group_roles =
            if in_tenant db gr
            then insert_new same_group_role gr db.group_roles
            else db.group_roles;
      },
    )
    else (err not_found, db)

-- RemoveRoleFromGroup
unfoldable pub remove_role_from_group : ℕ → ℕ → ℕ → Db → Db
remove_role_from_group group tenant role db = record db {
  group_roles =
      delete_where (λ (x : GroupRole). (x.group == group && x.tenant == tenant) && x.role == role)
        db.group_roles;
}
