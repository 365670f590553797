-- ===== src/Rbac/Explain.antt =====
-- Explain and EffectivePermissions (rbac.go) with their statements.
use Prim.Native.String
use qeet_id.Base.{ℕ, String, Bool, true, false, ◌&&◌, List, [], ◌∷◌, ◌++◌, ◌==◌, if◌then◌else◌, map}
use qeet_id.Rbac.Roles.{
  Permission, Role, RolePermission, UserRole, Group, GroupMember, GroupRole, Db, gives, is_own,
  is_member, of_member, has_role,
}

-- How a role reaches the user: directly, or by a group of a name and an id.
pub data Via : Type 0 where
  direct : Via
  group : (name : String) (id : ℕ) → Via

pub record GrantStep : Type 0 where
  pub permission : String
  pub granted_by : String
  pub via : Via
  pub role_id : ℕ

-- The join of a table with what each row gives.
unfoldable pub concat_map {ℓ κ} : {A : Type ℓ} {B : Type κ} → (A → List B) → List A → List B
concat_map f [] = []
concat_map f (x ∷ xs) = f x ++ concat_map f xs

-- The rows `WHERE test`.
unfoldable pub select {ℓ} : {A : Type ℓ} → (A → Bool) → List A → List A
select test [] = []
select test (x ∷ xs) = let rest = select test xs in if test x then x ∷ rest else rest

-- One row for each row of roles and of role_permissions that the join meets.
abbrev pub role_steps : Db → String → Via → ℕ → List GrantStep
role_steps db key via role =
    concat_map
      (λ (ro : Role).
        map
          (λ (rp : RolePermission). record {
            permission = key;
            granted_by = String.◌++◌ "role:" ro.name;
            via = via;
            role_id = ro.id;
          })
          (select (gives db role key) db.role_permissions))
      (select (has_role role) db.roles)

abbrev pub direct_steps : Db → ℕ → ℕ → String → List GrantStep
direct_steps db user tenant key =
    concat_map (λ (ur : UserRole). role_steps db key direct ur.role)
      (select (is_own user tenant) db.user_roles)

abbrev pub is_group_of : GroupMember → Group → Bool
is_group_of gm g = g.id == gm.group && g.tenant == gm.tenant

abbrev pub group_steps : Db → ℕ → ℕ → String → List GrantStep
group_steps db user tenant key =
    concat_map
      (λ (gm : GroupMember).
        concat_map
          (λ (g : Group).
            concat_map (λ (gr : GroupRole). role_steps db key (group g.name g.id) gr.role)
              (select (of_member gm) db.group_roles))
          (select (is_group_of gm) db.groups))
      (select (is_member user tenant) db.group_members)

abbrev pub non_empty_list {ℓ} : {A : Type ℓ} → List A → Bool
non_empty_list [] = false
non_empty_list (x ∷ xs) = true

pub record Explanation : Type 0 where
  pub allowed : Bool
  pub paths : List GrantStep
  pub reason : String

-- `by_name` is the order of the database among the groups' steps.
unfoldable pub explain : (List GrantStep → List GrantStep) → Db → ℕ → ℕ → String → Explanation
explain by_name db user tenant key =
    let paths = direct_steps db user tenant key ++ by_name (group_steps db user tenant key) in
    record {
      allowed = non_empty_list paths;
      paths = paths;
      reason =
          if non_empty_list paths
          then ""
          else "no role grants this permission for this user in this tenant";
    }

-- The keys of the permissions of a role.
abbrev pub role_keys : Db → ℕ → List String
role_keys db role =
    concat_map
      (λ (rp : RolePermission).
        map (λ (p : Permission). p.key)
          (select (λ (p : Permission). p.id == rp.permission) db.permissions))
      (select (λ (rp : RolePermission). rp.role == role) db.role_permissions)

-- ListEffectivePermissions; `distinct` is UNION with ORDER BY.
unfoldable pub effective_permissions : (List String → List String) → Db → ℕ → ℕ → List String
effective_permissions distinct db user tenant = distinct (
    concat_map (λ (ur : UserRole). role_keys db ur.role) (select (is_own user tenant) db.user_roles)
    ++ concat_map
        (λ (gm : GroupMember).
          concat_map (λ (gr : GroupRole). role_keys db gr.role)
            (select (of_member gm) db.group_roles))
        (select (is_member user tenant) db.group_members))
