-- ===== src/Rbac/Agree.antt =====
-- Check, Explain and EffectivePermissions (rbac.go) answer alike.
use qeet_id.Base.{
  ℕ, ◌≡◌, refl, ◌∙◌, ap, String, Bool, true, ◌&&◌, ◌||◌, List, [], ◌∷◌, ◌++◌, str_eq, any, map, All,
  arith, length,
}
use qeet_id.Device.Flow.{contains}
use qeet_id.Rbac.Roles.{
  UserRole, Group, GroupMember, GroupRole, Db, role_grants, is_own, is_member, of_member, has_role,
  check,
}
use qeet_id.Rbac.Explain.{
  Via, direct, group, GrantStep, concat_map, select, role_steps, direct_steps, group_steps,
  is_group_of, non_empty_list, explain, effective_permissions,
}

module _ {A : Type 0} where
  non_empty-append :
      (xs ys : List A) → non_empty_list (xs ++ ys) ≡ (non_empty_list xs || non_empty_list ys)
  non_empty-append [] ys = refl
  non_empty-append (x ∷ xs) ys = refl

  non_empty-length :
      (xs ys : List A) → length xs ≡ length ys → non_empty_list xs ≡ non_empty_list ys
  non_empty-length [] [] e = refl
  non_empty-length [] (y ∷ ys) e = absurd (omega (arith, e))
  non_empty-length (x ∷ xs) [] e = absurd (omega (arith, e))
  non_empty-length (x ∷ xs) (y ∷ ys) e = refl

  non_empty-select : (test : A → Bool) (xs : List A) → non_empty_list (select test xs) ≡ any test xs
  unfolding select
  non_empty-select test [] = refl
  non_empty-select test (x ∷ xs) = ground (arith, non_empty-select test xs)

  any-select :
      (p test : A → Bool) (xs : List A) → any p (select test xs) ≡ any (λ x. test x && p x) xs
  unfolding select
  any-select p test [] = refl
  any-select p test (x ∷ xs) = ground (arith, any-select p test xs)

  any-and :
      (test : A → Bool) (b : Bool) (xs : List A) → any (λ x. test x && b) xs ≡ (any test xs && b)
  any-and test b [] = ground arith
  any-and test b (x ∷ xs) = ground (arith, any-and test b xs)

  any-agree :
      (q f g : A → Bool) (xs : List A)
      → All (λ x. q x ≡ true) xs
      → ((x : A) → q x ≡ true → f x ≡ g x)
      → any f xs ≡ any g xs
  any-agree q f g [] h same = refl
  any-agree q f g (x ∷ xs) (e, h) same = ground (arith, same x e, any-agree q f g xs h same)

  any-same : (f g : A → Bool) (xs : List A) → ((x : A) → f x ≡ g x) → any f xs ≡ any g xs
  any-same f g [] same = refl
  any-same f g (x ∷ xs) same = ground (arith, same x, any-same f g xs same)

module _ {A B : Type 0} where
  non_empty-map : (f : A → B) (xs : List A) → non_empty_list (map f xs) ≡ non_empty_list xs
  non_empty-map f [] = refl
  non_empty-map f (x ∷ xs) = refl

  non_empty-concat_map :
      (f : A → List B) (xs : List A)
      → non_empty_list (concat_map f xs) ≡ any (λ x. non_empty_list (f x)) xs
  unfolding concat_map
  non_empty-concat_map f [] = refl
  non_empty-concat_map f (x ∷ xs) =
      non_empty-append (f x) (concat_map f xs)
      ∙ ap (λ b. non_empty_list (f x) || b) (non_empty-concat_map f xs)

contains-append :
    (xs ys : List String) (k : String) → contains (xs ++ ys) k ≡ (contains xs k || contains ys k)
unfolding contains
contains-append [] ys k = refl
contains-append (x ∷ xs) ys k = ground (arith, contains-append xs ys k)

contains-concat_map :
    {A : Type 0} (f : A → List String) (xs : List A) (k : String)
    → contains (concat_map f xs) k ≡ any (λ x. contains (f x) k) xs
unfolding concat_map contains
contains-concat_map f [] k = refl
contains-concat_map f (x ∷ xs) k =
    contains-append (f x) (concat_map f xs) k
    ∙ ap (λ b. contains (f x) k || b) (contains-concat_map f xs k)

contains-map :
    {A : Type 0} (f : A → String) (xs : List A) (k : String)
    → contains (map f xs) k ≡ any (λ x. str_eq (f x) k) xs
unfolding contains
contains-map f [] k = refl
contains-map f (x ∷ xs) k = ground (arith, contains-map f xs k)

-- What the foreign keys and the inserts of the tables keep: the roles that are given are there, and the
-- groups of the members are there, in their tenant.
pub record IsReferential (db : Db) : Type 0 where
  pub user_roles : All (λ (ur : UserRole). any (has_role ur.role) db.roles ≡ true) db.user_roles
  pub group_roles : All (λ (gr : GroupRole). any (has_role gr.role) db.roles ≡ true) db.group_roles
  pub members : All (λ (gm : GroupMember). any (is_group_of gm) db.groups ≡ true) db.group_members

module _ (db : Db) (user tenant : ℕ) (key : String) where
  role_steps-grants :
      (via : Via) (role : ℕ)
      → any (has_role role) db.roles ≡ true
      → non_empty_list (role_steps db key via role) ≡ role_grants db role key
  role_steps-grants via role there =
      simp (non_empty-concat_map, any-select, non_empty-map, non_empty-select, any-and, there)

  direct-grants :
      IsReferential db
      → non_empty_list (direct_steps db user tenant key)
        ≡ any (λ (ur : UserRole). is_own user tenant ur && role_grants db ur.role key) db.user_roles
  direct-grants ref =
      non_empty-concat_map (λ (ur : UserRole). role_steps db key direct ur.role)
        (select (is_own user tenant) db.user_roles)
      ∙ (any-select _ (is_own user tenant) db.user_roles
          ∙ any-agree (λ (ur : UserRole). any (has_role ur.role) db.roles) _ _ db.user_roles
              ref.user_roles
              λ ur there.
                ap (λ b. is_own user tenant ur && b) (role_steps-grants direct ur.role there))

  abbrev group_grants : GroupMember → Bool
  group_grants gm =
      any (λ (gr : GroupRole). of_member gm gr && role_grants db gr.role key) db.group_roles

  named-grants :
      (gm : GroupMember) (via : Via)
      → IsReferential db
      → non_empty_list (
          concat_map
            (λ (gr : GroupRole). role_steps db key via gr.role)
            (select (of_member gm) db.group_roles))
        ≡ group_grants gm
  named-grants gm via ref =
      non_empty-concat_map (λ (gr : GroupRole). role_steps db key via gr.role)
        (select (of_member gm) db.group_roles)
      ∙ (any-select _ (of_member gm) db.group_roles
          ∙ any-agree (λ (gr : GroupRole). any (has_role gr.role) db.roles) _ _ db.group_roles
              ref.group_roles
              λ gr there. ap (λ b. of_member gm gr && b) (role_steps-grants via gr.role there))

  abbrev member_steps : GroupMember → List GrantStep
  member_steps gm =
      concat_map
        (λ (g : Group).
          concat_map (λ (gr : GroupRole). role_steps db key (group g.name g.id) gr.role)
            (select (of_member gm) db.group_roles))
        (select (is_group_of gm) db.groups)

  member-grants :
      (gm : GroupMember)
      → IsReferential db
      → any (is_group_of gm) db.groups ≡ true
      → non_empty_list (member_steps gm) ≡ group_grants gm
  member-grants gm ref there =
      non_empty-concat_map _ (select (is_group_of gm) db.groups)
      ∙ (any-select _ (is_group_of gm) db.groups
          ∙ (any-same _ _ db.groups
                (λ g. ap (λ b. is_group_of gm g && b) (named-grants gm (group g.name g.id) ref))
              ∙ (any-and (is_group_of gm) (group_grants gm) db.groups
                  ∙ ap (λ b. b && group_grants gm) there)))

  group-grants :
      IsReferential db
      → non_empty_list (group_steps db user tenant key)
        ≡ any (λ (gm : GroupMember). is_member user tenant gm && group_grants gm) db.group_members
  group-grants ref =
      non_empty-concat_map member_steps (select (is_member user tenant) db.group_members)
      ∙ (any-select _ (is_member user tenant) db.group_members
          ∙ any-agree (λ (gm : GroupMember). any (is_group_of gm) db.groups) _ _ db.group_members
              ref.members
              λ gm there. ap (λ b. is_member user tenant gm && b) (member-grants gm ref there))

  explain-check :
      (by_name : List GrantStep → List GrantStep)
      → ((steps : List GrantStep) → length (by_name steps) ≡ length steps)
      → IsReferential db
      → (explain by_name db user tenant key).allowed ≡ check db user tenant key
  unfolding explain check
  explain-check by_name sorts ref =
      non_empty-append (direct_steps db user tenant key) (by_name (group_steps db user tenant key))
      ∙ rw (
        direct-grants ref,
        non_empty-length (by_name (group_steps db user tenant key)) (group_steps db user tenant key)
            (sorts (group_steps db user tenant key)),
        group-grants ref,
      )

  effective-check :
      (distinct : List String → List String)
      → ((keys : List String) (k : String) → contains (distinct keys) k ≡ contains keys k)
      → contains (effective_permissions distinct db user tenant) key ≡ check db user tenant key
  unfolding effective_permissions check
  effective-check distinct same =
      simp (same, contains-append, contains-concat_map, any-select, contains-map, any-select)

  -- Over tables that refer to rows that are there, Explain allows exactly what Check allows, and the
  -- effective permissions have a key exactly when Check says yes to it: whatever the order in which the
  -- database returns the groups, and if its UNION keeps all keys and adds none.
  pub answers_agree :
      (by_name : List GrantStep → List GrantStep) (distinct : List String → List String)
      → ((steps : List GrantStep) → length (by_name steps) ≡ length steps)
      → ((keys : List String) (k : String) → contains (distinct keys) k ≡ contains keys k)
      → IsReferential db
      → ((explain by_name db user tenant key).allowed ≡ check db user tenant key)
        × (contains (effective_permissions distinct db user tenant) key ≡ check db user tenant key)
  answers_agree by_name distinct sorts same ref =
      (explain-check by_name sorts ref, effective-check distinct same)
