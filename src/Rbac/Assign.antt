-- ===== src/Rbac/Assign.antt =====
-- What the assignments of roles change (rbac.go): the answers of Check, and the references of the tables.
use qeet_id.Base.{
  ℕ, ◌≡◌, String, Bool, true, ◌&&◌, ◌||◌, List, [], ◌∷◌, ◌++◌, ◌==◌, any, arith, Bool-cases, inl,
  inr,
}
use qeet_id.Rbac.Roles.{
  UserRole, Db, role_grants, is_own, has_role, check, same_user_role, insert_new, assign_role,
}

any-append :
    {A : Type 0} (p : A → Bool) (xs : List A) (x : A) → any p (xs ++ x ∷ []) ≡ (any p xs || p x)
any-append p [] x = ground arith
any-append p (y ∷ xs) x = ground (arith, any-append p xs x)

any-like :
    {A : Type 0} (same : A → A → Bool) (p : A → Bool) (x : A) (xs : List A)
    → ((y : A) → same x y ≡ true → p y ≡ p x)
    → any (same x) xs ≡ true
    → any p xs ≡ (any p xs || p x)
any-like same p x [] h old = absurd (ground arith)
any-like same p x (y ∷ ys) h old = elim (Bool-cases (same x y)) [
  | inl is ↦ ground (arith, h y is)
  | inr other ↦ ground (arith, other, any-like same p x ys h)
]

-- A row that is there already adds nothing.
any-insert_new :
    {A : Type 0} (same : A → A → Bool) (p : A → Bool) (x : A) (xs : List A)
    → ((y : A) → same x y ≡ true → p y ≡ p x)
    → any p (insert_new same x xs) ≡ (any p xs || p x)
any-insert_new same p x xs h = elim (Bool-cases (any (same x) xs)) [
  | inr new ↦ rw new (any-append p xs x)
  | inl old ↦ rw old (any-like same p x xs h old)
]

abbrev confers : Db → ℕ → ℕ → String → UserRole → Bool
confers db user tenant key ur = is_own user tenant ur && role_grants db ur.role key

same-confers :
    (db : Db) (user tenant : ℕ) (key : String) (x y : UserRole)
    → same_user_role x y ≡ true
    → confers db user tenant key y ≡ confers db user tenant key x
same-confers db user tenant key x y same =
    let u : y.user ≡ x.user = ground (arith, same) in
    let t : y.tenant ≡ x.tenant = ground (arith, same) in
    let r : y.role ≡ x.role = ground (arith, same) in rw (u, t, r)

-- AssignRole of a role that is there changes the answers of Check in just one way: its user has, in its
-- tenant, the permissions of the role too. The role may be of any tenant.
pub check-assign_role :
    (db : Db) (user tenant role user' tenant' : ℕ) (key : String)
    → any (has_role role) db.roles ≡ true
    → check (assign_role user tenant role db).1 user' tenant' key ≡ (
        check db user' tenant' key
        || (user == user' && tenant == tenant' && role_grants db role key))
unfolding check assign_role
check-assign_role db user tenant role user' tenant' key there = rw there (
    ground (
      arith,
      any-insert_new same_user_role (confers db user' tenant' key)
          (record { user = user; tenant = tenant; role = role }) db.user_roles
          (same-confers db user' tenant' key
            (record { user = user; tenant = tenant; role = role })),
    ))
