-- ===== src/Rbac/Gate.antt =====
-- What Enforce (enforce.go) does with the table of permissions.go, in whatever order Go ranges over it.
use mathlib.Core.List.{Memᴰ}
use mathlib.Core.List.Memᴰ
use qeet_id.Base.{
  ℕ, ◌≡◌, refl, sym, ◌∙◌, ap, subst, ◌⊎◌, ◌↔◌, inl, inr, String, Bool, true, false, Option, none,
  some, List, [], ◌∷◌, str_eq_iff, arith, mem_cases, cut,
}
use qeet_id.Errs.{Result, ok, err}
use qeet_id.Rbac.Enforce.{
  Entry, Route, split_path, matches, compile, with_route, lookup, gates, Principal, enforce, serves,
  checked,
}
use qeet_id.Rbac.Consistent.{permission_map-consistent, lookup-mem, lookup-found, same_perm}
use qeet_id.Rbac.Table.{permission_map}

abbrev route : String → String → String → Route
route method pattern perm = record { method = method; pattern = split_path pattern; perm = perm }

abbrev IsRouteOf : Route → Entry → Type 0
IsRouteOf r e = (m p : String) × (cut 32 e.key ≡ some (m, p)) × (r ≡ route m p e.perm)

with_route-mem :
    (e : Entry) (o : Option (String × String)) (rs : List Route) (r : Route)
    → cut 32 e.key ≡ o
    → Memᴰ r (with_route e.perm o rs)
    → IsRouteOf r e ⊎ Memᴰ r rs
with_route-mem e none rs r is m = inr m
with_route-mem e (some (method, pattern)) rs r is m = elim (mem_cases m) [
  | inl same ↦ inl (method, pattern, is, same)
  | inr later ↦ inr later
]

mem-with_route :
    (e : Entry) (o : Option (String × String)) (rs : List Route) (r : Route)
    → Memᴰ r rs
    → Memᴰ r (with_route e.perm o rs)
mem-with_route e none rs r m = m
mem-with_route e (some (method, pattern)) rs r m = Memᴰ.tail m

compile-mem :
    (es : List Entry) (r : Route) → Memᴰ r (compile es) → (e : Entry) × Memᴰ e es × IsRouteOf r e
unfolding compile
compile-mem [] r m = absurd (Memᴰ.not-nil m)
compile-mem (e ∷ es) r m = elim (with_route-mem e (cut 32 e.key) (compile es) r refl m) [
  | inl is ↦ (e, Memᴰ.head refl, is)
  | inr later ↦ let (f, n, is) = compile-mem es r later in (f, Memᴰ.tail n, is)
]

mem-compile :
    (es : List Entry) (e : Entry) (method pattern : String)
    → Memᴰ e es
    → cut 32 e.key ≡ some (method, pattern)
    → Memᴰ (route method pattern e.perm) (compile es)
unfolding compile
mem-compile [] e method pattern m is = absurd (Memᴰ.not-nil m)
mem-compile (f ∷ es) e method pattern m is = elim (mem_cases m) [
  | inl same ↦
      subst
        (λ (x : Entry).
          Memᴰ (route method pattern e.perm) (with_route x.perm (cut 32 x.key) (compile es)))
        same (rw is (Memᴰ.head refl))
  | inr later ↦
      mem-with_route f (cut 32 f.key) (compile es) _ (mem-compile es e method pattern later is)
]

abbrev SameMembers : List Entry → List Entry → Type 0
SameMembers es fs = (e : Entry) → (Memᴰ e es → Memᴰ e fs) × (Memᴰ e fs → Memᴰ e es)

compile-SameMembers :
    (es fs : List Entry) (r : Route) → SameMembers es fs → Memᴰ r (compile es) → Memᴰ r (compile fs)
compile-SameMembers es fs r same m =
    let (e, n, (method, pattern, is, eq)) = compile-mem es r m in
    subst (λ x. Memᴰ x (compile fs)) (sym eq) (mem-compile fs e method pattern ((same e).0 n) is)

checked-serves : (perm : String) (o : Result Bool) → (checked perm o ≡ serves) ↔ (o ≡ ok true)
checked-serves perm (err e) = ((λ h. absurd (ground (arith, h))), (λ h. absurd (ground (arith, h))))
checked-serves perm (ok true) = ((λ h. refl), (λ h. refl))
checked-serves perm (ok false) =
    ((λ h. absurd (ground (arith, h))), (λ h. absurd (ground (arith, h))))

module _ (es : List Entry) (same : SameMembers es permission_map) where
  -- Every entry that fits decides, in whatever order the entries are tried.
  lookup-entry :
      (e : Entry) (method pattern : String) (path : List String)
      → Memᴰ e permission_map
      → cut 32 e.key ≡ some (method, pattern)
      → matches (split_path pattern) path ≡ true
      → lookup (compile es) method path ≡ some e.perm
  lookup-entry e method pattern path m is fits =
      let r = route method pattern e.perm in
      let g : gates method path r ≡ true = ground (arith, fits, str_eq_iff method method) in
      let here = mem-compile permission_map e method pattern m is in
      let (perm, found) =
        lookup-found (compile es) method path r
          (compile-SameMembers permission_map es r (λ f. ((same f).1, (same f).0)) here) g in
      let (s, n, k, eq) = lookup-mem (compile es) method path perm found in
      found
      ∙ ap some (
          sym eq
          ∙ same_perm (compile permission_map) s r method path permission_map-consistent
              (compile-SameMembers es permission_map s same n) here k g)

  -- However Go ranges over the table: a user of a tenant passes a route of the table exactly when the
  -- checker says that the user has the permission of that route in that tenant.
  pub enforce_gated :
      (check : ℕ → ℕ → String → Result Bool) (e : Entry) (method pattern path : String)
      (user tenant : ℕ)
      → Memᴰ e permission_map
      → cut 32 e.key ≡ some (method, pattern)
      → matches (split_path pattern) (split_path path) ≡ true
      → let p : Principal = record {
        actor_type = "user";
        user = some user;
        tenant = some tenant;
      } in
        (enforce check es (some p) method path ≡ serves) ↔ (check user tenant e.perm ≡ ok true)
  unfolding enforce
  enforce_gated check e method pattern path user tenant m is fits =
      rw (lookup-entry e method pattern (split_path path) m is fits)
        (checked-serves e.perm (check user tenant e.perm))
