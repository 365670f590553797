-- ===== src/Rbac/Consistent.antt =====
-- No path is guarded by two permissions (permissions.go with enforce.go): the order in which Go ranges
-- over the map does not matter.
use mathlib.Core.List.{Memᴰ}
use mathlib.Core.List.Memᴰ
use qeet_id.Base.{
  ◌≡◌, refl, sym, ◌∙◌, ap, subst, inl, inr, String, Bool, true, false, not, ◌&&◌, ◌||◌, some, List,
  [], ◌∷◌, str_eq, str_eq_iff, all, arith, Bool-cases, mem_cases,
}
use qeet_id.Rbac.Enforce.{Route, is_param, matches_segment, matches, compile, lookup, gates}
use qeet_id.Rbac.Table.{permission_map}

abbrev may_equal : String → String → Bool
may_equal p q = is_param p || is_param q || str_eq p q

-- Whether some path can match both patterns, a little more coarsely.
pub overlap : List String → List String → Bool
overlap [] [] = true
overlap [] (q ∷ qs) = false
overlap (p ∷ ps) [] = false
overlap (p ∷ ps) (q ∷ qs) = may_equal p q && overlap ps qs

pub agree : Route → Route → Bool
agree r s =
    str_eq r.perm s.perm || not (str_eq r.method s.method) || not (overlap r.pattern s.pattern)

pub consistent : List Route → List Route → Bool
consistent [] ss = true
consistent (r ∷ rs) ss = all (agree r) ss && consistent rs ss

pub permission_map-consistent : consistent (compile permission_map) (compile permission_map) ≡ true
unfolding consistent agree overlap is_param compile permission_map
permission_map-consistent = refl

may_equal_of_matches :
    (p q s : String)
    → matches_segment p s ≡ true
    → matches_segment q s ≡ true
    → may_equal p q ≡ true
may_equal_of_matches p q s h k =
    ground (arith, h, k, str_eq_iff p s, str_eq_iff q s, str_eq_iff p q)

overlap_of_matches :
    (ps qs ss : List String) → matches ps ss ≡ true → matches qs ss ≡ true → overlap ps qs ≡ true
unfolding overlap matches
overlap_of_matches [] [] ss h k = refl
overlap_of_matches [] (q ∷ qs) [] h k = absurd (ground (arith, k))
overlap_of_matches [] (q ∷ qs) (s ∷ ss) h k = absurd (ground (arith, h))
overlap_of_matches (p ∷ ps) [] [] h k = absurd (ground (arith, h))
overlap_of_matches (p ∷ ps) [] (s ∷ ss) h k = absurd (ground (arith, k))
overlap_of_matches (p ∷ ps) (q ∷ qs) [] h k = absurd (ground (arith, h))
overlap_of_matches (p ∷ ps) (q ∷ qs) (s ∷ ss) h k = rw (
  may_equal_of_matches p q s (ground (arith, h)) (ground (arith, k)),
  overlap_of_matches ps qs ss (ground (arith, h)) (ground (arith, k)),
)

all-mem :
    (test : Route → Bool) (rs : List Route) (r : Route)
    → all test rs ≡ true
    → Memᴰ r rs
    → test r ≡ true
all-mem test [] r h m = absurd (Memᴰ.not-nil m)
all-mem test (s ∷ rs) r h m = elim (mem_cases m) [
  | inl e ↦ subst (λ x. test x ≡ true) (sym e) (ground (arith, h))
  | inr later ↦ all-mem test rs r (ground (arith, h)) later
]

consistent-mem :
    (rs ss : List Route) (r s : Route)
    → consistent rs ss ≡ true
    → Memᴰ r rs
    → Memᴰ s ss
    → agree r s ≡ true
unfolding consistent
consistent-mem [] ss r s h m n = absurd (Memᴰ.not-nil m)
consistent-mem (q ∷ rs) ss r s h m n = elim (mem_cases m) [
  | inl e ↦ subst (λ x. agree x s ≡ true) (sym e) (all-mem (agree q) ss s (ground (arith, h)) n)
  | inr later ↦ consistent-mem rs ss r s (ground (arith, h)) later n
]

-- Two routes of a consistent table that guard one path ask for the same permission.
pub same_perm :
    (rs : List Route) (r s : Route) (method : String) (path : List String)
    → consistent rs rs ≡ true
    → Memᴰ r rs
    → Memᴰ s rs
    → gates method path r ≡ true
    → gates method path s ≡ true
    → r.perm ≡ s.perm
unfolding agree
same_perm rs r s method path h m n g k =
    let o = overlap_of_matches r.pattern s.pattern path (ground (arith, g)) (ground (arith, k)) in
    let a = consistent-mem rs rs r s h m n in
    (str_eq_iff r.perm s.perm).0 (
      ground (
        arith,
        a,
        o,
        g,
        k,
        str_eq_iff r.method method,
        str_eq_iff s.method method,
        str_eq_iff r.method s.method,
      ))

pub lookup-mem :
    (rs : List Route) (method : String) (path : List String) (perm : String)
    → lookup rs method path ≡ some perm
    → (r : Route) × Memᴰ r rs × (gates method path r ≡ true) × (r.perm ≡ perm)
unfolding lookup
lookup-mem [] method path perm h = absurd (ground (arith, h))
lookup-mem (r ∷ rs) method path perm h = elim (Bool-cases (gates method path r)) [
  | inl g ↦ (r, Memᴰ.head refl, g, ground (arith, h, g))
  | inr n ↦
      let (s, m, g, e) = lookup-mem rs method path perm (ground (arith, h, n)) in
      (s, Memᴰ.tail m, g, e)
]

pub lookup-found :
    (rs : List Route) (method : String) (path : List String) (r : Route)
    → Memᴰ r rs
    → gates method path r ≡ true
    → (perm : String) × (lookup rs method path ≡ some perm)
unfolding lookup
lookup-found [] method path r m g = absurd (Memᴰ.not-nil m)
lookup-found (s ∷ rs) method path r m g = elim (Bool-cases (gates method path s)) [
  | inl h ↦ (s.perm, rw h)
  | inr n ↦ elim (mem_cases m) [
    | inl e ↦ absurd (ground (arith, n, subst (λ x. gates method path x ≡ true) e g))
    | inr later ↦ let (perm, h) = lookup-found rs method path r later g in (perm, rw n h)
  ]
]

-- In a consistent table, each route that matches decides.
pub lookup_unique :
    (rs : List Route) (method : String) (path : List String) (r : Route)
    → consistent rs rs ≡ true
    → Memᴰ r rs
    → gates method path r ≡ true
    → lookup rs method path ≡ some r.perm
lookup_unique rs method path r h m g =
    let (perm, found) = lookup-found rs method path r m g in
    let (s, n, k, e) = lookup-mem rs method path perm found in
    found ∙ ap some (sym e ∙ same_perm rs s r method path h n m k g)
