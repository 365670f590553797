-- ===== src/Rebac/Visited.antt =====
-- The visited set as a list of distinct keys: inclusion, and how many keys fit.
use qeet_id.Base.{
  suc, ◌≤◌, ◌≡◌, refl, String, true, false, ◌||◌, List, [], ◌∷◌, arith, str_eq, str_eq_iff,
  str_eq_refl, length, if◌then◌else◌, Bool-cases, inl, inr,
}
use qeet_id.Rebac.Resolve.{has}

abbrev pub Distinct : List String → Type 0
Distinct [] = Unit
Distinct (k ∷ ks) = (has ks k ≡ false) × Distinct ks

abbrev pub Within : List String → List String → Type 0
Within ks ls = (k : String) → has ks k ≡ true → has ls k ≡ true

pub has-cons :
    (j : String) (ks : List String) (k : String) → has (j ∷ ks) k ≡ (str_eq j k || has ks k)
unfolding has
has-cons j ks k = refl

pub has-nil : (k : String) → has [] k ≡ false
unfolding has
has-nil k = refl

remove : String → List String → List String
remove k [] = []
remove k (j ∷ js) = if str_eq j k then js else j ∷ remove k js

length-remove :
    (k : String) (ks : List String) → has ks k ≡ true → length ks ≡ suc (length (remove k ks))
unfolding remove has
length-remove k [] h = ground arith
length-remove k (j ∷ js) h = ground (arith, length-remove k js)

has-remove :
    (k : String) (ks : List String) (j : String)
    → has ks j ≡ true
    → str_eq k j ≡ false
    → has (remove k ks) j ≡ true
unfolding remove has
has-remove k [] j h n = ground arith
has-remove k (i ∷ is) j h n =
    ground (arith, has-remove k is j, str_eq_iff i k, str_eq_iff k j, str_eq_iff i j)

pub length-le_of_Within : (ks ls : List String) → Distinct ks → Within ks ls → length ks ≤ length ls
unfolding has
length-le_of_Within [] ls d w = omega arith
length-le_of_Within (k ∷ ks) ls (new, d) w =
    let inside : has ls k ≡ true = w k (ground (arith, str_eq_refl k)) in
    let rest =
      length-le_of_Within ks (remove k ls) d
        (λ j h. has-remove k ls j (w j (ground arith)) (differs j h)) in
    omega (arith, length-remove k ls inside, rest)
  where
    differs : (j : String) → has ks j ≡ true → str_eq k j ≡ false
    differs j h = ground (arith, str_eq_iff k j)

-- A set that is at least as large as what it lies within holds all of it.
pub has_of_full :
    (ks ls : List String) (k : String)
    → Distinct ks
    → Within ks ls
    → length ls ≤ length ks
    → has ls k ≡ true
    → has ks k ≡ true
unfolding has
has_of_full ks ls k d w full h = elim (Bool-cases (has ks k)) [
  | inl yes' ↦ yes'
  | inr no' ↦ absurd (omega (arith, length-le_of_Within (k ∷ ks) ls (no', d) more))
]
  where
    more : Within (k ∷ ks) ls
    more j q = ground (arith, str_eq_iff k j, w j)
