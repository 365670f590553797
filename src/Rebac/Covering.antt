-- ===== src/Rebac/Covering.antt =====
-- A list of nodes that covers what a tenant's rows lead to.
use mathlib.Core.List.{Memᴰ}
use mathlib.Core.List.Memᴰ
use qeet_id.Base.{
  ℕ, ◌≤◌, ◌≡◌, refl, sym, subst, Bool, true, false, ◌&&◌, List, [], ◌∷◌, length, All, All-mem,
  mem_cases, inl, inr, ◌==◌, if◌then◌else◌,
}
use qeet_id.Errs.{ok}
use qeet_id.Rebac.Refs.{Node}
use qeet_id.Rebac.Resolve.{Tuple, userset, is_direct}
use qeet_id.Rebac.Closure.{Covers}
use qeet_id.Rebac.Keys.{IsWellFormed, key_injective}
use qeet_id.Rebac.Store.{Row, node_eq, fetch_subjects, tuple_fetcher}

-- The userset of the row, if it has one, is listed.
abbrev pub IsListed : List Node → Row → Type 0
IsListed nodes row = is_direct row.subject ≡ false → Memᴰ (userset row.subject) nodes

mem_of_if {ℓ} :
    {A : Type ℓ} {x : A} (y : A) {xs : List A} (b : Bool)
    → Memᴰ x (if b then y ∷ xs else xs)
    → Memᴰ x (y ∷ xs)
mem_of_if y true m = m
mem_of_if y false m = Memᴰ.tail m

fetch_subjects-listed :
    (tenant : ℕ) (n : Node) (nodes : List Node) (t : Tuple) (rows : List Row)
    → All (IsListed nodes) rows
    → Memᴰ t (fetch_subjects tenant n rows)
    → is_direct t ≡ false
    → Memᴰ (userset t) nodes
unfolding fetch_subjects
fetch_subjects-listed tenant n nodes t [] h m i = absurd (Memᴰ.not-nil m)
fetch_subjects-listed tenant n nodes t (row ∷ rows) (l, ls) m i =
    elim (mem_cases (mem_of_if row.subject (row.tenant == tenant && node_eq row.object n) m)) [
      | inl same ↦
          subst (λ u. Memᴰ (userset u) nodes) (sym same)
            (l (subst (λ u. is_direct u ≡ false) same i))
      | inr later ↦ fetch_subjects-listed tenant n nodes t rows ls later i
    ]

ok_tuples : {ts us : List Tuple} → ok ts ≡ ok us → ts ≡ us
ok_tuples e = cc

-- The rows lead to listed nodes only, the nodes are well formed, and no more than 26.
pub Covers-of_rows :
    (rows : List Row) (tenant : ℕ) (nodes : List Node)
    → All (IsListed nodes) rows
    → All IsWellFormed nodes
    → length nodes ≤ 26
    → Covers (tuple_fetcher rows tenant) nodes
unfolding tuple_fetcher
Covers-of_rows rows tenant nodes listed formed fits = record {
  answers = λ n m. (fetch_subjects tenant n rows, refl);
  closed = λ n t m s i.
      fetch_subjects-listed tenant n nodes t rows listed
        (subst (Memᴰ t) (sym (ok_tuples s.fetches)) s.member) i;
  separate = λ n m mn mm e.
      key_injective n m (All-mem IsWellFormed nodes n formed mn)
        (All-mem IsWellFormed nodes m formed mm) e;
  fits = fits;
}
