-- ===== src/Rebac/Closure.antt =====
-- What a missed search leaves behind: a set of keys that is closed under usersets.
use mathlib.Core.List.{Memᴰ}
use mathlib.Core.List.Memᴰ
use qeet_id.Base.{
  ℕ, suc, ◌+◌, ◌≤◌, ◌≡◌, refl, ap, subst, inl, inr, String, true, false, List, [], ◌∷◌, map, arith,
  str_eq_refl, length, All, mem_cases, Bool-cases,
}
use qeet_id.Errs.{ok}
use qeet_id.Rebac.Refs.{Node, key}
use qeet_id.Rebac.Resolve.{
  Tuple, Fetcher, Search, failed, found, missed, out_of_fuel, has, userset, is_direct, is_user,
  walk,
}
use qeet_id.Rebac.Sound.{Stored}
use qeet_id.Rebac.Visited.{Distinct, Within, length-le_of_Within}

-- `nodes` holds every node that usersets lead to from its members, the store answers for each of
-- them, no two share a key, and they are no more than the depth cap allows calls to nest.
pub record Covers (fetch : Fetcher) (nodes : List Node) : Type 0 where
  pub answers : (n : Node) → Memᴰ n nodes → (ts : List Tuple) × (fetch n ≡ ok ts)
  pub closed :
      (n : Node) (t : Tuple)
      → Memᴰ n nodes
      → Stored fetch n t
      → is_direct t ≡ false
      → Memᴰ (userset t) nodes
  pub separate : (n m : Node) → Memᴰ n nodes → Memᴰ m nodes → key n ≡ key m → n ≡ m
  pub fits : length nodes ≤ 26

pub has-keys : (n : Node) (ns : List Node) → Memᴰ n ns → has (map key ns) (key n) ≡ true
unfolding has
has-keys n [] m = absurd (Memᴰ.not-nil m)
has-keys n (k ∷ ns) m = elim (mem_cases m) [
  | inl e ↦ ground (arith, str_eq_refl (key k), ap key e)
  | inr later ↦ ground (arith, has-keys n ns later)
]

pub length-keys : (ns : List Node) → length (map key ns) ≡ length ns
length-keys [] = refl
length-keys (_ ∷ ns) = ap suc (length-keys ns)

module _ (fetch : Fetcher) (user : String) (nodes : List Node) (covers : Covers fetch nodes) where
  open covers use {answers, closed, separate, fits}

  abbrev pub keys : List String
  keys = map key nodes

  -- A missed search leaves behind, for each key that it marked, tuples that grant nothing directly
  -- and usersets that are marked too.
  pub record Clear (visited : List String) (t : Tuple) : Type 0 where
    pub plain : is_direct t ≡ true → is_user user t ≡ false
    pub nested : is_direct t ≡ false → has visited (key (userset t)) ≡ true

  abbrev pub Clean : List String → Node → Type 0
  Clean visited n = (t : Tuple) → Stored fetch n t → Clear visited t

  pub record Grown (before after : List String) : Type 0 where
    pub distinct : Distinct after
    pub inside : Within after keys
    pub kept : Within before after
    pub clean :
        (m : Node)
        → Memᴰ m nodes
        → has after (key m) ≡ true
        → has before (key m) ≡ false
        → Clean after m

  pub Grown-refl : (v : List String) → Distinct v → Within v keys → Grown v v
  Grown-refl v d w = record {
    distinct = d;
    inside = w;
    kept = λ _ h. h;
    clean = λ m _ h n. absurd (ground arith);
  }

  pub Clear-mono : (v w : List String) (t : Tuple) → Within v w → Clear v t → Clear w t
  Clear-mono v w t sub c = record { plain = c.plain; nested = λ i. sub _ (c.nested i) }

  Grown-trans : (u v w : List String) → Grown u v → Grown v w → Grown u w
  Grown-trans u v w g h = record {
    distinct = h.distinct;
    inside = h.inside;
    kept = λ k p. h.kept k (g.kept k p);
    clean = λ m mem now before. elim (Bool-cases (has v (key m))) [
      | inl early ↦ λ t s. Clear-mono v w t h.kept (g.clean m mem early before t s)
      | inr late ↦ h.clean m mem now late
    ];
  }

  Grown-length : (u v : List String) → Distinct u → Grown u v → length u ≤ length v
  Grown-length u v d g = length-le_of_Within u v d g.kept

  abbrev pub Closes : (Node → List String → Search) → ℕ → Type 0
  Closes descend d =
      (m : Node) (v w : List String)
      → Memᴰ m nodes
      → Distinct v
      → Within v keys
      → d ≤ length v
      → descend m v ≡ missed w
      → Grown v w × (has w (key m) ≡ true)

  data Passed (descend : Node → List String → Search) (n : Node) (d : ℕ) (t : Tuple)
      (ts : List Tuple) (v w : List String) : Type 0 where
    past_direct :
        is_direct t ≡ true
        → is_user user t ≡ false
        → walk descend n user d ts v ≡ missed w
        → Passed descend n d t ts v w
    past_userset :
        (mid : List String)
        → is_direct t ≡ false
        → descend (userset t) v ≡ missed mid
        → walk descend n user d ts mid ≡ missed w
        → Passed descend n d t ts v w

  walk-Passed :
      (descend : Node → List String → Search) (n : Node) (d : ℕ) (t : Tuple) (ts : List Tuple)
      (v w : List String)
      → walk descend n user d (t ∷ ts) v ≡ missed w
      → Passed descend n d t ts v w
  unfolding walk
  walk-Passed descend n d t ts v w h = elim (Bool-cases (is_direct t)) [
    | inl plain' ↦ past_direct plain' (ground arith) (ground arith)
    | inr indirect ↦ go indirect (descend (userset t) v) refl
  ]
    where
      go :
          is_direct t ≡ false
          → (r : Search) → descend (userset t) v ≡ r
          → Passed descend n d t ts v w
      go i (failed e) q = absurd (ground arith)
      go i (found p) q = absurd (ground arith)
      go i (missed mid) q = past_userset mid i q (ground arith)
      go i out_of_fuel q = absurd (ground arith)

  pub walk-Closes :
      (descend : Node → List String → Search) (n : Node) (d : ℕ)
      → Closes descend (d + 1)
      → (ts : List Tuple) (v w : List String)
      → ((t : Tuple) → Memᴰ t ts → is_direct t ≡ false → Memᴰ (userset t) nodes)
      → Distinct v
      → Within v keys
      → d + 1 ≤ length v
      → walk descend n user d ts v ≡ missed w
      → Grown v w × All (Clear w) ts
  unfolding walk
  walk-Closes descend n d closes [] v w sub dist within deep h =
      subst (λ x. Grown v x × Unit) (ground arith) (Grown-refl v dist within, tt)
  walk-Closes descend n d closes (t ∷ ts) v w sub dist within deep h =
      elim (walk-Passed descend n d t ts v w h) [
        | past_direct p q r ↦
            let (g, rest) =
              walk-Closes descend n d closes ts v w (λ s m. sub s (Memᴰ.tail m)) dist within deep
                r in
            (g, (record { plain = λ _. q; nested = λ i. absurd (ground arith) }, rest))
        | past_userset mid i q r ↦
            let (g, marked) =
              closes (userset t) v mid (sub t (Memᴰ.head refl) i) dist within deep q in
            let (g', rest) =
              walk-Closes descend n d closes ts mid w (λ s m. sub s (Memᴰ.tail m)) g.distinct
                g.inside (omega (arith, Grown-length v mid dist g)) r in
            (
              Grown-trans v mid w g g',
              (record { plain = λ p. absurd (ground arith); nested = λ _. g'.kept _ marked }, rest),
            )
      ]
