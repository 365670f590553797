-- ===== src/Rebac/Complete.antt =====
-- A Check finds every grant, as long as the reachable keys fit under the depth cap.
use mathlib.Core.List.{Memᴰ}
use qeet_id.Base.{
  ℕ, zero, suc, ◌+◌, ◌≤◌, ◌≡◌, refl, sym, ◌∙◌, subst, ◌≢◌, inl, inr, String, true, false, List, [],
  ◌∷◌, arith, str_eq, str_eq_iff, str_eq_refl, ltb, ◌||◌, All-mem, Bool-cases,
}
use qeet_id.Errs.{Error, Result, ok, err}
use qeet_id.Rebac.Refs.{Node, key}
use qeet_id.Rebac.Resolve.{
  Tuple, Fetcher, ExplainStep, Search, failed, found, missed, out_of_fuel, has, userset, is_direct,
  walk, resolve, max_depth,
}
use qeet_id.Rebac.Sound.{Chain, direct, via}
use qeet_id.Rebac.Visited.{Within, has-cons, has-nil, has_of_full}
use qeet_id.Rebac.Total.{resolve_total}
use qeet_id.Rebac.Closure.{
  Covers, has-keys, length-keys, keys, Clear, Clean, Grown, Grown-refl, Closes, walk-Closes,
}

ok_injective : {ts us : List Tuple} → ok ts ≡ ok us → ts ≡ us
ok_injective e = cc

module _ (fetch : Fetcher) (user : String) (nodes : List Node) (covers : Covers fetch nodes) where
  abbrev Growth : List String → List String → Type 0
  Growth = Grown fetch user nodes covers

  members :
      (n : Node) (ts : List Tuple)
      → Memᴰ n nodes
      → fetch n ≡ ok ts
      → (t : Tuple) → Memᴰ t ts
      → is_direct t ≡ false
      → Memᴰ (userset t) nodes
  members n ts m e t mem i =
      covers.closed n t m (record { tuples = ts; fetches = e; member = mem }) i

  -- The key of `n` was marked before the loop, and the loop has seen all tuples of `n`.
  marked-Grown :
      (n : Node) (ts : List Tuple) (v w : List String)
      → Memᴰ n nodes
      → fetch n ≡ ok ts
      → Growth (key n ∷ v) w
      → ((t : Tuple) → Memᴰ t ts → Clear fetch user nodes covers w t)
      → Growth v w × (has w (key n) ≡ true)
  marked-Grown n ts v w m e g clear =
      let marked : has w (key n) ≡ true =
        g.kept (key n) (ground (arith, has-cons (key n) v (key n), str_eq_refl (key n))) in
      (
        record {
          distinct = g.distinct;
          inside = g.inside;
          kept = λ k h. g.kept k (ground (arith, has-cons (key n) v k));
          clean = clean;
        },
        marked,
      )
    where
      of_same : (k : Node) → Memᴰ k nodes → key n ≡ key k → Clean fetch user nodes covers w k
      of_same k mk same t s =
          let same_node : n ≡ k = covers.separate n k m mk same in
          clear t (
            subst (Memᴰ t) (ok_injective (sym s.fetches ∙ subst (λ x. fetch x ≡ ok ts) same_node e))
              s.member)

      clean :
          (k : Node)
          → Memᴰ k nodes
          → has w (key k) ≡ true
          → has v (key k) ≡ false
          → Clean fetch user nodes covers w k
      clean k mk now before = elim (Bool-cases (str_eq (key n) (key k))) [
        | inl same ↦ of_same k mk ((str_eq_iff (key n) (key k)).0 same)
        | inr other ↦ g.clean k mk now (ground (arith, has-cons (key n) v (key k)))
      ]

  resolve-Closes :
      (fuel d : ℕ) → Closes fetch user nodes covers (λ m v. resolve fetch fuel m user v d) d
  unfolding resolve
  resolve-Closes zero d n v w m dist within deep h = absurd (ground arith)
  resolve-Closes (suc fuel) d n v w m dist within deep h =
      elim (Bool-cases (ltb max_depth d || has v (key n))) [
        | inl stopped ↦
            let same : v ≡ w = ground arith in
            subst (λ x. Growth v x × (has x (key n) ≡ true)) same
              (Grown-refl fetch user nodes covers v dist within, marked stopped)
        | inr going ↦ go going (fetch n) refl (resolve-Closes fuel (d + 1))
      ]
    where
      marked : (ltb max_depth d || has v (key n)) ≡ true → has v (key n) ≡ true
      marked stopped = elim (Bool-cases (has v (key n))) [
        | inl yes' ↦ yes'
        | inr no' ↦
            has_of_full v (keys fetch user nodes covers) (key n) dist within
              (ground (arith, length-keys nodes, covers.fits)) (has-keys n nodes m)
      ]

      within_marked : Within (key n ∷ v) (keys fetch user nodes covers)
      within_marked k h =
          ground (arith, has-cons (key n) v k, str_eq_iff (key n) k, within k, has-keys n nodes m)

      go :
          (ltb max_depth d || has v (key n)) ≡ false
          → (r : Result (List Tuple)) → fetch n ≡ r
          → Closes fetch user nodes covers (λ m v. resolve fetch fuel m user v (d + 1)) (d + 1)
          → Growth v w × (has w (key n) ≡ true)
      go g (err e) q ih = absurd (ground arith)
      go g (ok ts) q ih =
          let (grown, clear) =
            walk-Closes fetch user nodes covers _ n d ih ts (key n ∷ v) w (members n ts m q)
              (ground arith, dist) within_marked (omega arith) (rw (g, q, resolve) at h) in
          marked-Grown n ts v w m q grown (λ t. All-mem _ ts t clear)

  walk_answers :
      (descend : Node → List String → Search) (n : Node) (d : ℕ)
      → ((m : Node) (v : List String) (e : Error) → Memᴰ m nodes → descend m v ≢ failed e)
      → (ts : List Tuple) (v : List String) (e : Error)
      → ((t : Tuple) → Memᴰ t ts → is_direct t ≡ false → Memᴰ (userset t) nodes)
      → walk descend n user d ts v ≢ failed e
  unfolding walk
  walk_answers descend n d fine [] v e sub = ground arith
  walk_answers descend n d fine (t ∷ ts) v e sub =
      go (descend (userset t) v) refl
        (λ u. walk_answers descend n d fine ts u e (λ s m. sub s (Memᴰ.tail m)))
    where
      go :
          (r : Search)
          → descend (userset t) v ≡ r
          → ((u : List String) → walk descend n user d ts u ≢ failed e)
          → walk descend n user d (t ∷ ts) v ≢ failed e
      go (failed x) q ih = elim (Bool-cases (is_direct t)) [
        | inl plain ↦ ground (arith, ih v)
        | inr i ↦ absurd (fine (userset t) v x (sub t (Memᴰ.head refl) i) q)
      ]
      go (found p) q ih = ground (arith, ih v)
      go (missed u) q ih = ground (arith, ih v, ih u)
      go out_of_fuel q ih = ground (arith, ih v)

  resolve_answers :
      (fuel d : ℕ) (n : Node) (v : List String) (e : Error)
      → Memᴰ n nodes
      → resolve fetch fuel n user v d ≢ failed e
  unfolding resolve
  resolve_answers zero d n v e m = ground arith
  resolve_answers (suc fuel) d n v e m = elim (Bool-cases (ltb max_depth d || has v (key n))) [
    | inl stopped ↦ ground arith
    | inr going ↦ go going (λ k u x mk. resolve_answers fuel (d + 1) k u x mk)
  ]
    where
      go :
          (ltb max_depth d || has v (key n)) ≡ false
          → ((k : Node) (u : List String) (x : Error)
              → Memᴰ k nodes
              → resolve fetch fuel k user u (d + 1) ≢ failed x)
          → resolve fetch (suc fuel) n user v d ≢ failed e
      go g ih = λ h.
          let (ts, q) = covers.answers n m in
          walk_answers _ n d ih ts (key n ∷ v) e (members n ts m q) (rw (g, q, resolve) at h)

  -- No chain leads out of a closed set in which nothing names the user.
  no-Chain :
      (w : List String)
      → Growth [] w
      → {n : Node} {d : ℕ} {path : List ExplainStep} → Chain fetch user n d path
      → Memᴰ n nodes
      → has w (key n) ≡ true
      → ⊥
  no-Chain w g (direct {n} t s p u) m h =
      let clear = g.clean n m h (has-nil (key n)) t s in ground (arith, clear.plain p)
  no-Chain w g (via {n} t s i c) m h =
      let clear = g.clean n m h (has-nil (key n)) t s in
      no-Chain w g c (covers.closed n t m s i) (clear.nested i)

  pub resolve_complete :
      (fuel : ℕ) (n : Node) {d : ℕ} {path : List ExplainStep}
      → 27 ≤ fuel
      → Memᴰ n nodes
      → Chain fetch user n d path
      → (p : List ExplainStep) × (resolve fetch fuel n user [] 0 ≡ found p)
  resolve_complete fuel n enough m c = go (resolve fetch fuel n user [] 0) refl
    where
      go :
          (r : Search)
          → resolve fetch fuel n user [] 0 ≡ r
          → (p : List ExplainStep) × (resolve fetch fuel n user [] 0 ≡ found p)
      go (failed e) q = absurd (resolve_answers fuel 0 n [] e m q)
      go (found p) q = (p, q)
      go (missed w) q =
          let (g, h) =
            resolve-Closes fuel 0 n [] w m tt (λ k e. absurd (ground (arith, has-nil k)))
              (omega arith) q in
          absurd (no-Chain w g c m h)
      go out_of_fuel q = absurd (resolve_total fetch user fuel n [] 0 (omega arith) (omega arith) q)
