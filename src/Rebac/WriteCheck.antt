-- ===== src/Rebac/WriteCheck.antt =====
-- Check reads what Write stored, and no tenant reads another's tuples.
use mathlib.Core.List.{Memᴰ}
use mathlib.Core.List.Memᴰ
use mathlib.Core.Path.{fun_ext}
use qeet_id.Base.{
  ℕ, zero, suc, ◌+◌, ◌≡◌, refl, ◌≢◌, ap, inl, inr, String, Bool, true, false, List, [], ◌∷◌, ◌||◌,
  ◌&&◌, ◌==◌, if◌then◌else◌, sym, Option, none, some, arith, str_eq, str_eq_iff, str_eq_refl, ltb,
  Bool-cases, subst, mem_cases,
}
use qeet_id.Errs.{Error, ok}
use qeet_id.Rebac.Refs.{ObjectRef, SubjectRef, Node, key, parse_object, parse_subject}
use qeet_id.Rebac.Resolve.{
  Tuple, ExplainStep, Search, failed, found, missed, out_of_fuel, resolve, is_direct, is_user,
  explain_step, has, userset, walk, max_depth,
}
use qeet_id.Rebac.Total.{resolve_total}
use qeet_id.Rebac.Store.{
  Row, TupleView, as_node, as_tuple, same_row, node_eq, tuple_eq, check_fuel, check_explain, check,
  tuple_fetcher, insert_tuple, fetch_subjects, write,
}

-- A loop whose calls neither fail nor run out of fuel finds a direct tuple that is listed.
walk_finds :
    (descend : Node → List String → Search) (n : Node) (user : String) (d : ℕ)
    → ((m : Node) (v : List String) (e : Error) → descend m v ≢ failed e)
    → ((m : Node) (v : List String) → descend m v ≢ out_of_fuel)
    → (t : Tuple) (ts : List Tuple) (v : List String) → Memᴰ t ts
    → is_direct t ≡ true
    → is_user user t ≡ true
    → (p : List ExplainStep) × (walk descend n user d ts v ≡ found p)
unfolding walk
walk_finds descend n user d fine total t [] v m plain mine = absurd (Memᴰ.not-nil m)
walk_finds descend n user d fine total t (u ∷ us) v m plain mine =
    go (λ w m'. walk_finds descend n user d fine total t us w m' plain mine)
  where
    Finds : List Tuple → List String → Type 0
    Finds ts w = (p : List ExplainStep) × (walk descend n user d ts w ≡ found p)

    later : ((w : List String) → Memᴰ t us → Finds us w) → (w : List String) → (t ≢ u) → Finds us w
    later rec w other = elim (mem_cases m) [ inl e ↦ absurd (other e) | inr m' ↦ rec w m' ]

    nested :
        ((w : List String) → Memᴰ t us → Finds us w)
        → is_direct u ≡ false
        → (r : Search) → descend (userset u) v ≡ r
        → Finds (u ∷ us) v
    nested rec i (failed e) q = absurd (fine _ v e q)
    nested rec i (found p) q = (explain_step n u d ∷ p, rw (i, q, walk))
    nested rec i (missed w) q =
        let (p, e) = later rec w (λ same. absurd (ground (arith, ap is_direct same))) in
        (p, ground arith)
    nested rec i out_of_fuel q = absurd (total _ v q)

    go : ((w : List String) → Memᴰ t us → Finds us w) → Finds (u ∷ us) v
    go rec = elim (Bool-cases (is_direct u)) [
      | inl direct ↦ elim (Bool-cases (is_user user u)) [
        | inl hit ↦ (explain_step n u d ∷ [], rw (direct, hit, walk))
        | inr other ↦
            let (p, e) = later rec v (λ same. absurd (ground (arith, ap (is_user user) same))) in
            (p, ground arith)
      ]
      | inr i ↦ nested rec i (descend (userset u) v) refl
    ]

walk_never_fails :
    (descend : Node → List String → Search) (n : Node) (user : String) (d : ℕ)
    → ((m : Node) (v : List String) (e : Error) → descend m v ≢ failed e)
    → (ts : List Tuple) (v : List String) (e : Error) → walk descend n user d ts v ≢ failed e
unfolding walk
walk_never_fails descend n user d fine [] v e = ground arith
walk_never_fails descend n user d fine (t ∷ ts) v e =
    go (descend (userset t) v) refl (λ w. walk_never_fails descend n user d fine ts w e)
  where
    go :
        (r : Search)
        → descend (userset t) v ≡ r
        → ((w : List String) → walk descend n user d ts w ≢ failed e)
        → walk descend n user d (t ∷ ts) v ≢ failed e
    go (failed x) q ih = absurd (fine _ v x q)
    go (found p) q ih = ground (arith, ih v)
    go (missed w) q ih = ground (arith, ih v, ih w)
    go out_of_fuel q ih = ground (arith, ih v)

module _ (rows : List Row) (tenant : ℕ) (user : String) where
  resolve_never_fails :
      (fuel : ℕ) (n : Node) (v : List String) (d : ℕ) (e : Error)
      → resolve (tuple_fetcher rows tenant) fuel n user v d ≢ failed e
  unfolding resolve tuple_fetcher
  resolve_never_fails zero n v d e = ground arith
  resolve_never_fails (suc fuel) n v d e = elim (Bool-cases (ltb max_depth d || has v (key n))) [
    | inl stopped ↦ ground arith
    | inr going ↦ λ h.
        walk_never_fails _ n user d (λ m w x. resolve_never_fails fuel m w (d + 1) x)
          (fetch_subjects tenant n rows) (key n ∷ v) e (rw (going, resolve) at h)
  ]

  -- A direct tuple for the user that is stored on the node is found at once, whatever usersets the
  -- loop meets before it.
  resolve_finds :
      (n : Node) (t : Tuple)
      → Memᴰ t (fetch_subjects tenant n rows)
      → is_direct t ≡ true
      → is_user user t ≡ true
      → (p : List ExplainStep) × (resolve (tuple_fetcher rows tenant) check_fuel n user [] 0
          ≡ found p)
  unfolding resolve tuple_fetcher has
  resolve_finds n t m plain mine =
      walk_finds _ n user 0 (λ m w x. resolve_never_fails 26 m w 1 x)
        (λ m w. resolve_total (tuple_fetcher rows tenant) user 26 m w 1 (omega arith) (omega arith))
        t (fetch_subjects tenant n rows) (key n ∷ []) m plain mine

tuple_eq-eq : (t u : Tuple) → tuple_eq t u ≡ true → t ≡ u
tuple_eq-eq t u h = ground (
  arith,
  str_eq_iff t.subject_type u.subject_type,
  str_eq_iff t.subject_id u.subject_id,
  str_eq_iff t.subject_relation u.subject_relation,
)

node_eq_refl : (n : Node) → node_eq n n ≡ true
node_eq_refl n =
    ground (arith, str_eq_refl n.object_type, str_eq_refl n.object_id, str_eq_refl n.relation)

mem_if {ℓ} :
    {A : Type ℓ} {x : A} (y : A) {xs : List A} (b : Bool)
    → Memᴰ x xs
    → Memᴰ x (if b then y ∷ xs else xs)
mem_if y true m = Memᴰ.tail m
mem_if y false m = m

fetch-insert :
    (fresh tenant : ℕ) (n : Node) (t : Tuple) (rows : List Row)
    → Memᴰ t (fetch_subjects tenant n (insert_tuple fresh tenant n t rows).1)
unfolding fetch_subjects insert_tuple
fetch-insert fresh tenant n t [] =
    let here : (tenant == tenant && node_eq n n) ≡ true = ground (arith, node_eq_refl n) in
    rw here (Memᴰ.head refl)
fetch-insert fresh tenant n t (row ∷ rows) = elim (Bool-cases (same_row tenant n t row)) [
  | inl same ↦
      let here : (row.tenant == tenant && node_eq row.object n) ≡ true = ground arith in
      rw (same, here) (Memᴰ.head (sym (tuple_eq-eq row.subject t (ground arith))))
  | inr other ↦
      rw other (
        mem_if _ (row.tenant == tenant && node_eq row.object n)
          (fetch-insert fresh tenant n t rows))
]

-- After a successful Write of a direct user, Check on the same object and relation says yes for
-- that user, whatever was stored before.
pub write-check :
    (fresh : ℕ) (rows rows' : List Row) (tenant : ℕ) (object relation subject : String)
    (s : SubjectRef) (view : TupleView)
    → parse_subject subject ≡ some s
    → str_eq s.type "user" ≡ true
    → str_eq s.relation "" ≡ true
    → write fresh rows tenant object relation subject ≡ ok (view, rows')
    → check (tuple_fetcher rows' tenant) object relation s.id ≡ ok true
unfolding write check
write-check fresh rows rows' tenant object relation subject s view parsed is_a_user direct h =
    go (parse_object object) refl
  where
    go :
        (o : Option ObjectRef)
        → parse_object object ≡ o
        → check (tuple_fetcher rows' tenant) object relation s.id ≡ ok true
    go none q = absurd (ground arith)
    go (some o) q =
        let stored : (insert_tuple fresh tenant (as_node o relation) (as_tuple s) rows).1 ≡ rows' =
          ground arith in
        let (p, e) =
          resolve_finds rows' tenant s.id (as_node o relation) (as_tuple s)
            (subst (λ r. Memᴰ (as_tuple s) (fetch_subjects tenant (as_node o relation) r)) stored
              (fetch-insert fresh tenant (as_node o relation) (as_tuple s) rows))
            direct (ground (arith, str_eq_refl s.id)) in
        ground arith

fetch-insert_ne :
    (fresh tenant other : ℕ) (n m : Node) (t : Tuple) (rows : List Row)
    → tenant ≢ other
    → fetch_subjects other m (insert_tuple fresh tenant n t rows).1 ≡ fetch_subjects other m rows
unfolding fetch_subjects insert_tuple
fetch-insert_ne fresh tenant other n m t [] ne = ground arith
fetch-insert_ne fresh tenant other n m t (row ∷ rows) ne =
    ground (arith, fetch-insert_ne fresh tenant other n m t rows ne)

-- A Write in one tenant changes no answer in another.
pub write_isolated :
    (fresh : ℕ) (rows rows' : List Row) (tenant other : ℕ) (object relation subject : String)
    (view : TupleView) (object' relation' user : String)
    → write fresh rows tenant object relation subject ≡ ok (view, rows')
    → tenant ≢ other
    → check_explain (tuple_fetcher rows' other) object' relation' user
      ≡ check_explain (tuple_fetcher rows other) object' relation' user
unfolding write tuple_fetcher
write_isolated fresh rows rows' tenant other object relation subject view object' relation' user h
      ne =
    ap (λ f. check_explain f object' relation' user)
      (fun_ext (λ m. ap ok (go m (parse_object object) refl (parse_subject subject) refl)))
  where
    go :
        (m : Node) (o : Option ObjectRef)
        → parse_object object ≡ o
        → (s : Option SubjectRef) → parse_subject subject ≡ s
        → fetch_subjects other m rows' ≡ fetch_subjects other m rows
    go m none q s r = absurd (ground arith)
    go m (some o) q none r = absurd (ground arith)
    go m (some o) q (some s) r =
        ground
          (arith, fetch-insert_ne fresh tenant other (as_node o relation) m (as_tuple s) rows ne)
