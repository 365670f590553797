-- ===== src/Device/Moves.antt =====
-- The life of one device code as a state machine, and the table seen through one hash.
use mathlib.Core.List.{Memᴰ}
use mathlib.Core.List.Memᴰ
use qeet_id.Base.{
  ℕ, ◌≡◌, ◌≢◌, refl, sym, ◌∙◌, ap, subst, ◌⊎◌, inl, inr, String, Bool, true, false, Option, none,
  some, List, [], ◌∷◌, ◌++◌, any, Bool-cases, arith, mem_cases,
}
use qeet_id.Device.Rows.{
  pending, authorized, Device, Env, by_hash, find, at_id, update, touch, deny, approve, consume,
  clashes, insert_device, user_in_tenant,
}

-- The steps of a row. `redeemed` is the only one that comes with tokens.
pub data Move (env : Env) : Device → Device → Type 0 where
  stays : (d : Device) → Move env d d
  touched : (d : Device) (now : ℕ) → Move env d (touch now d)
  denies : (d : Device) → Move env d (deny d)
  approves :
      (d : Device) (user now : ℕ)
      → d.status ≡ pending
      → user_in_tenant user d.tenant env ≡ true
      → Move env d (approve user now d)
  redeems :
      (d : Device) (now : ℕ)
      → d.status ≡ authorized
      → d.consumed_at ≡ none
      → Move env d (consume now (touch now d))

-- A change of a row that keeps its key.
abbrev pub KeepsKey : (Device → Device) → Type 0
KeepsKey f = (d : Device) → ((f d).id ≡ d.id) × ((f d).device_code_hash ≡ d.device_code_hash)

abbrev pub map_some : (Device → Device) → Option Device → Option Device
map_some f none = none
map_some f (some d) = some (f d)

pub by_hash-update :
    (h : String) (id : ℕ) (f : Device → Device) (ds : List Device)
    → KeepsKey f
    → by_hash h (update id f ds) ≡ map_some (at_id id f) (by_hash h ds)
unfolding find update
by_hash-update h id f [] k = refl
by_hash-update h id f (d ∷ ds) k = ground (arith, k d, by_hash-update h id f ds k)

pub by_hash-append :
    (h : String) (ds es : List Device) (d : Device)
    → by_hash h ds ≡ some d
    → by_hash h (ds ++ es) ≡ some d
unfolding find
by_hash-append h [] es d e = absurd (ground arith)
by_hash-append h (c ∷ ds) es d e = ground (arith, by_hash-append h ds es d)

-- Rows with the same id are the same row.
abbrev pub IdsApart : List Device → Type 0
IdsApart ds = (d e : Device) → Memᴰ d ds → Memᴰ e ds → d.id ≡ e.id → d ≡ e

pub mem-find :
    (test : Device → Bool) (ds : List Device) (d : Device)
    → find test ds ≡ some d
    → Memᴰ d ds × (test d ≡ true)
unfolding find
mem-find test [] d e = absurd (ground arith)
mem-find test (c ∷ ds) d e = elim (Bool-cases (test c)) [
  | inl t ↦
      let same : c ≡ d = ground (arith, e, t) in
      (Memᴰ.head (sym same), subst (λ x. test x ≡ true) same t)
  | inr n ↦ let (m, t) = mem-find test ds d (ground (arith, e, n)) in (Memᴰ.tail m, t)
]

pub mem-update :
    (id : ℕ) (f : Device → Device) (ds : List Device) (x : Device)
    → Memᴰ x (update id f ds)
    → (d : Device) × Memᴰ d ds × (x ≡ at_id id f d)
unfolding update
mem-update id f [] x m = absurd (Memᴰ.not-nil m)
mem-update id f (d ∷ ds) x m = elim (mem_cases m) [
  | inl e ↦ (d, Memᴰ.head refl, e)
  | inr later ↦ let (c, n, e) = mem-update id f ds x later in (c, Memᴰ.tail n, e)
]

at_id-id : (id : ℕ) (f : Device → Device) (d : Device) → KeepsKey f → (at_id id f d).id ≡ d.id
at_id-id id f d k = ground (arith, k d)

pub update-IdsApart :
    (id : ℕ) (f : Device → Device) (ds : List Device)
    → KeepsKey f
    → IdsApart ds
    → IdsApart (update id f ds)
update-IdsApart id f ds k apart x y mx my e =
    let (c, mc, ex) = mem-update id f ds x mx in
    let (d, md, ey) = mem-update id f ds y my in
    let ids : c.id ≡ d.id = cc (at_id-id id f c k, at_id-id id f d k, e, ex, ey) in
    ex ∙ (ap (at_id id f) (apart c d mc md ids) ∙ sym ey)

pub mem-append : (ds : List Device) (d x : Device) → Memᴰ x (ds ++ d ∷ []) → Memᴰ x ds ⊎ (x ≡ d)
mem-append [] d x m = elim (mem_cases m) [ inl e ↦ inr e | inr n ↦ absurd (Memᴰ.not-nil n) ]
mem-append (c ∷ ds) d x m = elim (mem_cases m) [
  | inl e ↦ inl (Memᴰ.head e)
  | inr later ↦ elim (mem-append ds d x later) [ inl n ↦ inl (Memᴰ.tail n) | inr e ↦ inr e ]
]

no_clash :
    (d : Device) (ds : List Device) (e : Device)
    → any (clashes d) ds ≡ false
    → Memᴰ e ds
    → d.id ≢ e.id
no_clash d [] e h m = absurd (Memᴰ.not-nil m)
no_clash d (c ∷ ds) e h m = elim (mem_cases m) [
  | inl s ↦ subst (λ (x : Device). d.id ≢ x.id) (sym s) (ground (arith, h))
  | inr later ↦ no_clash d ds e (ground (arith, h)) later
]

pub insert_device_lem :
    (d : Device) (ds es : List Device) → insert_device d ds ≡ some es → ds ++ d ∷ [] ≡ es
unfolding insert_device
insert_device_lem d ds es h = elim (Bool-cases (any (clashes d) ds)) [
  | inl c ↦ absurd (ground (arith, h, c))
  | inr c ↦ ground (arith, h, c)
]

pub insert_device-IdsApart :
    (d : Device) (ds es : List Device) → insert_device d ds ≡ some es → IdsApart ds → IdsApart es
unfolding insert_device
insert_device-IdsApart d ds es h apart = elim (Bool-cases (any (clashes d) ds)) [
  | inl c ↦ absurd (ground (arith, h, c))
  | inr c ↦
      let same : ds ++ d ∷ [] ≡ es = ground (arith, h, c) in
      subst IdsApart same
        λ x y mx my e. joined x y e (no_clash d ds) c (mem-append ds d x mx) (mem-append ds d y my)
]
  where
    joined :
        (x y : Device)
        → x.id ≡ y.id
        → ((e : Device) → any (clashes d) ds ≡ false → Memᴰ e ds → d.id ≢ e.id)
        → any (clashes d) ds ≡ false
        → Memᴰ x ds ⊎ (x ≡ d)
        → Memᴰ y ds ⊎ (y ≡ d)
        → x ≡ y
    joined x y e n c (inl mx) (inl my) = apart x y mx my e
    joined x y e n c (inl mx) (inr q) = absurd (n x c mx (cc))
    joined x y e n c (inr p) (inl my) = absurd (n y c my (cc))
    joined x y e n c (inr p) (inr q) = p ∙ sym q

pub by_hash-insert_device :
    (h : String) (d : Device) (ds es : List Device) (r : Device)
    → insert_device d ds ≡ some es
    → by_hash h ds ≡ some r
    → by_hash h es ≡ some r
unfolding insert_device
by_hash-insert_device h d ds es r ins e = elim (Bool-cases (any (clashes d) ds)) [
  | inl c ↦ absurd (ground (arith, ins, c))
  | inr c ↦
      let same : ds ++ d ∷ [] ≡ es = ground (arith, ins, c) in
      subst (λ x. by_hash h x ≡ some r) same (by_hash-append h ds (d ∷ []) r e)
]
