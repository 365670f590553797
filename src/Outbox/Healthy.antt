-- ===== src/Outbox/Healthy.antt =====
-- What every row of the two tables keeps to (outbox.go).
use qeet_id.Base.{
  ℕ, zero, suc, ◌+◌, ◌≤◌, ◌<◌, ◌≡◌, refl, inl, inr, String, Bool, true, ◌||◌, List, [], ◌∷◌, map,
  any, ◌==◌, ltb, leb, arith, Bool-cases, Option-cases, ==_iff, All, All-append,
}
use qeet_id.Outbox.Queue.{
  Item, DeadLetter, Tables, Round, at_id, bump, publish_mark, buried, rows_with, rows_without, bury,
  record_failure, mark_published, dispatch, dispatch_all, tick, due, place, limit, is_due,
  default_max_attempts, unpublished,
}

abbrev pub was_published : List ℕ → ℕ → Bool
was_published out id = any (λ (i : ℕ). i == id) out

-- A live row was tried fewer than ten times, and is marked as published only if it was published.
abbrev pub ItemKept : List ℕ → Item → Type 0
ItemKept out r =
    (r.attempts < default_max_attempts)
    × ((unpublished r.published_at || was_published out r.id) ≡ true)

-- A dead letter was tried ten times.
abbrev pub LetterKept : DeadLetter → Type 0
LetterKept d = d.attempts ≡ default_max_attempts

pub record IsHealthy (s : Tables × List ℕ) : Type 0 where
  pub items : All (ItemKept s.1) s.0.outbox
  pub letters : All LetterKept s.0.dead_letter

module _ (out : List ℕ) where
  map-Kept :
      (id : ℕ) (f : Item → Item) (rs : List Item)
      → ((r : Item) → ItemKept out r → ItemKept out (at_id id f r))
      → All (ItemKept out) rs
      → All (ItemKept out) (map (at_id id f) rs)
  map-Kept id f [] h a = _
  map-Kept id f (r ∷ rs) h (k, a) = (h r k, map-Kept id f rs h a)

  without-Kept :
      (id : ℕ) (rs : List Item) → All (ItemKept out) rs → All (ItemKept out) (rows_without id rs)
  unfolding rows_without
  without-Kept id [] a = _
  without-Kept id (r ∷ rs) (k, a) = elim (Bool-cases (r.id == id)) [
    | inl e ↦ rw e (without-Kept id rs a)
    | inr e ↦ rw e (k, without-Kept id rs a)
  ]

  grown-Kept : (id : ℕ) (rs : List Item) → All (ItemKept out) rs → All (ItemKept (id ∷ out)) rs
  grown-Kept id [] a = _
  grown-Kept id (r ∷ rs) (k, a) = (ground (arith, k), grown-Kept id rs a)

  bump-Kept :
      (id n now : ℕ) (e : String) (r : Item)
      → n < default_max_attempts
      → ItemKept out r
      → ItemKept out (at_id id (bump n e now) r)
  bump-Kept id n now e r b k = ground (arith, b, k)

  mark-Kept :
      (id now : ℕ) (r : Item)
      → was_published out id ≡ true
      → ItemKept out r
      → ItemKept out (at_id id (publish_mark now) r)
  mark-Kept id now r p k = elim (Bool-cases (r.id == id)) [
    | inl e ↦ ground (arith, e, k, p, (==_iff r.id id).0 e)
    | inr e ↦ ground (arith, e, k)
  ]

buried-Kept : (n : ℕ) (e : String) (rs : List Item) → n ≡ 10 → All LetterKept (map (buried n e) rs)
buried-Kept n e [] h = _
buried-Kept n e (r ∷ rs) h = (h, buried-Kept n e rs h)

limit-Kept :
    (out : List ℕ) (n : ℕ) (rs : List Item)
    → All (ItemKept out) rs
    → All (ItemKept out) (limit n rs)
unfolding limit
limit-Kept out zero rs a = _
limit-Kept out (suc n) [] a = _
limit-Kept out (suc n) (r ∷ rs) (k, a) = (k, limit-Kept out n rs a)

place-Kept :
    (out : List ℕ) (r : Item) (rs : List Item)
    → ItemKept out r
    → All (ItemKept out) rs
    → All (ItemKept out) (place r rs)
unfolding place
place-Kept out r [] k a = (k, a)
place-Kept out r (x ∷ xs) k (l, a) = elim (Bool-cases (leb r.created_at x.created_at)) [
  | inl e ↦ rw e (k, (l, a))
  | inr e ↦ rw e (l, place-Kept out r xs k a)
]

due-Kept :
    (out : List ℕ) (now : ℕ) (rs : List Item)
    → All (ItemKept out) rs
    → All (ItemKept out) (due now rs)
unfolding due
due-Kept out now [] a = _
due-Kept out now (r ∷ rs) (k, a) = elim (Bool-cases (is_due now r)) [
  | inl e ↦ rw e (place-Kept out r (due now rs) k (due-Kept out now rs a))
  | inr e ↦ rw e (due-Kept out now rs a)
]

-- The rows of a batch were tried fewer than ten times before.
abbrev pub Tried : Item → Type 0
Tried r = r.attempts < default_max_attempts

kept-Tried : (out : List ℕ) (rs : List Item) → All (ItemKept out) rs → All Tried rs
kept-Tried out [] a = _
kept-Tried out (r ∷ rs) (k, a) = (k.0, kept-Tried out rs a)

bury-IsHealthy :
    (id n : ℕ) (e : String) (ts : Tables) (out : List ℕ)
    → n ≡ default_max_attempts
    → IsHealthy (ts, out)
    → IsHealthy (bury id n e ts, out)
bury-IsHealthy id n e ts out ten h =
    elim (Bool-cases (any (λ (d : DeadLetter). d.id == id) ts.dead_letter)) [
      | inl q ↦ rw q h
      | inr q ↦ rw q (record {
        items = without-Kept out id ts.outbox h.items;
        letters =
            All-append LetterKept (map (buried n e) (rows_with id ts.outbox)) ts.dead_letter
              (buried-Kept n e (rows_with id ts.outbox) ten) h.letters;
      })
    ]

record_failure-IsHealthy :
    (round : Round) (id n : ℕ) (e : String) (ts : Tables) (out : List ℕ)
    → n ≤ default_max_attempts
    → IsHealthy (ts, out)
    → IsHealthy (record_failure round id n e ts, out)
unfolding record_failure
record_failure-IsHealthy round id n e ts out b h = elim (Bool-cases (round.writes id)) [
  | inr w ↦ rw w h
  | inl w ↦ elim (Bool-cases (ltb n default_max_attempts)) [
    | inl l ↦
        rw (w, l)
          (record {
            items =
                map-Kept out id (bump n e round.now) ts.outbox
                  (λ r k. bump-Kept out id n round.now e r (ground (arith, l)) k) h.items;
            letters = h.letters;
          })
    | inr l ↦ rw (w, l) (bury-IsHealthy id n e ts out (ground (arith, l, b)) h)
  ]
]

mark_published-IsHealthy :
    (round : Round) (id : ℕ) (ts : Tables) (out : List ℕ)
    → IsHealthy (ts, out)
    → IsHealthy (mark_published round id ts, id ∷ out)
unfolding mark_published
mark_published-IsHealthy round id ts out h =
    let grown = grown-Kept out id ts.outbox h.items in
    elim (Bool-cases (round.writes id)) [
      | inr w ↦ rw w (record { items = grown; letters = h.letters })
      | inl w ↦ rw w (record {
        items =
            map-Kept (id ∷ out) id (publish_mark round.now) ts.outbox
              (λ r k. mark-Kept (id ∷ out) id round.now r (ground (arith, (==_iff id id).1 refl)) k)
              grown;
        letters = h.letters;
      })
    ]

dispatch-IsHealthy :
    (round : Round) (r : Item) (ts : Tables) (out : List ℕ)
    → Tried r
    → IsHealthy (ts, out)
    → IsHealthy (dispatch round r (ts, out))
unfolding dispatch
dispatch-IsHealthy round r ts out t h = elim (Option-cases (round.publish r.id)) [
  | inl e ↦ rw (e, dispatch) (mark_published-IsHealthy round r.id ts out h)
  | inr (x, e) ↦
      rw (e, dispatch)
        (record_failure-IsHealthy round r.id (r.attempts + 1) x ts out (omega (arith, t)) h)
]

dispatch_all-IsHealthy :
    (round : Round) (rs : List Item) (s : Tables × List ℕ)
    → All Tried rs
    → IsHealthy s
    → IsHealthy (dispatch_all round rs s)
unfolding dispatch_all
dispatch_all-IsHealthy round [] s a h = h
dispatch_all-IsHealthy round (r ∷ rs) s (t, a) h =
    dispatch_all-IsHealthy round rs (dispatch round r s) a (dispatch-IsHealthy round r s.0 s.1 t h)

-- Whatever the publisher and the database do in a round: if before it every live row was tried fewer
-- than ten times, every dead letter exactly ten times, and every row that is marked as published was
-- published, then the same holds after it.
pub tick-IsHealthy :
    (round : Round) (batch_size : ℕ) (s : Tables × List ℕ)
    → IsHealthy s
    → IsHealthy (tick round batch_size s)
unfolding tick
tick-IsHealthy round batch_size s h =
    let batch = limit batch_size (due round.now s.0.outbox) in
    dispatch_all-IsHealthy round batch s
      (kept-Tried s.1 batch (
        limit-Kept s.1 batch_size (due round.now s.0.outbox)
          (due-Kept s.1 round.now s.0.outbox h.items)))
      h
