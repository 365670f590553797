-- ===== src/Outbox/Deliver.antt =====
-- A due event is delivered when the publisher and the database answer (outbox.go).
use mathlib.Core.List.{Memᴰ}
use mathlib.Core.List.Memᴰ
use qeet_id.Base.{
  ℕ, ◌+◌, ◌≡◌, subst, inl, inr, String, true, not, ◌||◌, none, List, [], ◌∷◌, map, any, ◌==◌, ltb,
  arith, Bool-cases, Option-cases, All, mem_cases,
}
use qeet_id.Outbox.Queue.{
  Item, DeadLetter, Tables, Round, at_id, bump, publish_mark, rows_without, bury, record_failure,
  mark_published, dispatch, dispatch_all, tick, due, limit, default_max_attempts, unpublished,
}

module _ (id : ℕ) where
  -- A row with the id is marked as published.
  abbrev pub IsMarked : Item → Type 0
  IsMarked x = (not (x.id == id) || not (unpublished x.published_at)) ≡ true

  abbrev pub AllMarked : Tables × List ℕ → Type 0
  AllMarked s = All IsMarked s.0.outbox

  map-IsMarked :
      (k : ℕ) (f : Item → Item) (rs : List Item)
      → ((r : Item) → IsMarked r → IsMarked (f r))
      → All IsMarked rs
      → All IsMarked (map (at_id k f) rs)
  map-IsMarked k f [] h a = _
  map-IsMarked k f (r ∷ rs) h (m, a) = (ground (arith, m, h r m), map-IsMarked k f rs h a)

  mark-IsMarked : (now : ℕ) (rs : List Item) → All IsMarked (map (at_id id (publish_mark now)) rs)
  mark-IsMarked now [] = _
  mark-IsMarked now (r ∷ rs) = (ground arith, mark-IsMarked now rs)

  without-IsMarked : (k : ℕ) (rs : List Item) → All IsMarked rs → All IsMarked (rows_without k rs)
  unfolding rows_without
  without-IsMarked k [] a = _
  without-IsMarked k (r ∷ rs) (m, a) = elim (Bool-cases (r.id == k)) [
    | inl e ↦ rw e (without-IsMarked k rs a)
    | inr e ↦ rw e (m, without-IsMarked k rs a)
  ]

  bury-AllMarked :
      (k n : ℕ) (e : String) (ts : Tables)
      → All IsMarked ts.outbox
      → All IsMarked (bury k n e ts).outbox
  bury-AllMarked k n e ts a =
      elim (Bool-cases (any (λ (d : DeadLetter). d.id == k) ts.dead_letter)) [
        | inl q ↦ rw q a
        | inr q ↦ rw q (without-IsMarked k ts.outbox a)
      ]

  dispatch-AllMarked :
      (round : Round) (r : Item) (s : Tables × List ℕ)
      → AllMarked s
      → AllMarked (dispatch round r s)
  unfolding dispatch record_failure mark_published
  dispatch-AllMarked round r (ts, out) a = elim (Option-cases (round.publish r.id)) [
    | inl e ↦ elim (Bool-cases (round.writes r.id)) [
      | inl w ↦
          rw (e, dispatch, w)
            (map-IsMarked r.id (publish_mark round.now) ts.outbox (λ x m. ground (arith, m)) a)
      | inr w ↦ rw (e, dispatch, w) a
    ]
    | inr (x, e) ↦ elim (Bool-cases (round.writes r.id)) [
      | inr w ↦ rw (e, dispatch, w) a
      | inl w ↦ elim (Bool-cases (ltb (r.attempts + 1) default_max_attempts)) [
        | inl l ↦
            rw (e, dispatch, w, l)
              (map-IsMarked r.id (bump (r.attempts + 1) x round.now) ts.outbox
                (λ y m. ground (arith, m)) a)
        | inr l ↦ rw (e, dispatch, w, l) (bury-AllMarked r.id (r.attempts + 1) x ts a)
      ]
    ]
  ]

  dispatch_all-AllMarked :
      (round : Round) (rs : List Item) (s : Tables × List ℕ)
      → AllMarked s
      → AllMarked (dispatch_all round rs s)
  unfolding dispatch_all
  dispatch_all-AllMarked round [] s a = a
  dispatch_all-AllMarked round (r ∷ rs) s a =
      dispatch_all-AllMarked round rs (dispatch round r s) (dispatch-AllMarked round r s a)

dispatch_marks :
    (round : Round) (r : Item) (s : Tables × List ℕ)
    → round.publish r.id ≡ none
    → round.writes r.id ≡ true
    → AllMarked r.id (dispatch round r s)
unfolding dispatch mark_published
dispatch_marks round r (ts, out) p w = rw (p, dispatch, w) (mark-IsMarked r.id round.now ts.outbox)

dispatch_all-delivers :
    (round : Round) (r : Item) (rs : List Item) (s : Tables × List ℕ)
    → Memᴰ r rs
    → round.publish r.id ≡ none
    → round.writes r.id ≡ true
    → AllMarked r.id (dispatch_all round rs s)
unfolding dispatch_all
dispatch_all-delivers round r [] s m p w = absurd (Memᴰ.not-nil m)
dispatch_all-delivers round r (q ∷ rs) s m p w = elim (mem_cases m) [
  | inl e ↦
      dispatch_all-AllMarked r.id round rs (dispatch round q s)
        (subst (λ (x : Item). AllMarked r.id (dispatch round x s)) e (dispatch_marks round r s p w))
  | inr later ↦ dispatch_all-delivers round r rs (dispatch round q s) later p w
]

-- When a row is in the batch of a round, the publisher takes it and the database takes its mark, then
-- after the round no row with its id is left unpublished in the live table, whatever happens to the
-- other rows of the batch.
pub tick-delivers :
    (round : Round) (batch_size : ℕ) (s : Tables × List ℕ) (r : Item)
    → Memᴰ r (limit batch_size (due round.now s.0.outbox))
    → round.publish r.id ≡ none
    → round.writes r.id ≡ true
    → AllMarked r.id (tick round batch_size s)
unfolding tick
tick-delivers round batch_size s r m p w =
    dispatch_all-delivers round r (limit batch_size (due round.now s.0.outbox)) s m p w
