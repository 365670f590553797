-- ===== src/Outbox/Conserve.antt =====
-- No event is lost (outbox.go).
use qeet_id.Base.{
  ℕ, ◌+◌, ◌≡◌, refl, ◌∙◌, inl, inr, String, List, [], ◌∷◌, ◌++◌, map, ◌==◌, if◌then◌else◌, arith,
  Option-cases,
}
use qeet_id.Outbox.Queue.{
  Item, DeadLetter, Tables, Round, at_id, bump, publish_mark, buried, rows_with, rows_without,
  record_failure, mark_published, dispatch, dispatch_all, tick, due, limit,
}

-- How many rows of the live table and of the dead letters have an id.
unfoldable pub live : ℕ → List Item → ℕ
live id [] = 0
live id (r ∷ rs) = (if r.id == id then 1 else 0) + live id rs

unfoldable pub dead : ℕ → List DeadLetter → ℕ
dead id [] = 0
dead id (d ∷ ds) = (if d.id == id then 1 else 0) + dead id ds

abbrev pub copies : ℕ → Tables → ℕ
copies id ts = live id ts.outbox + dead id ts.dead_letter

live-map :
    (id k : ℕ) (f : Item → Item) (rs : List Item)
    → ((r : Item) → (f r).id ≡ r.id)
    → live id (map (at_id k f) rs) ≡ live id rs
unfolding live
live-map id k f [] h = refl
live-map id k f (r ∷ rs) h = ground (arith, h r, live-map id k f rs h)

moved :
    (id k n : ℕ) (e : String) (rs : List Item) (ds : List DeadLetter)
    → live id (rows_without k rs) + dead id (map (buried n e) (rows_with k rs) ++ ds)
      ≡ live id rs + dead id ds
unfolding live dead rows_without rows_with
moved id k n e [] ds = refl
moved id k n e (r ∷ rs) ds = ground (arith, moved id k n e rs ds)

dispatch-copies :
    (round : Round) (id : ℕ) (r : Item) (s : Tables × List ℕ)
    → copies id (dispatch round r s).0 ≡ copies id s.0
unfolding dispatch record_failure mark_published
dispatch-copies round id r (ts, out) = elim (Option-cases (round.publish r.id)) [
  | inl e ↦ ground (arith, e, live-map id r.id (publish_mark round.now) ts.outbox (λ x. refl))
  | inr (x, e) ↦ ground (
    arith,
    e,
    live-map id r.id (bump (r.attempts + 1) x round.now) ts.outbox (λ x. refl),
    moved id r.id (r.attempts + 1) x ts.outbox ts.dead_letter,
  )
]

dispatch_all-copies :
    (round : Round) (id : ℕ) (rs : List Item) (s : Tables × List ℕ)
    → copies id (dispatch_all round rs s).0 ≡ copies id s.0
unfolding dispatch_all
dispatch_all-copies round id [] s = refl
dispatch_all-copies round id (r ∷ rs) s =
    dispatch_all-copies round id rs (dispatch round r s) ∙ dispatch-copies round id r s

-- Whatever the publisher and the database do in a round, each event is afterwards as many times in
-- the two tables together as before: none is lost and none is doubled.
pub tick-copies :
    (round : Round) (batch_size id : ℕ) (s : Tables × List ℕ)
    → copies id (tick round batch_size s).0 ≡ copies id s.0
unfolding tick
tick-copies round batch_size id s =
    dispatch_all-copies round id (limit batch_size (due round.now s.0.outbox)) s
