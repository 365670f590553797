-- ===== src/Outbox/Queue.antt =====
-- The outbox table, its dead-letter table and one round of the dispatcher (outbox.go). Times are
-- milliseconds of the database. What the publisher and the database do in a round is an argument.
use qeet_id.Base.{
  ℕ, zero, suc, ◌+◌, ◌*◌, ◌^◌, String, Bool, true, false, ◌&&◌, Option, none, some, List, [], ◌∷◌,
  ◌++◌, map, any, ◌==◌, ltb, leb, if◌then◌else◌,
}
use qeet_id.Errs.{Result, ok, err, storage}

-- A row of platform.outbox.
pub record Item : Type 0 where
  pub id : ℕ
  pub aggregate_id : ℕ
  pub topic : String
  pub event_type : String
  pub payload : String
  pub created_at : ℕ
  pub attempts : ℕ
  pub last_error : Option String
  pub last_attempt_at : Option ℕ
  pub published_at : Option ℕ

-- A row of platform.outbox_dead_letter.
pub record DeadLetter : Type 0 where
  pub id : ℕ
  pub aggregate_id : ℕ
  pub topic : String
  pub event_type : String
  pub payload : String
  pub created_at : ℕ
  pub attempts : ℕ
  pub last_error : String

pub record Tables : Type 0 where
  pub outbox : List Item
  pub dead_letter : List DeadLetter

-- What `Publish` answers for an id, `none` for success, and whether the statement or the transaction
-- that follows for this id goes through.
pub record Round : Type 0 where
  pub now : ℕ
  pub publish : ℕ → Option String
  pub writes : ℕ → Bool

abbrev pub default_max_attempts : ℕ
default_max_attempts = 10

-- LEAST(POWER(2, attempts), 300) seconds
abbrev pub backoff : ℕ → ℕ
backoff attempts = (if leb (2 ^ attempts) 300 then 2 ^ attempts else 300) * 1000

abbrev pub waited : ℕ → ℕ → Option ℕ → Bool
waited now attempts none = true
waited now attempts (some last) = ltb (last + backoff attempts) now

abbrev pub unpublished : Option ℕ → Bool
unpublished none = true
unpublished (some t) = false

abbrev pub is_due : ℕ → Item → Bool
is_due now r = unpublished r.published_at && waited now r.attempts r.last_attempt_at

-- The rows that are due, by ORDER BY created_at.
unfoldable pub place : Item → List Item → List Item
place r [] = r ∷ []
place r (x ∷ xs) =
    let rest = place r xs in if leb r.created_at x.created_at then r ∷ x ∷ xs else x ∷ rest

unfoldable pub due : ℕ → List Item → List Item
unfolding place
due now [] = []
due now (r ∷ rs) = let rest = due now rs in if is_due now r then place r rest else rest

-- LIMIT $1
unfoldable pub limit : ℕ → List Item → List Item
limit zero rs = []
limit (suc n) [] = []
limit (suc n) (r ∷ rs) = r ∷ limit n rs

abbrev pub at_id : ℕ → (Item → Item) → Item → Item
at_id id f r = if r.id == id then f r else r

abbrev pub publish_mark : ℕ → Item → Item
publish_mark now r = record r { published_at = some now }

abbrev pub bump : ℕ → String → ℕ → Item → Item
bump attempts e now r = record r {
  attempts = attempts;
  last_error = some e;
  last_attempt_at = some now;
}

abbrev pub buried : ℕ → String → Item → DeadLetter
buried attempts e r = record {
  id = r.id;
  aggregate_id = r.aggregate_id;
  topic = r.topic;
  event_type = r.event_type;
  payload = r.payload;
  created_at = r.created_at;
  attempts = attempts;
  last_error = e;
}

-- SELECT … WHERE id = $3, and what DELETE … WHERE id = $1 leaves.
unfoldable pub rows_with : ℕ → List Item → List Item
rows_with id [] = []
rows_with id (r ∷ rs) = let rest = rows_with id rs in if r.id == id then r ∷ rest else rest

unfoldable pub rows_without : ℕ → List Item → List Item
rows_without id [] = []
rows_without id (r ∷ rs) = let rest = rows_without id rs in if r.id == id then rest else r ∷ rest

-- The transaction fails where the id is in the dead letters already.
abbrev pub bury : ℕ → ℕ → String → Tables → Tables
bury id attempts e ts = if any (λ (d : DeadLetter). d.id == id) ts.dead_letter then ts else record {
  outbox = rows_without id ts.outbox;
  dead_letter = map (buried attempts e) (rows_with id ts.outbox) ++ ts.dead_letter;
}

unfoldable pub record_failure : Round → ℕ → ℕ → String → Tables → Tables
unfolding rows_with rows_without
record_failure round id attempts e ts =
    if round.writes id
    then if ltb attempts default_max_attempts
      then record ts { outbox = map (at_id id (bump attempts e round.now)) ts.outbox }
      else bury id attempts e ts
    else ts

unfoldable pub mark_published : Round → ℕ → Tables → Tables
mark_published round id ts =
    if round.writes id
    then record ts { outbox = map (at_id id (publish_mark round.now)) ts.outbox }
    else ts

-- One row of the batch, and the ids that were published so far.
unfoldable pub dispatch : Round → Item → Tables × List ℕ → Tables × List ℕ
unfolding record_failure mark_published
dispatch round r (ts, out) = elim (round.publish r.id) [
  | none ↦ (mark_published round r.id ts, r.id ∷ out)
  | some e ↦ (record_failure round r.id (r.attempts + 1) e ts, out)
]

unfoldable pub dispatch_all : Round → List Item → Tables × List ℕ → Tables × List ℕ
dispatch_all round [] s = s
dispatch_all round (r ∷ rs) s = dispatch_all round rs (dispatch round r s)

unfoldable pub tick : Round → ℕ → Tables × List ℕ → Tables × List ℕ
unfolding due limit dispatch_all
tick round batch_size s = dispatch_all round (limit batch_size (due round.now s.0.outbox)) s

-- `Enqueue`: the INSERT fails on an id that is there already.
unfoldable pub enqueue : Item → Tables → Result Tables
enqueue r ts =
    if any (λ (x : Item). x.id == r.id) ts.outbox
    then err (storage "23505")
    else ok (record ts {
      outbox =
          record r { attempts = 0; last_error = none; last_attempt_at = none; published_at = none }
          ∷ ts.outbox;
    })
