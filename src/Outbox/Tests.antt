-- ===== src/Outbox/Tests.antt =====
-- Two events in the queue, one of them at its last attempt, and the results at one round.
use mathlib.Core.List.{Memᴰ}
use qeet_id.Base.{ℕ, ◌≡◌, refl, true, none, some, List, [], ◌∷◌, arith, ◌==◌, if◌then◌else◌}
use qeet_id.Outbox.Queue.{
  Item, Tables, Round, tick, due, place, limit, dispatch, dispatch_all, record_failure,
  mark_published, rows_with, rows_without,
}
use qeet_id.Outbox.Conserve.{copies, tick-copies}
use qeet_id.Outbox.Healthy.{IsHealthy, tick-IsHealthy}

abbrev event : ℕ → ℕ → Item
event id attempts = record {
  id = id;
  aggregate_id = 1;
  topic = "abac.events";
  event_type = "abac_policy.created";
  payload = "{}";
  created_at = id;
  attempts = attempts;
  last_error = none;
  last_attempt_at = none;
  published_at = none;
}

abbrev queue : Tables × List ℕ
queue = (record { outbox = event 2 0 ∷ event 1 9 ∷ []; dead_letter = [] }, [])

-- The publisher refuses event 1.
abbrev round : Round
round = record {
  now = 5000;
  publish = λ id. if id == 1 then some "bad payload" else none;
  writes = λ id. true;
}

one_buried :
    (tick round 50 queue).0.dead_letter
    ≡ record {
      id = 1;
      aggregate_id = 1;
      topic = "abac.events";
      event_type = "abac_policy.created";
      payload = "{}";
      created_at = 1;
      attempts = 10;
      last_error = "bad payload";
    }
      ∷ []
unfolding tick due place limit dispatch dispatch_all record_failure mark_published rows_with
    rows_without
one_buried = refl

tick-copies_example : copies 1 (tick round 50 queue).0 ≡ copies 1 queue.0
tick-copies_example = tick-copies round 50 1 queue

tick-IsHealthy_example : IsHealthy (tick round 50 queue)
tick-IsHealthy_example =
    tick-IsHealthy round 50 queue
      (record { items = ((omega arith, refl), ((omega arith, refl), _)); letters = _ })

in_batch : Memᴰ (event 2 0) (limit 50 (due round.now queue.0.outbox))
unfolding due place limit
in_batch = Memᴰ.tail (Memᴰ.head refl)
