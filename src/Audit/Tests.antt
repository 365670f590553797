-- ===== src/Audit/Tests.antt =====
-- A chain of two rows, and the results at it. The hash here is a constant.
use mathlib.Core.List.{Memᴰ}
use mathlib.Core.List.Memᴰ
use qeet_id.Base.{
  ℕ, ◌≡◌, ◌≢◌, ◌⊎◌, refl, sym, ◌∙◌, inl, inr, false, Option, none, some, List, [], ◌∷◌, trim_space,
  arith, All, mem_cases, str_eq_iff,
}
use qeet_id.Audit.Chain.{
  Event, Row, Host, CanonicalRow, chain_seed, precedes, chain, place, tip_of, completed, linked_row,
  record_event, intact, broken, prev_hash_mismatch, verify_rows, verify,
}
use qeet_id.Audit.Append.{IsStable, record_event-verify, record_event-early}
use qeet_id.Audit.Tamper.{Break, history, ToldApart, verify-tamper}

abbrev host : Host
host = record {
  hash_hex = λ s. "f00d";
  marshal = λ c. "{}";
  stored_ip = λ s. s;
  remarshal = λ s. some s;
}

abbrev login : Option ℕ → Event
login tenant = record {
  tenant_id = tenant;
  actor_user_id = some 1;
  actor_type = "";
  action = "user.login";
  resource_type = "session";
  resource_id = some 9;
  ip = "10.0.0.1";
  user_agent = "curl";
  request_id = "r1";
  metadata = "null";
}

abbrev one_login : List Row
one_login = linked_row host (completed (login (some 7))) 11 100 chain_seed ∷ []

one_intact : verify host (some 7) one_login ≡ intact 1 (some 11)
unfolding verify chain place verify_rows trim_space
one_intact = refl

login-IsStable : IsStable host (login (some 7))
unfolding trim_space
login-IsStable = record { hex = λ s. refl; ip = refl; metadata = refl }

later :
    let new =
      linked_row host
        (completed (login (some 7)))
        12
        200
        (tip_of chain_seed (chain (some 7) one_login)) in
    All (λ (x : Row). precedes new x ≡ false) (chain (some 7) one_login)
unfolding chain place
later = (refl, _)

record_event-verify_example :
    verify host (some 7) (record_event host (login (some 7)) 12 200 one_login) ≡ intact 2 (some 12)
record_event-verify_example =
    record_event-verify host (login (some 7)) 12 200 1 (some 11) one_login one_intact login-IsStable
      later

one_chain :
    chain (some 7) one_login ≡ linked_row host (completed (login (some 7))) 11 100 chain_seed ∷ []
unfolding chain place
one_chain = refl

tip_not_seed : trim_space (tip_of chain_seed (chain (some 7) one_login)) ≢ chain_seed
unfolding chain place tip_of trim_space
tip_not_seed = ground (arith, str_eq_iff "f00d" chain_seed)

record_event-early_example :
    verify host (some 7) (record_event host (login (some 7)) 12 50 one_login)
    ≡ broken 0 none 12 prev_hash_mismatch
record_event-early_example =
    record_event-early host (login (some 7)) 12 50 one_login []
      (linked_row host (completed (login (some 7))) 11 100 chain_seed) one_chain (omega arith)
      tip_not_seed

-- The same row twice over, and a row of another tenant beside it.
abbrev beside : List Row
beside = linked_row host (completed (login none)) 13 300 chain_seed ∷ one_login

beside_intact : verify host (some 7) beside ≡ intact 1 (some 11)
unfolding verify chain place verify_rows trim_space
beside_intact = refl

same_tip : tip_of chain_seed (chain (some 7) one_login) ≡ tip_of chain_seed (chain (some 7) beside)
unfolding chain place tip_of
same_tip = refl

one_row-ToldApart :
    ToldApart host
      (history host (chain (some 7) one_login) [])
      (history host (chain (some 7) beside) [])
unfolding chain place history trim_space
one_row-ToldApart c d m n e = only c m ∙ sym (only d n)
  where
    only :
        (x : CanonicalRow)
        → Memᴰ x (history host (chain (some 7) one_login) [])
        → x ≡ record {
          id = 11;
          event = record (completed (login (some 7))) { metadata = "{}" };
          created_at = 100;
          prev_hash = chain_seed;
        }
    only x m = elim (mem_cases m) [ inl q ↦ q | inr n ↦ absurd (Memᴰ.not-nil n) ]

verify-tamper_example :
    (history host (chain (some 7) one_login) [] ≡ history host (chain (some 7) beside) [])
    ⊎ Break host
verify-tamper_example =
    verify-tamper host (some 7) one_login beside 1 1 (some 11) (some 11) one_intact beside_intact
      same_tip one_row-ToldApart
