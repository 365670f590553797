-- ===== src/Rebac/KeyClash.antt =====
-- The visited set of `resolve` (rebac.go) holds texts object#relation: two nodes whose texts are the
-- same, by a '#' in an id or a relation, are taken for one, and a chain through both is lost.
use qeet_id.Base.{◌≡◌, refl, List, [], ◌∷◌, trim_space, cut}
use qeet_id.Errs.{ok}
use qeet_id.Rebac.Refs.{parse_object, key, subject_string}
use qeet_id.Rebac.Resolve.{has, walk, resolve, explain_step}
use qeet_id.Rebac.Store.{Row, fetch_subjects, tuple_fetcher, check_explain, denied}

-- group:a has in relation b#c the members of group:a#b in relation c, which has Ann.
abbrev two_nodes : List Row
two_nodes =
    record {
      id = 0;
      tenant = 1;
      object = record { object_type = "group"; object_id = "a"; relation = "b#c" };
      subject = record { subject_type = "group"; subject_id = "a#b"; subject_relation = "c" };
    }
    ∷ record {
      id = 1;
      tenant = 1;
      object = record { object_type = "group"; object_id = "a#b"; relation = "c" };
      subject = record { subject_type = "user"; subject_id = "ann"; subject_relation = "" };
    }
    ∷ []

-- Ann is two tuples away from group a, and is refused.
chain_lost : check_explain (tuple_fetcher two_nodes 1) "group:a" "b#c" "ann" ≡ ok denied
unfolding check_explain tuple_fetcher fetch_subjects resolve walk has key explain_step
    subject_string parse_object trim_space cut
chain_lost = refl
