-- ===== src/Rebac/DepthCap.antt =====
-- The depth cap and the visited set together lose short grants: a node that is first met at the cap
-- is marked, its usersets are cut off, and a later, shorter way to it is then skipped.
use qeet_id.Base.{◌≡◌, refl, String, List, [], ◌∷◌, trim_space, cut}
use qeet_id.Errs.{ok}
use qeet_id.Rebac.Refs.{parse_object, key, subject_string}
use qeet_id.Rebac.Resolve.{has, walk, resolve, explain_step}
use qeet_id.Rebac.Store.{Row, fetch_subjects, tuple_fetcher, check_explain, denied}

abbrev step : String → String → Row
step from to = record {
  id = 0;
  tenant = 1;
  object = record { object_type = "group"; object_id = from; relation = "member" };
  subject = record { subject_type = "group"; subject_id = to; subject_relation = "member" };
}

abbrev staff : Row
staff = record {
  id = 0;
  tenant = 1;
  object = record { object_type = "group"; object_id = "staff"; relation = "member" };
  subject = record { subject_type = "user"; subject_id = "ann"; subject_relation = "" };
}

-- a → b → … → z → staff, and a → z at the end.
abbrev long_way : List Row
long_way =
    step "a" "b"
    ∷ step "b" "c"
    ∷ step "c" "d"
    ∷ step "d" "e"
    ∷ step "e" "f"
    ∷ step "f" "g"
    ∷ step "g" "h"
    ∷ step "h" "i"
    ∷ step "i" "j"
    ∷ step "j" "k"
    ∷ step "k" "l"
    ∷ step "l" "m"
    ∷ step "m" "n"
    ∷ step "n" "o"
    ∷ step "o" "p"
    ∷ step "p" "q"
    ∷ step "q" "r"
    ∷ step "r" "s"
    ∷ step "s" "t"
    ∷ step "t" "u"
    ∷ step "u" "v"
    ∷ step "v" "w"
    ∷ step "w" "x"
    ∷ step "x" "y"
    ∷ step "y" "z"
    ∷ step "z" "staff"
    ∷ step "a" "z"
    ∷ staff
    ∷ []

-- Ann is three tuples away from group a, by z and staff, and is refused.
short_grant_lost : check_explain (tuple_fetcher long_way 1) "group:a" "member" "ann" ≡ ok denied
unfolding check_explain tuple_fetcher fetch_subjects resolve walk has key explain_step
    subject_string parse_object trim_space cut
short_grant_lost = refl
