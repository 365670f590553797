-- ===== src/Rebac/Tests.antt =====
-- Runs over a small store: a document shared with a group that contains itself.
use mathlib.Core.List.{Memᴰ}
use qeet_id.Base.{◌≡◌, refl, ◌≢◌, ◌↔◌, true, List, [], ◌∷◌, some, arith, trim_space, cut, cut_last}
use qeet_id.Errs.{ok}
use qeet_id.Rebac.Refs.{Node, parse_object, parse_subject, subject_string, key}
use qeet_id.Rebac.Resolve.{Tuple, ExplainStep, explain_step, has, walk, resolve}
use qeet_id.Rebac.Sound.{Chain}
use qeet_id.Rebac.Store.{
  Row, TupleView, granted, denied, diverged, insert_tuple, fetch_subjects, tuple_fetcher, write,
  check, check_explain,
}
use qeet_id.Rebac.Service.{check_explain_sound, check_explain_total, check_iff}
use qeet_id.Rebac.WriteCheck.{write-check}
use qeet_id.Rebac.Keys.{IsWellFormed}
use qeet_id.Rebac.Covering.{Covers-of_rows}
use qeet_id.Rebac.Expand.{Graph, expanded, expand, expand_object}
use qeet_id.Rebac.Edges.{Shown, expand_object-Shown}

abbrev readme : Node
readme = record { object_type = "doc"; object_id = "readme"; relation = "viewer" }

abbrev eng : Node
eng = record { object_type = "group"; object_id = "eng"; relation = "member" }

abbrev eng_members : Tuple
eng_members = record { subject_type = "group"; subject_id = "eng"; subject_relation = "member" }

abbrev ann : Tuple
ann = record { subject_type = "user"; subject_id = "ann"; subject_relation = "" }

abbrev rows : List Row
rows =
    record { id = 1; tenant = 7; object = readme; subject = eng_members }
    ∷ record { id = 2; tenant = 7; object = eng; subject = eng_members }
    ∷ record { id = 3; tenant = 7; object = eng; subject = ann }
    ∷ []

abbrev ann_path : List ExplainStep
ann_path =
    record { object = "doc:readme"; relation = "viewer"; subject = "group:eng#member"; depth = 0 }
    ∷ record { object = "group:eng"; relation = "member"; subject = "user:ann"; depth = 1 }
    ∷ []

ann_reads : check_explain (tuple_fetcher rows 7) "doc:readme" "viewer" "ann" ≡ ok (granted ann_path)
unfolding check_explain tuple_fetcher fetch_subjects resolve walk has key explain_step
    subject_string parse_object trim_space cut
ann_reads = refl

bob_does_not : check_explain (tuple_fetcher rows 7) "doc:readme" "viewer" "bob" ≡ ok denied
unfolding check_explain tuple_fetcher fetch_subjects resolve walk has key explain_step
    subject_string parse_object trim_space cut
bob_does_not = refl

readme_parsed : parse_object "doc:readme" ≡ some (record { type = "doc"; id = "readme" })
unfolding parse_object trim_space cut
readme_parsed = refl

check_explain_sound_example : Chain (tuple_fetcher rows 7) "ann" readme 0 ann_path
check_explain_sound_example =
    check_explain_sound (tuple_fetcher rows 7) "doc:readme" "viewer" "ann" _ ann_path readme_parsed
      ann_reads

check_explain_total_example :
    check_explain (tuple_fetcher rows 7) "doc:readme" "viewer" "bob" ≢ ok diverged
check_explain_total_example = check_explain_total (tuple_fetcher rows 7) "doc:readme" "viewer" "bob"

readme_formed : IsWellFormed readme
readme_formed = record { type_clean = ground arith; relation_clean = ground arith }

eng_formed : IsWellFormed eng
eng_formed = record { type_clean = ground arith; relation_clean = ground arith }

check_iff_example :
    (check (tuple_fetcher rows 7) "doc:readme" "viewer" "ann" ≡ ok true)
    ↔ ((path : List ExplainStep) × Chain (tuple_fetcher rows 7) "ann" readme 0 path)
check_iff_example =
    check_iff (tuple_fetcher rows 7) "doc:readme" "viewer" "ann" _ (readme ∷ eng ∷ []) readme_parsed
      (Covers-of_rows rows 7 (readme ∷ eng ∷ [])
        (λ _. Memᴰ.tail (Memᴰ.head refl), (λ _. Memᴰ.tail (Memᴰ.head refl), (λ e. cc, tt)))
        (readme_formed, (eng_formed, tt)) (omega arith))
      (Memᴰ.head refl)

abbrev cat_row : Row
cat_row = record {
  id = 9;
  tenant = 7;
  object = readme;
  subject = record { subject_type = "user"; subject_id = "cat"; subject_relation = "" };
}

abbrev cat_view : TupleView
cat_view = record { id = 9; object = "doc:readme"; relation = "viewer"; subject = "user:cat" }

abbrev grown : List Row
grown =
    record { id = 1; tenant = 7; object = readme; subject = eng_members }
    ∷ record { id = 2; tenant = 7; object = eng; subject = eng_members }
    ∷ record { id = 3; tenant = 7; object = eng; subject = ann }
    ∷ cat_row
    ∷ []

cat_parsed : parse_subject "user:cat" ≡ some (record { type = "user"; id = "cat"; relation = "" })
unfolding parse_subject parse_object trim_space cut cut_last
cat_parsed = refl

cat_written : write 9 rows 7 "doc:readme" "viewer" "user:cat" ≡ ok (cat_view, grown)
unfolding write insert_tuple parse_subject parse_object trim_space cut cut_last subject_string
cat_written = refl

write-check_example : check (tuple_fetcher grown 7) "doc:readme" "viewer" "cat" ≡ ok true
write-check_example =
    write-check 9 rows grown 7 "doc:readme" "viewer" "user:cat" _ cat_view cat_parsed refl refl
      cat_written

abbrev shared : Graph
shared = record {
  visited = "group:eng#member" ∷ "doc:readme#viewer" ∷ [];
  nodes =
      record { id = "user:ann"; type = "user"; label = "ann" }
      ∷ record { id = "group:eng"; type = "group"; label = "eng" }
      ∷ record { id = "doc:readme"; type = "doc"; label = "readme" }
      ∷ [];
  edges =
      record { from = "doc:readme"; to = "group:eng"; relation = "viewer → member" }
      ∷ record { from = "group:eng"; to = "group:eng"; relation = "member → member" }
      ∷ record { from = "group:eng"; to = "user:ann"; relation = "member" }
      ∷ [];
}

readme_expanded : expand_object (tuple_fetcher rows 7) "doc:readme" "viewer" ≡ ok (expanded shared)
unfolding expand_object expand tuple_fetcher fetch_subjects has key parse_object trim_space cut
readme_expanded = refl

expand_object-Shown_example : Shown (tuple_fetcher rows 7) shared
expand_object-Shown_example =
    expand_object-Shown (tuple_fetcher rows 7) "doc:readme" "viewer" shared readme_expanded
