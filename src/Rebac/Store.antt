-- ===== src/Rebac/Store.antt =====
-- The relation tuples of all tenants, and the operations on them (rebac.go, `Service`, over the
-- statements of dbgen/queries.sql.go). Row ids are numbers; a new one is drawn by the caller, as the
-- database draws it. The statements themselves are taken to succeed.
use qeet_id.Base.{
  ℕ, String, Bool, true, false, not, ◌&&◌, Option, none, some, List, [], ◌∷◌, str_eq, ◌==◌,
  if◌then◌else◌, trim_space,
}
use qeet_id.Errs.{Result, ok, err, ◌>>=◌, ◌>>◌, guard, not_found, unprocessable}
use qeet_id.Rebac.Refs.{ObjectRef, SubjectRef, Node, parse_object, parse_subject, subject_string}
use qeet_id.Rebac.Resolve.{
  Tuple, Fetcher, ExplainStep, Search, failed, found, missed, out_of_fuel, resolve,
}

pub record Row : Type 0 where
  pub id : ℕ
  pub tenant : ℕ
  pub object : Node
  pub subject : Tuple

-- The read projection.
pub record TupleView : Type 0 where
  pub id : ℕ
  pub object : String
  pub relation : String
  pub subject : String

abbrev pub node_eq : Node → Node → Bool
node_eq n m =
    str_eq n.object_type m.object_type
    && (str_eq n.object_id m.object_id && str_eq n.relation m.relation)

abbrev pub tuple_eq : Tuple → Tuple → Bool
tuple_eq t u =
    str_eq t.subject_type u.subject_type
    && (str_eq t.subject_id u.subject_id && str_eq t.subject_relation u.subject_relation)

-- The columns of the unique constraint.
abbrev pub same_row : ℕ → Node → Tuple → Row → Bool
same_row tenant n t row = row.tenant == tenant && (node_eq row.object n && tuple_eq row.subject t)

-- INSERT … ON CONFLICT DO UPDATE … RETURNING id
unfoldable pub insert_tuple : ℕ → ℕ → Node → Tuple → List Row → ℕ × List Row
insert_tuple fresh tenant n t [] =
    (fresh, record { id = fresh; tenant = tenant; object = n; subject = t } ∷ [])
insert_tuple fresh tenant n t (row ∷ rows) =
    let (id, rest) = insert_tuple fresh tenant n t rows in
    if same_row tenant n t row then (row.id, row ∷ rows) else (id, row ∷ rest)

-- DELETE … WHERE id = $1 AND tenant_id = $2; ids are unique, so at most one row goes.
unfoldable pub delete_tuple : ℕ → ℕ → List Row → Option (List Row)
delete_tuple id tenant [] = none
delete_tuple id tenant (row ∷ rows) =
    if row.id == id && row.tenant == tenant
    then some rows
    else elim (delete_tuple id tenant rows) [ none ↦ none | some rest ↦ some (row ∷ rest) ]

-- SELECT subject_type, subject_id, subject_relation … WHERE tenant, object and relation match
unfoldable pub fetch_subjects : ℕ → Node → List Row → List Tuple
fetch_subjects tenant n [] = []
fetch_subjects tenant n (row ∷ rows) =
    let rest = fetch_subjects tenant n rows in
    if row.tenant == tenant && node_eq row.object n then row.subject ∷ rest else rest

unfoldable pub tuple_fetcher : List Row → ℕ → Fetcher
tuple_fetcher rows tenant n = ok (fetch_subjects tenant n rows)

abbrev pub or_unprocessable {ℓ} : {A : Type ℓ} → String → Option A → Result A
or_unprocessable detail none = err (unprocessable detail)
or_unprocessable detail (some a) = ok a

abbrev pub object_detail : String
object_detail = "object must be type:id"

abbrev pub as_node : ObjectRef → String → Node
as_node o relation = record { object_type = o.type; object_id = o.id; relation = relation }

abbrev pub as_tuple : SubjectRef → Tuple
as_tuple s = record { subject_type = s.type; subject_id = s.id; subject_relation = s.relation }

unfoldable pub write : ℕ → List Row → ℕ → String → String → String → Result (TupleView × List Row)
write fresh rows tenant object relation subject = do
  o ← or_unprocessable object_detail (parse_object object)
  s ← or_unprocessable "subject must be user:id or type:id#relation" (parse_subject subject)
  guard (not (str_eq (trim_space relation) "")) (unprocessable "relation is required")
  let (id, rows') = insert_tuple fresh tenant (as_node o relation) (as_tuple s) rows
  ok (
    record {
      id = id;
      object = object;
      relation = relation;
      subject = subject_string s.type s.id s.relation;
    },
    rows',
  )

unfoldable pub delete : List Row → ℕ → ℕ → Result (List Row)
delete rows id tenant = elim (delete_tuple id tenant rows) [
  | none ↦ err not_found
  | some rest ↦ ok rest
]

-- `allowed, path, err`; running out of fuel is shown impossible in `Rebac/Service`.
pub data Answer : Type 0 where
  denied : Answer
  granted : List ExplainStep → Answer
  diverged : Answer

abbrev pub as_answer : Search → Result Answer
as_answer (failed e) = err e
as_answer (found path) = ok (granted path)
as_answer (missed _) = ok denied
as_answer out_of_fuel = ok diverged

-- The calls nest at most `max_depth + 2` deep.
abbrev pub check_fuel : ℕ
check_fuel = 27

-- `CheckExplain`; `Check` is the same without the path.
unfoldable pub check_explain : Fetcher → String → String → String → Result Answer
check_explain fetch object relation user = do
  o ← or_unprocessable object_detail (parse_object object)
  as_answer (resolve fetch check_fuel (as_node o relation) user [] 0)

abbrev pub is_granted : Answer → Bool
is_granted (granted _) = true
is_granted _ = false

unfoldable pub check : Fetcher → String → String → String → Result Bool
unfolding check_explain
check fetch object relation user = do
  answer ← check_explain fetch object relation user
  ok (is_granted answer)
