-- ===== src/Rebac/Refs.antt =====
-- Object and subject references, and the key of a (object, relation) pair (rebac.go).
use Prim.Native.String
use qeet_id.Base.{
  String, ◌||◌, Option, none, some, str_eq, if◌then◌else◌, trim_space, cut, cut_last,
}

pub record ObjectRef : Type 0 where
  pub type : String
  pub id : String

-- `relation` is "" for a direct subject.
pub record SubjectRef : Type 0 where
  pub type : String
  pub id : String
  pub relation : String

-- What one step of a Check asks about: a relation on an object.
pub record Node : Type 0 where
  pub object_type : String
  pub object_id : String
  pub relation : String

-- The guard of `parseObject`: the first ':' is neither missing, nor first, nor last.
abbrev pub object_parts : Option (String × String) → Option ObjectRef
object_parts none = none
object_parts (some (type, id)) =
    if str_eq type "" || str_eq id "" then none else some (record { type = type; id = id })

unfoldable pub parse_object : String → Option ObjectRef
parse_object s = object_parts (cut b':' (trim_space s))

abbrev pub as_subject : String → Option ObjectRef → Option SubjectRef
as_subject relation none = none
as_subject relation (some o) = some (record { type = o.type; id = o.id; relation = relation })

abbrev pub subject_parts : String → Option (String × String) → Option SubjectRef
subject_parts s none = as_subject "" (parse_object s)
subject_parts s (some (object, relation)) =
    if str_eq relation "" then none else as_subject relation (parse_object object)

unfoldable pub parse_subject : String → Option SubjectRef
parse_subject s = subject_parts (trim_space s) (cut_last b'#' (trim_space s))

infixr 66 ◌+s◌
abbrev pub ◌+s◌ : String → String → String
a +s b = String.◌++◌ a b

unfoldable pub subject_string : String → String → String → String
subject_string type id relation =
    if str_eq relation "" then type +s ":" +s id else type +s ":" +s id +s "#" +s relation

-- The entry of the visited set.
unfoldable pub key : Node → String
key n = n.object_type +s ":" +s n.object_id +s "#" +s n.relation
