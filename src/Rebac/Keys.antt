-- ===== src/Rebac/Keys.antt =====
-- References read back as they were printed, and no two well-formed nodes share a key.
use Prim.Native.Char.{Char, code}
use Prim.Native.String.{String, [], ◌∷◌}
use text.Mathlib.TextLemmas.{nil-append, cons-append, append_assoc}
use qeet_id.Base.{
  ℕ, ◌≡◌, refl, sym, ap, ◌∙◌, ◌≢◌, subst, Bool, true, false, Option, none, some, arith, str_eq,
  str_eq_iff, ◌==◌, Bool-cases, inl, inr, ◌⊎◌, trim_space, cut, cut_last, before_cons, or_cut,
  Without,
}
use qeet_id.Rebac.Refs.{
  ObjectRef, SubjectRef, Node, parse_object, parse_subject, object_parts, as_subject,
  subject_string, key, ◌+s◌,
}

cut-append :
    (n : ℕ) (a b : String) (c : Char)
    → Without n a
    → code c ≡ n
    → cut n (a +s (c ∷ b)) ≡ some (a, b)
unfolding cut
cut-append n [] b c w e = rw nil-append (ground arith)
cut-append n (d ∷ a) b c (d_ne, w) e = rw cons-append (rw (d_ne, cut-append n a b c w e))

cut_last-Without : (n : ℕ) (s : String) → Without n s → cut_last n s ≡ none
unfolding cut_last
cut_last-Without n [] w = refl
cut_last-Without n (c ∷ s) (ne, w) = rw (cut_last-Without n s w, ne)

cut_last-append :
    (n : ℕ) (a b : String) (c : Char)
    → Without n b
    → code c ≡ n
    → cut_last n (a +s (c ∷ b)) ≡ some (a, b)
unfolding cut_last
cut_last-append n [] b c w e = rw nil-append (ground (arith, cut_last-Without n b w))
cut_last-append n (d ∷ a) b c w e = rw cons-append (rw (cut_last-append n a b c w e))

colon : (s : String) → ":" +s s ≡ ":" ∷ s
colon s = cons-append ":" [] s ∙ ap (λ t. ":" ∷ t) (nil-append s)

hash : (s : String) → "#" +s s ≡ "#" ∷ s
hash s = cons-append "#" [] s ∙ ap (λ t. "#" ∷ t) (nil-append s)

cut-colon : (a b : String) → Without b':' a → cut b':' (a +s ":" +s b) ≡ some (a, b)
cut-colon a b w = ap (λ t. cut b':' (a +s t)) (colon b) ∙ cut-append b':' a b ":" w refl

cut_last-hash : (a b : String) → Without b'#' b → cut_last b'#' (a +s "#" +s b) ≡ some (a, b)
cut_last-hash a b w =
    ap (λ t. cut_last b'#' (a +s t)) (hash b) ∙ cut_last-append b'#' a b "#" w refl

pub record IsWellFormed (n : Node) : Type 0 where
  pub type_clean : Without b':' n.object_type
  pub relation_clean : Without b'#' n.relation

pair_injective :
    {a b c d : String}
    → ◌≡◌ {A = Option (String × String)} (some (a, b)) (some (c, d))
    → (a ≡ c) × (b ≡ d)
pair_injective e = ground arith

-- The visited set tells all nodes apart whose type has no ':' and whose relation has no '#'.
pub key_injective : (n m : Node) → IsWellFormed n → IsWellFormed m → key n ≡ key m → n ≡ m
unfolding key
key_injective n m wn wm e =
    let (types, rests) = pair_injective (
      sym (cut-colon n.object_type _ wn.type_clean)
      ∙ (ap (cut b':') e ∙ cut-colon m.object_type _ wm.type_clean)) in
    let (ids, relations) = pair_injective (
      sym (cut_last-hash n.object_id _ wn.relation_clean)
      ∙ (ap (cut_last b'#') rests ∙ cut_last-hash m.object_id _ wm.relation_clean)) in
    cc

before_cons-eq-some :
    (c : Char) (o : Option (String × String)) (a b : String)
    → before_cons c o ≡ some (a, b)
    → (a' : String) × (o ≡ some (a', b)) × (a ≡ c ∷ a')
before_cons-eq-some c none a b h = absurd (ground arith)
before_cons-eq-some c (some (x, y)) a b h = (x, ground arith, ground arith)

-- The part before the first ':' has none.
cut-Without : (n : ℕ) (s a b : String) → cut n s ≡ some (a, b) → Without n a
unfolding cut
cut-Without n [] a b h = absurd (ground arith)
cut-Without n (c ∷ s) a b h = elim (Bool-cases (code c == n)) [
  | inl hit ↦ let empty : [] ≡ a = ground arith in subst (Without n) empty tt
  | inr other ↦
      let (a', e, same) = before_cons-eq-some c (cut n s) a b (ground arith) in
      subst (Without n) (sym same) (other, cut-Without n s a' b e)
]

or_cut-eq-some :
    (here : Bool) (s : String) (o : Option (String × String)) (a b : String)
    → or_cut here s o ≡ some (a, b)
    → (o ≡ some (a, b)) ⊎ ((o ≡ none) × (s ≡ b))
or_cut-eq-some true s none a b h = inr (refl, ground arith)
or_cut-eq-some false s none a b h = absurd (ground arith)
or_cut-eq-some here s (some p) a b h = inl h

before_cons-eq-none : (c : Char) (o : Option (String × String)) → before_cons c o ≡ none → o ≡ none
before_cons-eq-none c none h = refl
before_cons-eq-none c (some p) h = absurd (ground arith)

cut_last-eq-none : (n : ℕ) (s : String) → cut_last n s ≡ none → Without n s
unfolding cut_last
cut_last-eq-none n [] h = tt
cut_last-eq-none n (c ∷ s) h = go (before_cons c (cut_last n s)) refl (cut_last-eq-none n s)
  where
    go :
        (o : Option (String × String))
        → before_cons c (cut_last n s) ≡ o
        → (cut_last n s ≡ none → Without n s)
        → ((code c == n) ≡ false) × Without n s
    go none q ih = (ground arith, ih (before_cons-eq-none c (cut_last n s) q))
    go (some p) q ih = absurd (ground arith)

-- The part after the last '#' has none.
cut_last-Without-after : (n : ℕ) (s a b : String) → cut_last n s ≡ some (a, b) → Without n b
unfolding cut_last
cut_last-Without-after n [] a b h = absurd (ground arith)
cut_last-Without-after n (c ∷ s) a b h =
    elim (or_cut-eq-some (code c == n) s (before_cons c (cut_last n s)) a b h) [
      | inl later ↦
          let (a', e, _) = before_cons-eq-some c (cut_last n s) a b later in
          cut_last-Without-after n s a' b e
      | inr (last, same) ↦
          subst (Without n) same (cut_last-eq-none n s (before_cons-eq-none c (cut_last n s) last))
    ]

object_parts-eq-some :
    (p : Option (String × String)) (o : ObjectRef)
    → object_parts p ≡ some o
    → (p ≡ some (o.type, o.id)) × (o.type ≢ "") × (o.id ≢ "")
object_parts-eq-some none o h = absurd (ground arith)
object_parts-eq-some (some (type, id)) o h =
    (ground arith, ground (arith, str_eq_iff type ""), ground (arith, str_eq_iff id ""))

-- A parsed object has a type without ':', and neither part is empty.
pub parse_object_parts :
    (s : String) (o : ObjectRef)
    → parse_object s ≡ some o
    → Without b':' o.type × (o.type ≢ "") × (o.id ≢ "")
unfolding parse_object
parse_object_parts s o h =
    let (e, t, i) = object_parts-eq-some (cut b':' (trim_space s)) o h in
    (cut-Without b':' (trim_space s) o.type o.id e, t, i)

as_subject-eq-some :
    (relation : String) (o : Option ObjectRef) (x : SubjectRef)
    → as_subject relation o ≡ some x
    → (o ≡ some (record { type = x.type; id = x.id })) × (relation ≡ x.relation)
as_subject-eq-some relation none x h = absurd (ground arith)
as_subject-eq-some relation (some o) x h = (ground arith, ground arith)

-- So every subject that `Write` stores leads to a well-formed node.
pub parse_subject-IsWellFormed :
    (s : String) (x : SubjectRef)
    → parse_subject s ≡ some x
    → IsWellFormed (record { object_type = x.type; object_id = x.id; relation = x.relation })
unfolding parse_subject
parse_subject-IsWellFormed s x h = go (cut_last b'#' (trim_space s)) refl
  where
    go :
        (o : Option (String × String))
        → cut_last b'#' (trim_space s) ≡ o
        → IsWellFormed (record { object_type = x.type; object_id = x.id; relation = x.relation })
    go none q =
        let (e, r) =
          as_subject-eq-some "" (parse_object (trim_space s)) x (rw (q, parse_subject) at h) in
        record {
          type_clean =
              (parse_object_parts (trim_space s) (record { type = x.type; id = x.id }) e).0;
          relation_clean = subst (Without b'#') r tt;
        }
    go (some (object, relation)) q = elim (Bool-cases (str_eq relation "")) [
      | inl empty ↦ absurd (ground arith)
      | inr named ↦
          let (e, r) = as_subject-eq-some relation (parse_object object) x (ground arith) in
          record {
            type_clean = (parse_object_parts object (record { type = x.type; id = x.id }) e).0;
            relation_clean =
                subst (Without b'#') r
                  (cut_last-Without-after b'#' (trim_space s) object relation q);
          }
    ]

-- An object reads back as it was printed.
parse_object-colon :
    (type id : String)
    → Without b':' type
    → type ≢ ""
    → id ≢ ""
    → trim_space (type +s ":" +s id) ≡ type +s ":" +s id
    → parse_object (type +s ":" +s id) ≡ some (record { type = type; id = id })
unfolding parse_object
parse_object-colon type id w nt ni trim =
    rw trim (rw (cut-colon type id w) (ground (arith, str_eq_iff type "", str_eq_iff id "")))

-- A subject reads back as it was printed, where its parts can be told apart in the text and no
-- white space is there to trim.
pub parse_subject-subject_string :
    (x : SubjectRef)
    → Without b':' x.type
    → x.type ≢ ""
    → x.id ≢ ""
    → Without b'#' x.relation
    → (x.relation ≡ "" → Without b'#' (x.type +s ":" +s x.id))
    → trim_space (x.type +s ":" +s x.id) ≡ x.type +s ":" +s x.id
    → trim_space (subject_string x.type x.id x.relation) ≡ subject_string x.type x.id x.relation
    → parse_subject (subject_string x.type x.id x.relation) ≡ some x
unfolding parse_subject subject_string
parse_subject-subject_string x wt nt ni wr no_hash trim_object trim_all =
    elim (Bool-cases (str_eq x.relation "")) [
      | inl empty ↦ direct ((str_eq_iff x.relation "").0 empty)
      | inr named ↦ userset named
    ]
  where
    object : String
    object = x.type +s ":" +s x.id

    parsed : parse_object object ≡ some (record { type = x.type; id = x.id })
    parsed = parse_object-colon x.type x.id wt nt ni trim_object

    direct : x.relation ≡ "" → parse_subject (subject_string x.type x.id x.relation) ≡ some x
    direct e =
        let printed : subject_string x.type x.id x.relation ≡ object =
          ground (arith, str_eq_iff x.relation "") in
        rw (trim_all, printed, cut_last-Without b'#' object (no_hash e), parsed) (ground arith)

    userset :
        str_eq x.relation "" ≡ false
        → parse_subject (subject_string x.type x.id x.relation) ≡ some x
    userset named =
        let printed : subject_string x.type x.id x.relation ≡ object +s "#" +s x.relation =
          rw named (
            sym (
              append_assoc x.type (":" +s x.id) ("#" +s x.relation)
              ∙ ap (λ t. x.type +s t) (append_assoc ":" x.id ("#" +s x.relation)))) in
        rw (trim_all, printed, cut_last-hash object x.relation wr) (ground (arith, parsed))
