-- ===== src/Rebac/Service.antt =====
-- What Check and CheckExplain promise.
use mathlib.Core.List.{Memᴰ}
use qeet_id.Base.{◌≡◌, refl, ◌≢◌, ◌↔◌, String, true, List, [], Option, none, some, arith}
use qeet_id.Errs.{ok}
use qeet_id.Rebac.Refs.{ObjectRef, Node, parse_object}
use qeet_id.Rebac.Resolve.{
  Fetcher, ExplainStep, Search, failed, found, missed, out_of_fuel, resolve,
}
use qeet_id.Rebac.Sound.{Chain, resolve_sound}
use qeet_id.Rebac.Closure.{Covers}
use qeet_id.Rebac.Complete.{resolve_complete}
use qeet_id.Rebac.Total.{resolve_total}
use qeet_id.Rebac.Store.{as_node, as_answer, granted, diverged, check_fuel, check_explain, check}

as_answer-eq-granted :
    (r : Search) (path : List ExplainStep) → as_answer r ≡ ok (granted path) → r ≡ found path
as_answer-eq-granted (failed e) path h = absurd (ground arith)
as_answer-eq-granted (found p) path h = ground arith
as_answer-eq-granted (missed v) path h = absurd (ground arith)
as_answer-eq-granted out_of_fuel path h = absurd (ground arith)

as_answer-eq-diverged : (r : Search) → as_answer r ≡ ok diverged → r ≡ out_of_fuel
as_answer-eq-diverged (failed e) h = absurd (ground arith)
as_answer-eq-diverged (found p) h = absurd (ground arith)
as_answer-eq-diverged (missed v) h = absurd (ground arith)
as_answer-eq-diverged out_of_fuel h = ground arith

-- A yes of CheckExplain comes with a path that is a chain of stored tuples from the object, at depth
-- 0, to the user, each step naming the tuple that it went through.
pub check_explain_sound :
    (fetch : Fetcher) (object relation user : String) (o : ObjectRef) (path : List ExplainStep)
    → parse_object object ≡ some o
    → check_explain fetch object relation user ≡ ok (granted path)
    → Chain fetch user (as_node o relation) 0 path
unfolding check_explain
check_explain_sound fetch object relation user o path parsed h =
    resolve_sound fetch user check_fuel (as_node o relation) [] 0 path
      (as_answer-eq-granted _ path (rw (parsed, check_explain) at h))

-- The recursion of CheckExplain ends within 27 nested calls, whatever the tuples are.
pub check_explain_total :
    (fetch : Fetcher) (object relation user : String)
    → check_explain fetch object relation user ≢ ok diverged
unfolding check_explain
check_explain_total fetch object relation user = go (parse_object object) refl
  where
    go :
        (o : Option ObjectRef)
        → parse_object object ≡ o
        → check_explain fetch object relation user ≢ ok diverged
    go none q = ground arith
    go (some o) q = λ h.
        resolve_total fetch user check_fuel (as_node o relation) [] 0 (omega arith) (omega arith)
          (as_answer-eq-diverged _ (rw (q, check_explain) at h))

-- Where the text of the object parses, some list of at most 26 nodes has the node asked about and every
-- userset that a tuple stored at one of them leads to, the store answers for each node of the list, and
-- no two of them have the same text object#relation, Check says yes exactly when some chain of stored
-- tuples leads from the object to the user.
pub check_iff :
    (fetch : Fetcher) (object relation user : String) (o : ObjectRef) (nodes : List Node)
    → parse_object object ≡ some o
    → Covers fetch nodes
    → Memᴰ (as_node o relation) nodes
    → (check fetch object relation user ≡ ok true)
      ↔ ((path : List ExplainStep) × Chain fetch user (as_node o relation) 0 path)
unfolding check check_explain
check_iff fetch object relation user o nodes parsed covers m =
    (λ h. yes_chain (resolve fetch check_fuel (as_node o relation) user [] 0) refl h, chain_yes)
  where
    yes_chain :
        (r : Search)
        → resolve fetch check_fuel (as_node o relation) user [] 0 ≡ r
        → check fetch object relation user ≡ ok true
        → (path : List ExplainStep) × Chain fetch user (as_node o relation) 0 path
    yes_chain (failed e) q h = absurd (ground arith)
    yes_chain (found p) q h = (p, resolve_sound fetch user check_fuel (as_node o relation) [] 0 p q)
    yes_chain (missed v) q h = absurd (ground arith)
    yes_chain out_of_fuel q h = absurd (ground arith)

    chain_yes :
        ((path : List ExplainStep) × Chain fetch user (as_node o relation) 0 path)
        → check fetch object relation user ≡ ok true
    chain_yes (path, chain) =
        let (p, q) =
          resolve_complete fetch user nodes covers check_fuel (as_node o relation) (omega arith) m
            chain in
        ground arith
