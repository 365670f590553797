-- ===== src/Abac/Service.antt =====
-- The table of policies and the operations on it (abac.go, `Create`, `Update`, `Delete`). Each writes
-- its audit row and its outbox event in the same transaction: they are one entry of the log.
-- Descriptions and times are left out, and so are the texts of the conflicts.
use qeet_id.Base.{
  ℕ, ◌%◌, ◌^◌, String, Bool, true, false, not, ◌&&◌, ◌||◌, Option, none, some, List, [], ◌∷◌, ◌++◌,
  str_eq, ◌==◌, any, if◌then◌else◌, trim_space,
}
use qeet_id.Errs.{Result, ok, err, not_found, unprocessable, conflict}
use qeet_id.Abac.Json.{braces}
use qeet_id.Abac.Condition.{Raw, blank, json}
use qeet_id.Abac.Validate.{Verdict, valid, validate_condition}
use qeet_id.Abac.Decide.{Policy}

-- CreateInput and UpdateInput; `priority` is the two's complement of an int.
pub record Input : Type 0 where
  pub name : String
  pub effect : String
  pub resource_type : String
  pub action : String
  pub condition : Raw
  pub priority : ℕ
  pub enabled : Bool

pub data EventType : Type 0 where
  created updated deleted : EventType

pub record Entry : Type 0 where
  pub event_type : EventType
  pub tenant : ℕ
  pub id : ℕ

pub record State : Type 0 where
  pub policies : List Policy
  pub log : List Entry

-- `if len(cond) == 0 { cond = {} }`
abbrev pub or_braces : Raw → Raw
or_braces blank = json braces
or_braces raw = raw

abbrev pub is_valid : Verdict → Bool
is_valid valid = true
is_valid _ = false

-- The checks before the transaction, in their order.
unfoldable pub check_input : Input → Option String
check_input i =
    if str_eq (trim_space i.name) ""
    then some "name is required"
    else if not (str_eq i.effect "allow") && not (str_eq i.effect "deny")
    then some "effect must be 'allow' or 'deny'"
    else if str_eq (trim_space i.resource_type) ""
    then some "resource_type is required"
    else if str_eq (trim_space i.action) ""
    then some "action is required"
    else if is_valid (validate_condition (or_braces i.condition))
    then none
    else some "condition"

-- The row that an input stands for; int32(in.Priority) keeps the low 32 bits.
abbrev pub as_policy : ℕ → ℕ → Input → Policy
as_policy id tenant i = record {
  id = id;
  tenant = tenant;
  name = i.name;
  effect = i.effect;
  resource_type = i.resource_type;
  action = i.action;
  condition = or_braces i.condition;
  priority = i.priority % 2 ^ 32;
  enabled = i.enabled;
}

abbrev pub is_row : ℕ → ℕ → Policy → Bool
is_row id tenant p = p.id == id && p.tenant == tenant

-- UNIQUE (tenant_id, name), against the other rows.
abbrev pub name_taken : ℕ → ℕ → String → Policy → Bool
name_taken id tenant name p = p.tenant == tenant && (str_eq p.name name && not (p.id == id))

abbrev pub logged : EventType → ℕ → ℕ → State → List Entry
logged e tenant id s = s.log ++ (record { event_type = e; tenant = tenant; id = id } ∷ [])

abbrev pub insert_policy : ℕ → ℕ → Input → State → Result Policy × State
insert_policy fresh tenant i s =
    if any (λ (p : Policy). p.id == fresh || name_taken fresh tenant i.name p) s.policies
    then (err (conflict "a policy with that name already exists in this tenant"), s)
    else (
      ok (as_policy fresh tenant i),
      record {
        policies = s.policies ++ as_policy fresh tenant i ∷ [];
        log = logged created tenant fresh s;
      },
    )

abbrev pub when_checked : Option String → Result Policy × State → State → Result Policy × State
when_checked (some detail) outcome s = (err (unprocessable detail), s)
when_checked none outcome s = outcome

-- `fresh` is the id that the database draws.
unfoldable pub create : ℕ → ℕ → Input → State → Result Policy × State
create fresh tenant i s = when_checked (check_input i) (insert_policy fresh tenant i s) s

-- UPDATE … WHERE id = $9 AND tenant_id = $10 RETURNING …
unfoldable pub replace : ℕ → ℕ → Policy → List Policy → List Policy
replace id tenant q [] = []
replace id tenant q (p ∷ ps) =
    let rest = replace id tenant q ps in if is_row id tenant p then q ∷ rest else p ∷ rest

abbrev pub update_policy : ℕ → ℕ → Input → State → Result Policy × State
update_policy id tenant i s =
    if any (is_row id tenant) s.policies
    then if any (name_taken id tenant i.name) s.policies
      then (err (conflict "a policy with that name already exists in this tenant"), s)
      else (
        ok (as_policy id tenant i),
        record {
          policies = replace id tenant (as_policy id tenant i) s.policies;
          log = logged updated tenant id s;
        },
      )
    else (err not_found, s)

unfoldable pub update : ℕ → ℕ → Input → State → Result Policy × State
unfolding replace
update id tenant i s = when_checked (check_input i) (update_policy id tenant i s) s

unfoldable pub remove : ℕ → ℕ → List Policy → List Policy
remove id tenant [] = []
remove id tenant (p ∷ ps) =
    let rest = remove id tenant ps in if is_row id tenant p then rest else p ∷ rest

unfoldable pub delete : ℕ → ℕ → State → Result (Unit {0}) × State
unfolding remove
delete id tenant s =
    if any (is_row id tenant) s.policies
    then (
      ok tt,
      record { policies = remove id tenant s.policies; log = logged deleted tenant id s },
    )
    else (err not_found, s)
