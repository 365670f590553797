-- ===== src/Abac/Meaning.antt =====
-- What a condition means of a bag of attributes, whatever the order in which children are tried.
use qeet_id.Base.{◌≡◌, Bool, true, false, not, none, some}
use qeet_id.Abac.Json.{Json, null, braces, object, Items, nil, item, Members, get, AttributeBag}
use qeet_id.Abac.Compare.{Host}
use qeet_id.Abac.Condition.{as_children}
use qeet_id.Abac.Related.{LeafMeans}

mutual
  pub data Means (host : Host) (bag : AttributeBag) : Json → Bool → Type 0 where
    null_means : Means host bag null true
    braces_mean : Means host bag braces true
    all_means :
        {m : Members} {v : Json} {cs : Items} {b : Bool}
        → get "all" m ≡ some v
        → as_children v ≡ some cs
        → Every host bag cs b
        → Means host bag (object m) b
    any_means :
        {m : Members} {v : Json} {cs : Items} {b : Bool}
        → get "all" m ≡ none
        → get "any" m ≡ some v
        → as_children v ≡ some cs
        → Some host bag cs b
        → Means host bag (object m) b
    not_means :
        {m : Members} {c : Json} {b d : Bool}
        → get "all" m ≡ none
        → get "any" m ≡ none
        → get "not" m ≡ some c
        → Means host bag c d
        → b ≡ not d
        → Means host bag (object m) b
    leaf_means :
        {m : Members} {attr : Json} {b : Bool}
        → get "all" m ≡ none
        → get "any" m ≡ none
        → get "not" m ≡ none
        → get "attr" m ≡ some attr
        → LeafMeans host bag attr m b
        → Means host bag (object m) b

  -- Every child holds, or some child fails.
  pub data Every (host : Host) (bag : AttributeBag) : Items → Bool → Type 0 where
    no_child : Every host bag nil true
    and_child :
        {c : Json} {cs : Items}
        → Means host bag c true
        → Every host bag cs true
        → Every host bag (item c cs) true
    child_fails :
        {c : Json} {cs : Items} → Means host bag c false → Every host bag (item c cs) false
    later_fails :
        {c : Json} {cs : Items} → Every host bag cs false → Every host bag (item c cs) false

  -- Some child holds, or every child fails.
  pub data Some (host : Host) (bag : AttributeBag) : Items → Bool → Type 0 where
    none_left : Some host bag nil false
    nor_child :
        {c : Json} {cs : Items}
        → Means host bag c false
        → Some host bag cs false
        → Some host bag (item c cs) false
    child_holds : {c : Json} {cs : Items} → Means host bag c true → Some host bag (item c cs) true
    later_holds : {c : Json} {cs : Items} → Some host bag cs true → Some host bag (item c cs) true
