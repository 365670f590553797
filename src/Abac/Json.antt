-- ===== src/Abac/Json.antt =====
-- JSON as the ABAC engine meets it (abac.go). A value of type `any` stands as the JSON text that it
-- was decoded from; a float64 is its 64-bit pattern.
use Prim.Native.Char.{Char, code}
use qeet_id.Base.{
  ℕ, String, Bool, Option, none, some, List, [], ◌∷◌, str_eq, if◌then◌else◌, cut, ◌==◌,
}

-- `braces` is the object text {} itself, which the engine compares as text; `object` is any other.
-- Members are in the order of the text.
mutual
  pub data Json : Type 0 where
    null : Json
    boolean : Bool → Json
    number : ℕ → Json
    string : String → Json
    array : Items → Json
    braces : Json
    object : Members → Json

  pub data Items : Type 0 where
    nil : Items
    item : Json → Items → Items

  pub data Members : Type 0 where
    end : Members
    member : String → Json → Members → Members

abbrev pub or_else {ℓ} : {A : Type ℓ} → Option A → Option A → Option A
or_else (some a) b = some a
or_else none b = b

abbrev pub when {ℓ} : {A : Type ℓ} → Bool → A → Option A
when b a = if b then some a else none

-- `m[k]` of a decoded object: of members with the same key the last one counts.
unfoldable pub get : String → Members → Option Json
get k end = none
get k (member j v ms) = or_else (get k ms) (when (str_eq j k) v)

-- What `.(map[string]any)` yields.
abbrev pub as_map : Json → Option Members
as_map braces = some end
as_map (object ms) = some ms
as_map _ = none

-- `strings.Split(s, ".")`
abbrev pub push_char : Char → List String → List String
push_char c [] = (String.◌∷◌ c String.[]) ∷ []
push_char c (s ∷ ss) = (String.◌∷◌ c s) ∷ ss

unfoldable pub split_dots : String → List String
split_dots String.[] = String.[] ∷ []
split_dots (String.◌∷◌ c s) =
    if code c == b'.' then String.[] ∷ split_dots s else push_char c (split_dots s)

abbrev pub AttributeBag : Type 0
AttributeBag = Members

-- The walk down nested maps.
unfoldable pub walk_path : List String → Json → Option Json
walk_path [] cur = some cur
walk_path (part ∷ parts) cur = elim (as_map cur) [
  | none ↦ none
  | some ms ↦ elim (get part ms) [ none ↦ none | some v ↦ walk_path parts v ]
]

-- The outer map of a bag is keyed by namespace; each namespace is itself a map.
unfoldable pub resolve_path : String → AttributeBag → Option Json
resolve_path attr bag = elim (cut b'.' attr) [
  | none ↦ none
  | some (ns, rest) ↦
      if str_eq ns ""
      then none
      else if str_eq rest ""
      then none
      else elim (get ns bag) [ none ↦ none | some v ↦ walk_path (split_dots rest) v ]
]
