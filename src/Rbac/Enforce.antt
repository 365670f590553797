-- ===== src/Rbac/Enforce.antt =====
-- The guard of the routes (internal/access/authorization/rbac/enforce.go). The regular expression
-- that patternToRegex builds matches segment by segment: a parameter any non-empty segment, a literal
-- itself. The entries of the Go map are a list, since the order of a map is not fixed.
use Prim.Native.Char.{code}
use Prim.Native.String
use qeet_id.Base.{
  ℕ, String, Char, Bool, true, false, not, ◌&&◌, Option, none, some, List, [], ◌∷◌, str_eq, ◌==◌,
  if◌then◌else◌, cut,
}
use qeet_id.Errs.{Error, Result, ok, err, forbidden}

abbrev pub push_char : Char → List String → List String
push_char c [] = String.◌∷◌ c "" ∷ []
push_char c (w ∷ ws) = String.◌∷◌ c w ∷ ws

-- `strings.Split(s, "/")`
unfoldable pub split_path : String → List String
split_path String.[] = "" ∷ []
split_path (String.◌∷◌ c s) =
    let rest = split_path s in if code c == 47 then "" ∷ rest else push_char c rest

-- `strings.HasSuffix(s, "}")`
unfoldable pub ends_with_brace : String → Bool
ends_with_brace String.[] = false
ends_with_brace (String.◌∷◌ c String.[]) = code c == 125
ends_with_brace (String.◌∷◌ c (String.◌∷◌ d s)) = ends_with_brace (String.◌∷◌ d s)

abbrev pub starts_with_brace : String → Bool
starts_with_brace String.[] = false
starts_with_brace (String.◌∷◌ c s) = code c == 123

-- A segment `{…}`.
unfoldable pub is_param : String → Bool
unfolding ends_with_brace
is_param s = starts_with_brace s && ends_with_brace s

abbrev pub matches_segment : String → String → Bool
matches_segment p s = if is_param p then not (str_eq s "") else str_eq p s

unfoldable pub matches : List String → List String → Bool
matches [] [] = true
matches [] (s ∷ ss) = false
matches (p ∷ ps) [] = false
matches (p ∷ ps) (s ∷ ss) = matches_segment p s && matches ps ss

-- An entry of the map of routes: `METHOD pattern`, and the permission.
pub record Entry : Type 0 where
  pub key : String
  pub perm : String

pub record Route : Type 0 where
  pub method : String
  pub pattern : List String
  pub perm : String

abbrev pub with_route : String → Option (String × String) → List Route → List Route
with_route perm none rs = rs
with_route perm (some (method, pattern)) rs =
    record { method = method; pattern = split_path pattern; perm = perm } ∷ rs

-- The routes of the entries whose key has a space (`strings.Cut`).
unfoldable pub compile : List Entry → List Route
unfolding cut split_path
compile [] = []
compile (e ∷ es) = with_route e.perm (cut 32 e.key) (compile es)

abbrev pub gates : String → List String → Route → Bool
gates method path r = str_eq r.method method && matches r.pattern path

-- The permission of the first route that matches.
unfoldable pub lookup : List Route → String → List String → Option String
lookup [] method path = none
lookup (r ∷ rs) method path =
    let rest = lookup rs method path in if gates method path r then some r.perm else rest

pub record Principal : Type 0 where
  pub actor_type : String
  pub user : Option ℕ
  pub tenant : Option ℕ

pub data Guarded : Type 0 where
  serves : Guarded
  refuses : Error → Guarded

-- The user of a principal that the guard looks at.
abbrev pub end_user : Option Principal → Option (ℕ × Option ℕ)
end_user none = none
end_user (some p) = elim p.user [
  | none ↦ none
  | some u ↦ if str_eq p.actor_type "user" then some (u, p.tenant) else none
]

abbrev pub checked : String → Result Bool → Guarded
checked perm (err e) = refuses e
checked perm (ok true) = serves
checked perm (ok false) = refuses (forbidden (String.◌++◌ "missing permission: " perm))

abbrev pub scoped : (ℕ → ℕ → String → Result Bool) → ℕ → String → Option ℕ → Guarded
scoped check user perm none = refuses (forbidden "tenant scope required")
scoped check user perm (some tenant) = checked perm (check user tenant perm)

abbrev pub gated : (ℕ → ℕ → String → Result Bool) → ℕ × Option ℕ → Option String → Guarded
gated check u none = serves
gated check u (some perm) = scoped check u.0 perm u.1

abbrev pub guard_user :
    (ℕ → ℕ → String → Result Bool)
    → List Route
    → String
    → List String
    → Option (ℕ × Option ℕ)
    → Guarded
guard_user check routes method path none = serves
guard_user check routes method path (some u) = gated check u (lookup routes method path)

-- Enforce, for a checker and the entries in any order.
unfoldable pub enforce :
    (ℕ → ℕ → String → Result Bool) → List Entry → Option Principal → String → String → Guarded
enforce check entries principal method path =
    guard_user check (compile entries) method (split_path path) (end_user principal)
