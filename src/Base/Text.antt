-- ===== src/Base/Text.antt =====
-- Text as Go's `strings` package reads it, code point by code point.
use Prim.Native.Nat.{ℕ}
use Prim.Native.Char.{Char, code}
use Prim.Native.String.{String, [], ◌∷◌}
use mathlib.Core.Bool.{Bool, false, ◌&&◌, ◌||◌}
use mathlib.Core.Option.{Option, none, some}
use mathlib.Core.Path.{◌≡◌, refl, ap, ◌∙◌}
use qeet_id.Base.Tests.{leb, ◌==◌, if◌then◌else◌}

-- `unicode.IsSpace`
abbrev pub is_space : Char → Bool
is_space c =
    let n = code c in
    leb 9 n && leb n 13
    || n == 32
    || n == 133
    || n == 160
    || n == 5760
    || leb 8192 n && leb n 8202
    || n == 8232
    || n == 8233
    || n == 8239
    || n == 8287
    || n == 12288

pub trim_left : String → String
trim_left [] = []
trim_left (c ∷ s) = if is_space c then trim_left s else c ∷ s

abbrev pub cons_trimmed : Char → String → String
cons_trimmed c [] = if is_space c then [] else c ∷ []
cons_trimmed c (d ∷ s) = c ∷ d ∷ s

pub trim_right : String → String
trim_right [] = []
trim_right (c ∷ s) = cons_trimmed c (trim_right s)

-- `strings.TrimSpace`
unfoldable pub trim_space : String → String
unfolding trim_left trim_right
trim_space s = trim_left (trim_right s)

abbrev pub before_cons : Char → Option (String × String) → Option (String × String)
before_cons c none = none
before_cons c (some (a, b)) = some (c ∷ a, b)

-- The parts before and after the first occurrence of a code point (`strings.IndexByte`).
unfoldable pub cut : ℕ → String → Option (String × String)
cut n [] = none
cut n (c ∷ s) = if code c == n then some ([], s) else before_cons c (cut n s)

abbrev pub or_cut : Bool → String → Option (String × String) → Option (String × String)
or_cut here s none = if here then some ([], s) else none
or_cut here s (some p) = some p

-- The parts before and after its last occurrence (`strings.LastIndexByte`).
unfoldable pub cut_last : ℕ → String → Option (String × String)
cut_last n [] = none
cut_last n (c ∷ s) = or_cut (code c == n) s (before_cons c (cut_last n s))

-- A text in which a code point does not occur.
abbrev pub Without : ℕ → String → Type 0
Without n [] = Unit
Without n (c ∷ s) = ((code c == n) ≡ false) × Without n s

abbrev pub NoSpace : String → Type 0
NoSpace [] = Unit
NoSpace (c ∷ s) = (is_space c ≡ false) × NoSpace s

trim_right-NoSpace : (s : String) → NoSpace s → trim_right s ≡ s
unfolding trim_right
trim_right-NoSpace [] h = refl
trim_right-NoSpace (c ∷ []) (p, h) = rw p refl
trim_right-NoSpace (c ∷ d ∷ s) (p, h) = let rest = trim_right-NoSpace (d ∷ s) h in rw rest refl

trim_left-NoSpace : (s : String) → NoSpace s → trim_left s ≡ s
unfolding trim_left
trim_left-NoSpace [] h = refl
trim_left-NoSpace (c ∷ s) (p, h) = rw p refl

pub trim_space-NoSpace : (s : String) → NoSpace s → trim_space s ≡ s
unfolding trim_space
trim_space-NoSpace s h = ap trim_left (trim_right-NoSpace s h) ∙ trim_left-NoSpace s h
