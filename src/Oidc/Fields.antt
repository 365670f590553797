-- ===== src/Oidc/Fields.antt =====
-- What `strings.Join` writes, `strings.Fields` reads back, and what `downscope` (oidc.go) grants.
use Prim.Native.String
use mathlib.Core.List.{Memᴰ}
use text.Mathlib.TextLemmas.{nil-append, cons-append}
use qeet_id.Base.{
  ◌≡◌, refl, sym, ◌∙◌, ap, subst, inl, inr, String, Char, true, false, some, List, [], ◌∷◌, str_eq,
  str_eq_iff, is_space, trim_space, all, All, arith, Bool-cases, Option-cases,
}
use qeet_id.Device.Flow.{contains, not_permitted}
use qeet_id.Device.Scoped.{not_permitted_lem}
use qeet_id.Oidc.Exchange.{push_word, next_char, words, fields, join, downscope}

-- No character of the text is a space.
abbrev NoSpace : String → Type 0
NoSpace String.[] = Unit {0}
NoSpace (String.◌∷◌ c s) = (is_space c ≡ false) × NoSpace s

abbrev pub IsWord : String → Type 0
IsWord String.[] = ⊥
IsWord (String.◌∷◌ c s) = (is_space c ≡ false) × NoSpace s

words-word : (w : String) → NoSpace w → words w ≡ (w, [])
unfolding words
words-word String.[] h = refl
words-word (String.◌∷◌ c w) (no_space, h) = rw (words-word w h, no_space)

space : (s : String) → String.◌++◌ " " s ≡ String.◌∷◌ " " s
space s = cons-append " " String.[] s ∙ ap (λ t. String.◌∷◌ " " t) (nil-append s)

words-append :
    (w s : String)
    → NoSpace w
    → words (String.◌++◌ w (String.◌++◌ " " s)) ≡ (w, push_word (words s).0 (words s).1)
unfolding words
words-append String.[] s h = rw nil-append (rw (space s))
words-append (String.◌∷◌ c w) s (no_space, h) = rw cons-append (rw (words-append w s h, no_space))

NoSpace-word : (w : String) → IsWord w → NoSpace w
NoSpace-word String.[] h = absurd h
NoSpace-word (String.◌∷◌ c w) h = h

push-word : (w : String) (ws : List String) → IsWord w → push_word w ws ≡ w ∷ ws
push-word String.[] ws h = absurd h
push-word (String.◌∷◌ c w) ws h = refl

words-join : (w : String) (ws : List String) → All IsWord (w ∷ ws) → words (join (w ∷ ws)) ≡ (w, ws)
unfolding join
words-join w [] (h, hs) = words-word w (NoSpace-word w h)
words-join w (v ∷ ws) (h, hs) =
    words-append w (join (v ∷ ws)) (NoSpace-word w h)
    ∙ ap (λ (p : String × List String). (w, push_word p.0 p.1)) (words-join v ws hs)
    ∙ ap (λ (us : List String). (w, us)) (push-word v ws hs.0)

pub fields-join : (ws : List String) → All IsWord ws → fields (join ws) ≡ ws
unfolding fields join words
fields-join [] h = refl
fields-join (w ∷ ws) h = rw (words-join w ws h) (push-word w ws h.0)

push-All : (w : String) (ws : List String) → NoSpace w → All IsWord ws → All IsWord (push_word w ws)
push-All String.[] ws h hs = hs
push-All (String.◌∷◌ d w) ws h hs = (h, hs)

next-IsWord :
    (c : Char) (w : String) (ws : List String)
    → NoSpace w
    → All IsWord ws
    → NoSpace (next_char c (w, ws)).0 × All IsWord (next_char c (w, ws)).1
next-IsWord c w ws h hs = elim (Bool-cases (is_space c)) [
  | inl gap ↦ rw gap (_, push-All w ws h hs)
  | inr no_gap ↦ rw no_gap ((no_gap, h), hs)
]

words-IsWord : (s : String) → NoSpace (words s).0 × All IsWord (words s).1
unfolding words
words-IsWord String.[] = _
words-IsWord (String.◌∷◌ c s) =
    let (h, hs) = words-IsWord s in next-IsWord c (words s).0 (words s).1 h hs

fields-IsWord : (s : String) → All IsWord (fields s)
unfolding fields
fields-IsWord s = let (h, hs) = words-IsWord s in push-All (words s).0 (words s).1 h hs

contains-cons :
    (s : String) (allowed ss : List String)
    → all (contains allowed) ss ≡ true
    → all (contains (s ∷ allowed)) ss ≡ true
unfolding contains
contains-cons s allowed [] h = refl
contains-cons s allowed (t ∷ ss) h = ground (arith, contains-cons s allowed ss)

contains-all : (ss : List String) → all (contains ss) ss ≡ true
unfolding contains
contains-all [] = refl
contains-all (s ∷ ss) = ground (arith, str_eq_iff s s, contains-cons s ss ss (contains-all ss))

-- What is granted are words, all of them among the scopes of the subject.
pub downscope-within :
    (held : String) (requested : String) (granted : List String)
    → downscope (fields held) requested ≡ some granted
    → All IsWord granted × (all (contains (fields held)) granted ≡ true)
unfolding downscope
downscope-within held requested granted h = elim (Bool-cases (str_eq (trim_space requested) "")) [
  | inl empty ↦
      let e : fields held ≡ granted = ground (arith, h, empty) in
      subst (λ ss. All IsWord ss × (all (contains (fields held)) ss ≡ true)) e
        (fields-IsWord held, contains-all (fields held))
  | inr given ↦ elim (Option-cases (not_permitted (fields held) (fields requested))) [
    | inr (s, over) ↦ absurd (ground (arith, h, given, over))
    | inl within ↦
        let e : fields requested ≡ granted = ground (arith, h, given, within) in
        subst (λ ss. All IsWord ss × (all (contains (fields held)) ss ≡ true)) e
          (fields-IsWord requested, not_permitted_lem (fields held) (fields requested) within)
  ]
]

pub contains-Mem : (hs : List String) (s : String) → contains hs s ≡ true → Memᴰ s hs
unfolding contains
contains-Mem [] s h = absurd (ground (arith, h))
contains-Mem (x ∷ hs) s h = elim (Bool-cases (str_eq x s)) [
  | inl here ↦ Memᴰ.head (sym ((str_eq_iff x s).0 here))
  | inr other ↦ Memᴰ.tail (contains-Mem hs s (ground (arith, h, other)))
]

pub all-contains : (hs ss : List String) → all (contains hs) ss ≡ true → All (λ s. Memᴰ s hs) ss
all-contains hs [] h = _
all-contains hs (s ∷ ss) h =
    (contains-Mem hs s (ground (arith, h)), all-contains hs ss (ground (arith, h)))
