-- ===== src/Prelude/Text.antt =====
-- The functions of Go's `strings` that the program calls, over the native texts.
use Prim.Native.Nat.{ℕ, zero, suc, ◌+◌}
use Prim.Native.Char.{Char, code}
use Prim.Native.String.{String, ◌++◌ as join_text}
use mathlib.Core.Path.{◌≡◌, refl, sym, ◌∙◌}
use mathlib.Core.Logic.{inl, inr}
use mathlib.Core.Bool.{Bool, true, false, ◌&&◌, ◌||◌}
use mathlib.Core.List.{List, [], ◌∷◌}
use mathlib.Core.Option.{Option, none, some}
use native.Mathlib.Omega.{arith}
use text.Mathlib.TextEquality.{Char-path}
use text.Mathlib.TextLemmas.{nil-append, cons-append}
use text.Mathlib.Text.{◌==◌ as str_eq}
use netmantle.Prelude.Tests.{ltb, leb, ◌==◌, ==_iff, if◌then◌else◌, Bool-cases, Option-cases}

-- unicode.IsSpace
unfoldable pub is_space : ℕ → Bool
is_space c =
    (leb 9 c && leb c 13)
    || c == 32
    || c == 0x85
    || c == 0xa0
    || c == 0x1680
    || (leb 0x2000 c && leb c 0x200a)
    || c == 0x2028
    || c == 0x2029
    || c == 0x202f
    || c == 0x205f
    || c == 0x3000

trim_left : String → String
trim_left String.[] = String.[]
trim_left (String.◌∷◌ c s) =
    let rest = trim_left s in if is_space (code c) then rest else String.◌∷◌ c s

trim_right : String → String
trim_right String.[] = String.[]
trim_right (String.◌∷◌ c s) =
    let rest = trim_right s in
    if is_space (code c) && str_eq rest "" then String.[] else String.◌∷◌ c rest

-- strings.TrimSpace
unfoldable pub trim_space : String → String
unfolding trim_left trim_right is_space
trim_space s = trim_right (trim_left s)

trim_space_words : trim_space "  core router\n" ≡ "core router"
unfolding trim_space
trim_space_words = refl

-- A character before the first part.
abbrev pub extend : Char → List String → List String
extend c [] = String.◌∷◌ c String.[] ∷ []
extend c (w ∷ ws) = String.◌∷◌ c w ∷ ws

-- strings.Split(s, sep) with a separator of one character
unfoldable pub split_on : ℕ → String → List String
split_on sep String.[] = "" ∷ []
split_on sep (String.◌∷◌ c s) =
    let rest = split_on sep s in if code c == sep then "" ∷ rest else extend c rest

split_on_lines : split_on 10 "a\n\nb" ≡ "a" ∷ "" ∷ "b" ∷ []
unfolding split_on
split_on_lines = refl

-- The text before the first separator and the one behind it, if there is a separator.
unfoldable pub cut : ℕ → String → Option (String × String)
cut sep String.[] = none
cut sep (String.◌∷◌ c s) =
    let rest = cut sep s in
    if code c == sep
    then some ("", s)
    else elim rest [ none ↦ none | some (a, b) ↦ some (String.◌∷◌ c a, b) ]

-- strings.SplitN(s, sep, n) for n ≥ 1
unfoldable pub split_n : ℕ → ℕ → String → List String
unfolding cut
split_n sep zero s = []
split_n sep (suc zero) s = s ∷ []
split_n sep (suc (suc n)) s = elim (cut sep s) [
  | none ↦ s ∷ []
  | some (a, b) ↦ a ∷ split_n sep (suc n) b
]

-- strings.Join(parts, ",")
unfoldable pub join_commas : List String → String
join_commas [] = ""
join_commas (p ∷ []) = p
join_commas (p ∷ q ∷ ps) = join_text p (join_text "," (join_commas (q ∷ ps)))

-- No character of the text is the separator.
abbrev pub Lacks : ℕ → String → Type 0
Lacks sep String.[] = Unit
Lacks sep (String.◌∷◌ c s) = ((code c == sep) ≡ false) × Lacks sep s

-- A text without the separator is what stands before the first one.
pub cut-append :
    (sep : ℕ) (d : Char) (p s : String)
    → Lacks sep p
    → (code d == sep) ≡ true
    → cut sep (join_text p (String.◌∷◌ d s)) ≡ some (p, s)
unfolding cut
cut-append sep d String.[] s h e = rw nil-append (ground arith)
cut-append sep d (String.◌∷◌ c p) s h e =
    ground (arith, cons-append c p (String.◌∷◌ d s), cut-append sep d p s h.1 e)

-- A character before a text, as the literal of one character joined with it.
pub one_char : (s : String) → join_text "_" s ≡ String.◌∷◌ "_" s
one_char s = rw cons-append (rw nil-append refl)

-- s <= t on the bytes of UTF-8, which is the order of the code points.
unfoldable pub text_leb : String → String → Bool
text_leb String.[] t = true
text_leb (String.◌∷◌ c s) String.[] = false
text_leb (String.◌∷◌ c s) (String.◌∷◌ d t) =
    let rest = text_leb s t in
    if ltb (code c) (code d) then true else if ltb (code d) (code c) then false else rest

pub dot_char : (s : String) → join_text "." s ≡ String.◌∷◌ "." s
dot_char s = rw cons-append (rw nil-append refl)

-- What `cut` answers are the parts of the text.
pub cut_inverse :
    (sep : ℕ) (d : Char) (s a b : String)
    → code d ≡ sep
    → cut sep s ≡ some (a, b)
    → s ≡ join_text a (String.◌∷◌ d b)
unfolding cut
cut_inverse sep d String.[] a b at h = ground arith
cut_inverse sep d (String.◌∷◌ c s) a b at h = elim (Bool-cases (code c == sep)) [
  | inl e ↦
      let same : c ≡ d = Char-path c d ((==_iff (code c) sep).0 e ∙ sym at) in
      let parts : ◌≡◌ {A = Option (String × String)} (some ("", s)) (some (a, b)) = (rw e at h) in
      ground (arith, same, nil-append (String.◌∷◌ d s))
  | inr e ↦ elim (Option-cases (cut sep s)) [
    | inl none_left ↦ ground arith
    | inr ((p, q), f) ↦
        ground (arith, cut_inverse sep d s p q at f, cons-append c p (String.◌∷◌ d q))
  ]
]

-- The rest of a text behind a prefix, if strings.HasPrefix holds.
unfoldable pub strip_prefix : String → String → Option String
strip_prefix String.[] s = some s
strip_prefix (String.◌∷◌ c p) String.[] = none
strip_prefix (String.◌∷◌ c p) (String.◌∷◌ d s) =
    let rest = strip_prefix p s in if code c == code d then rest else none

pub strip_prefix-append : (p s : String) → strip_prefix p (join_text p s) ≡ some s
unfolding strip_prefix
strip_prefix-append String.[] s = ground (arith, nil-append s)
strip_prefix-append (String.◌∷◌ c p) s = ground (arith, cons-append c p s, strip_prefix-append p s)

-- The length of a text in bytes of UTF-8.
unfoldable pub byte_length : String → ℕ
byte_length String.[] = 0
byte_length (String.◌∷◌ c s) =
    byte_length s
    + (if ltb (code c) 0x80
        then 1
        else if ltb (code c) 0x800
        then 2
        else if ltb (code c) 0x10000
        then 3
        else 4)
