-- ===== src/ApiTokens/Format.antt =====
-- The text of a token and the list of its scopes.
use Prim.Native.String.{◌++◌ as join_text}
use netmantle.Prelude.{
  ◌≡◌, ◌≢◌, refl, String, Bool, false, ◌||◌, Option, none, some, List, [], ◌∷◌, arith, str_eq,
  str_eq_iff, if◌then◌else◌, All, Bool-cases, inl, inr, All-map,
}
use netmantle.Prelude.Text.{one_char, trim_space, split_on, split_n, cut, cut-append, Lacks}

abbrev pub scheme : String
scheme = "nmt"

-- strings.Join of the three parts with underscores
unfoldable pub format_token : String → String → String
format_token prefix secret =
    join_text scheme (join_text "_" (join_text prefix (join_text "_" secret)))

three_parts : List String → Option (String × String)
three_parts (tag ∷ prefix ∷ secret ∷ []) =
    if str_eq tag scheme
    then if str_eq prefix "" || str_eq secret "" then none else some (prefix, secret)
    else none
three_parts _ = none

unfoldable pub parse_token : String → Option (String × String)
unfolding three_parts split_n
parse_token s = three_parts (split_n b'_' 3 s)

parse_sample : parse_token "nmt_abc_x_y" ≡ some ("abc", "x_y")
unfolding parse_token
parse_sample = refl

cut_first : (rest : String) → cut b'_' (join_text scheme (join_text "_" rest)) ≡ some (scheme, rest)
cut_first rest = rw one_char (cut-append b'_' "_" scheme rest (refl, (refl, (refl, tt))) refl)

cut_prefix :
    (prefix secret : String)
    → Lacks b'_' prefix
    → cut b'_' (join_text prefix (join_text "_" secret)) ≡ some (prefix, secret)
cut_prefix prefix secret h = rw one_char (cut-append b'_' "_" prefix secret h refl)

-- What `formatToken` makes `parseToken` takes apart again, for a prefix that is not empty and holds no
-- underscore and a secret that is not empty; the secret may hold underscores, as base64url does.
pub parse-format :
    (prefix secret : String)
    → Lacks b'_' prefix
    → prefix ≢ ""
    → secret ≢ ""
    → parse_token (format_token prefix secret) ≡ some (prefix, secret)
unfolding parse_token format_token
parse-format prefix secret h p s = ground (
  arith,
  cut_first (join_text prefix (join_text "_" secret)),
  cut_prefix prefix secret h,
  str_eq_iff prefix "",
  str_eq_iff secret "",
)

abbrev member : String → List String → Bool
member s [] = false
member s (t ∷ ts) = str_eq s t || member s ts

-- The loop of `normaliseScopes`, with the texts that it has seen.
normalise_from : List String → List String → List String
unfolding trim_space
normalise_from seen [] = []
normalise_from seen (s ∷ ss) =
    let t = trim_space s in
    let skipped = normalise_from seen ss in
    let taken = t ∷ normalise_from (t ∷ seen) ss in
    if str_eq t "" then skipped else if member t seen then skipped else taken

unfoldable pub normalise_scopes : List String → List String
unfolding normalise_from
normalise_scopes ss = normalise_from [] ss

trim_all : List String → List String
unfolding trim_space
trim_all [] = []
trim_all (p ∷ ps) =
    let rest = trim_all ps in if str_eq (trim_space p) "" then rest else trim_space p ∷ rest

unfoldable pub parse_scopes : String → List String
unfolding trim_all split_on trim_space
parse_scopes raw =
    if str_eq (trim_space raw) "" then [] else trim_all (split_on b',' (trim_space raw))

unfoldable pub has_scope : List String → String → Bool
has_scope [] want = false
has_scope (s ∷ ss) want = (str_eq s want || str_eq s "*") || has_scope ss want

pub data Distinct : List String → Type 0 where
  nil : Distinct []
  cons : {s : String} {ss : List String} → member s ss ≡ false → Distinct ss → Distinct (s ∷ ss)

-- What the loop takes is not blank and is none of the texts that it has seen.
abbrev Fresh : List String → String → Type 0
Fresh seen s = (s ≢ "") × (member s seen ≡ false)

pub str_eq_sym : (s t : String) → str_eq s t ≡ str_eq t s
str_eq_sym s t = ground (arith, str_eq_iff s t, str_eq_iff t s)

Fresh-cons : (t : String) (seen : List String) (s : String) → Fresh (t ∷ seen) s → Fresh seen s
Fresh-cons t seen s h = ground arith

Fresh-member :
    (t : String) (seen ss : List String) → All (Fresh (t ∷ seen)) ss → member t ss ≡ false
Fresh-member t seen [] h = refl
Fresh-member t seen (s ∷ ss) (h, hs) = ground (arith, Fresh-member t seen ss hs, str_eq_sym s t)

normalise_from_lem :
    (seen ss : List String)
    → All (Fresh seen) (normalise_from seen ss) × Distinct (normalise_from seen ss)
unfolding normalise_from
normalise_from_lem seen [] = (tt, nil)
normalise_from_lem seen (s ∷ ss) = elim (Bool-cases (str_eq (trim_space s) "")) [
  | inl e ↦ rw e (normalise_from_lem seen ss)
  | inr e ↦ elim (Bool-cases (member (trim_space s) seen)) [
    | inl m ↦ rw (e, m) (normalise_from_lem seen ss)
    | inr m ↦
        let t = trim_space s in
        let (fresh, distinct) = normalise_from_lem (t ∷ seen) ss in
        let rest = normalise_from (t ∷ seen) ss in
        let new : t ≢ "" = ground (arith, str_eq_iff t "") in
        rw (e, m)
          (
            ((new, m), All-map (Fresh (t ∷ seen)) (Fresh seen) rest (Fresh-cons t seen) fresh),
            cons (Fresh-member t seen rest fresh) distinct,
          )
  ]
]

-- The scopes that a token is issued with are not blank and all different.
pub normalise_scopes_lem :
    (ss : List String) → All (λ s. s ≢ "") (normalise_scopes ss) × Distinct (normalise_scopes ss)
unfolding normalise_scopes
normalise_scopes_lem ss =
    let (fresh, distinct) = normalise_from_lem [] ss in
    (All-map (Fresh []) (λ s. s ≢ "") (normalise_from [] ss) (λ s h. h.0) fresh, distinct)
