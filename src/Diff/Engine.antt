-- ===== src/Diff/Engine.antt =====
-- `Engine`: the ignore rules, the table of longest common subsequences and the walk along it.
use Prim.Native.String.{◌++◌ as join_text}
use netmantle.Prelude.{
  ℕ, zero, suc, ◌+◌, String, Bool, true, false, ◌&&◌, ◌||◌, List, [], ◌∷◌, map, str_eq,
  if◌then◌else◌, leb,
}
use netmantle.Prelude.Text.{split_on}
use text.Mathlib.Text.{starts_with}

-- A compiled regular expression is the test that it makes of a line.
pub record IgnoreRule : Type 0 where
  pub artifact_prefix : String
  pub pattern : String → Bool

-- One line of the unified text.
pub data Edit : Type 0 where
  keep delete add : String → Edit

pub record Result : Type 0 where
  pub unified : String
  pub added_lines : ℕ
  pub removed_lines : ℕ
  pub identical : Bool

-- The inner loop of `filter`: whether some rule for the artifact drops the line.
unfoldable pub drops : List IgnoreRule → String → String → Bool
drops [] artifact line = false
drops (r ∷ rs) artifact line =
    ((str_eq r.artifact_prefix "" || starts_with artifact r.artifact_prefix) && r.pattern line)
    || drops rs artifact line

keep_lines : List IgnoreRule → String → List String → String
unfolding drops
keep_lines rules artifact [] = ""
keep_lines rules artifact (line ∷ rest) =
    let out = keep_lines rules artifact rest in
    if drops rules artifact line then out else join_text line (join_text "\n" out)

unfoldable pub filter : List IgnoreRule → String → String → String
unfolding keep_lines split_on
filter [] artifact text = text
filter (r ∷ rs) artifact text = keep_lines (r ∷ rs) artifact (split_on 10 text)

-- strings.TrimRight(s, "\n")
trim_newlines : String → String
trim_newlines String.[] = String.[]
trim_newlines (String.◌∷◌ c s) =
    let rest = trim_newlines s in
    if str_eq (String.◌∷◌ c rest) "\n" then String.[] else String.◌∷◌ c rest

unfoldable pub lines_of : String → List String
unfolding trim_newlines split_on
lines_of text = split_on 10 (trim_newlines text)

abbrev pub head_or : ℕ → List ℕ → ℕ
head_or d [] = d
head_or d (x ∷ xs) = x

-- Row i of the table, from the last column to the first, given row i + 1.
unfoldable pub lcs_row : String → List String → List ℕ → List ℕ
lcs_row a [] below = 0 ∷ []
lcs_row a (b ∷ ys) [] = 0 ∷ []
lcs_row a (b ∷ ys) (down ∷ below) =
    let rest = lcs_row a ys below in
    (if str_eq a b
      then head_or 0 below + 1
      else if leb (head_or 0 rest) down
      then down
      else head_or 0 rest)
    ∷ rest

unfoldable pub zeros : List String → List ℕ
zeros [] = 0 ∷ []
zeros (b ∷ ys) = 0 ∷ zeros ys

abbrev pub first_row : List (List ℕ) → List ℕ
first_row [] = []
first_row (r ∷ rs) = r

-- The rows from the last to the first.
unfoldable pub lcs_table : List String → List String → List (List ℕ)
unfolding lcs_row zeros
lcs_table [] ys = zeros ys ∷ []
lcs_table (a ∷ xs) ys = let t = lcs_table xs ys in lcs_row a ys (first_row t) ∷ t

unfoldable pub nth : List ℕ → ℕ → ℕ
nth [] j = 0
nth (x ∷ xs) zero = x
nth (x ∷ xs) (suc j) = nth xs j

-- lcs[i][j]
unfoldable pub cell : List (List ℕ) → ℕ → ℕ → ℕ
unfolding nth
cell [] i j = 0
cell (r ∷ rs) zero j = nth r j
cell (r ∷ rs) (suc i) j = cell rs i j

-- The loops of the walk, at i and j, over the lines that are left.
unfoldable pub walk : List (List ℕ) → ℕ → ℕ → List String → List String → List Edit
unfolding cell
walk t i j [] ys = map add ys
walk t i j (a ∷ xs) [] = map delete (a ∷ xs)
walk t i j (a ∷ xs) (b ∷ ys) =
    let both = keep a ∷ walk t (suc i) (suc j) xs ys in
    let left = delete a ∷ walk t (suc i) j xs (b ∷ ys) in
    let right = add b ∷ walk t i (suc j) (a ∷ xs) ys in
    if str_eq a b then both else if leb (cell t i (suc j)) (cell t (suc i) j) then left else right

unfoldable pub edits : List String → List String → List Edit
unfolding walk lcs_table
edits xs ys = walk (lcs_table xs ys) 0 0 xs ys

render_edit : Edit → String
render_edit (keep s) = join_text "  " (join_text s "\n")
render_edit (delete s) = join_text "- " (join_text s "\n")
render_edit (add s) = join_text "+ " (join_text s "\n")

render : List Edit → String
unfolding render_edit
render [] = ""
render (e ∷ es) = join_text (render_edit e) (render es)

-- The counters of the walk.
unfoldable pub added : List Edit → ℕ
added [] = 0
added (add s ∷ es) = suc (added es)
added (e ∷ es) = added es

unfoldable pub removed : List Edit → ℕ
removed [] = 0
removed (delete s ∷ es) = suc (removed es)
removed (e ∷ es) = removed es

unfoldable pub unified : String → String → Result
unfolding edits lines_of render added removed
unified a b =
    let es = edits (lines_of a) (lines_of b) in
    record {
      unified = render es;
      added_lines = added es;
      removed_lines = removed es;
      identical = false;
    }

unfoldable pub diff : List IgnoreRule → String → String → String → Result
unfolding filter unified
diff rules artifact old_text new_text =
    let o = filter rules artifact old_text in
    let n = filter rules artifact new_text in
    if str_eq o n
    then record { unified = ""; added_lines = 0; removed_lines = 0; identical = true }
    else unified o n
