-- ===== src/Diff/Table.antt =====
-- The table against the recursion that it tabulates, and the walk against the two texts.
use Prim.Native.Nat.{max}
use netmantle.Prelude.{
  ℕ, zero, suc, ◌+◌, ◌≤◌, ◌≡◌, refl, String, List, [], ◌∷◌, map, arith, ap, ◌∙◌, str_eq,
  if◌then◌else◌, leb, length, drop, ap₂,
}
use netmantle.Diff.Engine.{
  Edit, keep, delete, add, lcs_row, zeros, lcs_table, first_row, head_or, nth, cell, walk, edits,
}

-- The length of a longest common subsequence, by recursion.
unfoldable pub lcs : List String → List String → ℕ
lcs [] ys = 0
lcs (x ∷ xs) [] = 0
lcs (x ∷ xs) (y ∷ ys) =
    let both = suc (lcs xs ys) in
    let either = max (lcs xs (y ∷ ys)) (lcs (x ∷ xs) ys) in if str_eq x y then both else either

-- The values of `lcs` at every suffix of the second text.
columns : List String → List String → List ℕ
unfolding lcs
columns xs [] = lcs xs [] ∷ []
columns xs (y ∷ ys) = lcs xs (y ∷ ys) ∷ columns xs ys

head-columns : (xs ys : List String) → head_or 0 (columns xs ys) ≡ lcs xs ys
unfolding columns
head-columns xs [] = refl
head-columns xs (y ∷ ys) = refl

zeros-columns : (ys : List String) → zeros ys ≡ columns [] ys
unfolding zeros columns
zeros-columns [] = refl
zeros-columns (y ∷ ys) = ap (λ r. 0 ∷ r) (zeros-columns ys)

lcs_row-columns :
    (x : String) (xs ys : List String) → lcs_row x ys (columns xs ys) ≡ columns (x ∷ xs) ys
unfolding lcs_row columns lcs
lcs_row-columns x xs [] = refl
lcs_row-columns x xs (y ∷ ys) =
    ground (arith, lcs_row-columns x xs ys, head-columns xs ys, head-columns (x ∷ xs) ys)

nth-columns :
    (xs ys : List String) (j : ℕ) → j ≤ length ys → nth (columns xs ys) j ≡ lcs xs (drop j ys)
unfolding nth columns
nth-columns xs [] zero h = refl
nth-columns xs [] (suc j) h = absurd (omega arith)
nth-columns xs (y ∷ ys) zero h = refl
nth-columns xs (y ∷ ys) (suc j) h = nth-columns xs ys j (omega arith)

first_row-lcs_table : (xs ys : List String) → first_row (lcs_table xs ys) ≡ columns xs ys
unfolding lcs_table
first_row-lcs_table [] ys = zeros-columns ys
first_row-lcs_table (x ∷ xs) ys =
    ap (lcs_row x ys) (first_row-lcs_table xs ys) ∙ lcs_row-columns x xs ys

-- The cell at i and j of the table that the two loops fill, for i and j up to the lengths of the texts,
-- is what the recursion `lcs` gives for the lines from i on and those from j on.
pub cell-lcs_table :
    (xs ys : List String) (i j : ℕ)
    → i ≤ length xs
    → j ≤ length ys
    → cell (lcs_table xs ys) i j ≡ lcs (drop i xs) (drop j ys)
unfolding cell lcs_table
cell-lcs_table [] ys zero j hi hj = ap (λ r. nth r j) (zeros-columns ys) ∙ nth-columns [] ys j hj
cell-lcs_table [] ys (suc i) j hi hj = absurd (omega arith)
cell-lcs_table (x ∷ xs) ys zero j hi hj =
    ap (λ r. nth r j) (first_row-lcs_table (x ∷ xs) ys) ∙ nth-columns (x ∷ xs) ys j hj
cell-lcs_table (x ∷ xs) ys (suc i) j hi hj = cell-lcs_table xs ys i j (omega arith) hj

-- The walk, with the lengths themselves for the cells.
unfoldable pub plan : List String → List String → List Edit
plan [] ys = map add ys
plan (x ∷ xs) [] = map delete (x ∷ xs)
plan (x ∷ xs) (y ∷ ys) =
    let both = keep x ∷ plan xs ys in
    let left = delete x ∷ plan xs (y ∷ ys) in
    let right = add y ∷ plan (x ∷ xs) ys in
    if str_eq x y then both else if leb (lcs (x ∷ xs) ys) (lcs xs (y ∷ ys)) then left else right

-- The part of the table from i and j on belongs to these lines.
abbrev Describes : List (List ℕ) → ℕ → ℕ → List String → List String → Type 0
Describes t i j xs ys =
    (a b : ℕ) → a ≤ length xs → b ≤ length ys → cell t (i + a) (j + b) ≡ lcs (drop a xs) (drop b ys)

module _ (t : List (List ℕ)) (i j : ℕ) (x y : String) (xs ys : List String)
    (d : Describes t i j (x ∷ xs) (y ∷ ys)) where
  down : Describes t (suc i) j xs (y ∷ ys)
  down a b ha hb =
      ap (λ k. cell t k (j + b)) (let e : suc i + a ≡ i + suc a = omega arith in e)
      ∙ d (suc a) b (omega arith) hb

  across : Describes t i (suc j) (x ∷ xs) ys
  across a b ha hb =
      ap (λ k. cell t (i + a) k) (let e : suc j + b ≡ j + suc b = omega arith in e)
      ∙ d a (suc b) ha (omega arith)

  diagonal : Describes t (suc i) (suc j) xs ys
  diagonal a b ha hb =
      ap₂ (cell t) (let e : suc i + a ≡ i + suc a = omega arith in e)
        (let e : suc j + b ≡ j + suc b = omega arith in e)
      ∙ d (suc a) (suc b) (omega arith) (omega arith)

  down_cell : cell t (suc i) j ≡ lcs xs (y ∷ ys)
  down_cell =
      ap₂ (cell t) (let e : suc i ≡ i + 1 = omega arith in e) (let e : j ≡ j + 0 = omega arith in e)
      ∙ d 1 0 (omega arith) (omega arith)

  across_cell : cell t i (suc j) ≡ lcs (x ∷ xs) ys
  across_cell =
      ap₂ (cell t) (let e : i ≡ i + 0 = omega arith in e) (let e : suc j ≡ j + 1 = omega arith in e)
      ∙ d 0 1 (omega arith) (omega arith)

walk-plan :
    (t : List (List ℕ)) (i j : ℕ) (xs ys : List String)
    → Describes t i j xs ys
    → walk t i j xs ys ≡ plan xs ys
unfolding walk plan
walk-plan t i j [] ys d = refl
walk-plan t i j (x ∷ xs) [] d = refl
walk-plan t i j (x ∷ xs) (y ∷ ys) d = ground (
  arith,
  down_cell t i j x y xs ys d,
  across_cell t i j x y xs ys d,
  walk-plan t (suc i) (suc j) xs ys (diagonal t i j x y xs ys d),
  walk-plan t (suc i) j xs (y ∷ ys) (down t i j x y xs ys d),
  walk-plan t i (suc j) (x ∷ xs) ys (across t i j x y xs ys d),
)

-- The walk along the filled table makes the same edits as the recursion `plan`, which compares the
-- values of `lcs` itself.
pub edits-plan : (xs ys : List String) → edits xs ys ≡ plan xs ys
unfolding edits
edits-plan xs ys = walk-plan (lcs_table xs ys) 0 0 xs ys (λ a b ha hb.
    ap₂ (cell (lcs_table xs ys)) (let e : 0 + a ≡ a = omega arith in e)
      (let e : 0 + b ≡ b = omega arith in e)
    ∙ cell-lcs_table xs ys a b ha hb)
