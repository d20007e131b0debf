-- ===== src/Diff/Minimal.antt =====
-- The unified diff as a patch: it leads from the old lines to the new ones, with the fewest changes.
use netmantle.Prelude.{
  ℕ, suc, ◌+◌, ◌≤◌, ◌≡◌, refl, String, List, [], ◌∷◌, map, arith, ap, ◌∙◌, str_eq_iff, length,
  subst,
}
use netmantle.Diff.Engine.{Edit, keep, delete, add, edits, added, removed}
use netmantle.Diff.Table.{lcs, plan, edits-plan}

-- The lines that an edit script reads, and those that it writes.
unfoldable pub old_lines : List Edit → List String
old_lines [] = []
old_lines (keep s ∷ es) = s ∷ old_lines es
old_lines (delete s ∷ es) = s ∷ old_lines es
old_lines (add s ∷ es) = old_lines es

unfoldable pub new_lines : List Edit → List String
new_lines [] = []
new_lines (keep s ∷ es) = s ∷ new_lines es
new_lines (delete s ∷ es) = new_lines es
new_lines (add s ∷ es) = s ∷ new_lines es

old-map_add : (ys : List String) → old_lines (map add ys) ≡ []
unfolding old_lines
old-map_add [] = refl
old-map_add (y ∷ ys) = old-map_add ys

new-map_add : (ys : List String) → new_lines (map add ys) ≡ ys
unfolding new_lines
new-map_add [] = refl
new-map_add (y ∷ ys) = ap (λ l. y ∷ l) (new-map_add ys)

old-map_delete : (xs : List String) → old_lines (map delete xs) ≡ xs
unfolding old_lines
old-map_delete [] = refl
old-map_delete (x ∷ xs) = ap (λ l. x ∷ l) (old-map_delete xs)

new-map_delete : (xs : List String) → new_lines (map delete xs) ≡ []
unfolding new_lines
new-map_delete [] = refl
new-map_delete (x ∷ xs) = new-map_delete xs

plan_lines : (xs ys : List String) → (old_lines (plan xs ys) ≡ xs) × (new_lines (plan xs ys) ≡ ys)
unfolding plan old_lines new_lines
plan_lines [] ys = (old-map_add ys, new-map_add ys)
plan_lines (x ∷ xs) [] = (old-map_delete (x ∷ xs), new-map_delete (x ∷ xs))
plan_lines (x ∷ xs) (y ∷ ys) =
    ground (arith, str_eq_iff x y, plan_lines xs ys, plan_lines xs (y ∷ ys), plan_lines (x ∷ xs) ys)

-- The lines of the diff marked as kept or removed are the old text, those marked as kept or added are
-- the new one, each in order: the diff is a patch from the one to the other.
pub edits_lines :
    (xs ys : List String) → (old_lines (edits xs ys) ≡ xs) × (new_lines (edits xs ys) ≡ ys)
edits_lines xs ys = rw edits-plan (plan_lines xs ys)

lcs-nil : (xs : List String) → lcs xs [] ≡ 0
unfolding lcs
lcs-nil [] = refl
lcs-nil (x ∷ xs) = refl

-- One line more on one side changes the length by one at most.
lcs_right :
    (xs ys : List String)
    → ((x : String) → lcs xs ys ≤ lcs (x ∷ xs) ys)
      × ((y : String) → lcs xs (y ∷ ys) ≤ suc (lcs xs ys))
unfolding lcs
lcs_right [] [] = ((λ x. omega arith), (λ y. omega arith))
lcs_right [] (z ∷ ys) = ((λ x. omega arith), (λ y. omega arith))
lcs_right (w ∷ xs) [] =
    ((λ x. omega arith), (λ y. ground (arith, lcs-nil xs, (lcs_right xs []).1 y)))
lcs_right (w ∷ xs) (z ∷ ys) = (
  (λ x. ground (arith, (lcs_right (w ∷ xs) ys).1 z)),
  (λ y. ground (arith, (lcs_right xs (z ∷ ys)).0 w, (lcs_right xs (z ∷ ys)).1 y)),
)

lcs_left :
    (xs ys : List String)
    → ((y : String) → lcs xs ys ≤ lcs xs (y ∷ ys))
      × ((x : String) → lcs (x ∷ xs) ys ≤ suc (lcs xs ys))
unfolding lcs
lcs_left [] [] = ((λ y. omega arith), (λ x. omega arith))
lcs_left (w ∷ xs) [] = ((λ y. omega arith), (λ x. omega arith))
lcs_left [] (z ∷ ys) = ((λ y. omega arith), (λ x. ground (arith, (lcs_left [] ys).1 x)))
lcs_left (w ∷ xs) (z ∷ ys) = (
  (λ y. ground (arith, (lcs_left xs (z ∷ ys)).1 w)),
  (λ x. ground (arith, (lcs_left (w ∷ xs) ys).0 z, (lcs_left (w ∷ xs) ys).1 x)),
)

-- How many lines an edit script keeps.
abbrev kept : List Edit → ℕ
kept [] = 0
kept (keep s ∷ es) = suc (kept es)
kept (e ∷ es) = kept es

-- No script keeps more lines than a longest common subsequence has.
kept-le-lcs : (es : List Edit) → kept es ≤ lcs (old_lines es) (new_lines es)
unfolding old_lines new_lines lcs
kept-le-lcs [] = omega arith
kept-le-lcs (keep s ∷ es) = ground (arith, str_eq_iff s s, kept-le-lcs es)
kept-le-lcs (delete s ∷ es) =
    omega (arith, kept-le-lcs es, (lcs_right (old_lines es) (new_lines es)).0 s)
kept-le-lcs (add s ∷ es) =
    omega (arith, kept-le-lcs es, (lcs_left (old_lines es) (new_lines es)).0 s)

kept-map_add : (ys : List String) → kept (map add ys) ≡ 0
kept-map_add [] = refl
kept-map_add (y ∷ ys) = kept-map_add ys

kept-map_delete : (xs : List String) → kept (map delete xs) ≡ 0
kept-map_delete [] = refl
kept-map_delete (x ∷ xs) = kept-map_delete xs

kept-plan : (xs ys : List String) → kept (plan xs ys) ≡ lcs xs ys
unfolding plan lcs
kept-plan [] ys = kept-map_add ys
kept-plan (x ∷ xs) [] = kept-map_delete (x ∷ xs)
kept-plan (x ∷ xs) (y ∷ ys) =
    ground (arith, kept-plan xs ys, kept-plan xs (y ∷ ys), kept-plan (x ∷ xs) ys)

-- What is not kept is removed or added.
counts :
    (es : List Edit)
    → (removed es + kept es ≡ length (old_lines es)) × (added es + kept es ≡ length (new_lines es))
unfolding removed added old_lines new_lines
counts [] = (omega arith, omega arith)
counts (keep s ∷ es) = omega (arith, counts es)
counts (delete s ∷ es) = omega (arith, counts es)
counts (add s ∷ es) = omega (arith, counts es)

-- The counters of the diff are right and least: with the longest common subsequence they make up the
-- lengths of the two texts, and no other patch between the texts removes or adds fewer lines.
pub edits_minimal :
    (xs ys : List String) (es : List Edit)
    → old_lines es ≡ xs
    → new_lines es ≡ ys
    → (removed (edits xs ys) + lcs xs ys ≡ length xs)
      × (added (edits xs ys) + lcs xs ys ≡ length ys)
      × (removed (edits xs ys) ≤ removed es)
      × (added (edits xs ys) ≤ added es)
edits_minimal xs ys es old new =
    let mine = counts (edits xs ys) in
    let (reads, writes) = edits_lines xs ys in
    let common : kept (edits xs ys) ≡ lcs xs ys = ap kept (edits-plan xs ys) ∙ kept-plan xs ys in
    let bound : kept es ≤ lcs xs ys =
      subst (λ l. kept es ≤ lcs l ys) old
        (subst (λ l. kept es ≤ lcs (old_lines es) l) new (kept-le-lcs es)) in
    let theirs = counts es in
    omega (
      arith,
      mine,
      common,
      bound,
      theirs,
      ap length reads,
      ap length writes,
      ap length old,
      ap length new,
    )
