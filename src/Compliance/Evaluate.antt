-- ===== src/Compliance/Evaluate.antt =====
-- What a rule says of a text.
use netmantle.Prelude.{
  ◌≡◌, ◌↔◌, refl, String, true, List, [], ◌∷◌, str_eq, str_eq_iff, arith, Bool-cases, inl, inr,
  subst, sym,
}
use netmantle.Prelude.Text.{split_on}
use netmantle.Compliance.Rules.{ordered_from, ordered_contains}

-- Lines that stand in a text in this order, not necessarily next to each other.
pub data Sublist : List String → List String → Type 0 where
  done : {lines : List String} → Sublist [] lines
  take : {w : String} {ws lines : List String} → Sublist ws lines → Sublist (w ∷ ws) (w ∷ lines)
  skip : {line : String} {ws lines : List String} → Sublist ws lines → Sublist ws (line ∷ lines)

ordered_from-tail :
    (lines : List String) (w : String) (ws : List String)
    → ordered_from lines (w ∷ ws) ≡ true
    → ordered_from lines ws ≡ true
unfolding ordered_from
ordered_from-tail [] w ws h = absurd (ground arith)
ordered_from-tail (line ∷ lines) w [] h = refl
ordered_from-tail (line ∷ lines) w (v ∷ vs) h =
    ground (arith, ordered_from-tail lines w (v ∷ vs), ordered_from-tail lines v vs)

Sublist-ordered_from : {ws lines : List String} → Sublist ws lines → ordered_from lines ws ≡ true
unfolding ordered_from
Sublist-ordered_from done = refl
Sublist-ordered_from (take {w} {ws} {lines} h) =
    ground (arith, str_eq_iff w w, Sublist-ordered_from h)
Sublist-ordered_from (skip {line} {ws = []} {lines} h) = refl
Sublist-ordered_from (skip {line} {ws = w ∷ ws} {lines} h) =
    ground (arith, Sublist-ordered_from h, ordered_from-tail lines w ws)

ordered_from-Sublist : (lines ws : List String) → ordered_from lines ws ≡ true → Sublist ws lines
unfolding ordered_from
ordered_from-Sublist lines [] h = done
ordered_from-Sublist [] (w ∷ ws) h = absurd (ground arith)
ordered_from-Sublist (line ∷ lines) (w ∷ ws) h = elim (Bool-cases (str_eq line w)) [
  | inl e ↦
      subst (λ l. Sublist (w ∷ ws) (l ∷ lines)) (sym ((str_eq_iff line w).0 e))
        (take (ordered_from-Sublist lines ws (rw e at h)))
  | inr e ↦ skip (ordered_from-Sublist lines (w ∷ ws) (rw e at h))
]

-- The scan of `orderedContains`, which takes the first line that fits, answers true exactly if the
-- wanted lines stand somewhere in the lines of the text in their order.
pub ordered_contains_iff :
    (text : String) (want : List String)
    → (ordered_contains text want ≡ true) ↔ Sublist want (split_on 10 text)
unfolding ordered_contains
ordered_contains_iff text want =
    (ordered_from-Sublist (split_on 10 text) want, λ h. Sublist-ordered_from h)
