-- ===== src/Prelude/Lists.antt =====
-- Lists as tables: a predicate on every row, the rows that a query reads, and the rows that a
-- statement rewrites.
use Prim.Native.Nat.{ℕ, zero, suc, ◌+◌}
use mathlib.Core.Path.{◌≡◌, refl, subst}
use mathlib.Core.Bool.{Bool, true, false}
use mathlib.Core.Option.{Option, none, some}
use mathlib.Core.List.{List, [], ◌∷◌, ◌++◌}
use native.Mathlib.Omega.{arith}
use mathlib.Core.Logic.{◌≢◌, inl, inr}
use netmantle.Prelude.Tests.{if◌then◌else◌, Bool-cases}

module _ {ℓ} {A : Type ℓ} where
  abbrev pub length : List A → ℕ
  length [] = 0
  length (x ∷ xs) = suc (length xs)

  abbrev pub All {κ} : (A → Type κ) → List A → Type κ
  All P [] = Unit
  All P (x ∷ xs) = P x × All P xs

  -- The rows that satisfy the condition, in order.
  abbrev pub filter : (A → Bool) → List A → List A
  filter p [] = []
  filter p (x ∷ xs) = let rest = filter p xs in if p x then x ∷ rest else rest

  -- The first row that satisfies the condition.
  unfoldable pub find_first : (A → Bool) → List A → Option A
  find_first p [] = none
  find_first p (x ∷ xs) = let rest = find_first p xs in if p x then some x else rest

  -- How many rows satisfy the condition.
  unfoldable pub count_where : (A → Bool) → List A → ℕ
  count_where p [] = 0
  count_where p (x ∷ xs) = let rest = count_where p xs in if p x then suc rest else rest

  -- The rows after the assignment has been made in those that satisfy the condition.
  unfoldable pub update_where : (A → Bool) → (A → A) → List A → List A
  update_where p f [] = []
  update_where p f (x ∷ xs) = (if p x then f x else x) ∷ update_where p f xs

  pub All-append {κ} : (P : A → Type κ) (xs ys : List A) → All P xs → All P ys → All P (xs ++ ys)
  All-append P [] ys hx hy = hy
  All-append P (x ∷ xs) ys hx hy = (hx.0, All-append P xs ys hx.1 hy)

  pub All-map {κ μ} :
      (P : A → Type κ) (Q : A → Type μ) (xs : List A) → ((x : A) → P x → Q x) → All P xs → All Q xs
  All-map P Q [] f h = tt
  All-map P Q (x ∷ xs) f h = (f x h.0, All-map P Q xs f h.1)

  pub All-both {κ μ} :
      (P : A → Type κ) (Q : A → Type μ) (xs : List A)
      → All P xs
      → All Q xs
      → All (λ x. P x × Q x) xs
  All-both P Q [] f g = tt
  All-both P Q (x ∷ xs) f g = ((f.0, g.0), All-both P Q xs f.1 g.1)

  pub All-update_where {κ} :
      (P : A → Type κ) (p : A → Bool) (f : A → A) (xs : List A)
      → ((x : A) → p x ≡ true → P x → P (f x))
      → All P xs
      → All P (update_where p f xs)
  unfolding update_where
  All-update_where P p f [] k h = tt
  All-update_where P p f (x ∷ xs) k h = (head (p x) refl, All-update_where P p f xs k h.1)
    where
      head : (b : Bool) → p x ≡ b → P (if b then f x else x)
      head true e = k x e h.0
      head false e = h.0

  -- What the query returns satisfies its condition, and what all rows satisfy.
  pub find_first_sound :
      (p : A → Bool) (xs : List A) (a : A) → find_first p xs ≡ some a → p a ≡ true
  unfolding find_first
  find_first_sound p [] a h = ground arith
  find_first_sound p (x ∷ xs) a h = ground (arith, find_first_sound p xs a)

  pub All-find_first {κ} :
      (P : A → Type κ) (p : A → Bool) (xs : List A) (a : A)
      → All P xs
      → find_first p xs ≡ some a
      → P a
  unfolding find_first
  All-find_first P p [] a h e = absurd (ground arith)
  All-find_first P p (x ∷ xs) a h e = go (All-find_first P p xs a h.1) (p x) e
    where
      go :
          (find_first p xs ≡ some a → P a)
          → (b : Bool) → (if b then some x else find_first p xs) ≡ some a
          → P a
      go ih true q = let same : x ≡ a = cc in subst P same h.0
      go ih false q = ih q

  pub length-append : (xs ys : List A) → length (xs ++ ys) ≡ length xs + length ys
  length-append [] ys = omega arith
  length-append (x ∷ xs) ys = omega (arith, length-append xs ys)

  -- An append does not change what a query finds among the rows that were there.
  pub find_first-append :
      (p : A → Bool) (xs ys : List A)
      → find_first p (xs ++ ys)
        ≡ elim (find_first p xs) [ some a ↦ some a | none ↦ find_first p ys ]
  unfolding find_first
  find_first-append p [] ys = refl
  find_first-append p (x ∷ xs) ys = ground (arith, find_first-append p xs ys)

module _ {ℓ} {A : Type ℓ} where
  -- LIMIT
  abbrev pub take : ℕ → List A → List A
  take zero xs = []
  take (suc n) [] = []
  take (suc n) (x ∷ xs) = x ∷ take n xs

  -- Rows that a query leaves out may be rewritten and appended as one likes.
  pub filter-update_where :
      (q p : A → Bool) (f : A → A) (xs : List A)
      → ((x : A) → p x ≡ true → (q x ≡ false) × (q (f x) ≡ false))
      → filter q (update_where p f xs) ≡ filter q xs
  unfolding update_where
  filter-update_where q p f [] k = refl
  filter-update_where q p f (x ∷ xs) k = ground (arith, k x, filter-update_where q p f xs k)

  pub filter-append :
      (q : A → Bool) (xs ys : List A) → filter q (xs ++ ys) ≡ filter q xs ++ filter q ys
  filter-append q [] ys = refl
  filter-append q (x ∷ xs) ys = ground (arith, filter-append q xs ys)

  abbrev pub drop : ℕ → List A → List A
  drop zero xs = xs
  drop (suc n) [] = []
  drop (suc n) (x ∷ xs) = drop n xs

module _ {ℓ} {A : Type ℓ} where
  -- A query that found nothing finds the new row that answers it.
  pub find_first_last :
      (p : A → Bool) (xs : List A) (r : A)
      → find_first p xs ≡ none
      → p r ≡ true
      → find_first p (xs ++ r ∷ []) ≡ some r
  unfolding find_first
  find_first_last p [] r h own = ground arith
  find_first_last p (x ∷ xs) r h own = ground (arith, find_first_last p xs r)

  -- The first row that an assignment rewrote is the first one still, if it satisfies the condition.
  pub find_first-update_where :
      (p : A → Bool) (f : A → A) (xs : List A) (r : A)
      → find_first p xs ≡ some r
      → p (f r) ≡ true
      → find_first p (update_where p f xs) ≡ some (f r)
  unfolding find_first update_where
  find_first-update_where p f [] r h own = ground arith
  find_first-update_where p f (x ∷ xs) r h own = elim (Bool-cases (p x)) [
    | inl e ↦ let same : some x ≡ some r = (rw e at h) in ground arith
    | inr e ↦ ground (arith, find_first-update_where p f xs r)
  ]

  -- An assignment that the query does not look at rewrites what it finds, if it satisfies the condition.
  pub find_first-assigned :
      (p q : A → Bool) (f : A → A) (xs : List A) (r : A)
      → ((x : A) → p (f x) ≡ p x)
      → find_first p xs ≡ some r
      → find_first p (update_where q f xs) ≡ some (if q r then f r else r)
  unfolding find_first update_where
  find_first-assigned p q f [] r same h = ground arith
  find_first-assigned p q f (x ∷ xs) r same h = elim (Bool-cases (p x)) [
    | inl on ↦ let first : some x ≡ some r = (rw on at h) in ground (arith, same x)
    | inr off ↦ ground (arith, same x, find_first-assigned p q f xs r same)
  ]

  -- A row that a query finds counts.
  pub count_where_found :
      (p q : A → Bool) (xs : List A) (r : A)
      → find_first p xs ≡ some r
      → q r ≡ true
      → count_where q xs ≢ 0
  unfolding find_first count_where
  count_where_found p q [] r h on = ground arith
  count_where_found p q (x ∷ xs) r h on = elim (Bool-cases (p x)) [
    | inl e ↦ let first : some x ≡ some r = (rw e at h) in ground arith
    | inr e ↦ ground (arith, count_where_found p q xs r)
  ]

  abbrev pub insert_by : (A → A → Bool) → A → List A → List A
  insert_by before x [] = x ∷ []
  insert_by before x (y ∷ ys) =
      let rest = insert_by before x ys in if before x y then x ∷ y ∷ ys else y ∷ rest

  -- ORDER BY; rows that are equal in it keep their order.
  unfoldable pub sort_by : (A → A → Bool) → List A → List A
  sort_by before [] = []
  sort_by before (x ∷ xs) = insert_by before x (sort_by before xs)
