-- ===== src/Db/Rules.antt =====
-- Tables under statements: what an UPDATE leaves, and rows whose keys are all different.
use netmantle.Prelude.{
  ◌≡◌, refl, Bool, true, false, List, [], ◌∷◌, arith, count_where, update_where, length, ◌⊎◌, inl,
  inr,
}
use netmantle.Db.{Result, ok, err, Error}

module _ {ℓ} {A : Type ℓ} (p : A → Bool) (f : A → A) where
  -- Once the assignment falsifies the condition, a second run finds no row.
  pub count_where-update_where :
      (xs : List A)
      → ((x : A) → p x ≡ true → p (f x) ≡ false)
      → count_where p (update_where p f xs) ≡ 0
  unfolding count_where update_where
  count_where-update_where [] k = refl
  count_where-update_where (x ∷ xs) k = ground (arith, k x, count_where-update_where xs k)

  -- A statement that finds no row changes nothing.
  pub update_where_none : (xs : List A) → count_where p xs ≡ 0 → update_where p f xs ≡ xs
  unfolding count_where update_where
  update_where_none [] h = refl
  update_where_none (x ∷ xs) h = ground (arith, update_where_none xs)

  pub length-update_where : (xs : List A) → length (update_where p f xs) ≡ length xs
  unfolding update_where
  length-update_where [] = refl
  length-update_where (x ∷ xs) = ground (arith, length-update_where xs)

module _ {ℓ} {A : Type ℓ} (p : A → Bool) where
  pub count_where_none : (xs : List A) → ((x : A) → p x ≡ false) → count_where p xs ≡ 0
  unfolding count_where
  count_where_none [] k = refl
  count_where_none (x ∷ xs) k = rw (k x) (count_where_none xs k)

pub Result-cases :
    {A : Type 0} (r : Result A) → ((a : A) × (r ≡ ok a)) ⊎ ((e : Error) × (r ≡ err e))
Result-cases (ok a) = inl (a, refl)
Result-cases (err e) = inr (e, refl)
