-- ===== src/Db/Evolve.antt =====
-- A table before and after a statement: each row at its place, related by `R`, and behind them rows
-- that `New` describes.
use netmantle.Prelude.{
  ◌≡◌, refl, Bool, true, false, List, [], ◌∷◌, ◌++◌, All, if◌then◌else◌, update_where, subst, sym,
}
use netmantle.Db.{Table}

abbrev pub Evolves : {A : Type 0} → (A → A → Type 0) → (A → Type 0) → List A → List A → Type 0
Evolves R New [] ys = All New ys
Evolves R New (x ∷ xs) [] = ⊥
Evolves R New (x ∷ xs) (y ∷ ys) = R x y × Evolves R New xs ys

module _ {A : Type 0} (R : A → A → Type 0) (New : A → Type 0) where
  module _ (R-refl : (x : A) → R x x) where
    pub Evolves-refl : (xs : List A) → Evolves R New xs xs
    Evolves-refl [] = tt
    Evolves-refl (x ∷ xs) = (R-refl x, Evolves-refl xs)

    pub Evolves-append : (xs ys : List A) → All New ys → Evolves R New xs (xs ++ ys)
    Evolves-append [] ys h = h
    Evolves-append (x ∷ xs) ys h = (R-refl x, Evolves-append xs ys h)

    pub Evolves-update_where :
        (p : A → Bool) (f : A → A) (xs : List A)
        → ((r : A) → p r ≡ true → R r (f r))
        → Evolves R New xs (update_where p f xs)
    unfolding update_where
    Evolves-update_where p f [] k = tt
    Evolves-update_where p f (x ∷ xs) k = (head (p x) refl, Evolves-update_where p f xs k)
      where
        head : (b : Bool) → p x ≡ b → R x (if b then f x else x)
        head true e = k x e
        head false e = R-refl x

    -- A table that is left as it is.
    pub Evolves-eq : (t u : Table A) → u ≡ t → Evolves R New t.rows u.rows
    Evolves-eq t u e =
        subst (λ (v : Table A). Evolves R New t.rows v.rows) (sym e) (Evolves-refl t.rows)

  pub Evolves-trans :
      ((x y z : A) → R x y → R y z → R x z)
      → ((x y : A) → New x → R x y → New y)
      → (xs ys zs : List A) → Evolves R New xs ys
      → Evolves R New ys zs
      → Evolves R New xs zs
  Evolves-trans tr nw [] [] zs h k = k
  Evolves-trans tr nw [] (y ∷ ys) [] h k = absurd k
  Evolves-trans tr nw [] (y ∷ ys) (z ∷ zs) h k =
      (nw y z h.0 k.0, Evolves-trans tr nw [] ys zs h.1 k.1)
  Evolves-trans tr nw (x ∷ xs) [] zs h k = absurd h
  Evolves-trans tr nw (x ∷ xs) (y ∷ ys) [] h k = k
  Evolves-trans tr nw (x ∷ xs) (y ∷ ys) (z ∷ zs) h k =
      (tr x y z h.0 k.0, Evolves-trans tr nw xs ys zs h.1 k.1)

  -- A property that new rows have and `R` keeps.
  module _ (P : A → Type 0) (starts : (r : A) → New r → P r)
      (keeps : (x y : A) → R x y → P x → P y) where
    All-new : (ys : List A) → All New ys → All P ys
    All-new [] d = tt
    All-new (y ∷ ys) d = (starts y d.0, All-new ys d.1)

    pub All-Evolves : (xs ys : List A) → Evolves R New xs ys → All P xs → All P ys
    All-Evolves [] ys e h = All-new ys e
    All-Evolves (x ∷ xs) [] e h = absurd e
    All-Evolves (x ∷ xs) (y ∷ ys) e h = (keeps x y e.0 h.0, All-Evolves xs ys e.1 h.1)

-- A weaker relation, and a weaker description of the new rows.
pub Evolves-map :
    {A : Type 0} (R S : A → A → Type 0) (New Old : A → Type 0)
    → ((x y : A) → R x y → S x y)
    → ((x : A) → New x → Old x)
    → (xs ys : List A) → Evolves R New xs ys
    → Evolves S Old xs ys
Evolves-map R S New Old f g [] [] h = tt
Evolves-map R S New Old f g [] (y ∷ ys) h = (g y h.0, Evolves-map R S New Old f g [] ys h.1)
Evolves-map R S New Old f g (x ∷ xs) [] h = h
Evolves-map R S New Old f g (x ∷ xs) (y ∷ ys) h = (f x y h.0, Evolves-map R S New Old f g xs ys h.1)
