-- ===== src/Db/Keys.antt =====
-- Primary keys: the rows of a table have different keys, all of them below the next one, so a query
-- by key finds the row that is meant.
use mathlib.Core.Bool.{false≢true}
use netmantle.Prelude.{
  ℕ, suc, ◌<◌, ◌≤◌, ◌≡◌, refl, Bool, true, false, some, none, find_first_last, List, [], ◌∷◌, ◌++◌,
  ◌⊎◌, inl, inr, arith, All, All-map, All-append, All-update_where, ℤ, pos, negsuc, id_eq,
  id_eq_iff, id_eq_comm, if◌then◌else◌, filter, find_first, update_where, count_where, ◌≢◌,
  Bool-cases, ap, sym, subst, ◌∙◌,
}
use netmantle.Db.{Table, insert, update}

-- The key was given before `n`.
abbrev pub Below : ℤ → ℕ → Type 0
Below (pos m) n = m < n
Below (negsuc _) n = ⊥

pub Below-ne : (c : ℤ) (n : ℕ) → Below c n → id_eq (pos n) c ≡ false
unfolding id_eq
Below-ne (pos m) n h = ground arith
Below-ne (negsuc m) n h = absurd h

pub Below-suc : (c : ℤ) (n : ℕ) → Below c n → Below c (suc n)
Below-suc (pos m) n h = omega arith
Below-suc (negsuc m) n h = h

pub Below-le : (c : ℤ) (m n : ℕ) → Below c m → m ≤ n → id_eq c (pos n) ≡ false
unfolding id_eq
Below-le (pos k) m n h le = ground arith
Below-le (negsuc k) m n h le = absurd h

-- A row stands in a table.
abbrev pub In : {A : Type 0} → A → List A → Type 0
In r [] = ⊥
In r (x ∷ xs) = (r ≡ x) ⊎ In r xs

module _ {A : Type 0} where
  pub All-In : (P : A → Type 0) (r : A) (xs : List A) → All P xs → In r xs → P r
  All-In P r [] h m = absurd m
  All-In P r (x ∷ xs) h (inl same) = subst P (sym same) h.0
  All-In P r (x ∷ xs) h (inr later) = All-In P r xs h.1 later

  pub In-filter : (p : A → Bool) (r : A) (xs : List A) → In r (filter p xs) → In r xs × (p r ≡ true)
  In-filter p r [] h = absurd h
  In-filter p r (x ∷ xs) h = go (p x) refl h (In-filter p r xs)
    where
      go :
          (b : Bool)
          → p x ≡ b
          → In r (if b then x ∷ filter p xs else filter p xs)
          → (In r (filter p xs) → In r xs × (p r ≡ true))
          → In r (x ∷ xs) × (p r ≡ true)
      go true e (inl same) k = (inl same, ap p same ∙ e)
      go true e (inr later) k = (inr (k later).0, (k later).1)
      go false e later k = (inr (k later).0, (k later).1)

  pub In-kept : (p : A → Bool) (r : A) (xs : List A) → In r xs → p r ≡ true → In r (filter p xs)
  In-kept p r [] h on = absurd h
  In-kept p r (x ∷ xs) (inl same) on = rw (ap p (sym same) ∙ on) (inl same)
  In-kept p r (x ∷ xs) (inr later) on = elim (Bool-cases (p x)) [
    | inl e ↦ rw e (inr (In-kept p r xs later on))
    | inr e ↦ rw e (In-kept p r xs later on)
  ]

  -- A statement that holds of a row of the table finds one.
  pub count_where-In :
      (p : A → Bool) (r : A) (xs : List A) → In r xs → p r ≡ true → count_where p xs ≢ 0
  unfolding count_where
  count_where-In p r [] h e = absurd h
  count_where-In p r (x ∷ xs) (inl same) e = rw (ap p (sym same) ∙ e) (λ z. cc)
  count_where-In p r (x ∷ xs) (inr later) e = elim (Bool-cases (p x)) [
    | inl on ↦ rw on (λ z. cc)
    | inr off ↦ rw off (count_where-In p r xs later e)
  ]

  pub In-update_where :
      (p : A → Bool) (f : A → A) (r : A) (xs : List A)
      → In r xs
      → p r ≡ true
      → In (f r) (update_where p f xs)
  unfolding update_where
  In-update_where p f r [] h e = absurd h
  In-update_where p f r (x ∷ xs) (inl same) e = inl (ap f same ∙ sym (rw (ap p (sym same) ∙ e)))
  In-update_where p f r (x ∷ xs) (inr later) e = inr (In-update_where p f r xs later e)

module _ {A : Type 0} (key : A → ℤ) where
  abbrev pub Unique : List A → Type 0
  Unique [] = Unit
  Unique (x ∷ xs) = All (λ y. id_eq (key y) (key x) ≡ false) xs × Unique xs

  pub record IsKeyed (t : Table A) : Type 0 where
    pub unique : Unique t.rows
    pub below : All (λ r. Below (key r) t.next_id) t.rows

  Unique-append :
      (xs : List A) (y : A)
      → Unique xs
      → All (λ x. id_eq (key y) (key x) ≡ false) xs
      → Unique (xs ++ y ∷ [])
  Unique-append [] y u h = (tt, tt)
  Unique-append (x ∷ xs) y u h = (All-append _ xs _ u.0 (h.0, tt), Unique-append xs y u.1 h.1)

  pub insert-IsKeyed :
      (row : ℤ → A) (t : Table A)
      → ((i : ℤ) → key (row i) ≡ i)
      → IsKeyed t
      → IsKeyed (insert row t).1
  unfolding insert
  insert-IsKeyed row t own h = record {
    unique = Unique-append t.rows _ h.unique (
        All-map _ _ t.rows
          (λ x b. ap (λ c. id_eq c (key x)) (own (pos t.next_id)) ∙ Below-ne (key x) t.next_id b)
          h.below);
    below =
        All-append _ t.rows _ (All-map _ _ t.rows (λ x b. Below-suc (key x) t.next_id b) h.below)
          (subst (λ c. Below c (suc t.next_id)) (sym (own (pos t.next_id))) (omega arith), tt);
  }

  -- An assignment that leaves the key alone.
  module _ (p : A → Bool) (f : A → A) (f-key : (r : A) → key (f r) ≡ key r) where
    All-keys :
        (P : ℤ → Type 0) (xs : List A)
        → All (λ r. P (key r)) xs
        → All (λ r. P (key r)) (update_where p f xs)
    All-keys P xs h =
        All-update_where (λ r. P (key r)) p f xs (λ r _ k. subst P (sym (f-key r)) k) h

    Unique-update_where : (xs : List A) → Unique xs → Unique (update_where p f xs)
    unfolding update_where
    Unique-update_where [] u = tt
    Unique-update_where (x ∷ xs) u = (
      rw (head (p x)) (All-keys (λ c. id_eq c (key x) ≡ false) xs u.0),
      Unique-update_where xs u.1,
    )
      where
        head : (b : Bool) → key (if b then f x else x) ≡ key x
        head true = f-key x
        head false = refl

    pub update-IsKeyed : (t : Table A) → IsKeyed t → IsKeyed (update p f t).1
    unfolding update
    update-IsKeyed t h = record {
      unique = Unique-update_where t.rows h.unique;
      below = All-keys (λ c. Below c t.next_id) t.rows h.below;
    }

  -- A query that only one key answers finds the row of that key.
  pub find_first-In :
      (q : A → Bool) (r : A) (xs : List A)
      → ((x : A) → q x ≡ true → key x ≡ key r)
      → q r ≡ true
      → Unique xs
      → In r xs
      → find_first q xs ≡ some r
  unfolding find_first
  find_first-In q r [] k e u h = absurd h
  find_first-In q r (x ∷ xs) k e u (inl same) = rw (ap q (sym same) ∙ e) (ap some (sym same))
  find_first-In q r (x ∷ xs) k e u (inr later) = elim (Bool-cases (q x)) [
    | inl on ↦
        let other = All-In _ r xs u.0 later in
        let same = (id_eq_iff (key r) (key x)).1 (sym (k x on)) in
        absurd (false≢true (sym other ∙ same))
    | inr off ↦ rw off (find_first-In q r xs k e u.1 later)
  ]

  -- A statement `p` that has found the row of key `i`, and falsifies `q` there, leaves no row for a
  -- statement `q` on that key.
  module _ (p q : A → Bool) (f : A → A) (i : ℤ) (p-key : (x : A) → p x ≡ true → key x ≡ i)
      (q-key : (x : A) → q x ≡ true → key x ≡ i) (f-key : (x : A) → key (f x) ≡ key x)
      (done : (x : A) → p x ≡ true → q (f x) ≡ false) where
    off_key :
        (r : A → Bool)
        → ((x : A) → r x ≡ true → key x ≡ i)
        → (x : A) → id_eq (key x) i ≡ false
        → r x ≡ false
    off_key r r-key x o = elim (Bool-cases (r x)) [
      | inl e ↦ absurd (false≢true (sym o ∙ (id_eq_iff _ _).1 (r-key x e)))
      | inr e ↦ e
    ]

    no_others :
        (xs : List A)
        → All (λ y. id_eq (key y) i ≡ false) xs
        → count_where q (update_where p f xs) ≡ 0
    unfolding count_where update_where
    no_others [] o = refl
    no_others (x ∷ xs) o = rw (off_key p p-key x o.0, off_key q q-key x o.0) (no_others xs o.1)

    found_behind :
        (x : A) (xs : List A)
        → count_where p xs ≢ 0
        → All (λ y. id_eq (key y) (key x) ≡ false) xs
        → id_eq (key x) i ≡ false
    unfolding count_where
    found_behind x [] c u = absurd (c refl)
    found_behind x (y ∷ ys) c u = elim (Bool-cases (p y)) [
      | inl on ↦
          subst (λ k. id_eq (key x) k ≡ false) (p-key y on) (id_eq_comm (key x) (key y) ∙ u.0)
      | inr off ↦ found_behind x ys (λ z. c (rw off z)) u.1
    ]

    pub count_where_gone :
        (xs : List A) → Unique xs → count_where p xs ≢ 0 → count_where q (update_where p f xs) ≡ 0
    unfolding count_where update_where
    count_where_gone [] u c = refl
    count_where_gone (x ∷ xs) u c = elim (Bool-cases (p x)) [
      | inl on ↦
          rw (on, done x on)
            (no_others xs
              (All-map _ _ xs (λ y o. subst (λ k. id_eq (key y) k ≡ false) (p-key x on) o) u.0))
      | inr off ↦
          let more : count_where p xs ≢ 0 = λ z. c (rw off z) in
          rw (off, off_key q q-key x (found_behind x xs more u.0)) (count_where_gone xs u.1 more)
    ]

  -- A query that only the next key answers finds no row yet.
  pub find_first_fresh :
      (q : A → Bool) (n : ℕ) (xs : List A)
      → ((x : A) → q x ≡ true → key x ≡ pos n)
      → All (λ r. Below (key r) n) xs
      → find_first q xs ≡ none
  unfolding find_first
  find_first_fresh q n [] k h = refl
  find_first_fresh q n (x ∷ xs) k h = elim (Bool-cases (q x)) [
    | inl on ↦
        let same = (id_eq_iff (key x) (pos n)).1 (k x on) in
        absurd (false≢true (sym (Below-le (key x) n n h.0 (omega arith)) ∙ same))
    | inr off ↦ rw off (find_first_fresh q n xs k h.1)
  ]

  -- The row that an INSERT appends is found by its key.
  pub find_first-insert :
      (q : A → Bool) (row : ℤ → A) (t : Table A)
      → ((x : A) → q x ≡ true → key x ≡ pos t.next_id)
      → q (row (pos t.next_id)) ≡ true
      → IsKeyed t
      → find_first q (insert row t).1.rows ≡ some (row (pos t.next_id))
  unfolding insert
  find_first-insert q row t k own h =
      find_first_last q t.rows (row (pos t.next_id)) (find_first_fresh q t.next_id t.rows k h.below)
        own

module _ {A : Type 0} where
  pub In-append : (r : A) (xs ys : List A) → In r xs → In r (xs ++ ys)
  In-append r [] ys h = absurd h
  In-append r (x ∷ xs) ys (inl same) = inl same
  In-append r (x ∷ xs) ys (inr later) = inr (In-append r xs ys later)

  pub In-last : (r : A) (xs : List A) → In r (xs ++ r ∷ [])
  In-last r [] = inl refl
  In-last r (x ∷ xs) = inr (In-last r xs)
