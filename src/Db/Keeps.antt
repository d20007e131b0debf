-- ===== src/Db/Keeps.antt =====
-- Invariants of blocks of statements.
use netmantle.Prelude.{Bool, true, false, ◌≡◌, refl, if◌then◌else◌}
use netmantle.Db.{World, Result, ok, err, Db, ◌>>=◌, continue}

-- `m` keeps `P`, whether it returns or fails.
abbrev pub Keeps : {S A : Type 0} → (World S → Type 0) → Db S A → Type 0
Keeps {S} P m = (w : World S) → P w → P (m w).1

module _ {S A B : Type 0} (P : World S → Type 0) where
  pub Keeps-bind :
      (m : Db S A) (f : A → Db S B) → Keeps P m → ((a : A) → Keeps P (f a)) → Keeps P (m >>= f)
  Keeps-bind m f km kf w h = go (m w).0 (m w).1 (km w h)
    where
      go : (r : Result A) (v : World S) → P v → P (continue r f v).1
      go (ok a) v k = kf a v k
      go (err e) v k = k

module _ {S A : Type 0} (P : World S → Type 0) where
  pub Keeps-if :
      (b : Bool) (m n : Db S A) → Keeps P m → Keeps P n → Keeps P (λ w. (if b then m else n) w)
  Keeps-if true m n km kn = km
  Keeps-if false m n km kn = kn

module _ {S A B : Type 0} (P : World S → Type 0) where
  -- The rest of the block may use what the first part returned.
  pub Keeps-bind_ok :
      (m : Db S A) (f : A → Db S B)
      → Keeps P m
      → ((a : A) (w : World S) → (m w).0 ≡ ok a → Keeps P (f a))
      → Keeps P (m >>= f)
  Keeps-bind_ok m f km kf w h = go (m w).0 refl (m w).1 (km w h)
    where
      go : (r : Result A) → (m w).0 ≡ r → (v : World S) → P v → P (continue r f v).1
      go (ok a) e v k = kf a w e v k
      go (err x) e v k = k
