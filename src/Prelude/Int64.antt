-- ===== src/Prelude/Int64.antt =====
-- Go's `int64` identifiers. `negsuc n` is -(n + 1); the program only compares them.
use Prim.Native.Nat.{ℕ, zero, suc}
use mathlib.Core.Path.{◌≡◌, refl}
use mathlib.Core.Logic.{◌↔◌}
use mathlib.Core.Bool.{Bool, true, false}
use native.Mathlib.Omega.{arith}
use netmantle.Prelude.Tests.{◌==◌}

pub data ℤ : Type 0 where
  pos : ℕ → ℤ
  negsuc : ℕ → ℤ

-- a == b
unfoldable pub id_eq : ℤ → ℤ → Bool
id_eq (pos a) (pos b) = a == b
id_eq (negsuc a) (negsuc b) = a == b
id_eq (pos _) (negsuc _) = false
id_eq (negsuc _) (pos _) = false

-- 0 < a
unfoldable pub positive : ℤ → Bool
positive (pos zero) = false
positive (pos (suc _)) = true
positive (negsuc _) = false

pub id_eq_iff : (a b : ℤ) → (id_eq a b ≡ true) ↔ (a ≡ b)
unfolding id_eq
id_eq_iff (pos a) (pos b) = ground arith
id_eq_iff (negsuc a) (negsuc b) = ground arith
id_eq_iff (pos a) (negsuc b) = ground arith
id_eq_iff (negsuc a) (pos b) = ground arith

pub id_eq_refl : (a : ℤ) → id_eq a a ≡ true
id_eq_refl a = (id_eq_iff a a).1 refl

pub id_eq_comm : (a b : ℤ) → id_eq a b ≡ id_eq b a
unfolding id_eq
id_eq_comm (pos a) (pos b) = ground arith
id_eq_comm (negsuc a) (negsuc b) = ground arith
id_eq_comm (pos a) (negsuc b) = refl
id_eq_comm (negsuc a) (pos b) = refl
