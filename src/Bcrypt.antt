-- ===== src/Bcrypt.antt =====
-- The library for password hashes that several packages call.
use netmantle.Prelude.{◌≡◌, String, Bool, true, Option, some}

-- golang.org/x/crypto/bcrypt: GenerateFromPassword, `none` if it fails, with the salt that it draws,
-- and whether CompareHashAndPassword returns nil. The documented behaviour that the code relies on is
-- that a hash matches the password it was made of.
pub record Bcrypt : Type 0 where
  pub hash : String → String → Option String
  pub matches : String → String → Bool
  pub matches-hash : (salt secret h : String) → hash salt secret ≡ some h → matches h secret ≡ true
