-- ===== src/Auth/Totp.antt =====
-- Time-based one-time passwords: internal/auth/totp.go.
use Prim.Native.Char.{Char, code}
use Prim.Native.String.{◌++◌ as join_text}
use netmantle.Prelude.{
  ℕ, zero, suc, ◌+◌, ◌-◌, ◌*◌, ◌/◌, ◌%◌, ◌==◌, ◌||◌, ◌≡◌, refl, Bool, false, Option, none, some,
  List, [], ◌∷◌, ◌++◌, ℤ, pos, negsuc, String, str_eq, length, if◌then◌else◌,
}
use netmantle.Prelude.Text.{byte_length}
use netmantle.Db.{second}

-- What totp.go calls of Go's library: strings.ToUpper, the base32 decoder, and HMAC-SHA1 of a key and
-- a message, whose sum has 20 bytes.
pub record Hotp : Type 0 where
  pub to_upper : String → String
  pub decode : String → Option (List ℕ)
  pub hmac : List ℕ → List ℕ → List ℕ
  pub hmac-length : (key message : List ℕ) → length (hmac key message) ≡ 20

abbrev pub totp_period : ℕ
totp_period = 30

-- strings.ReplaceAll(s, " ", "")
unfoldable pub without_spaces : String → String
without_spaces String.[] = String.[]
without_spaces (String.◌∷◌ c s) =
    let rest = without_spaces s in if code c == 32 then rest else String.◌∷◌ c rest

unfoldable pub padding : ℕ → String
padding zero = ""
padding (suc n) = join_text "=" (padding n)

unfoldable pub pad : String → String
unfolding byte_length padding
pad s = if byte_length s % 8 == 0 then s else join_text s (padding (8 - byte_length s % 8))

abbrev two_64 : ℕ
two_64 = 18446744073709551616

-- uint64(counter)
unfoldable pub uint64 : ℤ → ℕ
uint64 (pos n) = n % two_64
uint64 (negsuc n) = two_64 - 1 - n % two_64

-- The low bytes of a number, the highest of them first.
unfoldable pub big_endian : ℕ → ℕ → List ℕ
big_endian zero n = []
big_endian (suc k) n = big_endian k (n / 256) ++ n % 256 ∷ []

-- h[i]; `offset-length` shows that no index lies behind the end, where the source would panic.
unfoldable pub byte_at : List ℕ → ℕ → ℕ
byte_at [] i = 0
byte_at (b ∷ bs) zero = b
byte_at (b ∷ bs) (suc i) = byte_at bs i

unfoldable pub offset : List ℕ → ℕ
unfolding byte_at
offset h = byte_at h (length h - 1) % 16

-- The parts of the sum do not overlap, so `|` is `+` there.
unfoldable pub truncate : List ℕ → ℕ
unfolding offset byte_at
truncate h =
    (byte_at h (offset h) % 128 * 16777216
      + byte_at h (offset h + 1) * 65536
      + byte_at h (offset h + 2) * 256
      + byte_at h (offset h + 3))
    % 1000000

unfoldable pub digit : ℕ → Char
digit n =
    if n == 0
    then "0"
    else if n == 1
    then "1"
    else if n == 2
    then "2"
    else if n == 3
    then "3"
    else if n == 4
    then "4"
    else if n == 5
    then "5"
    else if n == 6
    then "6"
    else if n == 7
    then "7"
    else if n == 8
    then "8"
    else "9"

-- The last digits of a number, as many as asked for, before a text.
unfoldable pub digits : ℕ → ℕ → String → String
unfolding digit
digits zero n s = s
digits (suc k) n s = digits k (n / 10) (String.◌∷◌ (digit (n % 10)) s)

-- Sprintf("%0*d", 6, code), for a code below a million
unfoldable pub six_digits : ℕ → String
unfolding digits
six_digits n = digits 6 n String.[]

six_digits_short : six_digits 4071 ≡ "004071"
unfolding six_digits
six_digits_short = refl

-- `now - 1` on int64
unfoldable pub before : ℕ → ℤ
before zero = negsuc 0
before (suc n) = pos n

-- The window of a time in nanoseconds: time.Now().Unix() / 30
unfoldable pub window : ℕ → ℕ
window t = t / second / totp_period

module _ (hotp : Hotp) where
  unfoldable pub totp : List ℕ → ℤ → String
  unfolding six_digits truncate big_endian uint64
  totp key counter = six_digits (truncate (hotp.hmac key (big_endian 8 (uint64 counter))))

  unfoldable pub matches_near : List ℕ → ℕ → String → Bool
  unfolding before
  matches_near key n guess =
      str_eq (totp key (before n)) guess
      || str_eq (totp key (pos n)) guess
      || str_eq (totp key (pos (suc n))) guess

  unfoldable pub key_of : String → Option (List ℕ)
  unfolding without_spaces pad
  key_of secret = hotp.decode (pad (hotp.to_upper (without_spaces secret)))

  -- `t` is what time.Now answers.
  unfoldable pub verify_totp : String → String → ℕ → Bool
  unfolding matches_near
  verify_totp secret guess t = elim (key_of secret) [
    | none ↦ false
    | some key ↦ matches_near key (window t) guess
  ]
