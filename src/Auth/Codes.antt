-- ===== src/Auth/Codes.antt =====
-- What codes the second factor takes.
use netmantle.Prelude.{
  ℕ, zero, suc, ◌+◌, ◌*◌, ◌/◌, ◌<◌, ◌≤◌, ◌≡◌, ◌⊎◌, inl, inr, true, some, List, pos, ℤ, ◌||◌, subst,
  ap, String, str_eq, str_eq_iff, length, arith, Option-cases,
}
use netmantle.Db.{second}
use netmantle.Auth.Totp.{
  Hotp, offset, digits, six_digits, totp, before, window, matches_near, key_of, verify_totp,
  truncate, big_endian, uint64,
}

-- The bytes that are read of a sum of 20 bytes all lie in it.
pub offset-length : (h : List ℕ) → length h ≡ 20 → offset h + 3 < length h
unfolding offset
offset-length h e = ground arith

unfoldable pub char_count : String → ℕ
char_count String.[] = 0
char_count (String.◌∷◌ c s) = suc (char_count s)

digits_count : (k n : ℕ) (s : String) → char_count (digits k n s) ≡ k + char_count s
unfolding digits char_count
digits_count zero n s = omega arith
digits_count (suc k) n s = omega (arith, digits_count k (n / 10) (String.◌∷◌ _ s))

six_count : (n : ℕ) → char_count (six_digits n) ≡ 6
unfolding six_digits char_count
six_count n = digits_count 6 n ""

windows_near :
    (shown t : ℕ)
    → shown ≤ t + 30 * second
    → t ≤ shown + 30 * second
    → (suc (window shown) ≡ window t) ⊎ (window shown ≡ window t) ⊎ (window shown ≡ suc (window t))
unfolding window
windows_near shown t a b = ground arith

near_equal :
    (f : ℤ → String) (m n : ℕ)
    → (suc m ≡ n) ⊎ (m ≡ n) ⊎ (m ≡ suc n)
    → (str_eq (f (before n)) (f (pos m))
        || str_eq (f (pos n)) (f (pos m))
        || str_eq (f (pos (suc n))) (f (pos m)))
      ≡ true
unfolding before
near_equal f m n (inl e) =
    subst
      (λ k.
        (str_eq (f (before k)) (f (pos m))
          || str_eq (f (pos k)) (f (pos m))
          || str_eq (f (pos (suc k))) (f (pos m)))
        ≡ true)
      e (ground (arith, str_eq_iff (f (pos m)) (f (pos m))))
near_equal f m n (inr (inl e)) =
    ground (arith, ap (λ k. f (pos k)) e, str_eq_iff (f (pos n)) (f (pos m)))
near_equal f m n (inr (inr e)) =
    ground (arith, ap (λ k. f (pos k)) e, str_eq_iff (f (pos (suc n))) (f (pos m)))

module _ (hotp : Hotp) where
  near_matches :
      (key : List ℕ) (m n : ℕ)
      → (suc m ≡ n) ⊎ (m ≡ n) ⊎ (m ≡ suc n)
      → matches_near hotp key n (totp hotp key (pos m)) ≡ true
  unfolding matches_near
  near_matches key m n h = near_equal (totp hotp key) m n h

  -- The code of the window in which a device shows it is taken at every time that lies at most 30
  -- seconds before or after, if the secret decodes.
  pub verify_totp-totp :
      (secret : String) (key : List ℕ) (shown t : ℕ)
      → key_of hotp secret ≡ some key
      → shown ≤ t + 30 * second
      → t ≤ shown + 30 * second
      → verify_totp hotp secret (totp hotp key (pos (window shown))) t ≡ true
  unfolding verify_totp
  verify_totp-totp secret key shown t e a b =
      ground (arith, e, near_matches key (window shown) (window t) (windows_near shown t a b))

  totp_count : (key : List ℕ) (c : ℤ) → char_count (totp hotp key c) ≡ 6
  unfolding totp
  totp_count key c = six_count (truncate (hotp.hmac key (big_endian 8 (uint64 c))))

  -- Whatever the secret and the time, only texts of six characters are taken.
  pub verify_totp-char_count :
      (secret guess : String) (t : ℕ)
      → verify_totp hotp secret guess t ≡ true
      → char_count guess ≡ 6
  unfolding verify_totp matches_near
  verify_totp-char_count secret guess t h = elim (Option-cases (key_of hotp secret)) [
    | inl e ↦ ground arith
    | inr (key, e) ↦ ground (
      arith,
      totp_count key (before (window t)),
      totp_count key (pos (window t)),
      totp_count key (pos (suc (window t))),
      str_eq_iff (totp hotp key (before (window t))) guess,
      str_eq_iff (totp hotp key (pos (window t))) guess,
      str_eq_iff (totp hotp key (pos (suc (window t)))) guess,
    )
  ]
