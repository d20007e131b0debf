-- ===== src/Fleet/Envelopes.antt =====
-- What the sealer opens.
use Prim.Native.String.{◌++◌ as join_text}
use netmantle.Prelude.{
  ℕ, zero, suc, ◌+◌, ◌≡◌, refl, some, List, [], ◌∷◌, ◌++◌, String, length, length-append, take,
  drop, ltb, arith, Option-cases, inl, inr, false, ap, ◌∙◌,
}
use netmantle.Prelude.Text.{strip_prefix, strip_prefix-append}
use netmantle.Db.{ok}
use netmantle.Fleet.Sealer.{
  Cipher, OpensText, salt_len, nonce_len, prefix, envelope, seal, seal_with, open_envelope,
  open_bytes, open_raw,
}

take-append : (n : ℕ) (xs ys : List ℕ) → length xs ≡ n → take n (xs ++ ys) ≡ xs
take-append zero [] ys h = refl
take-append zero (x ∷ xs) ys h = ground arith
take-append (suc n) [] ys h = ground arith
take-append (suc n) (x ∷ xs) ys h = ground (arith, take-append n xs ys)

drop-append : (n : ℕ) (xs ys : List ℕ) → length xs ≡ n → drop n (xs ++ ys) ≡ ys
drop-append zero [] ys h = refl
drop-append zero (x ∷ xs) ys h = ground arith
drop-append (suc n) [] ys h = ground arith
drop-append (suc n) (x ∷ xs) ys h = ground (arith, drop-append n xs ys)

drop_two :
    (m n : ℕ) (xs ys zs : List ℕ)
    → length xs ≡ m
    → length ys ≡ n
    → drop (m + n) (xs ++ (ys ++ zs)) ≡ zs
drop_two zero n [] ys zs a b = ground (arith, drop-append n ys zs b)
drop_two zero n (x ∷ xs) ys zs a b = ground arith
drop_two (suc m) n [] ys zs a b = ground arith
drop_two (suc m) n (x ∷ xs) ys zs a b =
    let behind : suc m + n ≡ suc (m + n) = omega arith in
    ap (λ k. drop k (x ∷ (xs ++ (ys ++ zs)))) behind ∙ drop_two m n xs ys zs (omega (arith, a)) b

module _ (cipher : Cipher) (master : String) where
  open_parts :
      (salt nonce : List ℕ) (k : cipher.Aead) (text : String)
      → length salt ≡ salt_len
      → length nonce ≡ nonce_len
      → cipher.derive master salt ≡ some k
      → OpensText cipher text
      → open_raw cipher master (salt ++ (nonce ++ cipher.seal k nonce text)) ≡ ok text
  unfolding open_raw
  open_parts salt nonce k text a b e opens =
      let ct = cipher.seal k nonce text in
      let front = take-append salt_len salt (nonce ++ ct) a in
      let middle =
        ap (take nonce_len) (drop-append salt_len salt (nonce ++ ct) a)
        ∙ take-append nonce_len nonce ct b in
      let back = drop_two salt_len nonce_len salt nonce ct a b in
      ground (arith, front, middle, back, e, opens k nonce)

  -- What is sealed with a salt of 16 and a nonce of 12 bytes opens to the same text under the same
  -- passphrase, if the AEAD opens what it seals of that text.
  pub open_envelope-seal :
      (salt nonce : List ℕ) (text sealed : String)
      → length salt ≡ salt_len
      → length nonce ≡ nonce_len
      → OpensText cipher text
      → seal cipher master (some salt) (some nonce) text ≡ ok sealed
      → open_envelope cipher master sealed ≡ ok text
  unfolding seal seal_with envelope open_envelope open_bytes
  open_envelope-seal salt nonce text sealed a b opens h =
      elim (Option-cases (cipher.derive master salt)) [
        | inl e ↦ ground arith
        | inr (k, e) ↦
            let ct = cipher.seal k nonce text in
            let raw = salt ++ (nonce ++ ct) in
            let written : sealed ≡ join_text prefix (cipher.encode raw) = ground arith in
            let behind =
              ap (strip_prefix prefix) written ∙ strip_prefix-append prefix (cipher.encode raw) in
            let long : ltb (length raw) (salt_len + nonce_len + 16) ≡ false = ground (
              arith,
              length-append salt (nonce ++ ct),
              length-append nonce ct,
              cipher.length-seal k nonce text,
            ) in
            ground (
              arith,
              behind,
              cipher.decode-encode raw,
              long,
              open_parts salt nonce k text a b e opens,
            )
      ]
