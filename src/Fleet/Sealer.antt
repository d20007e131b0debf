-- ===== src/Fleet/Sealer.antt =====
-- Envelopes of secrets: internal/crypto/sealer.go.
use Prim.Native.String.{◌++◌ as join_text}
use netmantle.Prelude.{
  ℕ, ◌+◌, ◌≤◌, ◌≡◌, Option, none, some, List, ◌++◌, String, str_eq, ltb, length, take, drop,
  if◌then◌else◌,
}
use netmantle.Prelude.Text.{strip_prefix, trim_space}
use netmantle.Db.{
  Result, ok, err, rand_failed, unknown_version, not_base64, too_short, derive_failed,
  decryption_failed, invalid_input,
}

-- What the sealer calls: `derive` is scrypt.Key followed by aes.NewCipher and cipher.NewGCM, the AEAD
-- for a passphrase and a salt; `seal` and `open_text` are the methods of that AEAD, on a nonce and a text;
-- and base64.RawURLEncoding. A sealed text has at least the 16 bytes of the tag,
-- and the decoder gives back what was encoded.
pub record Cipher : Type 1 where
  pub Aead : Type 0
  pub derive : String → List ℕ → Option Aead
  pub seal : Aead → List ℕ → String → List ℕ
  pub open_text : Aead → List ℕ → List ℕ → Option String
  pub encode : List ℕ → String
  pub decode : String → Option (List ℕ)
  pub length-seal : (k : Aead) (nonce : List ℕ) (text : String) → 16 ≤ length (seal k nonce text)
  pub decode-encode : (bytes : List ℕ) → decode (encode bytes) ≡ some bytes

abbrev pub salt_len : ℕ
salt_len = 16

abbrev pub nonce_len : ℕ
nonce_len = 12

abbrev pub prefix : String
prefix = "v1."

-- The passphrase that the sealer keeps.
unfoldable pub new_sealer : String → Result String
new_sealer passphrase =
    if str_eq (trim_space passphrase) "" then err invalid_input else ok passphrase

-- An AEAD opens what it sealed, here a text under any key and nonce.
abbrev pub OpensText : (cipher : Cipher) → String → Type 0
OpensText cipher text =
    (k : cipher.Aead) (nonce : List ℕ)
    → cipher.open_text k nonce (cipher.seal k nonce text) ≡ some text

module _ (cipher : Cipher) (master : String) where
  unfoldable pub envelope : List ℕ → List ℕ → List ℕ → String
  envelope salt nonce ct = join_text prefix (cipher.encode (salt ++ (nonce ++ ct)))

  -- The salt and the nonce are what crypto/rand fills in, `none` if it fails.
  unfoldable pub seal_with : Option (List ℕ) → List ℕ → cipher.Aead → String → Result String
  unfolding envelope
  seal_with none salt k text = err rand_failed
  seal_with (some nonce) salt k text = ok (envelope salt nonce (cipher.seal k nonce text))

  unfoldable pub seal : Option (List ℕ) → Option (List ℕ) → String → Result String
  seal none iv text = err rand_failed
  seal (some salt) iv text = elim (cipher.derive master salt) [
    | none ↦ err derive_failed
    | some k ↦ seal_with iv salt k text
  ]

  unfoldable pub open_raw : List ℕ → Result String
  open_raw raw = elim (cipher.derive master (take salt_len raw)) [
    | none ↦ err derive_failed
    | some k ↦
        elim (cipher.open_text k (take nonce_len (drop salt_len raw))
          (drop (salt_len + nonce_len) raw)) [ none ↦ err decryption_failed | some text ↦ ok text ]
  ]

  unfoldable pub open_bytes : List ℕ → Result String
  open_bytes raw =
      if ltb (length raw) (salt_len + nonce_len + 16) then err too_short else open_raw raw

  unfoldable pub open_envelope : String → Result String
  unfolding open_bytes
  open_envelope text = elim (strip_prefix prefix text) [
    | none ↦ err unknown_version
    | some encoded ↦ elim (cipher.decode encoded) [
      | none ↦ err not_base64
      | some raw ↦ open_bytes raw
    ]
  ]
