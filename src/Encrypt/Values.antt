-- ===== src/Encrypt/Values.antt =====
-- Encrypted configuration values: AesGcm of pkg/encrypt/aes.go and the functions on one value of
-- pkg/encrypt/config.go. The nonce that the random numbers give is an argument, none where reading them
-- fails; cipher.NewGCM takes every AES cipher.
use compkg.Common.{
  ℕ, ◌-◌, ◌≡◌, refl, Bool, true, false, not, ◌&&◌, ◌||◌, Option, none, some, [], ◌∷◌, ◌++◌, length,
  length-append, take, drop, ltb, ◌==◌, arith, if◌then◌else◌,
}
use compkg.Common.Text.{Text}
use compkg.Encrypt.{Bytes, Outcome, returned, failed, ◌>>=◌, last_byte, Crypto, IsAes}
use compkg.Encrypt.Blocks.{take-length_append, drop-length_append}
use compkg.Encrypt.Padding.{last_byte-append}

abbrev is_empty : Bytes → Bool
is_empty [] = true
is_empty (c ∷ s) = false

-- EncryptPrefix and EncryptSuffix, `ENC(` and `)`
abbrev pub encrypt_prefix : Text
encrypt_prefix = b'E' ∷ b'N' ∷ b'C' ∷ b'(' ∷ []

abbrev pub encrypt_suffix : Text
encrypt_suffix = b')' ∷ []

-- strings.HasPrefix, and strings.HasSuffix of one byte
abbrev pub has_prefix : Text → Text → Bool
has_prefix [] s = true
has_prefix (c ∷ prefix) [] = false
has_prefix (c ∷ prefix) (d ∷ s) = (c == d) && has_prefix prefix s

abbrev ends_with : ℕ → Option ℕ → Bool
ends_with c none = false
ends_with c (some d) = c == d

unfoldable pub is_encrypted : Text → Bool
is_encrypted value = has_prefix encrypt_prefix value && ends_with b')' (last_byte value)

unfoldable pub encrypted_part : Text → Text
encrypted_part ciphertext = take (length ciphertext - 1 - 4) (drop 4 ciphertext)

module _ (crypto : Crypto) where
  open crypto use {valid_key, encode_base64, decode_base64, nonce_size, seal, open_sealed}

  unfoldable pub gcm_encrypt : Bytes → Option Bytes → Bytes → Outcome Text
  gcm_encrypt key random src = if is_empty src || not (valid_key key) then failed else elim random [
    | none ↦ failed
    | some nonce ↦ returned (encode_base64 (nonce ++ seal key nonce src))
  ]

  unfoldable pub gcm_decrypt : Bytes → Bytes → Outcome Bytes
  gcm_decrypt key crypted =
      if not (length key == 16) || (not (valid_key key) || ltb (length crypted) nonce_size)
      then failed
      else elim (open_sealed key (take nonce_size crypted) (drop nonce_size crypted)) [
        | none ↦ failed
        | some plaintext ↦ returned plaintext
      ]

  unfoldable pub encrypt_config_value : Bytes → Option Bytes → Text → Outcome Text
  encrypt_config_value key random plaintext = if is_empty plaintext then returned [] else (do
    encrypted ← gcm_encrypt key random plaintext
    returned (encrypt_prefix ++ (encrypted ++ encrypt_suffix)))

  abbrev whole : Bytes × Bool → Outcome Bytes
  whole (crypted, true) = returned crypted
  whole (crypted, false) = failed

  unfoldable pub decrypt_config_value : Bytes → Text → Outcome Text
  decrypt_config_value key ciphertext =
      if not (is_encrypted ciphertext)
      then returned ciphertext
      else (do crypted ← whole (decode_base64 (encrypted_part ciphertext)); gcm_decrypt key crypted)

  unfoldable pub parse_encrypt_key : Text → Outcome Bytes
  parse_encrypt_key key_str = if is_empty key_str then failed else (do
    key ← whole (decode_base64 key_str)
    (if length key == 16 then returned key else failed))

encrypted_part-append : (s : Text) → encrypted_part (encrypt_prefix ++ (s ++ encrypt_suffix)) ≡ s
unfolding encrypted_part
encrypted_part-append s =
    let sum = length-append s encrypt_suffix in
    take-length_append s encrypt_suffix (length (encrypt_prefix ++ (s ++ encrypt_suffix)) - 1 - 4)
      (omega arith)

is_encrypted-append : (s : Text) → is_encrypted (encrypt_prefix ++ (s ++ encrypt_suffix)) ≡ true
unfolding is_encrypted last_byte
is_encrypted-append s = rw (last_byte-append (encrypt_prefix ++ s) [] b')') refl

gcm_decrypt-seal :
    (crypto : Crypto)
    → IsAes crypto
    → (key nonce src : Bytes) → crypto.valid_key key ≡ true
    → length nonce ≡ crypto.nonce_size
    → gcm_decrypt crypto key (nonce ++ crypto.seal key nonce src)
      ≡ (if length key == 16 then returned src else failed)
unfolding gcm_decrypt
gcm_decrypt-seal crypto laws key nonce src valid drawn =
    let sealed = crypto.seal key nonce src in
    let sum = length-append nonce sealed in
    let enough : ltb (length (nonce ++ sealed)) crypto.nonce_size ≡ false = ground arith in
    let front = take-length_append nonce sealed crypto.nonce_size drawn in
    let back = drop-length_append nonce sealed crypto.nonce_size drawn in
    rw (valid, enough, front, back, laws.open_seal key nonce src valid drawn) (ground arith)

-- What the encryption of a configuration value returns, under a key that the cipher takes and a nonce of
-- the length of the mode, is a value that counts as encrypted unless the plaintext is empty, and its
-- decryption under the key returns the plaintext, if the key has 16 bytes; under a key of another length
-- the value is encrypted all the same, and decrypting it fails. An empty plaintext stays empty.
pub decrypt_config_value-encrypt_config_value :
    (crypto : Crypto)
    → IsAes crypto
    → (key nonce : Bytes) (c : ℕ) (rest : Text) → crypto.valid_key key ≡ true
    → length nonce ≡ crypto.nonce_size
    → ((text : Text) × (encrypt_config_value crypto key (some nonce) (c ∷ rest) ≡ returned text)
        × (is_encrypted text ≡ true)
        × (decrypt_config_value crypto key text
            ≡ (if length key == 16 then returned (c ∷ rest) else failed)))
      × (encrypt_config_value crypto key (some nonce) [] ≡ returned [])
      × (decrypt_config_value crypto key [] ≡ returned [])
unfolding encrypt_config_value decrypt_config_value gcm_encrypt
decrypt_config_value-encrypt_config_value crypto laws key nonce c rest valid drawn =
    let out = nonce ++ crypto.seal key nonce (c ∷ rest) in
    let marked = is_encrypted-append (crypto.encode_base64 out) in
    (
      (
        encrypt_prefix ++ (crypto.encode_base64 out ++ encrypt_suffix),
        rw valid refl,
        marked,
        rw (marked, encrypted_part-append (crypto.encode_base64 out), laws.base64_inverse out)
            (gcm_decrypt-seal crypto laws key nonce (c ∷ rest) valid drawn),
      ),
      refl,
      unfold is_encrypted in refl,
    )
