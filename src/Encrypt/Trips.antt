-- ===== src/Encrypt/Trips.antt =====
-- Encryption and decryption of pkg/encrypt/aes.go composed.
use compkg.Common.{◌%◌, ◌≡◌, refl, ap, ◌∙◌, true, length, ◌==◌, arith}
use compkg.Common.Text.{Text}
use compkg.Encrypt.{
  Bytes, Outcome, returned, crypt_cbc, Crypto, IsAes, Mode, cbc, ecb, cbc_pkcs7_padding, encrypt,
  decrypt, aes_encrypt, aes_decrypt, pkcs7_padding, padding_of,
}
use compkg.Encrypt.Padding.{padded-length, pkcs7_un_padding-pkcs7_padding}
use compkg.Encrypt.Blocks.{crypt_ecb-crypt_ecb}

module _ (crypto : Crypto) (laws : IsAes crypto) where
  open crypto use {
    valid_key, encrypt_block, decrypt_block, encrypt_cbc, decrypt_cbc, encode_base64, decode_base64,
  }

  crypt_cbc-crypt_cbc :
      (key iv src : Bytes)
      → valid_key key ≡ true
      → length iv ≡ 16
      → length src % 16 ≡ 0
      → (out : Bytes) × (crypt_cbc (encrypt_cbc key) iv src ≡ returned out)
        × (crypt_cbc (decrypt_cbc key) iv out ≡ returned src)
  unfolding crypt_cbc
  crypt_cbc-crypt_cbc key iv src valid vector whole =
      let full : length iv == 16 ≡ true = ground arith in
      let there : length src % 16 == 0 ≡ true = ground arith in
      let same = laws.length_cbc key iv src in
      let back : length (encrypt_cbc key iv src) % 16 == 0 ≡ true = ground arith in
      (
        encrypt_cbc key iv src,
        rw (full, there) refl,
        rw (full, back, laws.cbc_inverse key iv src valid vector whole) refl,
      )

  decrypt-encrypt :
      (padding : Bytes → Bytes) (un_padding : Bytes → Outcome Bytes) (mode : Mode)
      (key iv src : Bytes)
      → valid_key key ≡ true
      → length iv ≡ 16
      → length (padding src) % 16 ≡ 0
      → (text : Text) × (encrypt crypto padding key iv mode src ≡ returned text)
        × (decrypt crypto un_padding key iv mode text ≡ un_padding (padding src))
  unfolding encrypt decrypt
  decrypt-encrypt padding un_padding cbc key iv src valid vector whole =
      let (out, there, back) = crypt_cbc-crypt_cbc key iv (padding src) valid vector whole in
      (
        encode_base64 out,
        rw (valid, there) refl,
        rw (valid, ap (λ p. p.0) (laws.base64_inverse out), back) refl,
      )
  decrypt-encrypt padding un_padding ecb key iv src valid vector whole =
      let (out, there, back) =
        crypt_ecb-crypt_ecb (encrypt_block key) (decrypt_block key) (laws.length_block key)
          (λ s. laws.block_inverse key s valid) (padding src) whole in
      (
        encode_base64 out,
        rw (valid, there) refl,
        rw (valid, ap (λ p. p.0) (laws.base64_inverse out), back) refl,
      )

-- With a key that the cipher takes, a vector of a block and the PKCS7 padding, bytes are encrypted in
-- either mode, and the decryption of the outcome returns them.
pub aes_decrypt-aes_encrypt :
    (crypto : Crypto)
    → IsAes crypto
    → (mode : Mode) (key iv src : Bytes) → crypto.valid_key key ≡ true
    → length iv ≡ 16
    → (text : Text) × (aes_encrypt crypto cbc_pkcs7_padding mode key iv src ≡ returned text)
      × (aes_decrypt crypto cbc_pkcs7_padding mode key iv text ≡ returned src)
unfolding aes_encrypt aes_decrypt pkcs7_padding
aes_decrypt-aes_encrypt crypto laws mode key iv src valid vector =
    let (text, there, back) =
      decrypt-encrypt crypto laws pkcs7_padding _ mode key iv src valid vector
        (padded-length src (padding_of src % 256)) in
    (text, there, back ∙ pkcs7_un_padding-pkcs7_padding src)
