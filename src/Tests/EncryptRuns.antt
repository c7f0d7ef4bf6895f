-- ===== src/Tests/EncryptRuns.antt =====
-- Runs of the encryption, with a cipher that changes nothing and marks what it seals.
use compkg.Common.{
  ◌≡◌, refl, Bool, true, false, Option, none, some, [], ◌∷◌, length, ◌==◌, ◌||◌, if◌then◌else◌,
}
use compkg.Common.Text.{Text}
use compkg.Encrypt.{
  Bytes, returned, failed, panicked, repeat_byte, Crypto, IsAes, ecb, cbc_pkcs7_padding,
  aes_encrypt, aes_decrypt, decrypt, crypt_ecb, each_block, pkcs7_un_padding, last_byte,
}
use compkg.Encrypt.Trips.{aes_decrypt-aes_encrypt}
use compkg.Encrypt.Values.{
  encrypt_config_value, decrypt_config_value, is_encrypted,
  decrypt_config_value-encrypt_config_value,
}

abbrev mark : Bytes → Bytes
mark s = 61 ∷ s

abbrev unmark : Bytes → Option Bytes
unmark [] = none
unmark (c ∷ s) = if c == 61 then some s else none

abbrev decoded : Option Bytes → Bytes × Bool
decoded none = ([], false)
decoded (some s) = (s, true)

abbrev pub plain_crypto : Crypto
plain_crypto = record {
  valid_key = λ key. (length key == 16) || (length key == 32);
  encrypt_block = λ key s. s;
  decrypt_block = λ key s. s;
  encrypt_cbc = λ key iv s. s;
  decrypt_cbc = λ key iv s. s;
  encode_base64 = mark;
  decode_base64 = λ s. decoded (unmark s);
  nonce_size = 12;
  seal = λ key nonce s. mark s;
  open_sealed = λ key nonce s. unmark s;
}

pub plain_crypto-IsAes : IsAes plain_crypto
plain_crypto-IsAes = record {
  length_block = λ key s h. h;
  block_inverse = λ key s v h. refl;
  length_cbc = λ key iv s. refl;
  cbc_inverse = λ key iv s v l h. refl;
  base64_inverse = λ s. refl;
  open_seal = λ key nonce s v l. refl;
}

abbrev pub some_key : Bytes
some_key = repeat_byte 16 7

abbrev long_key : Bytes
long_key = repeat_byte 32 7

-- An empty ciphertext, which base64 decodes to nothing: the removal of the padding panics.
empty_ciphertext : aes_decrypt plain_crypto cbc_pkcs7_padding ecb some_key [] [] ≡ panicked
unfolding aes_decrypt decrypt crypt_ecb each_block pkcs7_un_padding last_byte
empty_ciphertext = refl

aes_decrypt-aes_encrypt_example :
    (text : Text) × (aes_encrypt plain_crypto cbc_pkcs7_padding ecb some_key some_key (1 ∷ 2 ∷ [])
      ≡ returned text)
    × (aes_decrypt plain_crypto cbc_pkcs7_padding ecb some_key some_key text
        ≡ returned (1 ∷ 2 ∷ []))
aes_decrypt-aes_encrypt_example =
    aes_decrypt-aes_encrypt plain_crypto plain_crypto-IsAes ecb some_key some_key (1 ∷ 2 ∷ []) refl
      refl

decrypt_config_value-encrypt_config_value_example :
    ((text : Text) × (encrypt_config_value plain_crypto long_key
          (some (repeat_byte 12 3))
          (1 ∷ 2 ∷ [])
        ≡ returned text)
      × (is_encrypted text ≡ true)
      × (decrypt_config_value plain_crypto long_key text
          ≡ (if length long_key == 16 then returned (1 ∷ 2 ∷ []) else failed)))
    × (encrypt_config_value plain_crypto long_key (some (repeat_byte 12 3)) [] ≡ returned [])
    × (decrypt_config_value plain_crypto long_key [] ≡ returned [])
decrypt_config_value-encrypt_config_value_example =
    decrypt_config_value-encrypt_config_value plain_crypto plain_crypto-IsAes long_key
      (repeat_byte 12 3) 1 (2 ∷ []) refl refl
