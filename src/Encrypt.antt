-- ===== src/Encrypt.antt =====
-- The encryption of pkg/encrypt/aes.go, and the values of pkg/encrypt/config.go. Bytes are numbers below
-- 256. The block cipher, its CBC and GCM modes, the random numbers and base64 are packages of the
-- standard library: the parameter `Crypto`. A panic is an outcome.
pub mod Padding
pub mod Blocks
pub mod Trips
pub mod Values
pub mod Settings
use compkg.Common.{
  ℕ, zero, suc, ◌+◌, ◌-◌, ◌/◌, ◌%◌, Bool, true, false, not, ◌&&◌, ◌||◌, Option, none, some, List,
  [], ◌∷◌, ◌++◌, length, ◌≡◌, take, drop, ltb, leb, ◌==◌, if◌then◌else◌,
}
use mathlib.Core.List.{reverse}
use compkg.Common.Text.{Text, same_text}

abbrev pub Bytes : Type 0
Bytes = List ℕ

pub data Outcome (A : Type 0) : Type 0 where
  returned : A → Outcome A
  failed : Outcome A
  panicked : Outcome A

infixl 5 ◌>>=◌
abbrev pub ◌>>=◌ : {A B : Type 0} → Outcome A → (A → Outcome B) → Outcome B
returned a >>= f = f a
failed >>= f = failed
panicked >>= f = panicked

pub data AesType : Type 0 where
  cbc_zero_padding cbc_pkcs7_padding : AesType
  other_type : ℕ → AesType

pub data Mode : Type 0 where
  cbc ecb : Mode

abbrev pub block_size : ℕ
block_size = 16

-- bytes.Repeat of one byte
abbrev pub repeat_byte : ℕ → ℕ → Bytes
repeat_byte zero c = []
repeat_byte (suc n) c = c ∷ repeat_byte n c

abbrev pub padding_of : Bytes → ℕ
padding_of data_bytes = block_size - length data_bytes % block_size

unfoldable pub pkcs7_padding : Bytes → Bytes
pkcs7_padding data_bytes =
    let padding = padding_of data_bytes in data_bytes ++ repeat_byte padding (padding % 256)

unfoldable pub last_byte : Bytes → Option ℕ
last_byte [] = none
last_byte (c ∷ []) = some c
last_byte (c ∷ d ∷ s) = last_byte (d ∷ s)

-- Indexing the last byte of nothing panics, and so does a slice to a negative length.
unfoldable pub pkcs7_un_padding : Bytes → Outcome Bytes
pkcs7_un_padding data_bytes = elim (last_byte data_bytes) [
  | none ↦ panicked
  | some n ↦
      if ltb (length data_bytes) n
      then panicked
      else returned (take (length data_bytes - n) data_bytes)
]

unfoldable pub zero_padding : Bytes → Bytes
zero_padding data_bytes = data_bytes ++ repeat_byte (padding_of data_bytes) 0

-- The loop from the end over the zeros; it runs past the beginning if there is nothing else.
unfoldable pub strip_zeros : Bytes → Outcome Bytes
strip_zeros [] = panicked
strip_zeros (c ∷ s) = if c == 0 then strip_zeros s else returned (c ∷ s)

unfoldable pub zero_un_padding : Bytes → Outcome Bytes
zero_un_padding data_bytes = do s ← strip_zeros (reverse data_bytes); returned (reverse s)

-- unPaddingFuncMap and paddingFuncMap
abbrev pub un_padding_func : AesType → Option (Bytes → Outcome Bytes)
un_padding_func cbc_zero_padding = some zero_un_padding
un_padding_func cbc_pkcs7_padding = some pkcs7_un_padding
un_padding_func (other_type n) = none

abbrev pub padding_func : AesType → Option (Bytes → Bytes)
padding_func cbc_zero_padding = some zero_padding
padding_func cbc_pkcs7_padding = some pkcs7_padding
padding_func (other_type n) = none

pub record Crypto : Type 0 where
  -- Whether aes.NewCipher takes the key; the cipher on one block, and the CBC mode on whole blocks.
  pub valid_key : Bytes → Bool
  pub encrypt_block : Bytes → Bytes → Bytes
  pub decrypt_block : Bytes → Bytes → Bytes
  pub encrypt_cbc : Bytes → Bytes → Bytes → Bytes
  pub decrypt_cbc : Bytes → Bytes → Bytes → Bytes
  -- DecodeString gives what it could decode, and whether that was all.
  pub encode_base64 : Bytes → Text
  pub decode_base64 : Text → Bytes × Bool
  pub nonce_size : ℕ
  pub seal : Bytes → Bytes → Bytes → Bytes
  pub open_sealed : Bytes → Bytes → Bytes → Option Bytes

-- What crypto/aes, crypto/cipher and encoding/base64 document of each other.
pub record IsAes (crypto : Crypto) : Type 0 where
  pub length_block :
      (key src : Bytes) → length src ≡ 16 → length (crypto.encrypt_block key src) ≡ 16
  pub block_inverse :
      (key src : Bytes)
      → crypto.valid_key key ≡ true
      → length src ≡ 16
      → crypto.decrypt_block key (crypto.encrypt_block key src) ≡ src
  pub length_cbc : (key iv src : Bytes) → length (crypto.encrypt_cbc key iv src) ≡ length src
  pub cbc_inverse :
      (key iv src : Bytes)
      → crypto.valid_key key ≡ true
      → length iv ≡ 16
      → length src % 16 ≡ 0
      → crypto.decrypt_cbc key iv (crypto.encrypt_cbc key iv src) ≡ src
  pub base64_inverse :
      (data_bytes : Bytes)
      → crypto.decode_base64 (crypto.encode_base64 data_bytes) ≡ (data_bytes, true)
  pub open_seal :
      (key nonce src : Bytes)
      → crypto.valid_key key ≡ true
      → length nonce ≡ crypto.nonce_size
      → crypto.open_sealed key nonce (crypto.seal key nonce src) ≡ some src

-- The loop of CryptBlocks, with as many rounds as there are blocks.
unfoldable pub each_block : (Bytes → Bytes) → ℕ → Bytes → Bytes
each_block f zero src = []
each_block f (suc n) src = f (take block_size src) ++ each_block f n (drop block_size src)

abbrev pub whole_blocks : Bytes → Bool
whole_blocks src = length src % block_size == 0

-- CryptBlocks panics unless there are only full blocks; the destination is as long as the source.
unfoldable pub crypt_ecb : (Bytes → Bytes) → Bytes → Outcome Bytes
crypt_ecb f src =
    if whole_blocks src then returned (each_block f (length src / block_size) src) else panicked

-- NewCBCEncrypter and NewCBCDecrypter panic unless the vector has the length of a block.
unfoldable pub crypt_cbc : (Bytes → Bytes → Bytes) → Bytes → Bytes → Outcome Bytes
crypt_cbc f iv src =
    if (length iv == block_size) && whole_blocks src then returned (f iv src) else panicked

module _ (crypto : Crypto) where
  open crypto use {
    valid_key, encrypt_block, decrypt_block, encrypt_cbc, decrypt_cbc, encode_base64, decode_base64,
  }

  unfoldable pub encrypt : (Bytes → Bytes) → Bytes → Bytes → Mode → Bytes → Outcome Text
  encrypt padding key iv mode src = if not (valid_key key) then failed else (do
    out ← elim mode [
      | cbc ↦ crypt_cbc (encrypt_cbc key) iv (padding src)
      | ecb ↦ crypt_ecb (encrypt_block key) (padding src)
    ]
    returned (encode_base64 out))

  unfoldable pub decrypt : (Bytes → Outcome Bytes) → Bytes → Bytes → Mode → Text → Outcome Bytes
  decrypt un_padding key iv mode ciphertext =
      let src = (decode_base64 ciphertext).0 in
      if not (valid_key key) then failed else (do
        out ← elim mode [
          | cbc ↦ crypt_cbc (decrypt_cbc key) iv src
          | ecb ↦ crypt_ecb (decrypt_block key) src
        ]
        un_padding out)

  -- AesCbcEncrypt, AesEcbEncrypt, AesCbcDecrypt and AesEcbDecrypt; the ECB mode has no vector.
  unfoldable pub aes_encrypt : AesType → Mode → Bytes → Bytes → Bytes → Outcome Text
  aes_encrypt aes_type mode key iv src = elim (padding_func aes_type) [
    | none ↦ failed
    | some padding ↦ encrypt padding key iv mode src
  ]

  unfoldable pub aes_decrypt : AesType → Mode → Bytes → Bytes → Text → Outcome Bytes
  aes_decrypt aes_type mode key iv ciphertext = elim (un_padding_func aes_type) [
    | none ↦ failed
    | some un_padding ↦ decrypt un_padding key iv mode ciphertext
  ]
