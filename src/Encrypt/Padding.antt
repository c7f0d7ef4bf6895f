-- ===== src/Encrypt/Padding.antt =====
-- The paddings of pkg/encrypt/aes.go, there and back.
use compkg.Common.{
  ℕ, zero, suc, ◌+◌, ◌-◌, ◌%◌, ◌≤◌, ◌<◌, ◌≡◌, refl, sym, ap, ◌∙◌, false, some, [], ◌∷◌, ◌++◌, ◌==◌,
  length, length-append, take, ltb, append-nil, append_assoc, arith,
}
use mathlib.Core.List.{reverse, reverse-append, reverse-cons, reverse-reverse}
use compkg.Encrypt.{
  Bytes, returned, panicked, ◌>>=◌, repeat_byte, padding_of, pkcs7_padding, last_byte,
  pkcs7_un_padding, zero_padding, strip_zeros, zero_un_padding,
}

length-repeat_byte : (n c : ℕ) → length (repeat_byte n c) ≡ n
length-repeat_byte zero c = refl
length-repeat_byte (suc n) c = ap suc (length-repeat_byte n c)

pub last_byte-append : (s t : Bytes) (c : ℕ) → last_byte (s ++ (c ∷ t)) ≡ last_byte (c ∷ t)
unfolding last_byte
last_byte-append [] t c = refl
last_byte-append (d ∷ []) t c = refl
last_byte-append (d ∷ e ∷ s) t c = last_byte-append (e ∷ s) t c

last_byte-repeat_byte : (n c : ℕ) → last_byte (repeat_byte (suc n) c) ≡ some c
unfolding last_byte
last_byte-repeat_byte zero c = refl
last_byte-repeat_byte (suc n) c = last_byte-repeat_byte n c

take-append : (s t : Bytes) → take (length s) (s ++ t) ≡ s
take-append [] t = refl
take-append (c ∷ s) t = rw (take-append s t)

padding-bounds : (src : Bytes) → (0 < padding_of src) × (padding_of src ≤ 16)
padding-bounds src = (omega arith, omega arith)

-- A padded text is whole blocks.
pub padded-length : (src : Bytes) (c : ℕ) → length (src ++ repeat_byte (padding_of src) c) % 16 ≡ 0
padded-length src c =
    let sum = length-append src (repeat_byte (padding_of src) c) in
    let count = length-repeat_byte (padding_of src) c in omega arith

pkcs7-repeat_byte :
    (src : Bytes) (n : ℕ) → 0 < n → pkcs7_un_padding (src ++ repeat_byte n n) ≡ returned src
unfolding pkcs7_un_padding
pkcs7-repeat_byte src zero h = absurd (omega arith)
pkcs7-repeat_byte src (suc k) h =
    let n = suc k in
    let last = last_byte-append src (repeat_byte k n) n ∙ last_byte-repeat_byte k n in
    let sum : length (src ++ repeat_byte n n) ≡ length src + n =
      length-append src (repeat_byte n n) ∙ ap (λ x. length src + x) (length-repeat_byte n n) in
    let enough : ltb (length src + n) n ≡ false = ground arith in
    let back : length src + n - n ≡ length src = omega arith in
    rw (pkcs7_un_padding, last, sum, enough, back, take-append src (repeat_byte n n)) refl

-- PKCS7 takes off what it put on, of any bytes.
pub pkcs7_un_padding-pkcs7_padding :
    (src : Bytes) → pkcs7_un_padding (pkcs7_padding src) ≡ returned src
unfolding pkcs7_padding
pkcs7_un_padding-pkcs7_padding src =
    let (some_there, few) = padding-bounds src in
    let fits : padding_of src % 256 ≡ padding_of src = omega arith in
    rw fits (pkcs7-repeat_byte src (padding_of src) some_there)

repeat_byte-append : (n c : ℕ) (s : Bytes) → repeat_byte n c ++ (c ∷ s) ≡ c ∷ (repeat_byte n c ++ s)
repeat_byte-append zero c s = refl
repeat_byte-append (suc n) c s = ap (λ x. c ∷ x) (repeat_byte-append n c s)

reverse-repeat_byte : (n c : ℕ) → reverse (repeat_byte n c) ≡ repeat_byte n c
reverse-repeat_byte zero c = refl
reverse-repeat_byte (suc n) c =
    reverse-cons c (repeat_byte n c)
    ∙ ap (λ x. x ++ (c ∷ [])) (reverse-repeat_byte n c)
    ∙ repeat_byte-append n c []
    ∙ ap (λ x. c ∷ x) (append-nil (repeat_byte n c))

strip_zeros-repeat_byte : (n : ℕ) (s : Bytes) → strip_zeros (repeat_byte n 0 ++ s) ≡ strip_zeros s
unfolding strip_zeros
strip_zeros-repeat_byte zero s = refl
strip_zeros-repeat_byte (suc n) s = strip_zeros-repeat_byte n s

zero-repeat_byte :
    (src : Bytes) (n : ℕ) → zero_un_padding (src ++ repeat_byte n 0) ≡ zero_un_padding src
unfolding zero_un_padding
zero-repeat_byte src n =
    ap (λ x. strip_zeros x >>= (λ s. returned (reverse s)))
      (reverse-append src (repeat_byte n 0) ∙ ap (λ x. x ++ reverse src) (reverse-repeat_byte n 0))
    ∙ ap (λ x. x >>= (λ s. returned (reverse s))) (strip_zeros-repeat_byte n (reverse src))

reversed-strip_zeros :
    (body : Bytes) (c : ℕ)
    → 0 < c
    → zero_un_padding (body ++ (c ∷ [])) ≡ returned (body ++ (c ∷ []))
unfolding zero_un_padding strip_zeros
reversed-strip_zeros body c h =
    let other : c == 0 ≡ false = ground arith in
    rw (reverse-append body (c ∷ []), other)
      (ap returned (reverse-cons c (reverse body) ∙ ap (λ x. x ++ (c ∷ [])) (reverse-reverse body)))

zeros-strip_zeros : (n : ℕ) → zero_un_padding (repeat_byte n 0) ≡ panicked
unfolding zero_un_padding strip_zeros
zeros-strip_zeros n = zero-repeat_byte [] n

-- The zero padding takes off the zeros at the end of the bytes as well: of bytes up to one that is no
-- zero those come back, and of zeros alone, or of nothing, the removal panics.
zero_un_padding-zero_padding :
    (body : Bytes) (c k : ℕ)
    → 0 < c
    → (zero_un_padding (zero_padding (body ++ (c ∷ repeat_byte k 0))) ≡ returned (body ++ (c ∷ [])))
      × (zero_un_padding (zero_padding (repeat_byte k 0)) ≡ panicked)
unfolding zero_padding
zero_un_padding-zero_padding body c k h =
    let all = body ++ (c ∷ repeat_byte k 0) in
    let split : all ≡ (body ++ (c ∷ [])) ++ repeat_byte k 0 =
      sym (append_assoc body (c ∷ []) (repeat_byte k 0)) in
    (
      zero-repeat_byte all (padding_of all)
          ∙ ap zero_un_padding split
          ∙ zero-repeat_byte (body ++ (c ∷ [])) k
          ∙ reversed-strip_zeros body c h,
      zero-repeat_byte (repeat_byte k 0) (padding_of (repeat_byte k 0)) ∙ zeros-strip_zeros k,
    )
