-- ===== src/Encrypt/Blocks.antt =====
-- The block loop of the ECB mode of pkg/encrypt/aes.go, there and back.
use compkg.Common.{
  ℕ, zero, suc, ◌-◌, ◌*◌, ◌/◌, ◌%◌, ◌≤◌, ◌≡◌, refl, ap, ◌∙◌, true, [], ◌∷◌, ◌++◌, length,
  length-append, take, drop, ◌==◌, arith,
}
use compkg.Encrypt.{Bytes, returned, each_block, crypt_ecb}

pub take-length_append : (s t : Bytes) (n : ℕ) → length s ≡ n → take n (s ++ t) ≡ s
take-length_append [] t zero h = refl
take-length_append [] t (suc n) h = absurd (omega (arith, h))
take-length_append (c ∷ s) t zero h = absurd (omega (arith, h))
take-length_append (c ∷ s) t (suc n) h = ap (λ x. c ∷ x) (take-length_append s t n (omega arith))

pub drop-length_append : (s t : Bytes) (n : ℕ) → length s ≡ n → drop n (s ++ t) ≡ t
drop-length_append [] t zero h = refl
drop-length_append [] t (suc n) h = absurd (omega (arith, h))
drop-length_append (c ∷ s) t zero h = absurd (omega (arith, h))
drop-length_append (c ∷ s) t (suc n) h = drop-length_append s t n (omega arith)

append-take-drop : (n : ℕ) (s : Bytes) → take n s ++ drop n s ≡ s
append-take-drop zero s = refl
append-take-drop (suc n) [] = refl
append-take-drop (suc n) (c ∷ s) = ap (λ x. c ∷ x) (append-take-drop n s)

length-drop : (n : ℕ) (s : Bytes) → length (drop n s) ≡ length s - n
length-drop zero s = omega arith
length-drop (suc n) [] = omega arith
length-drop (suc n) (c ∷ s) = length-drop n s ∙ omega arith

length-take : (n : ℕ) (s : Bytes) → n ≤ length s → length (take n s) ≡ n
length-take zero s h = refl
length-take (suc n) [] h = absurd (omega arith)
length-take (suc n) (c ∷ s) h = ap suc (length-take n s (omega arith))

-- A cipher on blocks keeps the length of a block.
module _ (f g : Bytes → Bytes) (f-length : (s : Bytes) → length s ≡ 16 → length (f s) ≡ 16)
    (inverse : (s : Bytes) → length s ≡ 16 → g (f s) ≡ s) where
  length-each_block : (n : ℕ) (s : Bytes) → length s ≡ 16 * n → length (each_block f n s) ≡ 16 * n
  unfolding each_block
  length-each_block zero s h = refl
  length-each_block (suc n) s h =
      let first = f-length (take 16 s) (length-take 16 s (omega arith)) in
      let rest = length-each_block n (drop 16 s) (length-drop 16 s ∙ omega arith) in
      length-append (f (take 16 s)) (each_block f n (drop 16 s)) ∙ omega arith

  each_block-each_block :
      (n : ℕ) (s : Bytes) → length s ≡ 16 * n → each_block g n (each_block f n s) ≡ s
  unfolding each_block
  each_block-each_block zero [] h = refl
  each_block-each_block zero (c ∷ s) h = absurd (omega arith)
  each_block-each_block (suc n) s h =
      let whole = length-take 16 s (omega arith) in
      let first = f-length (take 16 s) whole in
      let rest = each_block f n (drop 16 s) in
      rw
        (
          take-length_append (f (take 16 s)) rest 16 first,
          drop-length_append (f (take 16 s)) rest 16 first,
          inverse (take 16 s) whole,
          each_block-each_block n (drop 16 s) (length-drop 16 s ∙ omega arith),
        )
        (append-take-drop 16 s)

  -- On whole blocks the second cipher takes the first one back.
  pub crypt_ecb-crypt_ecb :
      (s : Bytes)
      → length s % 16 ≡ 0
      → (out : Bytes) × (crypt_ecb f s ≡ returned out) × (crypt_ecb g out ≡ returned s)
  unfolding crypt_ecb
  crypt_ecb-crypt_ecb s h =
      let n = length s / 16 in
      let count : length s ≡ 16 * n = omega arith in
      let there : length s % 16 == 0 ≡ true = ground arith in
      let same = length-each_block n s count in
      let back : length (each_block f n s) % 16 == 0 ≡ true = ground arith in
      let again : length (each_block f n s) / 16 ≡ n = omega arith in
      (each_block f n s, rw there refl, rw (back, again, each_block-each_block n s count) refl)
