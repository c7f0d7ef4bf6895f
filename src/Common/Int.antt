-- ===== src/Common/Int.antt =====
-- Signed integers over the native numbers, under the library's names (its ℤ stands on the unary ℕ).
-- Go's `int`, `int64` and `time.Duration` are read as such integers.
use compkg.Common.{
  ◌≡◌, ℕ, zero, suc, ◌+◌, ◌-◌, ◌*◌, ◌%◌, ◌^◌, ◌≤◌, ◌<◌, Bool, true, false, ltb, leb, ◌==◌,
  if◌then◌else◌, arith,
}

-- `negsuc n` is -(n + 1).
pub data ℤ : Type 0 where
  pos : ℕ → ℤ
  negsuc : ℕ → ℤ

abbrev pub pos_part : ℤ → ℕ
pos_part (pos n) = n
pos_part (negsuc n) = 0

abbrev pub neg_part : ℤ → ℕ
neg_part (pos n) = 0
neg_part (negsuc n) = suc n

-- a - b, as an integer.
abbrev pub sub_ℕ : ℕ → ℕ → ℤ
sub_ℕ a b = if leb b a then pos (a - b) else negsuc (b - a - 1)

infix 50 ◌<ℤ◌
abbrev pub ◌<ℤ◌ : ℤ → ℤ → Type 0
a <ℤ b = pos_part a + neg_part b < pos_part b + neg_part a

abbrev pub ltb_ℤ : ℤ → ℤ → Bool
ltb_ℤ a b = ltb (pos_part a + neg_part b) (pos_part b + neg_part a)

-- `x <= 0`, the test of every default value.
abbrev pub is_nonpos : ℤ → Bool
is_nonpos (pos n) = n == 0
is_nonpos (negsuc n) = true

-- The largest int64 is `int64_half - 1`.
abbrev pub int64_half : ℕ
int64_half = 2 ^ 63

-- `x + 1` on int64, which wraps.
abbrev pub inc64 : ℤ → ℤ
inc64 (pos n) = if n + 1 == int64_half then negsuc (int64_half - 1) else pos (n + 1)
inc64 (negsuc zero) = pos 0
inc64 (negsuc (suc n)) = negsuc n

-- Below the largest int64 the increment is exact, and so larger.
pub inc64-lt : (a : ℤ) → pos_part a + 1 < int64_half → a <ℤ inc64 a
inc64-lt (pos n) h = ground arith
inc64-lt (negsuc zero) h = omega arith
inc64-lt (negsuc (suc n)) h = omega arith

abbrev pub eq_ℤ : ℤ → ℤ → Bool
eq_ℤ (pos a) (pos b) = a == b
eq_ℤ (negsuc a) (negsuc b) = a == b
eq_ℤ _ _ = false

pub eq_ℤ-true : (a b : ℤ) → eq_ℤ a b ≡ true → a ≡ b
eq_ℤ-true (pos a) (pos b) h = ground arith
eq_ℤ-true (negsuc a) (negsuc b) h = ground arith
eq_ℤ-true (pos a) (negsuc b) h = cc h
eq_ℤ-true (negsuc a) (pos b) h = cc h

pub eq_ℤ_self : (a : ℤ) → eq_ℤ a a ≡ true
eq_ℤ_self (pos a) = ground arith
eq_ℤ_self (negsuc a) = ground arith

-- Not less is less or equal.
infix 50 ◌≤ℤ◌
abbrev pub ◌≤ℤ◌ : ℤ → ℤ → Type 0
a ≤ℤ b = pos_part a + neg_part b ≤ pos_part b + neg_part a

-- `x + y` on the bits of an int64, and the int64 that they stand for.
abbrev pub add64 : ℕ → ℕ → ℕ
add64 a b = (a + b) % 2 ^ 64

abbrev pub signed64 : ℕ → ℤ
signed64 n = if ltb n (2 ^ 63) then pos n else negsuc (2 ^ 64 - n - 1)

-- `x *= 2` on int64, which wraps.
abbrev pub double64 : ℤ → ℤ
double64 (pos n) = signed64 ((2 * n) % 2 ^ 64)
double64 (negsuc n) = signed64 ((2 ^ 65 - 2 * (n + 1)) % 2 ^ 64)

-- `int32(x)`: the low 32 bits, as the int32 that they stand for.
signed32 : ℕ → ℤ
signed32 n = if ltb n (2 ^ 31) then pos n else negsuc (2 ^ 32 - n - 1)

unfoldable pub to_int32 : ℤ → ℤ
unfolding signed32
to_int32 (pos n) = signed32 (n % 2 ^ 32)
to_int32 (negsuc n) = signed32 (2 ^ 32 - 1 - n % 2 ^ 32)
