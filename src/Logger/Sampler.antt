-- ===== src/Logger/Sampler.antt =====
-- Sampling of frequent records, pkg/logger/sampler.go. The counter is an int64 and counts from 0; a
-- level is zapcore's int8.
use compkg.Common.{
  ℕ, suc, ◌+◌, ◌*◌, ◌%◌, ◌<◌, ◌≤◌, ◌≡◌, refl, sym, ap, ◌∙◌, inl, inr, Bool, true, false, not,
  Bool-cases, Option, none, some, List, [], ◌∷◌, ltb, leb, ◌==◌, arith, if◌then◌else◌,
}
use mathlib.Core.Path.{subst}
use native.Mathlib.Nat.{mod-eq_of_lt, add-mul-mod_self_right}
use compkg.Common.Int.{ℤ, pos, pos_part, ltb_ℤ, add64, int64_half}

pub record Sampler : Type 0 where
  pub every_n : ℕ
  pub count : ℕ

-- zapcore: -1 debug, 0 info, 1 warn, and so on.
abbrev warn_level : ℤ
warn_level = pos 1

unfoldable pub new_sampler : ℤ → Option Sampler
new_sampler every_n =
    if ltb_ℤ (pos 1) every_n then some (record { every_n = pos_part every_n; count = 0 }) else none

-- `n % everyN == 1` on int64: a count that has wrapped is negative and gives no positive remainder.
abbrev is_turn : ℕ → ℕ → Bool
is_turn n every_n = if ltb n int64_half then n % every_n == 1 else false

abbrev count_one : Sampler → Sampler
count_one s = record s { count = add64 s.count 1 }

-- Whether a record passes, and the sampler after it. There is none where all records pass.
unfoldable pub allow : ℤ → Option Sampler → Option Sampler × Bool
allow level none = (none, true)
allow level (some s) =
    if leb s.every_n 1
    then (some s, true)
    else if not (ltb_ℤ level warn_level)
    then (some s, true)
    else (some (count_one s), is_turn (add64 s.count 1) s.every_n)

-- The levels of the records that pass, in order.
unfoldable pub passed : List ℤ → Option Sampler → List ℤ
passed [] s = []
passed (level ∷ levels) s =
    let (s', pass) = allow level s in
    let rest = passed levels s' in if pass then level ∷ rest else rest

abbrev pub low : List ℤ → ℕ
low [] = 0
low (level ∷ levels) = if ltb_ℤ level warn_level then suc (low levels) else low levels

abbrev pub high : List ℤ → List ℤ
high [] = []
high (level ∷ levels) = if ltb_ℤ level warn_level then high levels else level ∷ high levels

-- The turn of a count that is `r + q * n`.
turn_of : (n q r k : ℕ) → r < n → k ≡ r + q * n → k < int64_half → is_turn k n ≡ (r == 1)
turn_of n q r k h e b =
    let rest : k % n ≡ r = ap (λ x. x % n) e ∙ add-mul-mod_self_right r q n ∙ mod-eq_of_lt h in
    ground (arith, rest)

abbrev begun : ℕ → ℕ
begun r = if r == 0 then 0 else 1

-- Of m low records after a count with the remainder r, p pass.
abbrev Share : (n r m p : ℕ) → Type 0
Share n r m p = (m + r ≤ (p + begun r) * n) × ((p + begun r) * n < m + r + n)

Share-first : (n m p : ℕ) → 2 ≤ n → Share n 1 m p → Share n 0 (suc m) (suc p)
Share-first n m p h (lower, upper) =
    let step : (suc p + 0) * n ≡ (p + 1) * n = ground arith in (omega arith, omega arith)

Share-later : (n r m p : ℕ) → 0 < r → Share n (r + 1) m p → Share n r (suc m) p
Share-later n r m p h (lower, upper) =
    let now : begun r ≡ 1 = ground arith in
    let next : begun (r + 1) ≡ 1 = ground arith in
    let l = rw next at lower in let u = rw next at upper in rw now (omega arith, omega arith)

Share-last : (n r m p : ℕ) → 0 < r → r + 1 ≡ n → Share n 0 m p → Share n r (suc m) p
Share-last n r m p h e (lower, upper) =
    let now : begun r ≡ 1 = ground arith in
    let step : (p + 1) * n ≡ (p + 0) * n + n = ground arith in rw now (omega arith, omega arith)

abbrev sampler_at : ℕ → ℕ → Option Sampler
sampler_at n c = some (record { every_n = n; count = c })

passed_low :
    (levels : List ℤ) (level : ℤ) (n c : ℕ) (b : Bool)
    → 2 ≤ n
    → ltb_ℤ level warn_level ≡ true
    → is_turn (add64 c 1) n ≡ b
    → passed (level ∷ levels) (sampler_at n c) ≡ (
        if b
        then level ∷ passed levels (sampler_at n (add64 c 1))
        else passed levels (sampler_at n (add64 c 1)))
unfolding passed allow
passed_low levels level n c b h low_level turn =
    let many : leb n 1 ≡ false = ground arith in rw (many, low_level, turn) refl

passed_high :
    (levels : List ℤ) (level : ℤ) (n c : ℕ)
    → ltb_ℤ level warn_level ≡ false
    → passed (level ∷ levels) (sampler_at n c) ≡ level ∷ passed levels (sampler_at n c)
unfolding passed allow
passed_high levels level n c high_level = elim (Bool-cases (leb n 1)) [
  | inl few ↦ rw few refl
  | inr many ↦ rw (many, high_level) refl
]

module _ (n : ℕ) (several : 2 ≤ n) where
  -- What passes after a count of `r + q * n`: the share of the low records, and every high one.
  record Sampled (r : ℕ) (levels out : List ℤ) : Type 0 where
    pub share : Share n r (low levels) (low out)
    pub all_high : high out ≡ high levels

  Sampled-high :
      (r : ℕ) (level : ℤ) (levels out : List ℤ)
      → ltb_ℤ level warn_level ≡ false
      → Sampled r levels out
      → Sampled r (level ∷ levels) (level ∷ out)
  Sampled-high r level levels out h s = record {
    share = rw h s.share;
    all_high = rw h (ap (λ l. level ∷ l) s.all_high);
  }

  Sampled-first :
      (level : ℤ) (levels out : List ℤ)
      → ltb_ℤ level warn_level ≡ true
      → Sampled 1 levels out
      → Sampled 0 (level ∷ levels) (level ∷ out)
  Sampled-first level levels out h s = record {
    share = rw h (Share-first n (low levels) (low out) several s.share);
    all_high = rw h s.all_high;
  }

  Sampled-skip :
      (r next : ℕ) (level : ℤ) (levels out : List ℤ)
      → ltb_ℤ level warn_level ≡ true
      → (Share n next (low levels) (low out) → Share n r (suc (low levels)) (low out))
      → Sampled next levels out
      → Sampled r (level ∷ levels) out
  Sampled-skip r next level levels out h f s = record {
    share = rw h (f s.share);
    all_high = rw h s.all_high;
  }

  Share-none : (r : ℕ) → r < n → Share n r 0 0
  Share-none r h = elim (Bool-cases (r == 0)) [
    | inl fresh ↦ let z : r ≡ 0 = ground arith in rw fresh (omega arith, omega arith)
    | inr used ↦
        let some_yet : 0 < r = ground arith in
        let one : (0 + 1) * n ≡ n = ground arith in rw used (omega arith, omega arith)
  ]

  passed-Sampled :
      (levels : List ℤ) (q r c : ℕ)
      → r < n
      → c ≡ r + q * n
      → c + low levels < int64_half
      → Sampled r levels (passed levels (sampler_at n c))
  unfolding passed
  passed-Sampled [] q r c h e b = record { share = Share-none r h; all_high = refl }
  passed-Sampled (level ∷ levels) q r c h e b = elim (Bool-cases (ltb_ℤ level warn_level)) [
    | inr high_level ↦
        let room : c + low levels < int64_half = rw high_level at b in
        rw (passed_high levels level n c high_level)
          (Sampled-high r level levels _ high_level (passed-Sampled levels q r c h e room))
    | inl low_level ↦
        let room : c + suc (low levels) < int64_half = rw low_level at b in
        let exact : add64 c 1 ≡ c + 1 = ground arith in
        elim (Bool-cases (r == 0)) [
          | inl fresh ↦
              let none_yet : r ≡ 0 = ground arith in
              let turn : is_turn (add64 c 1) n ≡ true =
                rw exact (turn_of n q 1 (c + 1) several (omega arith) (omega arith)) in
              rw (passed_low levels level n c true several low_level turn) (
                subst
                  (λ x.
                    Sampled x (level ∷ levels) (level ∷ passed levels (sampler_at n (add64 c 1))))
                  (sym none_yet)
                  (Sampled-first level levels _ low_level
                    (passed-Sampled levels q 1 (add64 c 1) several (omega arith) (omega arith))))
          | inr used ↦
              let begun_already : 0 < r = ground arith in
              elim (Bool-cases (r + 1 == n)) [
                | inl full ↦
                    let last : r + 1 ≡ n = ground arith in
                    let step : suc q * n ≡ q * n + n = ground arith in
                    let turn : is_turn (add64 c 1) n ≡ false =
                      rw exact
                        (turn_of n (suc q) 0 (c + 1) (omega arith) (omega arith) (omega arith)) in
                    rw (passed_low levels level n c false several low_level turn) (
                      Sampled-skip r 0 level levels _ low_level
                        (Share-last n r (low levels) _ begun_already last)
                        (passed-Sampled levels (suc q) 0 (add64 c 1) (omega arith) (omega arith)
                          (omega arith)))
                | inr more ↦
                    let inside : r + 1 < n = ground arith in
                    let turn : is_turn (add64 c 1) n ≡ false = rw exact (
                      turn_of n q (r + 1) (c + 1) inside (omega arith) (omega arith)
                      ∙ ground arith) in
                    rw (passed_low levels level n c false several low_level turn) (
                      Sampled-skip r (r + 1) level levels _ low_level
                        (Share-later n r (low levels) _ begun_already)
                        (passed-Sampled levels q (r + 1) (add64 c 1) inside (omega arith)
                          (omega arith)))
              ]
        ]
  ]

-- Of fewer than 2 ^ 63 Debug and Info records, a new sampler of N of at least 2 passes one in N, the
-- count rounded up, and it passes every record from Warn on, in order.
pub passed-share :
    (levels : List ℤ) (n : ℕ)
    → 2 ≤ n
    → low levels < int64_half
    → (low levels ≤ low (passed levels (new_sampler (pos n))) * n)
      × ((low (passed levels (new_sampler (pos n))) * n < low levels + n)
          × (high (passed levels (new_sampler (pos n))) ≡ high levels))
unfolding new_sampler
passed-share levels n h b =
    let several : ltb_ℤ (pos 1) (pos n) ≡ true = ground arith in
    let s = passed-Sampled n h levels 0 0 0 (omega arith) (omega arith) (omega arith) in
    let (lower, upper) = s.share in rw several (omega arith, (omega arith, s.all_high))
