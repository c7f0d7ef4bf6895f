-- ===== src/Metrics/Histogram/Total.antt =====
-- That the percentiles of pkg/metrics/histogram.go stay within the samples.
use compkg.Common.{
  ℕ, zero, suc, ◌+◌, ◌-◌, ◌^◌, ◌≤◌, ◌<◌, ◌≡◌, refl, sym, inl, inr, false, Bool-cases, Option, some,
  List, [], ◌∷◌, length, ◌==◌, arith,
}
use mathlib.Core.Path.{subst}
use compkg.Common.Int.{pos, inc64, ltb_ℤ}
use compkg.Common.Float.{Float64}
use compkg.Metrics.Snapshot.{HistogramSnapshot}
use compkg.Metrics.Histogram.{
  nth, combine, percentile, percent, snapshot_of, snapshot_sorted, float64s, calc_snapshot,
}
use compkg.Metrics.Histogram.Extremes.{length-float64s}

nth-found : {A : Type 0} (n : ℕ) (xs : List A) → n < length xs → (a : A) × (nth n xs ≡ some a)
nth-found n [] h = absurd (omega arith)
nth-found zero (x ∷ xs) h = (x, refl)
nth-found (suc n) (x ∷ xs) h = nth-found n xs (omega arith)

less_one : (n : ℕ) → suc (suc n) - 1 ≡ suc n
less_one n = omega arith

two_not_zero : (n : ℕ) → (suc (suc n) == 0) ≡ false
two_not_zero n = ground arith

two_not_one : (n : ℕ) → (suc (suc n) == 1) ≡ false
two_not_one n = ground arith

inc64-pos : (m : ℕ) → m < 2 ^ 53 → inc64 (pos m) ≡ pos (m + 1)
inc64-pos m h = ground arith

module _ (F : Float64) where
  open F use {Float, of_int, to_int, mul}

  -- float64 has 53 bits: up to there a percentage of n, cut to an integer, is from 0 to n.
  pub record CutsPercentages : Type 0 where
    pub cut :
        (q n : ℕ)
        → q ≤ 100
        → n < 2 ^ 53
        → (m : ℕ) × ((to_int (mul (percent F q) (of_int (pos n))) ≡ pos m) × (m ≤ n))

  combine-found :
      (frac a b : Float) {o p : Option Float}
      → o ≡ some a
      → p ≡ some b
      → (x : Float) × (combine F frac o p ≡ some x)
  unfolding combine
  combine-found frac a b h k =
      (F.add (mul a (F.sub (of_int (pos 1)) frac)) (mul b frac), rw (h, k, combine))

  percentile-found :
      CutsPercentages
      → (sorted : List Float) (q : ℕ) → q ≤ 100
      → length sorted < 2 ^ 53
      → (x : Float) × (percentile F sorted (percent F q) ≡ some x)
  unfolding percentile
  percentile-found law [] q h k = (of_int (pos 0), refl)
  percentile-found law (v ∷ []) q h k = (v, refl)
  percentile-found law (v ∷ w ∷ vs) q h k =
      let n = suc (length vs) in
      let (m, cut) = law.cut q n h (omega arith) in
      let (e, small) = cut in
      let sorted = v ∷ w ∷ vs in
      elim (Bool-cases (ltb_ℤ (pos (m + 1)) (pos (length sorted)))) [
        | inl t ↦
            let (a, p) = nth-found m sorted (ground arith) in
            let (b, r) = nth-found (m + 1) sorted (ground arith) in
            let idx = mul (percent F q) (of_int (pos n)) in
            let (x, found) = combine-found (F.sub idx (of_int (pos m))) a b p r in
            (
              x,
              rw
                  (
                    percentile,
                    two_not_zero (length vs),
                    two_not_one (length vs),
                    less_one (length vs),
                    e,
                    inc64-pos m (omega arith),
                    t,
                  )
                  found,
            )
        | inr t ↦
            let (a, p) = nth-found n sorted (omega arith) in
            (
              a,
              rw
                  (
                    percentile,
                    two_not_zero (length vs),
                    two_not_one (length vs),
                    less_one (length vs),
                    e,
                    inc64-pos m (omega arith),
                    t,
                  )
                  p,
            )
      ]

  abbrev HasSnapshot : Option (HistogramSnapshot Float) → Type 0
  HasSnapshot o = (s : HistogramSnapshot Float) × (o ≡ some s)

  snapshot_of-found :
      (sorted : List Float) {o p q : Option Float} {a b c : Float}
      → o ≡ some a
      → p ≡ some b
      → q ≡ some c
      → (s : HistogramSnapshot Float) × (snapshot_of F sorted o p q ≡ some s)
  unfolding snapshot_of
  snapshot_of-found sorted {o = o} {p} {q} {a} {b} {c} h k l =
      subst (λ x. HasSnapshot (snapshot_of F sorted x p q)) (sym h)
        (subst (λ x. HasSnapshot (snapshot_of F sorted (some a) x q)) (sym k)
          (subst (λ x. HasSnapshot (snapshot_of F sorted (some a) (some b) x)) (sym l) (_, refl)))

  -- If a percentage of n, cut to an integer, is from 0 to n for n below 2^53, then of fewer than 2^53
  -- samples no percentile reads outside of them, and there is always a snapshot.
  pub calc_snapshot-found :
      CutsPercentages
      → (vs : List Float) → length vs < 2 ^ 53
      → (s : HistogramSnapshot Float) × (calc_snapshot F vs ≡ some s)
  unfolding calc_snapshot snapshot_sorted
  calc_snapshot-found law [] h = (_, refl)
  calc_snapshot-found law (v ∷ vs) h =
      let sorted = float64s F (v ∷ vs) in
      let short : length sorted < 2 ^ 53 = rw (length-float64s F (v ∷ vs)) h in
      let (p50, e50) = percentile-found law sorted 50 (omega arith) short in
      let (p95, e95) = percentile-found law sorted 95 (omega arith) short in
      let (p99, e99) = percentile-found law sorted 99 (omega arith) short in
      snapshot_of-found sorted e50 e95 e99
