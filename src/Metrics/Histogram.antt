-- ===== src/Metrics/Histogram.antt =====
-- The distribution of samples: pkg/metrics/histogram.go. An index out of range would panic, which is
-- the result `none`. The locked region of each method is one step.
pub mod Extremes
pub mod Total
use compkg.Common.{
  ℕ, zero, suc, ◌-◌, ◌&&◌, ◌||◌, not, String, Bool, Option, none, some, List, [], ◌∷◌, ◌++◌, length,
  ltb, ◌==◌, if◌then◌else◌,
}
use compkg.Common.Int.{ℤ, pos, negsuc, inc64, ltb_ℤ}
use compkg.Common.Float.{Float64}
use compkg.Metrics.Snapshot.{HistogramSnapshot}
use compkg.Metrics.Instruments.{Tags}

abbrev pub default_max_sample_size : ℕ
default_max_sample_size = 10000

abbrev pub nth {ℓ} : {A : Type ℓ} → ℕ → List A → Option A
nth n [] = none
nth zero (x ∷ xs) = some x
nth (suc n) (x ∷ xs) = nth n xs

-- `values[i]`
abbrev pub index {ℓ} : {A : Type ℓ} → ℤ → List A → Option A
index (pos n) xs = nth n xs
index (negsuc n) xs = none

module _ (F : Float64) where
  open F use {Float, of_int, to_int, lt, eq, add, sub, mul, div}

  -- sort.Float64s: by `<`, with the values that are not equal to themselves first.
  unfoldable pub less : Float → Float → Bool
  less x y = lt x y || (not (eq x x) && eq y y)

  unfoldable pub insert : Float → List Float → List Float
  insert x [] = x ∷ []
  insert x (y ∷ ys) = let rest = insert x ys in if less y x then y ∷ rest else x ∷ y ∷ ys

  unfoldable pub float64s : List Float → List Float
  float64s [] = []
  float64s (x ∷ xs) = insert x (float64s xs)

  -- The loop of `calcSnapshot`, a variable at a time.
  unfoldable pub sum_from : Float → List Float → Float
  sum_from acc [] = acc
  sum_from acc (v ∷ vs) = sum_from (add acc v) vs

  unfoldable pub max_from : Float → List Float → Float
  max_from m [] = m
  max_from m (v ∷ vs) = max_from (if lt m v then v else m) vs

  unfoldable pub min_from : Float → List Float → Float
  min_from m [] = m
  min_from m (v ∷ vs) = min_from (if lt v m then v else m) vs

  unfoldable pub combine : Float → Option Float → Option Float → Option Float
  combine frac (some a) (some b) = some (add (mul a (sub (of_int (pos 1)) frac)) (mul b frac))
  combine frac _ _ = none

  unfoldable pub percentile : List Float → Float → Option Float
  unfolding combine
  percentile sorted p =
      let n = length sorted in
      let idx = mul p (of_int (pos (n - 1))) in
      let lower = to_int idx in
      let upper = inc64 lower in
      if n == 0
      then some (of_int (pos 0))
      else if n == 1
      then nth 0 sorted
      else if not (ltb_ℤ upper (pos n))
      then nth (n - 1) sorted
      else combine (sub idx (of_int lower)) (index lower sorted) (index upper sorted)

  abbrev pub percent : ℕ → Float
  percent n = div (of_int (pos n)) (of_int (pos 100))

  abbrev pub no_samples : HistogramSnapshot Float
  no_samples =
      let zero_float = of_int (pos 0) in
      record {
        count = 0;
        p50 = zero_float;
        p95 = zero_float;
        p99 = zero_float;
        avg = zero_float;
        max = zero_float;
        min = zero_float;
      }

  -- The snapshot of one sample or more, which are sorted.
  unfoldable pub snapshot_of :
      List Float → Option Float → Option Float → Option Float → Option (HistogramSnapshot Float)
  snapshot_of sorted (some p50) (some p95) (some p99) = some (record {
    count = length sorted;
    p50 = p50;
    p95 = p95;
    p99 = p99;
    avg = div (sum_from (of_int (pos 0)) sorted) (of_int (pos (length sorted)));
    max = max_from F.smallest sorted;
    min = min_from F.largest sorted;
  })
  snapshot_of sorted _ _ _ = none

  unfoldable pub snapshot_sorted : List Float → Option (HistogramSnapshot Float)
  unfolding snapshot_of
  snapshot_sorted sorted =
      snapshot_of sorted (percentile sorted (percent 50)) (percentile sorted (percent 95))
        (percentile sorted (percent 99))

  unfoldable pub calc_snapshot : List Float → Option (HistogramSnapshot Float)
  unfolding snapshot_sorted
  calc_snapshot [] = some no_samples
  calc_snapshot (v ∷ vs) = snapshot_sorted (float64s (v ∷ vs))

  pub record HistogramMetric : Type 0 where
    pub name : String
    pub values : List Float
    pub tags : Tags
    pub max_size : ℕ

  unfoldable pub new_histogram : String → HistogramMetric
  new_histogram name = record {
    name = name;
    values = [];
    tags = [];
    max_size = default_max_sample_size;
  }

  unfoldable pub observe : Float → HistogramMetric → HistogramMetric
  observe v h =
      if ltb (length h.values) h.max_size then record h { values = h.values ++ v ∷ [] } else h

  unfoldable pub histogram_snapshot : HistogramMetric → Option (HistogramSnapshot Float)
  histogram_snapshot h = calc_snapshot h.values

  unfoldable pub histogram_reset :
      HistogramMetric → HistogramMetric × Option (HistogramSnapshot Float)
  histogram_reset h = (record h { values = [] }, calc_snapshot h.values)
