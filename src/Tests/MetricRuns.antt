-- ===== src/Tests/MetricRuns.antt =====
-- Runs of the instruments and the registry (pkg/metrics), with whole numbers for floats.
use compkg.Common.{ℕ, ◌≡◌, refl, true, false, some, none, List, [], ◌∷◌, ltb, arith}
use compkg.Metrics.Snapshot.{HistogramSnapshot}
use compkg.Metrics.Instruments.{
  CounterMetric, RateMetric, CounterCall, inc, add, reset, reset_counter,
}
use compkg.Metrics.Histogram.{
  calc_snapshot, percentile, float64s, insert, less, sum_from, max_from, min_from,
}
use compkg.Metrics.Histogram.Extremes.{Describes, calc_snapshot-Describes}
use compkg.Metrics.Registry.{
  Registry, Entries, find, collect_snapshots, collect_and_notify, reset_all, all_computed, is_empty,
  put_all, put, snapshot_counter, snapshot_gauge, snapshot_histogram, snapshot_rate,
}
use compkg.Metrics.Registry.Collect.{or_else, AllDistinct, collect_and_notify-find}
use compkg.Tests.AlertRuns.{whole}

abbrev errors : CounterMetric
errors = record { name = "errors"; value = 7; tags = [] }

abbrev calls : List CounterCall
calls = inc ∷ reset ∷ add 5 ∷ reset ∷ inc ∷ []

abbrev requests : RateMetric
requests = record { name = "requests"; success = 9; fail = 1; tags = [] }

abbrev samples : List ℕ
samples = 8 ∷ 3 ∷ 12 ∷ []

abbrev sampled : HistogramSnapshot ℕ
sampled = record { count = 3; p50 = 3; p95 = 3; p99 = 3; avg = 7; max = 12; min = 3 }

samples-sampled : calc_snapshot whole samples ≡ some sampled
unfolding calc_snapshot percentile float64s insert less sum_from max_from min_from
samples-sampled = refl

ltb_irrefl : (a : ℕ) → ltb a a ≡ false
ltb_irrefl a = ground arith

ltb_trans : (a b c : ℕ) → ltb a b ≡ true → ltb b c ≡ true → ltb a c ≡ true
ltb_trans a b c h k = ground arith

calc_snapshot-Describes_example : Describes whole samples sampled
calc_snapshot-Describes_example =
    calc_snapshot-Describes whole ltb_irrefl ltb_trans 8 (3 ∷ 12 ∷ []) sampled samples-sampled

abbrev registered : Entries CounterMetric
registered = ("errors", errors) ∷ []

abbrev registry : Registry whole
registry = record {
  counters = ("errors", errors) ∷ ("requests", errors) ∷ [];
  gauges = [];
  histograms = [];
  rates = ("requests", requests) ∷ [];
  service_name = "svc";
  has_callback = true;
}

cycle-notified :
    collect_and_notify whole (λ k. []) 5 registry
    ≡ some (reset_all whole (λ k. []) registry, some (collect_snapshots whole (λ k. []) 5 registry))
unfolding collect_and_notify collect_snapshots all_computed is_empty put_all put
cycle-notified = refl

registry-AllDistinct : AllDistinct whole registry
unfolding find
registry-AllDistinct = record {
  counters = (refl, (refl, tt));
  gauges = tt;
  histograms = tt;
  rates = (refl, tt);
}

collect_and_notify-find_example :
    (find "requests" (collect_snapshots whole (λ k. []) 5 registry)
      ≡ or_else
          (snapshot_rate whole (λ k. []) "svc" 5 "requests")
          (find "requests" registry.rates)
          (or_else
            (snapshot_histogram whole "svc" 5 "requests")
            (find "requests" registry.histograms)
            (or_else (snapshot_gauge whole "svc" 5 "requests") (find "requests" registry.gauges) (
              or_else
                (snapshot_counter whole "svc" 5 "requests")
                (find "requests" registry.counters)
                none))))
    × (find "requests" (reset_all whole (λ k. []) registry).counters
        ≡ or_else (λ c. (reset_counter c).0) (find "requests" registry.counters) none)
collect_and_notify-find_example =
    collect_and_notify-find whole (λ k. []) 5 registry (reset_all whole (λ k. []) registry)
      (collect_snapshots whole (λ k. []) 5 registry) "requests" registry-AllDistinct cycle-notified
