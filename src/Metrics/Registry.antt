-- ===== src/Metrics/Registry.antt =====
-- The registry: pkg/metrics/registry.go. A sync.Map is an association list in the order of its Range,
-- and the map of snapshots is one too. A name stands for the pointer that is registered under it.
-- What the callback does is outside: `collect_and_notify` gives what it is called with.
pub mod Collect
use compkg.Common.{
  ℕ, String, Bool, true, false, not, ◌&&◌, Option, none, some, List, [], ◌∷◌, ◌++◌, map, str_eq,
  if◌then◌else◌,
}
use compkg.Common.Int.{signed64}
use compkg.Common.Float.{Float64}
use compkg.Metrics.Snapshot.{Snapshot, MetricType}
use compkg.Metrics.Instruments.{
  CounterMetric, RateMetric, RateCall, GaugeMetric, new_counter, new_gauge, new_rate, reset_counter,
  rate_reset,
}
use compkg.Metrics.Histogram.{HistogramMetric, new_histogram, histogram_reset}

abbrev pub Entries {ℓ} : Type ℓ → Type ℓ
Entries A = List (String × A)

module _ {ℓ} {A : Type ℓ} where
  unfoldable pub find : String → Entries A → Option A
  find k [] = none
  find k ((j, a) ∷ rest) = if str_eq j k then some a else find k rest

  unfoldable pub put : String → A → Entries A → Entries A
  put k a [] = (k, a) ∷ []
  put k a ((j, b) ∷ rest) =
      let later = put k a rest in if str_eq j k then (j, a) ∷ rest else (j, b) ∷ later

  -- LoadOrStore, without what it returns.
  unfoldable pub load_or_store : (String → A) → String → Entries A → Entries A
  load_or_store fresh k entries = elim (find k entries) [
    | none ↦ entries ++ (k, fresh k) ∷ []
    | some a ↦ entries
  ]

  unfoldable pub store_others : (String → A) → List String → Entries A → Entries A
  store_others fresh [] entries = entries
  store_others fresh (k ∷ ks) entries = store_others fresh ks (load_or_store fresh k entries)

  -- The four GetOrCreate functions: `others` are the names that other goroutines register between the
  -- Load and the LoadOrStore.
  unfoldable pub get_or_create : (String → A) → List String → String → Entries A → Entries A
  get_or_create fresh others k entries = elim (find k entries) [
    | some a ↦ entries
    | none ↦ load_or_store fresh k (store_others fresh others entries)
  ]

  unfoldable pub is_empty : Entries A → Bool
  is_empty [] = true
  is_empty (x ∷ xs) = false

unfoldable pub put_all {ℓ κ} :
    {A : Type ℓ} {B : Type κ} → (String → A → B) → Entries A → Entries B → Entries B
put_all f [] out = out
put_all f ((k, a) ∷ rest) out = put_all f rest (put k (f k a) out)

abbrev pub each {ℓ} : {A : Type ℓ} → (A → A) → Entries A → Entries A
each f entries = map (λ e. (e.0, f e.1)) entries

module _ (F : Float64) where
  open F use {Float}

  pub record Registry : Type 0 where
    pub counters : Entries CounterMetric
    pub gauges : Entries (GaugeMetric F)
    pub histograms : Entries (HistogramMetric F)
    pub rates : Entries RateMetric
    pub service_name : String
    pub has_callback : Bool

  unfoldable pub get_or_create_counter : List String → String → Registry → Registry
  get_or_create_counter others k r = record r {
    counters = get_or_create new_counter others k r.counters;
  }

  unfoldable pub get_or_create_gauge : List String → String → Registry → Registry
  get_or_create_gauge others k r = record r {
    gauges = get_or_create (new_gauge F) others k r.gauges;
  }

  unfoldable pub get_or_create_histogram : List String → String → Registry → Registry
  get_or_create_histogram others k r = record r {
    histograms = get_or_create (new_histogram F) others k r.histograms;
  }

  unfoldable pub get_or_create_rate : List String → String → Registry → Registry
  get_or_create_rate others k r = record r { rates = get_or_create new_rate others k r.rates }

  blank : String → ℕ → String → MetricType → List (String × String) → Snapshot Float
  blank service now name type tags = record {
    name = name;
    type = type;
    counter = none;
    gauge = none;
    histogram = none;
    rate = none;
    tags = tags;
    service_name = service;
    timestamp = now;
  }

  unfoldable pub snapshot_counter : String → ℕ → String → CounterMetric → Snapshot Float
  unfolding blank
  snapshot_counter service now name c = record (blank service now name MetricType.counter c.tags) {
    counter = some (signed64 (reset_counter c).1);
  }

  unfoldable pub snapshot_gauge : String → ℕ → String → GaugeMetric F → Snapshot Float
  unfolding blank
  snapshot_gauge service now name g = record (blank service now name MetricType.gauge g.tags) {
    gauge = some g.value;
  }

  unfoldable pub snapshot_histogram : String → ℕ → String → HistogramMetric F → Snapshot Float
  unfolding blank
  snapshot_histogram service now name h =
      record (blank service now name MetricType.histogram h.tags) {
        histogram = (histogram_reset F h).1;
      }

  -- `between`: what other goroutines record on a ratio during its Reset.
  unfoldable pub snapshot_rate :
      (String → List RateCall) → String → ℕ → String → RateMetric → Snapshot Float
  unfolding blank
  snapshot_rate between service now name rt =
      record (blank service now name MetricType.rate rt.tags) {
        rate = some (rate_reset F (between name) rt).1;
      }

  -- No histogram's snapshot panics.
  unfoldable pub all_computed : Entries (HistogramMetric F) → Bool
  all_computed [] = true
  all_computed ((k, h) ∷ rest) = elim (histogram_reset F h).1 [
    | none ↦ false
    | some s ↦ all_computed rest
  ]

  unfoldable pub collect_snapshots :
      (String → List RateCall) → ℕ → Registry → Entries (Snapshot Float)
  collect_snapshots between now r =
      let service = r.service_name in
      let counted = put_all (snapshot_counter service now) r.counters [] in
      let gauged = put_all (snapshot_gauge service now) r.gauges counted in
      let measured = put_all (snapshot_histogram service now) r.histograms gauged in
      put_all (snapshot_rate between service now) r.rates measured

  reset_rates : (String → List RateCall) → Entries RateMetric → Entries RateMetric
  reset_rates between rates = map (λ e. (e.0, (rate_reset F (between e.0) e.1).0)) rates

  unfoldable pub reset_all : (String → List RateCall) → Registry → Registry
  unfolding reset_rates
  reset_all between r = record r {
    counters = each (λ c. (reset_counter c).0) r.counters;
    histograms = each (λ h. (histogram_reset F h).0) r.histograms;
    rates = reset_rates between r.rates;
  }

  -- The registry after a cycle, and what the callback is called with, if it is; none is a panic.
  unfoldable pub collect_and_notify :
      (String → List RateCall)
      → ℕ
      → Registry
      → Option (Registry × Option (Entries (Snapshot Float)))
  collect_and_notify between now r =
      let snapshots = collect_snapshots between now r in
      if not r.has_callback
      then some (r, none)
      else if not (all_computed r.histograms)
      then none
      else some (reset_all between r, if is_empty snapshots then none else some snapshots)
