-- ===== src/Metrics/Snapshot.antt =====
-- pkg/metrics/snapshot.go, with the snapshots of pkg/metrics/histogram.go and pkg/metrics/rate.go.
use compkg.Common.{ℕ, String, List, Option}
use compkg.Common.Int.{ℤ}

-- `MetricType` is a string of which the code compares four values; `other` stands for the rest.
pub data MetricType : Type 0 where
  counter gauge histogram rate other : MetricType

pub record HistogramSnapshot (F : Type 0) : Type 0 where
  pub count : ℕ
  pub p50 : F
  pub p95 : F
  pub p99 : F
  pub avg : F
  pub max : F
  pub min : F

pub record RateSnapshot (F : Type 0) : Type 0 where
  pub total : ℤ
  pub success : ℤ
  pub fail : ℤ
  pub rate : F

pub record Snapshot (F : Type 0) : Type 0 where
  pub name : String
  pub type : MetricType
  pub counter : Option ℤ
  pub gauge : Option F
  pub histogram : Option (HistogramSnapshot F)
  pub rate : Option (RateSnapshot F)
  pub tags : List (String × String)
  pub service_name : String
  pub timestamp : ℕ
