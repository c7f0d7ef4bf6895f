-- ===== src/Alert/Check.antt =====
-- The tests of one rule against one snapshot (pkg/alert/engine.go). The Go results
-- `(triggered, value, threshold)` are an option: `none` stands for `(false, nil, nil)`, the only
-- result that the code has for a rule that did not trigger.
use compkg.Common.{ℕ, ◌+◌, String, Bool, not, ◌&&◌, Option, none, some, if◌then◌else◌}
use compkg.Common.Int.{ℤ, pos, ltb_ℤ, is_nonpos}
use compkg.Common.Float.{Float64}
use compkg.Common.Dict.{store}
use compkg.Metrics.Snapshot.{Snapshot, RateSnapshot, MetricType}
use compkg.Alert.Rule.{
  Rule, RuleType, Value, default_min_samples, int_value, float_value, rate_text, percent_text,
  surge_text, surge_limit_text, consecutive_text,
}
use compkg.Alert.State.{Engine}

abbrev pub count_of : Option ℕ → ℕ
count_of none = 0
count_of (some n) = n

abbrev pub set_consecutive : {F : Type 0} → String → ℕ → Engine F → Engine F
set_consecutive k n e = record e { consecutive = store k n e.consecutive }

module _ (F : Float64) where
  open F use {Float, of_int, lt, eq, sub, mul, div, abs}

  abbrev pub Verdict : Type 0
  Verdict = Option (Value Float × Value Float)

  abbrev pub zero_float : Float
  zero_float = of_int (pos 0)

  abbrev pub hundred : Float
  hundred = of_int (pos 100)

  -- A reading that is over a limit, as the pair of what was read and the limit.
  abbrev over : Bool → Value Float → Value Float → Verdict
  over test value limit = if test then some (value, limit) else none

  -- The `switch snap.Type`, for the value that the type selects.
  immediate_reading : MetricType → Snapshot Float → Verdict
  immediate_reading MetricType.counter snap = elim snap.counter [
    | none ↦ none
    | some n ↦ over (ltb_ℤ (pos 0) n) (int_value n) (int_value (pos 0))
  ]
  immediate_reading MetricType.gauge snap = elim snap.gauge [
    | none ↦ none
    | some x ↦ over (lt zero_float x) (float_value x) (float_value zero_float)
  ]
  immediate_reading _ snap = none

  unfoldable pub check_immediate : Snapshot Float → Verdict
  unfolding immediate_reading
  check_immediate snap = immediate_reading snap.type snap

  threshold_reading : MetricType → Float → Snapshot Float → Verdict
  threshold_reading MetricType.counter limit snap = elim snap.counter [
    | none ↦ none
    | some n ↦ over (lt limit (of_int n)) (int_value n) (float_value limit)
  ]
  threshold_reading MetricType.gauge limit snap = elim snap.gauge [
    | none ↦ none
    | some x ↦ over (lt limit x) (float_value x) (float_value limit)
  ]
  threshold_reading MetricType.histogram limit snap = elim snap.histogram [
    | none ↦ none
    | some h ↦ over (lt limit h.p99) (float_value h.p99) (float_value limit)
  ]
  threshold_reading MetricType.rate limit snap = elim snap.rate [
    | none ↦ none
    | some r ↦ over (lt limit r.rate) (float_value r.rate) (float_value limit)
  ]
  threshold_reading MetricType.other limit snap = none

  unfoldable pub check_threshold : Rule Float → Snapshot Float → Verdict
  unfolding threshold_reading
  check_threshold rule snap = threshold_reading snap.type rule.threshold snap

  abbrev pub required_samples : ℤ → ℤ
  required_samples n = if is_nonpos n then default_min_samples else n

  rate_verdict : Rule Float → RateSnapshot Float → Verdict
  rate_verdict rule r =
      over (not (ltb_ℤ r.total (required_samples rule.min_samples)) && lt rule.threshold r.rate)
        (rate_text (mul r.rate hundred) r.fail r.total) (percent_text (mul rule.threshold hundred))

  rate_reading : MetricType → Rule Float → Snapshot Float → Verdict
  unfolding rate_verdict
  rate_reading MetricType.rate rule snap = elim snap.rate [
    | none ↦ none
    | some r ↦ rate_verdict rule r
  ]
  rate_reading _ rule snap = none

  unfoldable pub check_rate : Rule Float → Snapshot Float → Verdict
  unfolding rate_reading
  check_rate rule snap = rate_reading snap.type rule snap

  -- `currentVal`, or none where the code returns at once.
  surge_current : MetricType → Snapshot Float → Option Float
  surge_current MetricType.gauge snap = snap.gauge
  surge_current MetricType.counter snap = elim snap.counter [
    | none ↦ none
    | some n ↦ some (of_int n)
  ]
  surge_current _ snap = none

  -- `prevVal`: the stored gauge, or else the stored counter, or else 0.
  previous : Option Float → Option ℤ → Float
  previous (some x) c = x
  previous none (some n) = of_int n
  previous none none = zero_float

  unfoldable pub change_percent : Float → Float → Float
  change_percent prev current =
      if eq prev zero_float then hundred else mul (div (abs (sub current prev)) (abs prev)) hundred

  surge_verdict : Float → Float → Float → Verdict
  unfolding change_percent
  surge_verdict limit prev current =
      if eq prev zero_float && eq current zero_float
      then none
      else over (lt limit (change_percent prev current))
          (surge_text (change_percent prev current) prev current) (surge_limit_text limit)

  unfoldable pub check_surge : Rule Float → Snapshot Float → Engine Float → Verdict
  unfolding surge_current previous surge_verdict
  check_surge rule snap e = elim (surge_current snap.type snap) [
    | none ↦ none
    | some current ↦
        surge_verdict rule.threshold
          (previous (e.prev_gauges snap.name) (e.prev_counters snap.name)) current
  ]

  -- The condition of one cycle: the threshold test, or else the immediate one.
  unfoldable pub condition : Rule Float → Snapshot Float → Verdict
  condition rule snap = elim (check_threshold rule snap) [
    | some v ↦ some v
    | none ↦ check_immediate snap
  ]

  unfoldable pub counted : Rule Float → ℕ → Value Float × Value Float → Verdict
  counted rule count (value, threshold) =
      if ltb_ℤ (pos count) rule.consecutive_n
      then none
      else some (consecutive_text value count, threshold)

  unfoldable pub check_consecutive :
      Rule Float → Snapshot Float → Engine Float → Engine Float × Verdict
  unfolding counted
  check_consecutive rule snap e =
      let count = count_of (e.consecutive rule.metric_name) + 1 in
      elim (condition rule snap) [
        | some v ↦ (set_consecutive rule.metric_name count e, counted rule count v)
        | none ↦ (set_consecutive rule.metric_name 0 e, none)
      ]

  unfoldable pub check_rule_type :
      RuleType → Rule Float → Snapshot Float → Engine Float → Engine Float × Verdict
  check_rule_type RuleType.immediate rule snap e = (e, check_immediate snap)
  check_rule_type RuleType.threshold rule snap e = (e, check_threshold rule snap)
  check_rule_type RuleType.rate rule snap e = (e, check_rate rule snap)
  check_rule_type RuleType.surge rule snap e = (e, check_surge rule snap e)
  check_rule_type RuleType.consecutive rule snap e = check_consecutive rule snap e
  check_rule_type (RuleType.unknown n) rule snap e = (e, none)

  unfoldable pub check_rule : Rule Float → Snapshot Float → Engine Float → Engine Float × Verdict
  unfolding check_rule_type
  check_rule rule snap e = check_rule_type rule.rule_type rule snap e
