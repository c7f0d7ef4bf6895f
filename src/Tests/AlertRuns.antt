-- ===== src/Tests/AlertRuns.antt =====
-- Runs of the alert engine (pkg/alert). Floats are whole numbers here.
use compkg.Common.{
  ℕ, ◌+◌, ◌-◌, ◌*◌, ◌/◌, ◌≡◌, refl, some, none, List, [], ◌∷◌, map, ltb, ◌==◌, arith,
}
use compkg.Common.Int.{pos, pos_part}
use compkg.Common.Float.{Float64}
use compkg.Common.Dict.{Dict, store}
use compkg.Metrics.Snapshot.{Snapshot, MetricType}
use compkg.Alert.Rule.{Rule, RuleType, Level}
use compkg.Alert.State.{Engine, new_engine}
use compkg.Alert.Check.{check_rule, check_rule_type, check_threshold}
use compkg.Alert.Engine.{
  run, evaluate, evaluate_rules, evaluate_rule, evaluate_snapshot, settle, handle_triggered,
  cooling, switched_off, make_event, save_prev_values,
}
use compkg.Alert.Cooldown.{Spaced, run-Spaced}
use compkg.Alert.Consecutive.{run-AsksForSeveral}

abbrev pub whole : Float64
whole = record {
  Float = ℕ;
  of_int = pos_part;
  add = ◌+◌;
  sub = ◌-◌;
  mul = ◌*◌;
  div = ◌/◌;
  abs = λ x. x;
  lt = ltb;
  eq = ◌==◌;
  same_bits = ◌==◌;
  to_int = pos;
  smallest = 0;
  largest = 1000000;
}

-- A rule on the metric "errors" that asks for three cycles, or of another type, with limit 10.
abbrev rule_of : RuleType → Rule ℕ
rule_of t = record {
  metric_name = "errors";
  rule_type = t;
  level = Level.p0;
  title = "errors";
  threshold = 10;
  consecutive_n = pos 3;
  min_samples = pos 0;
  cooldown_period = pos 60;
}

-- Every cycle has 50 errors.
abbrev reading : Snapshot ℕ
reading = record {
  name = "errors";
  type = MetricType.gauge;
  counter = none;
  gauge = some 50;
  histogram = none;
  rate = none;
  tags = [];
  service_name = "svc";
  timestamp = 0;
}

abbrev snapshots : Dict (Snapshot ℕ)
snapshots name = some reading

abbrev cycles : List (ℕ × Dict (Snapshot ℕ))
cycles =
    (100, snapshots)
    ∷ (110, snapshots)
    ∷ (120, snapshots)
    ∷ (170, snapshots)
    ∷ (180, snapshots)
    ∷ []

abbrev engine_of : RuleType → Engine ℕ
engine_of t = new_engine "svc" (rule_of t ∷ [])

run-AsksForSeveral_example : (run whole cycles (engine_of RuleType.consecutive)).1 ≡ []
unfolding new_engine
run-AsksForSeveral_example =
    run-AsksForSeveral whole cycles (engine_of RuleType.consecutive) ((refl, omega arith), tt)
      (record { counts = λ k. refl })

run-Spaced_example :
    Spaced 60
      (engine_of RuleType.threshold).cooldowns
      (run whole cycles (engine_of RuleType.threshold)).1
unfolding new_engine
run-Spaced_example = run-Spaced whole 60 cycles (engine_of RuleType.threshold) (omega arith, tt)

-- The same cycles under a plain threshold rule: two alarms, 70 apart.
threshold_alarms :
    map (λ a. a.event.timestamp) (run whole cycles (engine_of RuleType.threshold)).1
    ≡ 100 ∷ 170 ∷ []
unfolding run evaluate evaluate_rules evaluate_rule evaluate_snapshot check_rule check_rule_type
    check_threshold settle handle_triggered cooling switched_off make_event save_prev_values store
    new_engine
threshold_alarms = refl
