-- ===== src/Alert/Engine.antt =====
-- The engine of pkg/alert/engine.go. The calls of one `Evaluate` run in order, with the rules that
-- the engine held when it began. Time is in nanoseconds.
use compkg.Common.{
  ℕ, String, Bool, true, false, not, Option, none, some, List, [], ◌∷◌, ◌++◌, map, if◌then◌else◌,
}
use compkg.Common.Int.{ℤ, ltb_ℤ, sub_ℕ}
use compkg.Common.Float.{Float64}
use compkg.Common.Dict.{Dict, store}
use compkg.Metrics.Snapshot.{Snapshot, MetricType}
use compkg.Alert.Rule.{Rule, RuleType, AlertEvent, Value, NotifierConfig}
use compkg.Alert.State.{Engine, Alarm, Delivery, send, save}
use compkg.Alert.Check.{Verdict, check_rule, set_consecutive}

-- The setters of the engine.
unfoldable pub add_notifier : {F : Type 0} → ℕ → Engine F → Engine F
add_notifier n e = record e { notifiers = e.notifiers ++ n ∷ [] }

unfoldable pub set_store : {F : Type 0} → Engine F → Engine F
set_store e = record e { has_store = true }

unfoldable pub update_rules : {F : Type 0} → List (Rule F) → Engine F → Engine F
update_rules rules e = record e { rules = rules }

-- Every notifier in turn, then the store.
deliver : {F : Type 0} → Engine F → AlertEvent F → List (Delivery F)
deliver e event =
    map (λ n. send n event) e.notifiers ++ (if e.has_store then save event ∷ [] else [])

-- The cooldown test: an alert of the metric less than the period ago.
unfoldable pub cooling : Option ℕ → ℕ → ℤ → Bool
cooling none now period = false
cooling (some last) now period = ltb_ℤ (sub_ℕ now last) period

-- `err == nil && cfg != nil && !cfg.Enabled`
disabled_by : Option NotifierConfig → Bool
disabled_by none = false
disabled_by (some cfg) = not cfg.enabled

unfoldable pub switched_off : {F : Type 0} → Engine F → String → ℕ → Bool
unfolding disabled_by
switched_off e metric now = elim e.config_provider [
  | none ↦ false
  | some ask ↦ disabled_by (ask metric now)
]

unfoldable pub make_event :
    {F : Type 0} → Engine F → Rule F → Value F × Value F → ℕ → Snapshot F → AlertEvent F
make_event e rule (value, threshold) now snap = record {
  service_name = e.service_name;
  metric_name = rule.metric_name;
  level = rule.level;
  title = rule.title;
  value = value;
  threshold = threshold;
  tags = snap.tags;
  timestamp = now;
}

unfoldable pub handle_triggered :
    {F : Type 0}
    → Rule F
    → Value F × Value F
    → ℕ
    → Snapshot F
    → Engine F
    → Engine F × List (Alarm F)
unfolding deliver
handle_triggered rule v now snap e =
    if cooling (e.cooldowns rule.metric_name) now rule.cooldown_period
    then (e, [])
    else if switched_off e rule.metric_name now
    then (e, [])
    else (
      record e { cooldowns = store rule.metric_name now e.cooldowns },
      record {
        event = make_event e rule v now snap;
        deliveries = deliver e (make_event e rule v now snap);
      }
          ∷ [],
    )

save_prev_at : {F : Type 0} → MetricType → String → Snapshot F → Engine F → Engine F
save_prev_at MetricType.gauge name snap e = elim snap.gauge [
  | none ↦ e
  | some x ↦ record e { prev_gauges = store name x e.prev_gauges }
]
save_prev_at MetricType.counter name snap e = elim snap.counter [
  | none ↦ e
  | some n ↦ record e { prev_counters = store name n e.prev_counters }
]
save_prev_at _ name snap e = e

unfoldable pub save_prev_values : {F : Type 0} → String → Snapshot F → Engine F → Engine F
unfolding save_prev_at
save_prev_values name snap e = save_prev_at snap.type name snap e

module _ (F : Float64) where
  open F use {Float}

  -- What a rule that did not trigger does to the consecutive counts.
  unfoldable pub not_triggered : RuleType → String → Engine Float → Engine Float
  not_triggered RuleType.consecutive metric e = set_consecutive metric 0 e
  not_triggered _ metric e = e

  unfoldable pub settle :
      Rule Float → ℕ → Snapshot Float → Engine Float × Verdict F → Engine Float × List (Alarm Float)
  unfolding not_triggered
  settle rule now snap (e, none) = (not_triggered rule.rule_type rule.metric_name e, [])
  settle rule now snap (e, some v) = handle_triggered rule v now snap e

  -- The body of the loop of `Evaluate` for a rule whose metric has a snapshot.
  unfoldable pub evaluate_snapshot :
      Rule Float → ℕ → Snapshot Float → Engine Float → Engine Float × List (Alarm Float)
  evaluate_snapshot rule now snap e =
      let (e', alarms) = settle rule now snap (check_rule F rule snap e) in
      (save_prev_values rule.metric_name snap e', alarms)

  unfoldable pub evaluate_rule :
      ℕ → Dict (Snapshot Float) → Rule Float → Engine Float → Engine Float × List (Alarm Float)
  evaluate_rule now snapshots rule e = elim (snapshots rule.metric_name) [
    | none ↦ (e, [])
    | some snap ↦ evaluate_snapshot rule now snap e
  ]

  unfoldable pub evaluate_rules :
      ℕ
      → Dict (Snapshot Float)
      → List (Rule Float)
      → Engine Float
      → Engine Float × List (Alarm Float)
  evaluate_rules now snapshots [] e = (e, [])
  evaluate_rules now snapshots (rule ∷ rules) e =
      let (e', alarms) = evaluate_rule now snapshots rule e in
      let (e'', later) = evaluate_rules now snapshots rules e' in (e'', alarms ++ later)

  unfoldable pub evaluate :
      ℕ → Dict (Snapshot Float) → Engine Float → Engine Float × List (Alarm Float)
  evaluate now snapshots e = evaluate_rules now snapshots e.rules e

  -- The evaluations of a run, each with its time and the snapshots of its cycle.
  unfoldable pub run :
      List (ℕ × Dict (Snapshot Float)) → Engine Float → Engine Float × List (Alarm Float)
  run [] e = (e, [])
  run ((now, snapshots) ∷ cycles) e =
      let (e', alarms) = evaluate now snapshots e in
      let (e'', later) = run cycles e' in (e'', alarms ++ later)
