-- ===== src/Alert/Consecutive.antt =====
-- The rules of type `RuleTypeConsecutive` of pkg/alert/engine.go over whole runs, and the first cycle
-- of a surge rule.
use compkg.Common.{
  ℕ, ◌+◌, String, ◌≡◌, refl, sym, ap, ◌∙◌, inl, inr, true, false, none, some, List, [], ◌∷◌,
  Option-cases, All, arith,
}
use mathlib.Core.Path.{subst}
use compkg.Common.Int.{pos, ◌<ℤ◌}
use compkg.Common.Float.{Float64}
use compkg.Common.Dict.{Dict, store, store_at}
use compkg.Metrics.Snapshot.{Snapshot, MetricType}
use compkg.Alert.Rule.{Rule, RuleType, surge_text, surge_limit_text}
use compkg.Alert.State.{Engine, Alarm}
use compkg.Alert.Check.{
  count_of, set_consecutive, condition, check_rule, check_rule_type, check_consecutive, check_surge,
  change_percent,
}
use compkg.Alert.Engine.{
  not_triggered, save_prev_values, settle, evaluate_snapshot, evaluate_rule, evaluate_rules,
  evaluate, run,
}

-- A rule that asks for at least two cycles in a row.
abbrev pub AsksForSeveral : {F : Type 0} → Rule F → Type 0
AsksForSeveral rule = (rule.rule_type ≡ RuleType.consecutive) × (pos 1 <ℤ rule.consecutive_n)

-- No metric has a count, as in a new engine.
pub record IsQuiet {F : Type 0} (e : Engine F) : Type 0 where
  pub counts : (k : String) → count_of (e.consecutive k) ≡ 0

-- A quiet engine with the same rules, and no alarm.
record StaysQuiet {F : Type 0} (e : Engine F) (r : Engine F × List (Alarm F)) : Type 0 where
  rules : r.0.rules ≡ e.rules
  quiet : IsQuiet r.0
  silent : r.1 ≡ []

module _ (F : Float64) where
  open F use {Float}

  -- The count that `check_consecutive` stores is set back by the engine at once.
  IsQuiet-again :
      (k : String) (n : ℕ) (e : Engine Float)
      → IsQuiet e
      → IsQuiet (set_consecutive k 0 (set_consecutive k n e))
  IsQuiet-again k n e q = record {
    counts = λ j.
        ground (
          arith,
          store_at k j 0 (store k n e.consecutive),
          store_at k j n e.consecutive,
          q.counts j,
        );
  }

  -- From a count of 0 one cycle is not enough, whether or not the condition holds in it.
  check_consecutive_low :
      (rule : Rule Float) (snap : Snapshot Float) (e : Engine Float)
      → count_of (e.consecutive rule.metric_name) ≡ 0
      → pos 1 <ℤ rule.consecutive_n
      → (n : ℕ) × (check_consecutive F rule snap e ≡ (set_consecutive rule.metric_name n e, none))
  unfolding check_consecutive
  check_consecutive_low rule snap e z h = elim (Option-cases (condition F rule snap)) [
    | inl never ↦ (0, rw (never, check_consecutive))
    | inr (v, met) ↦
        (count_of (e.consecutive rule.metric_name) + 1, rw (met, check_consecutive) (ground arith))
  ]

  StaysQuiet-consecutive :
      (rule : Rule Float) (now : ℕ) (snap : Snapshot Float) (e : Engine Float)
      → rule.rule_type ≡ RuleType.consecutive
      → pos 1 <ℤ rule.consecutive_n
      → IsQuiet e
      → StaysQuiet e (settle F rule now snap (check_rule F rule snap e))
  unfolding settle check_rule check_rule_type
  StaysQuiet-consecutive rule now snap e t h q =
      let (n, low) = check_consecutive_low rule snap e (q.counts rule.metric_name) h in
      let e' : Engine Float = set_consecutive rule.metric_name n e in
      let checked : check_rule F rule snap e ≡ (e', none) =
        ap (λ r. check_rule_type F r rule snap e) t ∙ low in
      let back : not_triggered F rule.rule_type rule.metric_name e'
          ≡ set_consecutive rule.metric_name 0 e' =
        ap (λ r. not_triggered F r rule.metric_name e') t in
      rw checked (record {
        rules = ap (λ (s : Engine Float). s.rules) back;
        quiet = subst IsQuiet (sym back) (IsQuiet-again rule.metric_name n e q);
        silent = refl;
      })

  consecutive-save :
      (name : String) (snap : Snapshot Float) (e : Engine Float)
      → ((save_prev_values name snap e).rules ≡ e.rules)
        × ((save_prev_values name snap e).consecutive ≡ e.consecutive)
  unfolding save_prev_values
  consecutive-save name snap e = ground arith

  StaysQuiet-rule :
      (now : ℕ) (snapshots : Dict (Snapshot Float)) (rule : Rule Float) (e : Engine Float)
      → AsksForSeveral rule
      → IsQuiet e
      → StaysQuiet e (evaluate_rule F now snapshots rule e)
  unfolding evaluate_rule evaluate_snapshot
  StaysQuiet-rule now snapshots rule e (t, h) q = elim (Option-cases (snapshots rule.metric_name)) [
    | inl e0 ↦ rw (e0, evaluate_rule) (record { rules = refl; quiet = q; silent = refl })
    | inr (snap, e0) ↦
        rw (e0, evaluate_rule)
          (let settled = settle F rule now snap (check_rule F rule snap e) in
            let s = StaysQuiet-consecutive rule now snap e t h q in
            let (same, counts) = consecutive-save rule.metric_name snap settled.0 in
            record {
              rules = same ∙ s.rules;
              quiet = record {
                counts =
                    subst (λ (d : Dict ℕ). (k : String) → count_of (d k) ≡ 0) (sym counts)
                      s.quiet.counts;
              };
              silent = s.silent;
            })
  ]

  StaysQuiet-rules :
      (now : ℕ) (snapshots : Dict (Snapshot Float)) (rules : List (Rule Float)) (e : Engine Float)
      → All AsksForSeveral rules
      → IsQuiet e
      → StaysQuiet e (evaluate_rules F now snapshots rules e)
  unfolding evaluate_rules
  StaysQuiet-rules now snapshots [] e h q = record { rules = refl; quiet = q; silent = refl }
  StaysQuiet-rules now snapshots (rule ∷ rules) e h q =
      let first = StaysQuiet-rule now snapshots rule e h.0 q in
      let rest =
        StaysQuiet-rules now snapshots rules (evaluate_rule F now snapshots rule e).0 h.1
          first.quiet in
      record {
        rules = rest.rules ∙ first.rules;
        quiet = rest.quiet;
        silent = rw (first.silent, rest.silent);
      }

  StaysQuiet-run :
      (cycles : List (ℕ × Dict (Snapshot Float))) (e : Engine Float)
      → All AsksForSeveral e.rules
      → IsQuiet e
      → StaysQuiet e (run F cycles e)
  unfolding run evaluate
  StaysQuiet-run [] e h q = record { rules = refl; quiet = q; silent = refl }
  StaysQuiet-run ((now, snapshots) ∷ cycles) e h q =
      let first = StaysQuiet-rules now snapshots e.rules e h q in
      let rest =
        StaysQuiet-run cycles (evaluate_rules F now snapshots e.rules e).0
          (subst (All AsksForSeveral) (sym first.rules) h) first.quiet in
      record {
        rules = rest.rules ∙ first.rules;
        quiet = rest.quiet;
        silent = rw (first.silent, rest.silent);
      }

-- An engine whose rules all ask for two or more cycles in a row, and which has no counts, raises no
-- alarm in any run, also if the conditions of the rules hold in every cycle.
pub run-AsksForSeveral :
    (F : Float64) (cycles : List (ℕ × Dict (Snapshot F.Float))) (e : Engine F.Float)
    → All AsksForSeveral e.rules
    → IsQuiet e
    → (run F cycles e).1 ≡ []
run-AsksForSeveral F cycles e h q = (StaysQuiet-run F cycles e h q).silent

-- On a gauge that the engine has seen no value of, a surge rule with a limit below 100 percent
-- triggers in the first cycle, whatever value other than 0 the gauge has.
check_surge_first :
    (F : Float64) (rule : Rule F.Float) (snap : Snapshot F.Float) (e : Engine F.Float) (x : F.Float)
    → rule.rule_type ≡ RuleType.surge
    → snap.type ≡ MetricType.gauge
    → snap.gauge ≡ some x
    → e.prev_gauges snap.name ≡ none
    → e.prev_counters snap.name ≡ none
    → F.eq (F.of_int (pos 0)) (F.of_int (pos 0)) ≡ true
    → F.eq x (F.of_int (pos 0)) ≡ false
    → F.lt rule.threshold (F.of_int (pos 100)) ≡ true
    → check_rule F rule snap e ≡ (
      e,
      some (surge_text (F.of_int (pos 100)) (F.of_int (pos 0)) x, surge_limit_text rule.threshold),
    )
unfolding check_rule check_rule_type check_surge change_percent
check_surge_first F rule snap e x t g h p c z n l = ground arith
