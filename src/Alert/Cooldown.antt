-- ===== src/Alert/Cooldown.antt =====
-- Cooldowns of pkg/alert/engine.go over whole runs of the engine.
use compkg.Common.{
  ℕ, ◌+◌, ◌≤◌, String, ◌≡◌, refl, sym, ap, ◌∙◌, inl, inr, false, Bool-cases, Option, none, some,
  List, [], ◌∷◌, ◌++◌, Option-cases, All, arith,
}
use mathlib.Core.Path.{subst}
use compkg.Common.Int.{ℤ, pos, negsuc, pos_part, neg_part}
use compkg.Common.Float.{Float64}
use compkg.Common.Dict.{Dict, store}
use compkg.Metrics.Snapshot.{Snapshot}
use compkg.Alert.Rule.{Rule, RuleType, Value}
use compkg.Alert.State.{Engine, Alarm}
use compkg.Alert.Check.{Verdict, check_rule, check_rule_type, check_consecutive}
use compkg.Alert.Engine.{
  cooling, switched_off, make_event, handle_triggered, save_prev_values, settle, evaluate_snapshot,
  evaluate_rule, evaluate_rules, evaluate, run,
}

abbrev pub After : ℕ → Option ℕ → ℕ → Type 0
After c none t = Unit
After c (some last) t = last + c ≤ t

-- Each alarm is at least `c` after the last one of its metric.
abbrev pub Spaced : {F : Type 0} → ℕ → Dict ℕ → List (Alarm F) → Type 0
Spaced c last [] = Unit
Spaced c last (a ∷ alarms) =
    After c (last a.event.metric_name) a.event.timestamp
    × Spaced c (store a.event.metric_name a.event.timestamp last) alarms

abbrev last_after : {F : Type 0} → Dict ℕ → List (Alarm F) → Dict ℕ
last_after last [] = last
last_after last (a ∷ alarms) = last_after (store a.event.metric_name a.event.timestamp last) alarms

Spaced-append :
    {F : Type 0} (c : ℕ) (last : Dict ℕ) (xs ys : List (Alarm F))
    → Spaced c last xs
    → Spaced c (last_after last xs) ys
    → Spaced c last (xs ++ ys)
Spaced-append c last [] ys h k = k
Spaced-append c last (x ∷ xs) ys h k =
    (h.0, Spaced-append c (store x.event.metric_name x.event.timestamp last) xs ys h.1 k)

last_after-append :
    {F : Type 0} (last : Dict ℕ) (xs ys : List (Alarm F))
    → last_after last (xs ++ ys) ≡ last_after (last_after last xs) ys
last_after-append last [] ys = refl
last_after-append last (x ∷ xs) ys =
    last_after-append (store x.event.metric_name x.event.timestamp last) xs ys

-- What every part of an evaluation keeps: the alarms are spaced, and `cooldowns` holds the last one
-- of each metric.
record Keeps {F : Type 0} (c : ℕ) (e : Engine F) (r : Engine F × List (Alarm F)) : Type 0 where
  rules : r.0.rules ≡ e.rules
  provider : r.0.config_provider ≡ e.config_provider
  spaced : Spaced c e.cooldowns r.1
  last : r.0.cooldowns ≡ last_after e.cooldowns r.1

abbrev pub CoolsFor : {F : Type 0} → ℕ → Rule F → Type 0
CoolsFor c rule = c + neg_part rule.cooldown_period ≤ pos_part rule.cooldown_period

cooling-After :
    (c now : ℕ) (last : Option ℕ) (period : ℤ)
    → c + neg_part period ≤ pos_part period
    → cooling last now period ≡ false
    → After c last now
unfolding cooling
cooling-After c now none period h k = tt
cooling-After c now (some t) (pos p) h k = ground arith
cooling-After c now (some t) (negsuc p) h k = absurd (omega arith)

Keeps-handle :
    {F : Type 0} (c : ℕ) (rule : Rule F) (v : Value F × Value F) (now : ℕ) (snap : Snapshot F)
    (e : Engine F)
    → CoolsFor c rule
    → Keeps c e (handle_triggered rule v now snap e)
unfolding handle_triggered make_event
Keeps-handle c rule v now snap e h =
    elim (Bool-cases (cooling (e.cooldowns rule.metric_name) now rule.cooldown_period)) [
      | inl hot ↦ rw hot (record { rules = refl; provider = refl; spaced = tt; last = refl })
      | inr cold ↦ rw cold (elim (Bool-cases (switched_off e rule.metric_name now)) [
        | inl off ↦ rw off (record { rules = refl; provider = refl; spaced = tt; last = refl })
        | inr on ↦ rw on (record {
          rules = refl;
          provider = refl;
          spaced =
              (cooling-After c now (e.cooldowns rule.metric_name) rule.cooldown_period h cold, tt);
          last = refl;
        })
      ])
    ]

-- An engine that differs only in what cooldowns do not read.
record SameCooldowns {F : Type 0} (e e' : Engine F) : Type 0 where
  rules : e'.rules ≡ e.rules
  provider : e'.config_provider ≡ e.config_provider
  cooldowns : e'.cooldowns ≡ e.cooldowns

SameCooldowns-check :
    (F : Float64) (t : RuleType) (rule : Rule F.Float) (snap : Snapshot F.Float)
    (e : Engine F.Float)
    → SameCooldowns e (check_rule_type F t rule snap e).0
unfolding check_rule_type check_consecutive
SameCooldowns-check F RuleType.threshold rule snap e = ground arith
SameCooldowns-check F _ rule snap e = ground arith

SameCooldowns-save :
    {F : Type 0} (name : String) (snap : Snapshot F) (e : Engine F)
    → SameCooldowns e (save_prev_values name snap e)
unfolding save_prev_values
SameCooldowns-save name snap e = ground arith

Keeps-before :
    {F : Type 0} {c : ℕ} {e e' : Engine F} {r : Engine F × List (Alarm F)}
    → SameCooldowns e e'
    → Keeps c e' r
    → Keeps c e r
Keeps-before {c = c} {r = r} s k = record {
  rules = k.rules ∙ s.rules;
  provider = k.provider ∙ s.provider;
  spaced = rw s.cooldowns at k.spaced;
  last = k.last ∙ ap (λ d. last_after d r.1) s.cooldowns;
}

Keeps-after :
    {F : Type 0} {c : ℕ} {e e' e'' : Engine F} {alarms : List (Alarm F)}
    → Keeps c e (e', alarms)
    → SameCooldowns e' e''
    → Keeps c e (e'', alarms)
Keeps-after k s = record {
  rules = s.rules ∙ k.rules;
  provider = s.provider ∙ k.provider;
  spaced = k.spaced;
  last = s.cooldowns ∙ k.last;
}

Keeps-then :
    {F : Type 0} {c : ℕ} {e e' e'' : Engine F} {xs ys : List (Alarm F)}
    → Keeps c e (e', xs)
    → Keeps c e' (e'', ys)
    → Keeps c e (e'', xs ++ ys)
Keeps-then {c = c} {e = e} {xs = xs} {ys = ys} k m = record {
  rules = m.rules ∙ k.rules;
  provider = m.provider ∙ k.provider;
  spaced = Spaced-append c e.cooldowns xs ys k.spaced (rw k.last at m.spaced);
  last = m.last ∙ ap (λ d. last_after d ys) k.last ∙ sym (last_after-append e.cooldowns xs ys);
}

module _ (F : Float64) (c : ℕ) where
  open F use {Float}

  Keeps-settle :
      (rule : Rule Float) (now : ℕ) (snap : Snapshot Float) (e : Engine Float) (v : Verdict F)
      → CoolsFor c rule
      → Keeps c e (settle F rule now snap (e, v))
  unfolding settle
  Keeps-settle rule now snap e none h = ground arith
  Keeps-settle rule now snap e (some v) h = Keeps-handle c rule v now snap e h

  Keeps-evaluate_rule :
      (now : ℕ) (snapshots : Dict (Snapshot Float)) (rule : Rule Float) (e : Engine Float)
      → CoolsFor c rule
      → Keeps c e (evaluate_rule F now snapshots rule e)
  unfolding evaluate_rule evaluate_snapshot check_rule
  Keeps-evaluate_rule now snapshots rule e h = elim (Option-cases (snapshots rule.metric_name)) [
    | inl e0 ↦
        rw (e0, evaluate_rule) (record { rules = refl; provider = refl; spaced = tt; last = refl })
    | inr (snap, e0) ↦
        rw (e0, evaluate_rule)
          (let checked = check_rule_type F rule.rule_type rule snap e in
            let settled = settle F rule now snap checked in
            Keeps-after
              (Keeps-before (SameCooldowns-check F rule.rule_type rule snap e)
                (Keeps-settle rule now snap checked.0 checked.1 h))
              (SameCooldowns-save rule.metric_name snap settled.0))
  ]

  Keeps-evaluate_rules :
      (now : ℕ) (snapshots : Dict (Snapshot Float)) (rules : List (Rule Float)) (e : Engine Float)
      → All (CoolsFor c) rules
      → Keeps c e (evaluate_rules F now snapshots rules e)
  unfolding evaluate_rules
  Keeps-evaluate_rules now snapshots [] e h = record {
    rules = refl;
    provider = refl;
    spaced = tt;
    last = refl;
  }
  Keeps-evaluate_rules now snapshots (rule ∷ rules) e h =
      Keeps-then (Keeps-evaluate_rule now snapshots rule e h.0)
        (Keeps-evaluate_rules now snapshots rules (evaluate_rule F now snapshots rule e).0 h.1)

  Keeps-run :
      (cycles : List (ℕ × Dict (Snapshot Float))) (e : Engine Float)
      → All (CoolsFor c) e.rules
      → Keeps c e (run F cycles e)
  unfolding run evaluate
  Keeps-run [] e h = record { rules = refl; provider = refl; spaced = tt; last = refl }
  Keeps-run ((now, snapshots) ∷ cycles) e h =
      let first = Keeps-evaluate_rules now snapshots e.rules e h in
      Keeps-then first (
        Keeps-run cycles (evaluate_rules F now snapshots e.rules e).0
          (subst (All (CoolsFor c)) (sym first.rules) h))

-- If every rule has a cooldown of at least `c`, then in every run of the engine, whatever the times
-- and the snapshots, each alarm comes at least `c` after the last alarm of its metric, the one that
-- the engine remembered before the run included.
pub run-Spaced :
    (F : Float64) (c : ℕ) (cycles : List (ℕ × Dict (Snapshot F.Float))) (e : Engine F.Float)
    → All (CoolsFor c) e.rules
    → Spaced c e.cooldowns (run F cycles e).1
run-Spaced F c cycles e h = (Keeps-run F c cycles e h).spaced
