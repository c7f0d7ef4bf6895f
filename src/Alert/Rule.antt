-- ===== src/Alert/Rule.antt =====
-- pkg/alert/rule.go and pkg/alert/types.go
use compkg.Common.{ℕ, String, ◌≡◌, refl, Bool, List, str_eq, if◌then◌else◌, arith}
use compkg.Common.Int.{ℤ, pos}

-- `RuleType` is an int with five named values; `unknown` stands for every other int.
pub data RuleType : Type 0 where
  threshold rate surge consecutive immediate : RuleType
  unknown : ℤ → RuleType

unfoldable pub text : RuleType → String
text threshold = "threshold"
text rate = "rate"
text surge = "surge"
text consecutive = "consecutive"
text immediate = "immediate"
text (unknown n) = "unknown"

unfoldable pub parse_rule_type : String → RuleType
parse_rule_type s =
    if str_eq s "threshold"
    then threshold
    else if str_eq s "rate"
    then rate
    else if str_eq s "surge"
    then surge
    else if str_eq s "consecutive"
    then consecutive
    else if str_eq s "immediate"
    then immediate
    else threshold

-- `Level` is an int with three named values.
pub data Level : Type 0 where
  p0 p1 p2 : Level
  other : ℤ → Level

pub record Rule (F : Type 0) : Type 0 where
  pub metric_name : String
  pub rule_type : RuleType
  pub level : Level
  pub title : String
  pub threshold : F
  pub consecutive_n : ℤ
  pub min_samples : ℤ
  pub cooldown_period : ℤ

abbrev pub default_min_samples : ℤ
default_min_samples = pos 5

-- What the engine passes on as `interface{}`: a number, or the text that fmt.Sprintf makes, kept as
-- the arguments that it is made of.
pub data Value (F : Type 0) : Type 0 where
  int_value : ℤ → Value F
  float_value : F → Value F
  rate_text : F → ℤ → ℤ → Value F
  percent_text : F → Value F
  surge_text : F → F → F → Value F
  surge_limit_text : F → Value F
  consecutive_text : Value F → ℕ → Value F

pub record AlertEvent (F : Type 0) : Type 0 where
  pub service_name : String
  pub metric_name : String
  pub level : Level
  pub title : String
  pub value : Value F
  pub threshold : Value F
  pub tags : List (String × String)
  pub timestamp : ℕ

pub record NotifierConfig : Type 0 where
  pub dingtalk_webhook : String
  pub dingtalk_secret : String
  pub enabled : Bool

abbrev pub IsNamed : RuleType → Type 0
IsNamed (unknown n) = ⊥
IsNamed r = Unit

-- What a text parses to is always a named rule type.
pub parse_rule_type-IsNamed : (s : String) → IsNamed (parse_rule_type s)
unfolding parse_rule_type
parse_rule_type-IsNamed s = ground arith

-- The text of a named rule type parses back to that rule type.
parse_rule_type-text : (r : RuleType) → IsNamed r → parse_rule_type (text r) ≡ r
unfolding parse_rule_type text
parse_rule_type-text threshold h = refl
parse_rule_type-text rate h = refl
parse_rule_type-text surge h = refl
parse_rule_type-text consecutive h = refl
parse_rule_type-text immediate h = refl
parse_rule_type-text (unknown n) h = absurd h
