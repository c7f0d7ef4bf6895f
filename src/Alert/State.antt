-- ===== src/Alert/State.antt =====
-- The state of pkg/alert/engine.go: the record of its fields; a `sync.Map` is a `Dict`.
-- `Send` and `Save` report an error only to the log, so they are recorded as deliveries.
use compkg.Common.{ℕ, String, Bool, false, Option, none, List, []}
use compkg.Common.Int.{ℤ}
use compkg.Common.Dict.{Dict, empty}
use compkg.Alert.Rule.{Rule, AlertEvent, NotifierConfig}

-- A notifier and the store are known by what they are sent, so a notifier is its index here.
pub data Delivery (F : Type 0) : Type 0 where
  send : ℕ → AlertEvent F → Delivery F
  save : AlertEvent F → Delivery F

-- An alert that was raised, with what was done about it.
pub record Alarm (F : Type 0) : Type 0 where
  pub event : AlertEvent F
  pub deliveries : List (Delivery F)

-- `config_provider` answers with a configuration, or with none on an error or a nil one.
pub record Engine (F : Type 0) : Type 0 where
  pub rules : List (Rule F)
  pub notifiers : List ℕ
  pub cooldowns : Dict ℕ
  pub prev_gauges : Dict F
  pub prev_counters : Dict ℤ
  pub consecutive : Dict ℕ
  pub has_store : Bool
  pub config_provider : Option (String → ℕ → Option NotifierConfig)
  pub service_name : String

unfoldable pub new_engine : {F : Type 0} → String → List (Rule F) → Engine F
new_engine service rules = record {
  rules = rules;
  notifiers = [];
  cooldowns = empty;
  prev_gauges = empty;
  prev_counters = empty;
  consecutive = empty;
  has_store = false;
  config_provider = none;
  service_name = service;
}
