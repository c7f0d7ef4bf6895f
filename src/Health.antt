-- ===== src/Health.antt =====
-- The heartbeats of pkg/health/health.go over a store of sorted sets: Start, Stop and a beat of a reporter,
-- and Stat, StatAll, Aggregate and Instances of a reader. Times are seconds since 1970, durations
-- nanoseconds. The texts of the keys are kept as what they are made of. The store is a parameter, as
-- health.Store and health.MetaStore are interfaces, and is there; the ticker that calls `beat` is not
-- modelled, nor is LastBeat, which is the score again.
pub mod Beats
pub mod Runs
pub mod Counts
use compkg.Common.{
  ℕ, zero, suc, ◌+◌, ◌*◌, ◌/◌, ◌≡◌, String, Bool, true, false, not, ◌&&◌, ◌||◌, Option, none, some,
  List, [], ◌∷◌, length, map, str_eq, ltb, if◌then◌else◌,
}
use compkg.Common.Int.{ℤ, pos, negsuc, pos_part, ltb_ℤ, sub_ℕ, is_nonpos}
use compkg.Common.Dict.{Dict}
use compkg.ReleaseCheck.{InstanceMeta}

pub data Key : Type 0 where
  instances_of metas_of : String → String → Key

abbrev with_prefix : String → String
with_prefix prefix = if str_eq prefix "" then "compkg" else prefix

unfoldable pub key_for : String → String → Key
key_for prefix service = instances_of (with_prefix prefix) service

unfoldable pub meta_key_for : String → String → Key
meta_key_for prefix service = metas_of (with_prefix prefix) service

pub record ScoredMember : Type 0 where
  pub member : String
  pub score : ℕ

-- A call gives the store afterwards and whether it had no error, or none for an error of a read. A bound
-- that is not given is infinite.
pub record Store (W : Type 0) : Type 0 where
  pub z_add : Key → ℕ → String → W → W × Bool
  pub z_rem_range_by_score : Key → ℤ → W → W × Bool
  pub z_rem : Key → String → W → W × Bool
  pub z_count : Key → ℤ → W → Option ℕ
  pub z_card : Key → W → Option ℕ
  -- Whether the store is a MetaStore, with its operations
  pub is_meta_store : Bool
  pub h_set : Key → String → String → W → W × Bool
  pub h_get_all : Key → W → Option (Dict String)
  pub h_del : Key → String → W → W × Bool
  pub z_range_by_score_with_scores : Key → W → Option (List ScoredMember)

-- `number` tells the values of Reporter apart.
pub record Reporter : Type 0 where
  pub number : ℕ
  pub prefix : String
  pub service : String
  pub instance_id : String
  pub interval : ℤ
  pub stale_cleanup : ℤ
  -- The JSON of Meta, none if it is empty; a map of texts can always be written.
  pub payload : Option String

pub record Reader : Type 0 where
  pub prefix : String
  pub alive_window : ℤ

pub record ServiceStat : Type 0 where
  pub service : String
  pub running : ℕ
  pub total : ℕ

abbrev pub second : ℕ
second = 1000000000

abbrev or_default : ℤ → ℕ → ℤ
or_default d default_seconds = if is_nonpos d then pos (default_seconds * second) else d

-- `d / time.Second` of a duration that is positive
abbrev pub seconds : ℤ → ℕ
seconds d = pos_part d / second

unfoldable pub with_defaults : Reporter → Reporter
with_defaults r = record r {
  interval = or_default r.interval 10;
  stale_cleanup = or_default r.stale_cleanup 300;
}

unfoldable pub window_of : Reader → ℤ
window_of rd = or_default rd.alive_window 30

module _ {W : Type 0} (store : Store W) where
  open store use {
    z_add, z_rem_range_by_score, z_rem, z_count, z_card, is_meta_store, h_set, h_get_all, h_del,
    z_range_by_score_with_scores,
  }

  unfoldable pub report_meta : Reporter → W → W
  report_meta r w = elim r.payload [
    | none ↦ w
    | some payload ↦
        if not is_meta_store
        then w
        else (h_set (meta_key_for r.prefix r.service) r.instance_id payload w).0
  ]

  -- With whether the heartbeat and the removal of stale members had no error.
  unfoldable pub beat : ℕ → Reporter → W → W × Bool
  beat now r w =
      let key = key_for r.prefix r.service in
      let (added, ok) = z_add key now r.instance_id w in
      if not ok
      then (added, false)
      else (let stale_before = sub_ℕ now (seconds r.stale_cleanup) in
          let (cleaned, clean_ok) = z_rem_range_by_score key stale_before added in
          (report_meta r cleaned, clean_ok))

  -- None for an error; the reporter's fields are set to their defaults before the first beat.
  unfoldable pub start : ℕ → Reporter → W → Option Reporter × (W × Bool)
  start now r w =
      if str_eq r.service "" || str_eq r.instance_id ""
      then (none, (w, true))
      else (some (with_defaults r), beat now (with_defaults r) w)

  -- stopOnce: `stopped` says that this reporter's Stop was called before.
  unfoldable pub stop : Bool → Reporter → W → W × Bool
  stop true r w = (w, true)
  stop false r w =
      let (removed, ok) = z_rem (key_for r.prefix r.service) r.instance_id w in
      if is_meta_store
      then ((h_del (meta_key_for r.prefix r.service) r.instance_id removed).0, ok)
      else (removed, ok)

  unfoldable pub stat : ℕ → Reader → String → W → Option ServiceStat
  stat now rd service w =
      let key = key_for rd.prefix service in
      let alive_from = sub_ℕ now (seconds (window_of rd)) in
      elim (z_count key alive_from w) [
        | none ↦ none
        | some running ↦ elim (z_card key w) [
          | none ↦ none
          | some total ↦ some record { service = service; running = running; total = total }
        ]
      ]

  -- With whether there was no error; a service with an error counts nothing. Each service is read at a
  -- time of its own.
  unfoldable pub stat_all : Reader → List (String × ℕ) → W → List ServiceStat × Bool
  stat_all rd [] w = ([], true)
  stat_all rd ((service, now) ∷ services) w =
      let (rest, ok) = stat_all rd services w in
      elim (stat now rd service w) [
        | none ↦ (record { service = service; running = 0; total = 0 } ∷ rest, false)
        | some s ↦ (s ∷ rest, ok)
      ]

  -- What the JSON of a field is read as, none if it is not a map of texts.
  module _ (unmarshal : String → Option (Dict String)) where
    abbrev parsed : Option String → Dict String
    parsed none = λ k. none
    parsed (some raw) =
        if str_eq raw ""
        then (λ k. none)
        else elim (unmarshal raw) [ none ↦ λ k. none | some m ↦ m ]

    abbrev or_empty : Option (Dict String) → Dict String
    or_empty none = λ k. none
    or_empty (some m) = m

    unfoldable pub instance_of : ℤ → Dict String → ScoredMember → InstanceMeta
    instance_of alive_from meta_map m = record {
      instance_id = m.member;
      alive = not (ltb_ℤ (pos m.score) alive_from);
      meta = parsed (meta_map m.member);
    }

    unfoldable pub instances : ℕ → Reader → String → W → Option (List InstanceMeta)
    instances now rd service w =
        if not is_meta_store
        then none
        else (let alive_from = sub_ℕ now (seconds (window_of rd)) in
            elim (z_range_by_score_with_scores (key_for rd.prefix service) w) [
              | none ↦ none
              | some members ↦ some (
                  map
                    (instance_of alive_from
                      (or_empty (h_get_all (meta_key_for rd.prefix service) w)))
                    members)
            ])

unfoldable pub aggregate : List ServiceStat → ℕ × ℕ
aggregate [] = (0, 0)
aggregate (s ∷ stats) = let rest = aggregate stats in (s.running + rest.0, s.total + rest.1)
