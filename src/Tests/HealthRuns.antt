-- ===== src/Tests/HealthRuns.antt =====
-- A sorted set as a list, and runs of the reporters and readers of pkg/health on it.
use compkg.Common.{
  ℕ, ◌≡◌, refl, sym, ap, ◌∙◌, String, Bool, true, false, Bool-cases, inl, inr, Option, none, some,
  List, [], ◌∷◌, All, length, str_eq, eq_iff, if◌then◌else◌, arith,
}
use compkg.Common.Dict.{Dict, str_eq_refl}
use compkg.Common.Int.{ℤ, pos, ltb_ℤ}
use compkg.Health.{
  Key, key_for, ScoredMember, Store, Reporter, Reader, ServiceStat, with_defaults, window_of, stop,
  seconds, report_meta, beat, start, stat, instance_of, instances,
}
use compkg.Health.Beats.{IsSortedSet, above}
use compkg.Health.Runs.{Event, starts, beats, stops, last_beat, Fits, step, run}
use compkg.Health.Counts.{
  IsListing, score_in, count_from, sees_alive, is_within, instances-run, stat-instances,
}
use compkg.ReleaseCheck.{InstanceMeta, ServiceTarget, count_alive, check_service}

abbrev Members : Type 0
Members = List ScoredMember

abbrev without : String → Members → Members
without j [] = []
without j (m ∷ members) =
    let rest = without j members in if str_eq j m.member then rest else m ∷ rest

abbrev is_above : ℤ → Option ℕ → Bool
is_above bound none = false
is_above bound (some t) = ltb_ℤ bound (pos t)

-- Those whose score in all the members is above the bound.
abbrev cleaned : ℤ → Members → Members → Members
cleaned bound all [] = []
cleaned bound all (m ∷ members) =
    let rest = cleaned bound all members in
    if is_above bound (score_in m.member all) then m ∷ rest else rest

abbrev list_store : Store Members
list_store = record {
  z_add = λ key t m w. (record { member = m; score = t } ∷ without m w, true);
  z_rem_range_by_score = λ key bound w. (cleaned bound w w, true);
  z_rem = λ key m w. (without m w, true);
  z_count = λ key from w. some (count_from from w);
  z_card = λ key w. some (length w);
  is_meta_store = true;
  h_set = λ key f v w. (w, true);
  h_get_all = λ key w. some (λ f. none);
  h_del = λ key f w. (w, true);
  z_range_by_score_with_scores = λ key w. some w;
}

abbrev score_of : Members → Key → String → Option ℕ
score_of w key j = score_in j w

str_eq-true : (s t : String) → str_eq s t ≡ true → s ≡ t
str_eq-true s t h = (eq_iff s t).0 h

without-score :
    (m j : String) (w : Members)
    → score_in j (without m w) ≡ (if str_eq m j then none else score_in j w)
without-score m j [] = ground arith
without-score m j (x ∷ w) =
    let rest = without-score m j w in
    elim (Bool-cases (str_eq m x.member)) [
      | inl e ↦
          let same = str_eq-true m x.member e in
          elim (Bool-cases (str_eq x.member j)) [
            | inl d ↦ rw (e, rest) (rw (same, d) refl)
            | inr d ↦ rw (e, rest, d) refl
          ]
      | inr e ↦ elim (Bool-cases (str_eq x.member j)) [
        | inl d ↦ let same = str_eq-true x.member j d in rw (e, d) (rw (sym same, e) refl)
        | inr d ↦ rw (e, d) rest
      ]
    ]

cleaned-score :
    (bound : ℤ) (all members : Members) (j : String)
    → score_in j (cleaned bound all members)
      ≡ (if is_above bound (score_in j all) then score_in j members else none)
cleaned-score bound all [] j = ground arith
cleaned-score bound all (x ∷ w) j =
    let rest = cleaned-score bound all w j in
    elim (Bool-cases (str_eq x.member j)) [
      | inl d ↦
          let same = str_eq-true x.member j d in
          elim (Bool-cases (is_above bound (score_in j all))) [
            | inl e ↦ rw (same, e) (rw (str_eq_refl j) refl)
            | inr e ↦ rw (same, e) (rw (rest, e) refl)
          ]
      | inr d ↦ elim (Bool-cases (is_above bound (score_in x.member all))) [
        | inl e ↦ rw (e, d) rest
        | inr e ↦ rw (e, d) rest
      ]
    ]

put-score :
    (m j : String) (t : ℕ) (w : Members)
    → (if str_eq m j then some t else score_in j (without m w))
      ≡ (if str_eq m j then some t else score_in j w)
put-score m j t w = elim (Bool-cases (str_eq m j)) [
  | inl e ↦ rw e refl
  | inr e ↦ rw e (without-score m j w ∙ (rw e refl))
]

kept-above : (bound : ℤ) (x : Option ℕ) → (if is_above bound x then x else none) ≡ above bound x
kept-above bound none = refl
kept-above bound (some t) = refl

list_store-IsSortedSet : IsSortedSet list_store score_of
list_store-IsSortedSet = record {
  z_add_lem = λ key t m j w h. put-score m j t w;
  z_rem_range_by_score_lem =
      λ key bound j w h. cleaned-score bound w w j ∙ kept-above bound (score_in j w);
  z_rem_lem = λ key m j w h. without-score m j w;
  h_set_lem = λ key hash f v j w. refl;
  h_del_lem = λ key hash f j w. refl;
}

list_store-IsListing : IsListing list_store score_of
list_store-IsListing = record {
  range_lem = λ key w members h j. sym (ap (score_in_or j) h);
  z_count_lem = λ key from w members n h c. sym (some_count c) ∙ ap (count_or from) h;
  z_card_lem = λ key w members n h c. sym (some_count c) ∙ ap length_or h;
}
  where
    score_in_or : String → Option Members → Option ℕ
    score_in_or j none = none
    score_in_or j (some w) = score_in j w

    count_or : ℤ → Option Members → ℕ
    count_or from none = 0
    count_or from (some w) = count_from from w

    length_or : Option Members → ℕ
    length_or none = 0
    length_or (some w) = length w

    some_count : {a b : ℕ} → some a ≡ some b → a ≡ b
    some_count h = cc h

abbrev reporter : String → Reporter
reporter name = record {
  number = if str_eq name "a" then 1 else 2;
  prefix = "";
  service = "s";
  instance_id = name;
  interval = pos 0;
  stale_cleanup = pos 60000000000;
  payload = none;
}

abbrev reader : Reader
reader = record { prefix = ""; alive_window = pos 0 }

-- The instance "a" beats once and "b" goes on.
abbrev two_reporters : List Event
two_reporters = starts 100 (reporter "a") ∷ beats 110 (reporter "b") ∷ beats 135 (reporter "b") ∷ []

two_reporters-Fits :
    All (Fits (key_for reader.prefix "s") (seconds (window_of reader))) two_reporters
unfolding with_defaults window_of
two_reporters-Fits = ((refl, omega arith), ((refl, omega arith), ((refl, omega arith), tt)))

two_reporters_ok : (run list_store [] two_reporters []).1 ≡ true
unfolding run step start beat report_meta
two_reporters_ok = refl

abbrev no_json : String → Option (Dict String)
no_json s = none

abbrev info : String → Bool → InstanceMeta
info name alive = record { instance_id = name; alive = alive; meta = λ k. none }

abbrev infos_after : List InstanceMeta
infos_after = info "b" true ∷ info "a" false ∷ []

infos_read :
    instances list_store no_json 140 reader "s" (run list_store [] two_reporters []).0
    ≡ some infos_after
unfolding run step start beat report_meta with_defaults instances instance_of window_of
infos_read = refl

-- The second Stop of the reporter does nothing: its instance is still listed.
abbrev restarted : List Event
restarted =
    starts 100 (reporter "a")
    ∷ stops 110 (reporter "a")
    ∷ starts 120 (reporter "a")
    ∷ stops 130 (reporter "a")
    ∷ []

restarted-Fits : All (Fits (key_for reader.prefix "s") (seconds (window_of reader))) restarted
unfolding with_defaults window_of
restarted-Fits =
    ((refl, omega arith), ((refl, omega arith), ((refl, omega arith), ((refl, omega arith), tt))))

restarted_ok : (run list_store [] restarted []).1 ≡ true
unfolding run step start stop beat report_meta
restarted_ok = refl

infos_restarted :
    instances list_store no_json 140 reader "s" (run list_store [] restarted []).0
    ≡ some (info "a" true ∷ [])
unfolding run step start stop beat report_meta with_defaults instances instance_of window_of
infos_restarted = refl

instances-run_example :
    sees_alive "a" (info "a" true ∷ [])
    ≡ is_within 140 (seconds (window_of reader)) (last_beat [] restarted "a" (score_in "a" []))
instances-run_example =
    instances-run list_store no_json score_of list_store-IsSortedSet list_store-IsListing reader "s"
      "a" [] 0 140 restarted [] (info "a" true ∷ [])
      (omega arith, (omega arith, (omega arith, (omega arith, omega arith)))) restarted-Fits
      restarted_ok infos_restarted

abbrev stat_after : ServiceStat
stat_after = record { service = "s"; running = 1; total = 2 }

stat_read : stat list_store 140 reader "s" (run list_store [] two_reporters []).0 ≡ some stat_after
unfolding run step start beat report_meta with_defaults stat window_of
stat_read = refl

abbrev no_int : String → Option ℤ
no_int s = none

abbrev one_target : ServiceTarget
one_target = record {
  name = "s";
  display = "s";
  high_risk = false;
  expect_commit = "";
  min_instances = pos 1;
}

stat-instances_example :
    (stat_after.running ≡ count_alive no_int infos_after)
    × (stat_after.total ≡ length infos_after)
    × ((check_service no_int (some infos_after) one_target "" none).alive_count
        ≡ stat_after.running)
stat-instances_example =
    stat-instances list_store no_json score_of list_store-IsListing 140 reader "s"
      (run list_store [] two_reporters []).0 stat_after infos_after no_int one_target "" none
      stat_read infos_read

-- A reporter whose StaleCleanup is half a second removes itself.
abbrev hasty : Reporter
hasty = record (reporter "h") { stale_cleanup = pos 500000000 }

hasty_run : (beat list_store 100 hasty []).0 ≡ []
unfolding beat report_meta
hasty_run = refl

hasty_ok : (beat list_store 100 hasty []).1 ≡ true
unfolding beat report_meta
hasty_ok = refl
