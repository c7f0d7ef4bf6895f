-- ===== src/Health/Counts.antt =====
-- What a reader of pkg/health/health.go reports: the instances it takes for alive after a run, and its
-- numbers, which are those of its list and of the verdict of cmd/release_check.
use compkg.Common.{
  ℕ, suc, ◌+◌, ◌≡◌, refl, sym, ap, ◌∙◌, String, Bool, true, false, Bool-cases, not, inl, inr,
  Option, none, some, Option-cases, List, [], ◌∷◌, All, map, length, str_eq, ltb, if◌then◌else◌,
  arith,
}
use mathlib.Core.Bool.{false≢true}
use compkg.Common.Dict.{Dict}
use compkg.Common.Int.{ℤ, pos, ltb_ℤ, sub_ℕ}
use compkg.Health.{
  Key, key_for, meta_key_for, Store, ScoredMember, Reader, ServiceStat, seconds, window_of, stat,
  instance_of, instances, or_empty,
}
use compkg.Health.Beats.{IsSortedSet, fresh}
use compkg.Health.Runs.{Event, last_beat, InOrder, Fits, run, run-Agrees}
use compkg.ReleaseCheck.{InstanceMeta, ServiceTarget, Time, count_alive, check_service}

abbrev pub score_in : String → List ScoredMember → Option ℕ
score_in j [] = none
score_in j (m ∷ members) =
    let rest = score_in j members in if str_eq m.member j then some m.score else rest

abbrev pub count_from : ℤ → List ScoredMember → ℕ
count_from from [] = 0
count_from from (m ∷ members) =
    let rest = count_from from members in if ltb_ℤ (pos m.score) from then rest else suc rest

-- What Redis documents of the reads of one sorted set, on the members that the range lists.
pub record IsListing {W : Type 0} (store : Store W) (score : W → Key → String → Option ℕ)
    : Type 0 where
  pub range_lem :
      (key : Key) (w : W) (members : List ScoredMember)
      → store.z_range_by_score_with_scores key w ≡ some members
      → (j : String) → score_in j members ≡ score w key j
  pub z_count_lem :
      (key : Key) (from : ℤ) (w : W) (members : List ScoredMember) (n : ℕ)
      → store.z_range_by_score_with_scores key w ≡ some members
      → store.z_count key from w ≡ some n
      → n ≡ count_from from members
  pub z_card_lem :
      (key : Key) (w : W) (members : List ScoredMember) (n : ℕ)
      → store.z_range_by_score_with_scores key w ≡ some members
      → store.z_card key w ≡ some n
      → n ≡ length members

abbrev pub sees_alive : String → List InstanceMeta → Bool
sees_alive j [] = false
sees_alive j (i ∷ infos) =
    let rest = sees_alive j infos in if str_eq i.instance_id j then i.alive else rest

abbrev pub is_within : ℕ → ℕ → Option ℕ → Bool
is_within now window none = false
is_within now window (some t) = not (ltb (t + window) now)

abbrev alive_at : ℤ → Option ℕ → Bool
alive_at from none = false
alive_at from (some t) = not (ltb_ℤ (pos t) from)

alive_at-is_within :
    (now window : ℕ) (x : Option ℕ) → alive_at (sub_ℕ now window) x ≡ is_within now window x
alive_at-is_within now window none = refl
alive_at-is_within now window (some t) = ground arith

abbrev is_some : Option ℕ → Bool
is_some none = false
is_some (some t) = true

is_within-fresh :
    (now window : ℕ) (x : Option ℕ) → is_within now window x ≡ is_some (fresh now (suc window) x)
is_within-fresh now window none = refl
is_within-fresh now window (some t) = ground arith

listed : {a b : List InstanceMeta} → some a ≡ some b → b ≡ a
listed h = cc h

none-some : {a : List InstanceMeta} → none ≡ some a → ⊥
none-some {a} h = false≢true (ap found h)
  where
    found : Option (List InstanceMeta) → Bool
    found none = false
    found (some b) = true

module _ {W : Type 0} (store : Store W) (unmarshal : String → Option (Dict String)) where
  sees_alive-map :
      (from : ℤ) (metas : Dict String) (j : String) (members : List ScoredMember)
      → sees_alive j (map (instance_of store unmarshal from metas) members)
        ≡ alive_at from (score_in j members)
  unfolding instance_of
  sees_alive-map from metas j [] = refl
  sees_alive-map from metas j (m ∷ members) = elim (Bool-cases (str_eq m.member j)) [
    | inl e ↦ rw e refl
    | inr e ↦ rw e (sees_alive-map from metas j members)
  ]

  count_alive-map :
      (parse_int : String → Option ℤ) (from : ℤ) (metas : Dict String) (members : List ScoredMember)
      → (count_alive parse_int (map (instance_of store unmarshal from metas) members)
          ≡ count_from from members)
        × (length (map (instance_of store unmarshal from metas) members) ≡ length members)
  unfolding instance_of
  count_alive-map parse_int from metas [] = (refl, refl)
  count_alive-map parse_int from metas (m ∷ members) =
      let (alive, all) = count_alive-map parse_int from metas members in
      (
        elim (Bool-cases (ltb_ℤ (pos m.score) from)) [
          | inl e ↦ rw e alive
          | inr e ↦ rw e (ap suc alive)
        ],
        ap suc all,
      )

  -- What Instances lists, of a store with members that can be read.
  instances-members :
      (now : ℕ) (rd : Reader) (service : String) (w : W) (infos : List InstanceMeta)
      → instances store unmarshal now rd service w ≡ some infos
      → (members : List ScoredMember) × (metas : Dict String) × (store.z_range_by_score_with_scores
            (key_for rd.prefix service)
            w
          ≡ some members)
        × (infos
            ≡ map (instance_of store unmarshal (sub_ℕ now (seconds (window_of rd))) metas) members)
  unfolding instances
  instances-members now rd service w infos h = elim (Bool-cases store.is_meta_store) [
    | inr e ↦ absurd (none-some (rw (instances, e) at h))
    | inl e ↦
        elim (Option-cases (store.z_range_by_score_with_scores (key_for rd.prefix service) w)) [
          | inl r ↦ absurd (none-some (rw (instances, e, r) at h))
          | inr (members, r) ↦ (
            members,
            or_empty store unmarshal (store.h_get_all (meta_key_for rd.prefix service) w),
            r,
            listed (rw (instances, e, r) at h),
          )
        ]
  ]

  -- After a run of the reporters of one service, in the order of time and without an error of the sorted
  -- set, where every StaleCleanup is longer than the window of the reader: an instance is listed as
  -- alive exactly if its last heartbeat, since a reporter of it was stopped for the first time, or its
  -- score from before the run, is at most the window ago, in whole seconds. Only the first Stop of a
  -- reporter counts, also if it was started again.
  pub instances-run :
      (score : W → Key → String → Option ℕ)
      → IsSortedSet store score
      → IsListing store score
      → (rd : Reader) (service j : String) (stopped : List ℕ) (from now : ℕ) (events : List Event)
        (w : W) (infos : List InstanceMeta)
      → InOrder from events now
      → All (Fits (key_for rd.prefix service) (seconds (window_of rd))) events
      → (run store stopped events w).1 ≡ true
      → instances store unmarshal now rd service (run store stopped events w).0 ≡ some infos
      → sees_alive j infos
        ≡ is_within now
            (seconds (window_of rd))
            (last_beat stopped events j (score w (key_for rd.prefix service) j))
  instances-run score laws listing rd service j stopped from now events w infos order fits ok read =
      let key = key_for rd.prefix service in
      let window = seconds (window_of rd) in
      let after = (run store stopped events w).0 in
      let (members, metas, range, same) = instances-members now rd service after infos read in
      let known =
        run-Agrees store score laws key window j stopped from events now w (score w key j)
          (λ t h. refl) order fits ok in
      rw same (
        sees_alive-map (sub_ℕ now window) metas j members
        ∙ ap (alive_at (sub_ℕ now window)) (listing.range_lem key after members range j)
        ∙ alive_at-is_within now window (score after key j)
        ∙ is_within-fresh now window (score after key j)
        ∙ ap is_some known
        ∙ sym (is_within-fresh now window (last_beat stopped events j (score w key j))))

  stat-counts :
      (now : ℕ) (rd : Reader) (service : String) (w : W) (s : ServiceStat)
      → stat store now rd service w ≡ some s
      → (store.z_count (key_for rd.prefix service) (sub_ℕ now (seconds (window_of rd))) w
          ≡ some s.running)
        × (store.z_card (key_for rd.prefix service) w ≡ some s.total)
  unfolding stat
  stat-counts now rd service w s h = ground arith

  -- Where Stat and Instances of a reader both answer at one time, the numbers of Stat are how many
  -- instances are listed as alive and how many are listed, and the living ones are those that the verdict
  -- on a release counts.
  pub stat-instances :
      (score : W → Key → String → Option ℕ)
      → IsListing store score
      → (now : ℕ) (rd : Reader) (service : String) (w : W) (s : ServiceStat)
        (infos : List InstanceMeta)
      → (parse_int : String → Option ℤ) (target : ServiceTarget) (expect : String) (since : Time)
      → stat store now rd service w ≡ some s
      → instances store unmarshal now rd service w ≡ some infos
      → (s.running ≡ count_alive parse_int infos)
        × (s.total ≡ length infos)
        × ((check_service parse_int (some infos) target expect since).alive_count ≡ s.running)
  unfolding stat check_service
  stat-instances score listing now rd service w s infos parse_int target expect since counted read =
      let key = key_for rd.prefix service in
      let from = sub_ℕ now (seconds (window_of rd)) in
      let (members, metas, range, same) = instances-members now rd service w infos read in
      let (alive, all) = count_alive-map parse_int from metas members in
      let (running, total) = stat-counts now rd service w s counted in
      let few = listing.z_count_lem key from w members s.running range running ∙ sym alive in
      let many = listing.z_card_lem key w members s.total range total ∙ sym all in
      rw same (few, many, sym few)
