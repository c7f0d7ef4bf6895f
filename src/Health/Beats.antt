-- ===== src/Health/Beats.antt =====
-- What one call of a reporter of pkg/health/health.go does to the instances of its service.
use compkg.Common.{
  ℕ, ◌+◌, ◌≡◌, refl, ap, ◌∙◌, String, true, false, Bool-cases, inl, inr, Option, none, some,
  Option-cases, str_eq, ltb, if◌then◌else◌, arith,
}
use compkg.Common.Int.{ℤ, pos, ltb_ℤ, sub_ℕ}
use compkg.Health.{Key, key_for, meta_key_for, Store, Reporter, seconds, report_meta, beat, stop}

abbrev pub above : ℤ → Option ℕ → Option ℕ
above bound none = none
above bound (some t) = if ltb_ℤ bound (pos t) then some t else none

-- What Redis documents of the calls that it answers without an error, on the scores that members have;
-- those of a Hash change no score.
pub record IsSortedSet {W : Type 0} (store : Store W) (score : W → Key → String → Option ℕ)
    : Type 0 where
  pub z_add_lem :
      (key : Key) (t : ℕ) (m j : String) (w : W)
      → (store.z_add key t m w).1 ≡ true
      → score (store.z_add key t m w).0 key j ≡ (if str_eq m j then some t else score w key j)
  pub z_rem_range_by_score_lem :
      (key : Key) (bound : ℤ) (j : String) (w : W)
      → (store.z_rem_range_by_score key bound w).1 ≡ true
      → score (store.z_rem_range_by_score key bound w).0 key j ≡ above bound (score w key j)
  pub z_rem_lem :
      (key : Key) (m j : String) (w : W)
      → (store.z_rem key m w).1 ≡ true
      → score (store.z_rem key m w).0 key j ≡ (if str_eq m j then none else score w key j)
  pub h_set_lem :
      (key hash : Key) (f v j : String) (w : W)
      → score (store.h_set hash f v w).0 key j ≡ score w key j
  pub h_del_lem :
      (key hash : Key) (f j : String) (w : W) → score (store.h_del hash f w).0 key j ≡ score w key j

-- The times that are not stale at a time: less than so many seconds ago.
abbrev pub fresh : ℕ → ℕ → Option ℕ → Option ℕ
fresh now stale none = none
fresh now stale (some t) = if ltb now (t + stale) then some t else none

above-fresh : (now stale : ℕ) (t : Option ℕ) → above (sub_ℕ now stale) t ≡ fresh now stale t
above-fresh now stale none = refl
above-fresh now stale (some t) = ground arith

module _ {W : Type 0} (store : Store W) (score : W → Key → String → Option ℕ)
    (laws : IsSortedSet store score) where
  report_meta-score :
      (key : Key) (r : Reporter) (j : String) (w : W)
      → score (report_meta store r w) key j ≡ score w key j
  unfolding report_meta
  report_meta-score key r j w = elim (Option-cases r.payload) [
    | inl e ↦ rw (report_meta, e) refl
    | inr (payload, e) ↦ elim (Bool-cases store.is_meta_store) [
      | inl m ↦
          rw (report_meta, e, m)
            (laws.h_set_lem key (meta_key_for r.prefix r.service) r.instance_id payload j w)
      | inr m ↦ rw (report_meta, e, m) refl
    ]
  ]

  -- After a heartbeat without an error the reporter's own instance has the time of the heartbeat, and
  -- every instance, itself included, is gone if its time is stale: a reporter whose StaleCleanup is less
  -- than a second removes itself.
  pub beat-score :
      (now : ℕ) (r : Reporter) (w : W) (j : String)
      → (beat store now r w).1 ≡ true
      → score (beat store now r w).0 (key_for r.prefix r.service) j
        ≡ fresh now
            (seconds r.stale_cleanup)
            (if str_eq r.instance_id j then some now else score w (key_for r.prefix r.service) j)
  unfolding beat
  beat-score now r w j h =
      let key = key_for r.prefix r.service in
      let added = (store.z_add key now r.instance_id w).0 in
      let bound = sub_ℕ now (seconds r.stale_cleanup) in
      elim (Bool-cases (store.z_add key now r.instance_id w).1) [
        | inr e ↦ cc (h, e)
        | inl e ↦
            let clean : (store.z_rem_range_by_score key bound added).1 ≡ true = rw (beat, e) at h in
            rw (beat, e)
              (report_meta-score key r j (store.z_rem_range_by_score key bound added).0
                ∙ laws.z_rem_range_by_score_lem key bound j added clean
                ∙ ap (above bound) (laws.z_add_lem key now r.instance_id j w e)
                ∙ above-fresh now (seconds r.stale_cleanup)
                    (if str_eq r.instance_id j then some now else score w key j))
      ]

  pub stop_again : (r : Reporter) (w : W) → stop store true r w ≡ (w, true)
  unfolding stop
  stop_again r w = refl

  pub stop-score :
      (r : Reporter) (w : W) (j : String)
      → (stop store false r w).1 ≡ true
      → score (stop store false r w).0 (key_for r.prefix r.service) j
        ≡ (if str_eq r.instance_id j then none else score w (key_for r.prefix r.service) j)
  unfolding stop
  stop-score r w j h =
      let key = key_for r.prefix r.service in
      elim (Bool-cases store.is_meta_store) [
        | inl m ↦
            rw (stop, m)
              (laws.h_del_lem key (meta_key_for r.prefix r.service) r.instance_id j
                  (store.z_rem key r.instance_id w).0
                ∙ laws.z_rem_lem key r.instance_id j w (rw (stop, m) at h))
        | inr m ↦ rw (stop, m) (laws.z_rem_lem key r.instance_id j w (rw (stop, m) at h))
      ]
