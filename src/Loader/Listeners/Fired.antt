-- ===== src/Loader/Listeners/Fired.antt =====
-- Which listeners a change of the configuration calls: fireDiff of pkg/config/loader.go.
use compkg.Common.{
  ◌≡◌, refl, sym, ap, ◌⊎◌, inl, inr, Bool, true, false, not, Bool-cases, Option, none, some,
  Option-cases, ◌||◌, ◌&&◌, List, [], ◌∷◌, ◌++◌, arith,
}
use compkg.Common.Text.{Text, same_text, same_text-true, same_text_self}
use mathlib.Core.Path.{subst}
use mathlib.Core.Bool.{false≢true}
use compkg.Encrypt.Settings.{Value, Fields}
use compkg.Loader.Listeners.{
  Flat, flatten, value_at, key_matches_prefix, is_hot_reloadable, Changed, same_value, changed_keys,
  gone_keys, changed_entries, fired_change, fire_diff,
}

abbrev pub is_some : {A : Type 0} → Option A → Bool
is_some none = false
is_some (some a) = true

none-some : {A : Type 0} {a : A} → none ≡ some a → ⊥
none-some h = false≢true (ap is_some h)

module _ (print : Value → Text) (hot_reload : Option (List Text)) (prefix : Text) where
  -- A change of a key under the prefix that may be reloaded, with what the two sides have at the key.
  abbrev pub Fires : Flat → Flat → Changed → Type 0
  Fires old_flat new_flat c =
      (key_matches_prefix c.key prefix ≡ true)
      × (is_hot_reloadable hot_reload c.key ≡ true)
      × (c.old_value ≡ value_at c.key old_flat)
      × (c.new_value ≡ value_at c.key new_flat)
      × (same_value print c.old_value c.new_value ≡ false)

  fired_append :
      (cs ds : List Changed)
      → fired_change hot_reload prefix (cs ++ ds) ≡ elim (fired_change hot_reload prefix cs) [
        | none ↦ fired_change hot_reload prefix ds
        | some c ↦ some c
      ]
  unfolding fired_change
  fired_append [] ds = refl
  fired_append (c ∷ cs) ds = let rest = fired_append cs ds in ground arith

  fired_cons :
      (c : Changed) (cs : List Changed) (d : Changed)
      → fired_change hot_reload prefix (c ∷ cs) ≡ some d
      → ((c ≡ d)
          × (key_matches_prefix c.key prefix ≡ true)
          × (is_hot_reloadable hot_reload c.key ≡ true))
        ⊎ (fired_change hot_reload prefix cs ≡ some d)
  unfolding fired_change
  fired_cons c cs d h = ground arith

  fires_here :
      (c : Changed) (cs : List Changed)
      → key_matches_prefix c.key prefix ≡ true
      → is_hot_reloadable hot_reload c.key ≡ true
      → is_some (fired_change hot_reload prefix (c ∷ cs)) ≡ true
  unfolding fired_change
  fires_here c cs matches hot = rw (matches, hot) refl

  fires_later :
      (c : Changed) (cs : List Changed)
      → is_some (fired_change hot_reload prefix cs) ≡ true
      → is_some (fired_change hot_reload prefix (c ∷ cs)) ≡ true
  unfolding fired_change
  fires_later c cs h = ground arith

  fired-changed_keys :
      (old_flat new_flat flat : Flat) (c : Changed)
      → fired_change hot_reload prefix (changed_keys print old_flat new_flat flat) ≡ some c
      → Fires old_flat new_flat c
  unfolding changed_keys fired_change
  fired-changed_keys old_flat new_flat [] c h = absurd (none-some h)
  fired-changed_keys old_flat new_flat ((k, v) ∷ flat) c h =
      let here : Changed = record {
        key = k;
        old_value = value_at k old_flat;
        new_value = value_at k new_flat;
      } in
      elim (Bool-cases (same_value print (value_at k old_flat) (value_at k new_flat))) [
        | inl e ↦ fired-changed_keys old_flat new_flat flat c (rw (changed_keys, e) at h)
        | inr e ↦
            elim (fired_cons here (changed_keys print old_flat new_flat flat) c
              (rw (changed_keys, e) at h)) [
                | inl (same, matches, hot) ↦
                    subst (Fires old_flat new_flat) same (matches, hot, refl, refl, e)
                | inr later ↦ fired-changed_keys old_flat new_flat flat c later
              ]
      ]

  gone : (v : Option Value) → is_some v ≡ true → same_value print v none ≡ false
  gone none h = cc h
  gone (some v) h = refl

  was_there : (v : Option Value) → same_value print v none ≡ false → is_some v ≡ true
  was_there none h = cc h
  was_there (some v) h = refl

  fired-gone_keys :
      (old_flat new_flat flat : Flat) (c : Changed)
      → ((k : Text) → is_some (value_at k flat) ≡ true → is_some (value_at k old_flat) ≡ true)
      → fired_change hot_reload prefix (gone_keys print old_flat new_flat flat) ≡ some c
      → Fires old_flat new_flat c
  unfolding gone_keys value_at fired_change
  fired-gone_keys old_flat new_flat [] c sub h = absurd (none-some h)
  fired-gone_keys old_flat new_flat ((k, v) ∷ flat) c sub h =
      let here : Changed = record { key = k; old_value = value_at k old_flat; new_value = none } in
      let had = sub k (rw (same_text_self k) refl) in
      let sub_rest =
        λ (j : Text) (there : is_some (value_at j flat) ≡ true). sub j (ground arith) in
      elim (Option-cases (value_at k new_flat)) [
        | inl e ↦
            elim (fired_cons here (gone_keys print old_flat new_flat flat) c
              (rw (gone_keys, e) at h)) [
                | inl (same, matches, hot) ↦
                    subst (Fires old_flat new_flat) same
                      (matches, hot, refl, sym e, gone (value_at k old_flat) had)
                | inr later ↦ fired-gone_keys old_flat new_flat flat c sub_rest later
              ]
        | inr (w, e) ↦ fired-gone_keys old_flat new_flat flat c sub_rest (rw (gone_keys, e) at h)
      ]

  changed_keys-fires :
      (old_flat new_flat flat : Flat) (k : Text)
      → key_matches_prefix k prefix ≡ true
      → is_hot_reloadable hot_reload k ≡ true
      → same_value print (value_at k old_flat) (value_at k new_flat) ≡ false
      → is_some (value_at k flat) ≡ true
      → is_some (fired_change hot_reload prefix (changed_keys print old_flat new_flat flat)) ≡ true
  unfolding changed_keys value_at
  changed_keys-fires old_flat new_flat [] k matches hot differs there = cc there
  changed_keys-fires old_flat new_flat ((j, v) ∷ flat) k matches hot differs there =
      let rest = changed_keys-fires old_flat new_flat flat k matches hot differs in
      elim (Bool-cases (same_text j k)) [
        | inl e ↦
            let same : k ≡ j = sym (same_text-true j k e) in
            let differs_here : same_value print (value_at j old_flat) (value_at j new_flat)
                ≡ false =
              rw same at differs in
            rw (changed_keys, differs_here)
              (fires_here _ (changed_keys print old_flat new_flat flat) (rw same at matches)
                (rw same at hot))
        | inr e ↦
            let later = rest (rw (value_at, e) at there) in
            elim (Bool-cases (same_value print (value_at j old_flat) (value_at j new_flat))) [
              | inl s ↦ rw (changed_keys, s) later
              | inr s ↦ rw (changed_keys, s) (fires_later _ _ later)
            ]
      ]

  gone_keys-fires :
      (old_flat new_flat flat : Flat) (k : Text)
      → key_matches_prefix k prefix ≡ true
      → is_hot_reloadable hot_reload k ≡ true
      → value_at k new_flat ≡ none
      → is_some (value_at k flat) ≡ true
      → is_some (fired_change hot_reload prefix (gone_keys print old_flat new_flat flat)) ≡ true
  unfolding gone_keys value_at
  gone_keys-fires old_flat new_flat [] k matches hot missing there = cc there
  gone_keys-fires old_flat new_flat ((j, v) ∷ flat) k matches hot missing there =
      let rest = gone_keys-fires old_flat new_flat flat k matches hot missing in
      elim (Bool-cases (same_text j k)) [
        | inl e ↦
            let same : k ≡ j = sym (same_text-true j k e) in
            let missing_here : value_at j new_flat ≡ none = rw same at missing in
            rw (gone_keys, missing_here)
              (fires_here _ (gone_keys print old_flat new_flat flat) (rw same at matches)
                (rw same at hot))
        | inr e ↦
            let later = rest (rw (value_at, e) at there) in
            elim (Option-cases (value_at j new_flat)) [
              | inl s ↦ rw (gone_keys, s) (fires_later _ _ later)
              | inr (w, s) ↦ rw (gone_keys, s) later
            ]
      ]

  is_some_append :
      (cs ds : List Changed)
      → is_some (fired_change hot_reload prefix cs) || is_some (fired_change hot_reload prefix ds)
        ≡ true
      → is_some (fired_change hot_reload prefix (cs ++ ds)) ≡ true
  is_some_append cs ds h = let e = fired_append cs ds in ground arith

  -- Of no call: no key under the prefix that may be reloaded has changed.
  abbrev pub Answers : Flat → Flat → Option Changed → Type 0
  Answers old_flat new_flat (some c) = Fires old_flat new_flat c
  Answers old_flat new_flat none =
      (k : Text)
      → ((key_matches_prefix k prefix && is_hot_reloadable hot_reload k)
          && not (same_value print (value_at k old_flat) (value_at k new_flat)))
        ≡ false

  append_cases :
      (cs ds : List Changed) (c : Changed)
      → fired_change hot_reload prefix (cs ++ ds) ≡ some c
      → (fired_change hot_reload prefix cs ≡ some c) ⊎ (fired_change hot_reload prefix ds ≡ some c)
  append_cases cs ds c h = let e = fired_append cs ds in ground arith

  changed_entries-fires :
      (old new : Fields) (k : Text)
      → key_matches_prefix k prefix ≡ true
      → is_hot_reloadable hot_reload k ≡ true
      → same_value print (value_at k (flatten [] old)) (value_at k (flatten [] new)) ≡ false
      → is_some (fire_diff print hot_reload old new prefix) ≡ true
  unfolding fire_diff changed_entries
  changed_entries-fires old new k matches hot differs =
      let old_flat = flatten [] old in
      let new_flat = flatten [] new in
      is_some_append (changed_keys print old_flat new_flat new_flat)
        (gone_keys print old_flat new_flat old_flat)
        (elim (Option-cases (value_at k new_flat)) [
          | inr (w, e) ↦
              rw (changed_keys-fires old_flat new_flat new_flat k matches hot differs (rw e refl))
                refl
          | inl e ↦
              let had : is_some (value_at k old_flat) ≡ true =
                was_there (value_at k old_flat) (rw e at differs) in
              let gone_fires = gone_keys-fires old_flat new_flat old_flat k matches hot e had in
              ground arith
        ])

  silent :
      (old new : Fields)
      → fire_diff print hot_reload old new prefix ≡ none
      → (k : Text)
      → ((key_matches_prefix k prefix && is_hot_reloadable hot_reload k)
          && not (same_value print (value_at k (flatten [] old)) (value_at k (flatten [] new))))
        ≡ false
  silent old new none_fires k =
      elim (Bool-cases (
        (key_matches_prefix k prefix && is_hot_reloadable hot_reload k)
        && not (same_value print (value_at k (flatten [] old)) (value_at k (flatten [] new))))) [
          | inr e ↦ e
          | inl e ↦
              let fires =
                changed_entries-fires old new k (ground arith) (ground arith) (ground arith) in
              cc (fires, none_fires)
        ]

  -- The listeners of a prefix are called, once, exactly when some key under the prefix that may be
  -- reloaded has another printed value in the new settings than in the old ones, or is in only one of
  -- them; and what they are given are the two sides' values at such a key.
  pub fire_diff-Answers :
      (old new : Fields)
      → Answers (flatten [] old) (flatten [] new) (fire_diff print hot_reload old new prefix)
  unfolding fire_diff changed_entries
  fire_diff-Answers old new =
      let old_flat = flatten [] old in
      let new_flat = flatten [] new in
      let fired = fire_diff print hot_reload old new prefix in
      elim (Option-cases fired) [
        | inr (c, e) ↦
            subst (Answers old_flat new_flat) (sym e)
              (elim (append_cases (changed_keys print old_flat new_flat new_flat)
                (gone_keys print old_flat new_flat old_flat) c e) [
                  | inl h ↦ fired-changed_keys old_flat new_flat new_flat c h
                  | inr h ↦ fired-gone_keys old_flat new_flat old_flat c (λ k there. there) h
                ])
        | inl e ↦ subst (Answers old_flat new_flat) (sym e) (silent old new e)
      ]
