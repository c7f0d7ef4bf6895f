-- ===== src/Loader/Listeners.antt =====
-- The listeners of a change: flatten, fireDiff, isHotReloadable and keyMatchesPrefix of
-- pkg/config/loader.go. A flat map is its entries in the order in which it is ranged over; of two with one
-- key the first counts. `%v` of a value is a parameter, and a listener's panic is recovered.
pub mod Fired
use compkg.Common.{
  ℕ, zero, suc, Bool, true, false, not, ◌&&◌, ◌||◌, Option, none, some, List, [], ◌∷◌, ◌++◌,
  if◌then◌else◌, ◌==◌,
}
use compkg.Common.Text.{Text, same_text}
use compkg.Encrypt.Settings.{
  Value, string, map_value, slice, other, Items, nil, cons, Fields, end, field,
}
use compkg.Loader.{is_empty}

abbrev pub Flat : Type 0
Flat = List (Text × Value)

abbrev pub joined : Text → Text → Text
joined prefix k = if is_empty prefix then k else prefix ++ (b'.' ∷ k)

unfoldable mutual
  pub flatten_value : Text → Value → Flat
  flatten_value key (string s) = (key, string s) ∷ []
  flatten_value key (map_value m) = flatten key m
  flatten_value key (slice l) = (key, slice l) ∷ []
  flatten_value key (other n) = (key, other n) ∷ []

  pub flatten : Text → Fields → Flat
  flatten prefix end = []
  flatten prefix (field k v m) = flatten_value (joined prefix k) v ++ flatten prefix m

unfoldable pub value_at : Text → Flat → Option Value
value_at k [] = none
value_at k ((j, v) ∷ flat) = let rest = value_at k flat in if same_text j k then some v else rest

abbrev starts_with : Text → Text → Bool
starts_with [] s = true
starts_with (c ∷ prefix) [] = false
starts_with (c ∷ prefix) (d ∷ s) = (c == d) && starts_with prefix s

unfoldable pub key_matches_prefix : Text → Text → Bool
key_matches_prefix key prefix =
    is_empty prefix || (same_text key prefix || starts_with (prefix ++ (b'.' ∷ [])) key)

abbrev any_prefix : Text → List Text → Bool
any_prefix key [] = false
any_prefix key (prefix ∷ prefixes) = key_matches_prefix key prefix || any_prefix key prefixes

-- None stands for a nil set, which allows everything.
unfoldable pub is_hot_reloadable : Option (List Text) → Text → Bool
is_hot_reloadable none key = true
is_hot_reloadable (some prefixes) key = any_prefix key prefixes

pub record Changed : Type 0 where
  pub key : Text
  pub old_value : Option Value
  pub new_value : Option Value

module _ (print : Value → Text) where
  -- equalScalar, of an old value that is there
  abbrev pub same_value : Option Value → Option Value → Bool
  same_value none none = true
  same_value (some v) (some w) = same_text (print v) (print w)
  same_value none (some w) = false
  same_value (some v) none = false

  -- The loop over the new keys: those that are new, or have another value.
  unfoldable pub changed_keys : Flat → Flat → Flat → List Changed
  changed_keys old_flat new_flat [] = []
  changed_keys old_flat new_flat ((k, v) ∷ flat) =
      let rest = changed_keys old_flat new_flat flat in
      let old_value = value_at k old_flat in
      let new_value = value_at k new_flat in
      if same_value old_value new_value
      then rest
      else record { key = k; old_value = old_value; new_value = new_value } ∷ rest

  -- The loop over the old keys: those that are gone.
  unfoldable pub gone_keys : Flat → Flat → Flat → List Changed
  gone_keys old_flat new_flat [] = []
  gone_keys old_flat new_flat ((k, v) ∷ flat) =
      let rest = gone_keys old_flat new_flat flat in
      elim (value_at k new_flat) [
        | none ↦ record { key = k; old_value = value_at k old_flat; new_value = none } ∷ rest
        | some w ↦ rest
      ]

  unfoldable pub changed_entries : Fields → Fields → List Changed
  changed_entries old new =
      let old_flat = flatten [] old in
      let new_flat = flatten [] new in
      changed_keys old_flat new_flat new_flat ++ gone_keys old_flat new_flat old_flat

-- The loop over the changed keys for one prefix, up to the one that fires.
unfoldable pub fired_change : Option (List Text) → Text → List Changed → Option Changed
fired_change hot_reload prefix [] = none
fired_change hot_reload prefix (c ∷ changed) =
    let rest = fired_change hot_reload prefix changed in
    if not (key_matches_prefix c.key prefix)
    then rest
    else (if not (is_hot_reloadable hot_reload c.key) then rest else some c)

-- The prefix's listeners are each called once with this change, or none of them is.
unfoldable pub fire_diff :
    (Value → Text) → Option (List Text) → Fields → Fields → Text → Option Changed
fire_diff print hot_reload old new prefix =
    fired_change hot_reload prefix (changed_entries print old new)
