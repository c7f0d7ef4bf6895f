-- ===== src/Loader/Changes.antt =====
-- Bootstrap and onRemoteChange of pkg/config/loader.go. A change takes the copy of the raw texts under
-- remoteMu and is built and stored later without it, so changes overlap: a change is a step `arrive` and
-- a step `finish`. The order in which a copied map is ranged over belongs to `finish`; the local file is
-- read anew each time, and reading it may fail. Metrics and the log are left out.
pub mod Served
use compkg.Common.{
  ℕ, zero, suc, ◌≡◌, refl, ap, ◌∙◌, Bool, true, false, Bool-cases, inl, inr, Option, none, some,
  Option-cases, List, [], ◌∷◌, ◌++◌, if◌then◌else◌, arith, All,
}
use compkg.Common.Text.{Text, same_text}
use compkg.Encrypt.{Outcome, returned, failed, panicked}
use compkg.Encrypt.Settings.{Fields}

abbrev pub Raws : Type 0
Raws = List (Text × Text)

-- `l.remoteRaw[dataId] = raw`
unfoldable pub put_raw : Text → Text → Raws → Raws
put_raw data_id raw [] = (data_id, raw) ∷ []
put_raw data_id raw ((k, v) ∷ raws) =
    let rest = put_raw data_id raw raws in
    if same_text k data_id then (data_id, raw) ∷ raws else (k, v) ∷ rest

pub record Source : Type 0 where
  -- What is there before the first change, of Fetch, or none if it failed.
  pub fetched : Option Raws
  -- bytes.TrimSpace leaving nothing, ReadConfig of a YAML text with its AllSettings, and MergeConfigMap
  pub is_blank : Text → Bool
  pub read_config : Text → Option Fields
  pub merge_config_map : Fields → Fields → Fields
  pub normalize : Fields → Outcome Fields
  -- validateAgainstSchema without an error
  pub is_valid : Fields → Bool

-- A text that is blank or no YAML changes nothing; the error is logged.
unfoldable pub merge_yaml_into : Source → Fields → Text → Fields
merge_yaml_into source settings raw =
    if source.is_blank raw then settings else elim (source.read_config raw) [
      | none ↦ settings
      | some more ↦ source.merge_config_map settings more
    ]

unfoldable pub merge_all : Source → Fields → Raws → Fields
merge_all source settings [] = settings
merge_all source settings ((k, raw) ∷ raws) =
    merge_all source (merge_yaml_into source settings raw) raws

-- The settings of a local file and of raw texts, none where an error keeps them from being served.
unfoldable pub rebuild : Source → Option Fields → Raws → Option Fields
rebuild source none raws = none
rebuild source (some local_settings) raws =
    elim (source.normalize (merge_all source local_settings raws)) [
      | returned final ↦ if source.is_valid final then some final else none
      | failed ↦ none
      | panicked ↦ none
    ]

pub record Loader : Type 0 where
  pub remote_raw : Raws
  -- The settings that `vp` points to.
  pub served : Fields
  -- The copies of the changes that have not been stored yet, the oldest first.
  pub copies : List Raws

abbrev pub or_nothing : Option Raws → Raws
or_nothing none = []
or_nothing (some raws) = raws

abbrev put_all : Raws → Raws → Raws
put_all [] raws = raws
put_all ((k, v) ∷ more) raws = put_all more (put_raw k v raws)

unfoldable pub bootstrap : Source → Option Fields → Option Loader
bootstrap source local_file =
    let raws = or_nothing source.fetched in
    elim (rebuild source local_file raws) [
      | none ↦ none
      | some final ↦ some record { remote_raw = put_all raws []; served = final; copies = [] }
    ]

pub data Change : Type 0 where
  -- The locked part of onRemoteChange.
  arrive : Text → Text → Change
  -- The rest of the n-th pending call, with the local file and the order of its range.
  finish : ℕ → Option Fields → (Raws → Raws) → Change

abbrev pub copy_at : ℕ → List Raws → Option Raws
copy_at n [] = none
copy_at zero (c ∷ copies) = some c
copy_at (suc n) (c ∷ copies) = copy_at n copies

abbrev pub without_copy : ℕ → List Raws → List Raws
without_copy n [] = []
without_copy zero (c ∷ copies) = copies
without_copy (suc n) (c ∷ copies) = c ∷ without_copy n copies

abbrev pub served_or : Fields → Option Fields → Fields
served_or old none = old
served_or old (some final) = final

unfoldable pub on_remote_change : Source → Change → Loader → Loader
on_remote_change source (arrive data_id raw) l =
    let raws = put_raw data_id raw l.remote_raw in
    record { remote_raw = raws; served = l.served; copies = l.copies ++ (raws ∷ []) }
on_remote_change source (finish n local_file ranged) l = elim (copy_at n l.copies) [
  | none ↦ l
  | some raws ↦ record {
    remote_raw = l.remote_raw;
    served = served_or l.served (rebuild source local_file (ranged raws));
    copies = without_copy n l.copies;
  }
]

unfoldable pub run_changes : Source → List Change → Loader → Loader
run_changes source [] l = l
run_changes source (change ∷ changes) l =
    run_changes source changes (on_remote_change source change l)
