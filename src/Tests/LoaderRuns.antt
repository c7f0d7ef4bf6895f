-- ===== src/Tests/LoaderRuns.antt =====
-- Runs of the configuration loader, over a library in which texts are expanded as a whole.
use compkg.Common.{
  ℕ, ◌+◌, ◌≡◌, refl, Bool, true, false, not, Bool-cases, inl, inr, Option, none, some, List, [],
  ◌∷◌, ◌++◌, if◌then◌else◌,
}
use compkg.Common.Int.{ℤ, pos}
use compkg.Common.Text.{Text, same_text, same_text-true}
use compkg.Encrypt.{returned, ◌>>=◌, repeat_byte, last_byte}
use compkg.Encrypt.Values.{
  is_encrypted, encrypted_part, decrypt_config_value, gcm_decrypt, parse_encrypt_key,
}
use compkg.Encrypt.Settings.{
  Value, string, map_value, slice, other, nil, cons, Fields, end, field, decrypt_map,
}
use compkg.Loader.{
  Library, mem, expand_str, expand_env_in_place, has_encrypted, raw_keys, parse_keys,
  parse_encrypt_keys_from_config, try_keys, normalize,
}
use compkg.Loader.Normalize.{
  any_marked, shown_in, first_key, opened_by, normalize-first_key, normalize-whitelist,
}
use compkg.Loader.Changes.{
  put_raw, Source, Loader, Change, arrive, finish, merge_yaml_into, merge_all, rebuild, bootstrap,
  run_changes, on_remote_change, served_or, Raws,
}
use compkg.Loader.Changes.Served.{bootstrap-is_valid, place_after, texts_after, run_changes-rebuild}
use compkg.Loader.Listeners.{flatten, fire_diff}
use compkg.Loader.Listeners.Fired.{Answers, fire_diff-Answers}
use compkg.Loader.Feature.{FeatureContext}
use compkg.Tests.EncryptRuns.{plain_crypto, some_key}

abbrev plain_library : Library
plain_library = record {
  expand = λ value s. value s;
  has_placeholder = λ s. false;
  split = λ s. s ∷ [];
  trim_space = λ s. s;
}

-- "ENC(==a)", which opens to "a" without the nonce
abbrev hidden_a : Text
hidden_a = (b'E' ∷ b'N' ∷ b'C' ∷ b'(' ∷ 61 ∷ []) ++ (repeat_byte 12 3 ++ (61 ∷ b'a' ∷ b')' ∷ []))

abbrev key_text : Text
key_text = 61 ∷ some_key

abbrev key_of : Fields → Option Value
key_of m = some (string key_text)

abbrev hidden_settings : Fields
hidden_settings = field (b'p' ∷ []) (string hidden_a) end

abbrev nested_settings : Fields
nested_settings = field (b'p' ∷ []) (slice (cons (slice (cons (string hidden_a) nil)) nil)) end

abbrev no_env : Text → Text
no_env name = []

decrypted_run :
    normalize plain_crypto plain_library [] key_of no_env hidden_settings
    ≡ returned (field (b'p' ∷ []) (string (b'a' ∷ [])) end)
unfolding normalize try_keys parse_encrypt_keys_from_config raw_keys parse_keys parse_encrypt_key
    has_encrypted expand_env_in_place expand_str is_encrypted last_byte decrypt_map
    decrypt_config_value gcm_decrypt encrypted_part
decrypted_run = refl

-- A text in a list in a list stays encrypted.
nested_run :
    normalize plain_crypto plain_library [] key_of no_env nested_settings ≡ returned nested_settings
unfolding normalize has_encrypted expand_env_in_place
nested_run = refl

normalize-first_key_example :
    normalize plain_crypto plain_library [] key_of no_env hidden_settings ≡ (
      if any_marked (shown_in (expand_env_in_place plain_library [] no_env hidden_settings))
      then (parse_encrypt_keys_from_config plain_crypto plain_library (key_of hidden_settings)
          >>= (λ keys.
              opened_by plain_crypto (expand_env_in_place plain_library [] no_env hidden_settings) (
                first_key plain_crypto
                  (expand_env_in_place plain_library [] no_env hidden_settings)
                  keys)))
      else returned (expand_env_in_place plain_library [] no_env hidden_settings))
normalize-first_key_example =
    normalize-first_key plain_crypto plain_library [] key_of no_env hidden_settings

abbrev one_name : List Text
one_name = (b'H' ∷ []) ∷ []

abbrev secret_env : Text → Text
secret_env name = if same_text name (b'S' ∷ []) then b'x' ∷ [] else []

envs_agree : (name : Text) → mem name one_name ≡ true → secret_env name ≡ no_env name
envs_agree name h = elim (Bool-cases (same_text name (b'H' ∷ []))) [
  | inl e ↦ let same = same_text-true name (b'H' ∷ []) e in rw same refl
  | inr e ↦ cc (rw e at h)
]

normalize-whitelist_example :
    normalize plain_crypto plain_library one_name key_of secret_env hidden_settings
    ≡ normalize plain_crypto plain_library one_name key_of no_env hidden_settings
normalize-whitelist_example =
    normalize-whitelist plain_crypto plain_library one_name key_of secret_env no_env envs_agree
      hidden_settings

abbrev prepend : Fields → Fields → Fields
prepend end settings = settings
prepend (field k v m) settings = field k v (prepend m settings)

abbrev no_z : Fields → Bool
no_z end = true
no_z (field k v m) = not (same_text k (b'z' ∷ []))

-- Raw texts are one key each, which is put in front, and the key in front is not "z".
abbrev plain_source : Source
plain_source = record {
  fetched = none;
  is_blank = λ s. false;
  read_config = λ s. some (field s (other 0) end);
  merge_config_map = λ settings more. prepend more settings;
  normalize = λ settings. returned settings;
  is_valid = no_z;
}

abbrev local_settings : Fields
local_settings = field (b'l' ∷ []) (other 1) end

abbrev booted : Loader
booted = record { remote_raw = []; served = local_settings; copies = [] }

booted_run : bootstrap plain_source (some local_settings) ≡ some booted
unfolding bootstrap rebuild merge_all
booted_run = refl

-- The texts in the order in which a change ranged over them.
abbrev unmixed : Raws → Raws
unmixed raws = raws

abbrev one_change : List Change
one_change =
    arrive (b'z' ∷ []) (b'z' ∷ [])
    ∷ finish 0 (some local_settings) unmixed
    ∷ arrive (b'a' ∷ []) (b'x' ∷ [])
    ∷ finish 0 (some local_settings) unmixed
    ∷ []

bootstrap-is_valid_example :
    plain_source.is_valid (run_changes plain_source one_change booted).served ≡ true
bootstrap-is_valid_example =
    bootstrap-is_valid plain_source (some local_settings) one_change booted booted_run

abbrev after_a : Fields
after_a = field (b'a' ∷ []) (other 0) local_settings

abbrev after_both : Fields
after_both = field (b'b' ∷ []) (other 0) after_a

built_a :
    rebuild plain_source (some local_settings) (put_raw (b'a' ∷ []) (b'a' ∷ []) []) ≡ some after_a
unfolding rebuild merge_all merge_yaml_into put_raw
built_a = refl

built_both :
    rebuild plain_source
      (some local_settings)
      (put_raw (b'b' ∷ []) (b'b' ∷ []) (put_raw (b'a' ∷ []) (b'a' ∷ []) []))
    ≡ some after_both
unfolding rebuild merge_all merge_yaml_into put_raw
built_both = refl

-- Of two changes that overlap, the second one is finished, and then the first one: its settings are served.
abbrev second_first : List Change
second_first = arrive (b'b' ∷ []) (b'b' ∷ []) ∷ finish 1 (some local_settings) unmixed ∷ []

abbrev overtaken : Loader
overtaken = run_changes plain_source (arrive (b'a' ∷ []) (b'a' ∷ []) ∷ second_first) booted

first_one-place : place_after second_first 1 0 ≡ some 0
unfolding place_after
first_one-place = refl

run_changes-rebuild_example :
    ((on_remote_change plain_source (finish 0 (some local_settings) unmixed) overtaken).served
      ≡ served_or overtaken.served
          (rebuild plain_source (some local_settings) (put_raw (b'a' ∷ []) (b'a' ∷ []) [])))
    × (overtaken.remote_raw ≡ texts_after second_first (put_raw (b'a' ∷ []) (b'a' ∷ []) []))
run_changes-rebuild_example =
    run_changes-rebuild plain_source booted (b'a' ∷ []) (b'a' ∷ []) second_first
      (some local_settings) unmixed 0 first_one-place

abbrev kind_of : Value → Text
kind_of (string s) = s
kind_of (map_value m) = b'm' ∷ []
kind_of (slice l) = b'l' ∷ []
kind_of (other n) = n ∷ []

fire_diff-Answers_example :
    Answers kind_of none
      (b'l' ∷ [])
      (flatten [] after_a)
      (flatten [] end)
      (fire_diff kind_of none after_a end (b'l' ∷ []))
fire_diff-Answers_example = fire_diff-Answers kind_of none (b'l' ∷ []) after_a end

abbrev sum_of : Text → ℕ
sum_of [] = 0
sum_of (c ∷ s) = c + sum_of s

abbrev no_digits : ℤ → Text
no_digits n = []

abbrev a_device : FeatureContext
a_device = record { device_no = b'd' ∷ []; account_id = pos 7; instance_id = [] }
