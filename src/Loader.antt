-- ===== src/Loader.antt =====
-- The configuration loader of pkg/config/loader.go: the settings made ready to serve. viper, os.Expand,
-- the environment and the functions on strings are parameters; what viper hands out is its settings, so a
-- clone of them is the settings themselves.
pub mod Normalize
pub mod Changes
pub mod Listeners
pub mod Feature
use compkg.Common.{
  ℕ, zero, suc, Bool, true, false, not, ◌&&◌, ◌||◌, Option, none, some, List, [], ◌∷◌, ◌++◌, length,
  ◌==◌, if◌then◌else◌,
}
use compkg.Common.Text.{Text, same_text}
use compkg.Encrypt.{Bytes, Outcome, returned, failed, panicked, ◌>>=◌, Crypto}
use compkg.Encrypt.Values.{is_encrypted, parse_encrypt_key}
use compkg.Encrypt.Settings.{
  Value, string, map_value, slice, other, Items, nil, cons, Fields, end, field, decrypt_map,
}

abbrev pub is_empty : Text → Bool
is_empty [] = true
is_empty (c ∷ s) = false

abbrev pub mem : Text → List Text → Bool
mem s [] = false
mem s (t ∷ texts) = same_text s t || mem s texts

abbrev not_empty : List Text → List Text
not_empty [] = []
not_empty (s ∷ texts) = if is_empty s then not_empty texts else s ∷ not_empty texts

-- toSet: the fallback stands for no values, and the empty text is left out.
unfoldable pub to_set : List Text → List Text → List Text
to_set [] fallback = not_empty fallback
to_set (s ∷ values) fallback = not_empty (s ∷ values)

pub record Library : Type 0 where
  -- os.Expand with a mapping, strings.Contains of "${", strings.Split at "," and strings.TrimSpace
  pub expand : (Text → Text) → Text → Text
  pub has_placeholder : Text → Bool
  pub split : Text → List Text
  pub trim_space : Text → Text

-- `"${" + name + "}"`
abbrev pub placeholder : Text → Text
placeholder name = (b'$' ∷ b'{' ∷ []) ++ (name ++ (b'}' ∷ []))

module _ (library : Library) (whitelist : List Text) (getenv : Text → Text) where
  abbrev pub env_value : Text → Text
  env_value name = if mem name whitelist then getenv name else placeholder name

  unfoldable pub expand_str : Text → Text
  expand_str s = if not (library.has_placeholder s) then s else library.expand env_value s

  -- In a list only the texts and the maps are expanded, not the lists.
  unfoldable mutual
    pub expand_value : Value → Value
    expand_value (string s) = string (expand_str s)
    expand_value (map_value m) = map_value (expand_env_in_place m)
    expand_value (slice l) = slice (expand_items l)
    expand_value (other n) = other n

    pub expand_items : Items → Items
    expand_items nil = nil
    expand_items (cons (string s) l) = cons (string (expand_str s)) (expand_items l)
    expand_items (cons (map_value m) l) = cons (map_value (expand_env_in_place m)) (expand_items l)
    expand_items (cons (slice r) l) = cons (slice r) (expand_items l)
    expand_items (cons (other n) l) = cons (other n) (expand_items l)

    pub expand_env_in_place : Fields → Fields
    expand_env_in_place end = end
    expand_env_in_place (field k v m) = field k (expand_value v) (expand_env_in_place m)

-- In a list only the texts and the maps are looked at.
unfoldable mutual
  pub has_encrypted_value : Value → Bool
  has_encrypted_value (string s) = is_encrypted s
  has_encrypted_value (map_value m) = has_encrypted m
  has_encrypted_value (slice l) = has_encrypted_items l
  has_encrypted_value (other n) = false

  pub has_encrypted_items : Items → Bool
  has_encrypted_items nil = false
  has_encrypted_items (cons (string s) l) = is_encrypted s || has_encrypted_items l
  has_encrypted_items (cons (map_value m) l) = has_encrypted m || has_encrypted_items l
  has_encrypted_items (cons (slice r) l) = has_encrypted_items l
  has_encrypted_items (cons (other n) l) = has_encrypted_items l

  pub has_encrypted : Fields → Bool
  has_encrypted end = false
  has_encrypted (field k v m) = has_encrypted_value v || has_encrypted m

abbrev texts_of : Items → List Text
texts_of nil = []
texts_of (cons (string s) l) = s ∷ texts_of l
texts_of (cons (map_value m) l) = texts_of l
texts_of (cons (slice r) l) = texts_of l
texts_of (cons (other n) l) = texts_of l

abbrev trimmed : (Text → Text) → List Text → List Text
trimmed trim [] = []
trimmed trim (s ∷ texts) =
    let rest = trimmed trim texts in if is_empty (trim s) then rest else trim s ∷ rest

-- The texts of the keys at the path, none for a value that is neither a text nor a list.
unfoldable pub raw_keys : Library → Value → Option (List Text)
raw_keys library (string s) = some (trimmed library.trim_space (library.split s))
raw_keys library (slice l) = some (trimmed library.trim_space (texts_of l))
raw_keys library (map_value m) = none
raw_keys library (other n) = none

unfoldable pub parse_keys : Crypto → List Text → Outcome (List Bytes)
parse_keys crypto [] = returned []
parse_keys crypto (raw ∷ raws) = do
  key ← parse_encrypt_key crypto raw
  keys ← parse_keys crypto raws
  returned (key ∷ keys)

-- parseEncryptKeysFromConfig of what stands at EncryptKeyPath, none if nothing is set there
unfoldable pub parse_encrypt_keys_from_config :
    Crypto → Library → Option Value → Outcome (List Bytes)
parse_encrypt_keys_from_config crypto library none = returned []
parse_encrypt_keys_from_config crypto library (some v) = elim (raw_keys library v) [
  | none ↦ failed
  | some raws ↦ parse_keys crypto raws
]

-- The loop over the keys, each tried on a clone.
unfoldable pub try_keys : Crypto → Fields → List Bytes → Outcome Fields
try_keys crypto settings [] = failed
try_keys crypto settings (key ∷ keys) = elim (decrypt_map crypto key settings) [
  | returned cloned ↦ returned cloned
  | failed ↦ try_keys crypto settings keys
  | panicked ↦ panicked
]

module _ (crypto : Crypto) (library : Library) (whitelist : List Text)
    (at_key_path : Fields → Option Value) where
  -- No keys is an error too, which the loop gives.
  unfoldable pub normalize : (Text → Text) → Fields → Outcome Fields
  normalize getenv src =
      let settings = expand_env_in_place library whitelist getenv src in
      if not (has_encrypted settings) then returned settings else (do
        keys ← parse_encrypt_keys_from_config crypto library (at_key_path src)
        try_keys crypto settings keys)
