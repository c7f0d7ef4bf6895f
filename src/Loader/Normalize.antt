-- ===== src/Loader/Normalize.antt =====
-- What normalize of pkg/config/loader.go returns.
use mathlib.Core.Path.{fun_ext}
use compkg.Common.{
  ◌≡◌, arith, refl, ap, ◌∙◌, ◌++◌, ◌||◌, Bool, false, inl, inr, true, Bool-cases, not, Option, none,
  some, List, [], ◌∷◌, if◌then◌else◌,
}
use compkg.Common.Text.{Text}
use compkg.Encrypt.{Bytes, Outcome, returned, failed, ◌>>=◌, Crypto}
use compkg.Encrypt.Values.{is_encrypted}
use compkg.Encrypt.Settings.{
  Value, string, map_value, slice, other, Items, nil, cons, Fields, end, field, decrypt_map-opens,
  all_texts_fields, map_texts_fields, opens, opened,
}
use compkg.Loader.{
  Library, mem, env_value, expand_str, expand_value, expand_items, expand_env_in_place,
  has_encrypted, has_encrypted_value, has_encrypted_items, try_keys, normalize,
  parse_encrypt_keys_from_config,
}

-- The first key under which every encrypted text of the settings opens.
abbrev pub first_key : Crypto → Fields → List Bytes → Option Bytes
first_key crypto settings [] = none
first_key crypto settings (key ∷ keys) =
    let rest = first_key crypto settings keys in
    if all_texts_fields (opens crypto key) settings then some key else rest

abbrev pub opened_by : Crypto → Fields → Option Bytes → Outcome Fields
opened_by crypto settings none = failed
opened_by crypto settings (some key) = returned (map_texts_fields (opened crypto key) settings)

try_keys-first_key :
    (crypto : Crypto) (settings : Fields) (keys : List Bytes)
    → try_keys crypto settings keys ≡ opened_by crypto settings (first_key crypto settings keys)
unfolding try_keys
try_keys-first_key crypto settings [] = refl
try_keys-first_key crypto settings (key ∷ keys) =
    let decrypted = decrypt_map-opens crypto key settings in
    elim (Bool-cases (all_texts_fields (opens crypto key) settings)) [
      | inl e ↦ rw (try_keys, decrypted, e) refl
      | inr e ↦ rw (try_keys, decrypted, e) (try_keys-first_key crypto settings keys)
    ]

-- The texts that settings have in a map or directly in a list of a map, at any depth of maps: what stands
-- in a list within a list is not among them.
unfoldable mutual
  pub shown_in_value : Value → List Text
  shown_in_value (string s) = s ∷ []
  shown_in_value (map_value m) = shown_in m
  shown_in_value (slice l) = shown_in_items l
  shown_in_value (other n) = []

  pub shown_in_items : Items → List Text
  shown_in_items nil = []
  shown_in_items (cons (string s) l) = s ∷ shown_in_items l
  shown_in_items (cons (map_value m) l) = shown_in m ++ shown_in_items l
  shown_in_items (cons (slice r) l) = shown_in_items l
  shown_in_items (cons (other n) l) = shown_in_items l

  pub shown_in : Fields → List Text
  shown_in end = []
  shown_in (field k v m) = shown_in_value v ++ shown_in m

abbrev pub any_marked : List Text → Bool
any_marked [] = false
any_marked (s ∷ texts) = is_encrypted s || any_marked texts

any_marked-append : (a b : List Text) → any_marked (a ++ b) ≡ (any_marked a || any_marked b)
any_marked-append [] b = refl
any_marked-append (s ∷ a) b = elim (Bool-cases (is_encrypted s)) [
  | inl e ↦ rw e refl
  | inr e ↦ rw e (any_marked-append a b)
]

mutual
  unfolding has_encrypted_value shown_in_value

  value_marked : (v : Value) → has_encrypted_value v ≡ any_marked (shown_in_value v)
  value_marked (string s) = ground arith
  value_marked (map_value m) = map_marked m
  value_marked (slice l) = items_marked l
  value_marked (other n) = refl

  items_marked : (l : Items) → has_encrypted_items l ≡ any_marked (shown_in_items l)
  items_marked nil = refl
  items_marked (cons (string s) l) = ap (λ b. is_encrypted s || b) (items_marked l)
  items_marked (cons (map_value m) l) =
      rw (any_marked-append (shown_in m) (shown_in_items l), map_marked m, items_marked l) refl
  items_marked (cons (slice r) l) = items_marked l
  items_marked (cons (other n) l) = items_marked l

  map_marked : (m : Fields) → has_encrypted m ≡ any_marked (shown_in m)
  map_marked end = refl
  map_marked (field k v m) =
      rw (any_marked-append (shown_in_value v) (shown_in m), value_marked v, map_marked m) refl

-- The settings are first expanded, as expandEnvInPlace does. If then no text of a map or directly in a list
-- of a map is marked, they are returned so, also if a list within a list has a marked text. All others
-- are decrypted, at every depth, under the first of the keys that parseEncryptKeysFromConfig reads
-- that opens every marked text, and refused if there is none, or if the keys cannot be parsed.
pub normalize-first_key :
    (crypto : Crypto) (library : Library) (whitelist : List Text)
    (at_key_path : Fields → Option Value)
    → (getenv : Text → Text) (src : Fields)
    → let settings = expand_env_in_place library whitelist getenv src in
      normalize crypto library whitelist at_key_path getenv src ≡ (
        if any_marked (shown_in settings)
        then (parse_encrypt_keys_from_config crypto library (at_key_path src)
            >>= (λ keys. opened_by crypto settings (first_key crypto settings keys)))
        else returned settings)
unfolding normalize
normalize-first_key crypto library whitelist at_key_path getenv src =
    let settings = expand_env_in_place library whitelist getenv src in
    let marked = map_marked settings in
    elim (Bool-cases (any_marked (shown_in settings))) [
      | inl e ↦
          rw (normalize, marked ∙ e, e)
            (ap (λ f. parse_encrypt_keys_from_config crypto library (at_key_path src) >>= f)
              (fun_ext (try_keys-first_key crypto settings)))
      | inr e ↦ rw (normalize, marked ∙ e, e) refl
    ]

module _ (library : Library) (whitelist : List Text) (getenv other_env : Text → Text)
    (agree : (name : Text) → mem name whitelist ≡ true → getenv name ≡ other_env name) where
  expand_str-agree :
      (s : Text) → expand_str library whitelist getenv s ≡ expand_str library whitelist other_env s
  unfolding expand_str
  expand_str-agree s =
      let same : env_value library whitelist getenv ≡ env_value library whitelist other_env =
        fun_ext (λ name. elim (Bool-cases (mem name whitelist)) [
          | inl e ↦ rw e (agree name e)
          | inr e ↦ rw e refl
        ]) in
      ap (λ f. if not (library.has_placeholder s) then s else library.expand f s) same

  mutual
    unfolding expand_value

    expand_value-agree :
        (v : Value)
        → expand_value library whitelist getenv v ≡ expand_value library whitelist other_env v
    expand_value-agree (string s) = ap string (expand_str-agree s)
    expand_value-agree (map_value m) = ap map_value (expand_map-agree m)
    expand_value-agree (slice l) = ap slice (expand_items-agree l)
    expand_value-agree (other n) = refl

    expand_items-agree :
        (l : Items)
        → expand_items library whitelist getenv l ≡ expand_items library whitelist other_env l
    expand_items-agree nil = refl
    expand_items-agree (cons (string s) l) = rw (expand_str-agree s, expand_items-agree l) refl
    expand_items-agree (cons (map_value m) l) = rw (expand_map-agree m, expand_items-agree l) refl
    expand_items-agree (cons (slice r) l) = rw (expand_items-agree l) refl
    expand_items-agree (cons (other n) l) = rw (expand_items-agree l) refl

    expand_map-agree :
        (m : Fields)
        → expand_env_in_place library whitelist getenv m
          ≡ expand_env_in_place library whitelist other_env m
    expand_map-agree end = refl
    expand_map-agree (field k v m) = rw (expand_value-agree v, expand_map-agree m) refl

-- Two environments that agree on the names of the whitelist give the same settings, or the same error:
-- no other variable gets into the configuration.
pub normalize-whitelist :
    (crypto : Crypto) (library : Library) (whitelist : List Text)
    (at_key_path : Fields → Option Value)
    → (getenv other_env : Text → Text)
    → ((name : Text) → mem name whitelist ≡ true → getenv name ≡ other_env name)
    → (src : Fields)
    → normalize crypto library whitelist at_key_path getenv src
      ≡ normalize crypto library whitelist at_key_path other_env src
unfolding normalize
normalize-whitelist crypto library whitelist at_key_path getenv other_env agree src =
    rw (expand_map-agree library whitelist getenv other_env agree src) refl
