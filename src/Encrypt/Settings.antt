-- ===== src/Encrypt/Settings.antt =====
-- The settings of a configuration, and DecryptMap with decryptMap and decryptSlice of
-- pkg/encrypt/config.go. The fields of a map stand in the order in which it is ranged over. A map that is
-- left half decrypted at an error is dropped by the caller: its content is not a part of the outcome.
use compkg.Common.{
  ℕ, ◌≡◌, refl, ◌⊎◌, inl, inr, Bool, true, false, Bool-cases, ◌&&◌, if◌then◌else◌, arith,
}
use compkg.Common.Text.{Text}
use compkg.Encrypt.{Bytes, Outcome, returned, failed, panicked, ◌>>=◌, Crypto}
use compkg.Encrypt.Values.{is_encrypted, decrypt_config_value, gcm_decrypt}

mutual
  pub data Value : Type 0 where
    string : Text → Value
    map_value : Fields → Value
    slice : Items → Value
    -- null, a number or a truth value
    other : ℕ → Value

  pub data Items : Type 0 where
    nil : Items
    cons : Value → Items → Items

  pub data Fields : Type 0 where
    end : Fields
    field : Text → Value → Fields → Fields

-- Every text of the settings, changed by a function, or tested.
unfoldable mutual
  pub map_texts : (Text → Text) → Value → Value
  map_texts f (string s) = string (f s)
  map_texts f (map_value m) = map_value (map_texts_fields f m)
  map_texts f (slice l) = slice (map_texts_items f l)
  map_texts f (other n) = other n

  pub map_texts_items : (Text → Text) → Items → Items
  map_texts_items f nil = nil
  map_texts_items f (cons v l) = cons (map_texts f v) (map_texts_items f l)

  pub map_texts_fields : (Text → Text) → Fields → Fields
  map_texts_fields f end = end
  map_texts_fields f (field k v m) = field k (map_texts f v) (map_texts_fields f m)

unfoldable mutual
  pub all_texts : (Text → Bool) → Value → Bool
  all_texts p (string s) = p s
  all_texts p (map_value m) = all_texts_fields p m
  all_texts p (slice l) = all_texts_items p l
  all_texts p (other n) = true

  pub all_texts_items : (Text → Bool) → Items → Bool
  all_texts_items p nil = true
  all_texts_items p (cons v l) = all_texts p v && all_texts_items p l

  pub all_texts_fields : (Text → Bool) → Fields → Bool
  all_texts_fields p end = true
  all_texts_fields p (field k v m) = all_texts p v && all_texts_fields p m

-- Whether a value is encrypted and does not open under the key, and what it stands for if it does.
abbrev pub is_returned : {A : Type 0} → Outcome A → Bool
is_returned (returned a) = true
is_returned failed = false
is_returned panicked = false

abbrev pub returned_or : {A : Type 0} → A → Outcome A → A
returned_or d (returned a) = a
returned_or d failed = d
returned_or d panicked = d

module _ (crypto : Crypto) (key : Bytes) where
  unfoldable mutual
    pub decrypt_value : Value → Outcome Value
    decrypt_value (string s) =
        if is_encrypted s
        then (do t ← decrypt_config_value crypto key s; returned (string t))
        else returned (string s)
    decrypt_value (map_value m) = do n ← decrypt_map m; returned (map_value n)
    decrypt_value (slice l) = do r ← decrypt_slice l; returned (slice r)
    decrypt_value (other n) = returned (other n)

    pub decrypt_slice : Items → Outcome Items
    decrypt_slice nil = returned nil
    decrypt_slice (cons v l) = do w ← decrypt_value v; r ← decrypt_slice l; returned (cons w r)

    pub decrypt_map : Fields → Outcome Fields
    decrypt_map end = returned end
    decrypt_map (field k v m) = do w ← decrypt_value v; n ← decrypt_map m; returned (field k w n)

  abbrev pub opens : Text → Bool
  opens s = is_returned (decrypt_config_value crypto key s)

  abbrev pub opened : Text → Text
  opened s = returned_or s (decrypt_config_value crypto key s)

  -- A text that is not marked opens to itself.
  pub opened_plain : (s : Text) → is_encrypted s ≡ false → (opens s ≡ true) × (opened s ≡ s)
  unfolding decrypt_config_value
  opened_plain s plain = rw plain (refl, refl)

  opens-cases :
      (s : Text)
      → ((opens s ≡ true) × (decrypt_config_value crypto key s ≡ returned (opened s)))
        ⊎ ((opens s ≡ false) × (decrypt_config_value crypto key s ≡ failed))
  unfolding decrypt_config_value gcm_decrypt
  opens-cases s = ground arith

  mutual
    unfolding map_texts all_texts decrypt_value

    decrypt_value-opens :
        (v : Value)
        → decrypt_value v ≡ (if all_texts opens v then returned (map_texts opened v) else failed)
    decrypt_value-opens (string s) = elim (Bool-cases (is_encrypted s)) [
      | inl e ↦ elim (opens-cases s) [
        | inl (yes_, o) ↦ rw (e, yes_, o) refl
        | inr (no_, o) ↦ rw (e, no_, o) refl
      ]
      | inr e ↦ let (a, b) = opened_plain s e in rw (e, a, b) refl
    ]
    decrypt_value-opens (map_value m) = rw (decrypt_map-opens m) (ground arith)
    decrypt_value-opens (slice l) = rw (decrypt_slice-opens l) (ground arith)
    decrypt_value-opens (other n) = refl

    decrypt_slice-opens :
        (l : Items)
        → decrypt_slice l
          ≡ (if all_texts_items opens l then returned (map_texts_items opened l) else failed)
    decrypt_slice-opens nil = refl
    decrypt_slice-opens (cons v l) =
        rw (decrypt_value-opens v, decrypt_slice-opens l) (ground arith)

    -- The decryption of a map succeeds if all of its texts that are marked open under the key, at every
    -- depth of maps and lists, and then each of them is replaced by what it opens to and nothing else
    -- changes.
    pub decrypt_map-opens :
        (m : Fields)
        → decrypt_map m
          ≡ (if all_texts_fields opens m then returned (map_texts_fields opened m) else failed)
    decrypt_map-opens end = refl
    decrypt_map-opens (field k v m) = rw (decrypt_value-opens v, decrypt_map-opens m) (ground arith)
