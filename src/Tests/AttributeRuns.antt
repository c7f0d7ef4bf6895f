-- ===== src/Tests/AttributeRuns.antt =====
-- Runs of the attributes of a trace (pkg/trace), whose values are texts or numbers.
use compkg.Common.{ℕ, ◌≡◌, refl, ◌⊎◌, inl, inr, true, Option, some, [], ◌∷◌}
use compkg.Common.Text.{Text}
use compkg.Attributes.{Values, KeyValue, AttributePolicy, Span, set_attributes}
use compkg.Attributes.Hidden.{same_nil, refused_left, hashed, set_attributes-same}

abbrev text_of : Text ⊎ ℕ → Text
text_of (inl s) = s
text_of (inr n) = []

abbrev small_values : Values
small_values = record {
  Value = Text ⊎ ℕ;
  string_value = λ s. inl s;
  as_string = text_of;
  to_lower = λ s. s;
  digest = λ s. 35 ∷ s;
}

-- "pwd" is refused and "id" is hashed.
abbrev small_policy : AttributePolicy
small_policy = record { deny_keys = (112 ∷ 119 ∷ 100 ∷ []) ∷ []; hash_keys = (105 ∷ 100 ∷ []) ∷ [] }

abbrev id_value : ℕ → KeyValue (Text ⊎ ℕ)
id_value n = record { key = 105 ∷ 100 ∷ []; value = inr n }

abbrev password_value : KeyValue (Text ⊎ ℕ)
password_value = record { key = 112 ∷ 119 ∷ 100 ∷ []; value = inl (120 ∷ []) }

abbrev fresh_span : Option (Span (Text ⊎ ℕ))
fresh_span = some (record { is_recording = true; attributes = [] })

-- Two users with numbers for identifiers cannot be told apart.
set_attributes-same_example :
    set_attributes small_values (some small_policy) (password_value ∷ id_value 1 ∷ []) fresh_span
    ≡ set_attributes small_values (some small_policy) (id_value 2 ∷ []) fresh_span
set_attributes-same_example =
    set_attributes-same small_values small_policy (password_value ∷ id_value 1 ∷ [])
      (id_value 2 ∷ []) fresh_span (refused_left refl (hashed refl refl same_nil))
