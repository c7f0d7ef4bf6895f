-- ===== src/Attributes.antt =====
-- The policy for the attributes of a trace, pkg/trace/attributes.go. Text is its bytes. A span of
-- OpenTelemetry is what was written to it; the attributes' values, strings.ToLower and the digest are
-- a parameter, `Values`.
pub mod Hidden
use compkg.Common.{Bool, true, false, not, Option, none, some, List, [], ◌∷◌, ◌++◌, if◌then◌else◌}
use compkg.Common.Text.{Text, same_text}

pub record Values : Type 1 where
  pub Value : Type 0
  pub string_value : Text → Value
  -- AsString, which is empty for a value of another type.
  pub as_string : Value → Text
  pub to_lower : Text → Text
  -- The first twelve digits of the sha256 digest.
  pub digest : Text → Text

pub record KeyValue (Value : Type 0) : Type 0 where
  pub key : Text
  pub value : Value

-- The keys that are refused and those that are hashed, in lower case.
pub record AttributePolicy : Type 0 where
  pub deny_keys : List Text
  pub hash_keys : List Text

pub record Span (Value : Type 0) : Type 0 where
  pub is_recording : Bool
  pub attributes : List (KeyValue Value)

abbrev pub has_text : Text → List Text → Bool
has_text key [] = false
has_text key (k ∷ keys) = if same_text k key then true else has_text key keys

module _ (values : Values) where
  open values use {Value, string_value, as_string, to_lower, digest}

  unfoldable pub to_set : List Text → List Text
  to_set [] = []
  to_set (k ∷ keys) = to_lower k ∷ to_set keys

  abbrev pub hash_value : Text → Text
  hash_value [] = []
  hash_value (c ∷ s) = digest (c ∷ s)

  -- What the policy lets through.
  unfoldable pub clean : AttributePolicy → List (KeyValue Value) → List (KeyValue Value)
  clean policy [] = []
  clean policy (kv ∷ kvs) =
      let rest = clean policy kvs in
      if has_text (to_lower kv.key) policy.deny_keys
      then rest
      else if has_text (to_lower kv.key) policy.hash_keys
      then record { key = kv.key; value = string_value (hash_value (as_string kv.value)) } ∷ rest
      else kv ∷ rest

  -- There may be no span and no policy.
  unfoldable pub set_attributes :
      Option AttributePolicy → List (KeyValue Value) → Option (Span Value) → Option (Span Value)
  set_attributes policy kvs none = none
  set_attributes policy kvs (some span) = if not span.is_recording then some span else elim policy [
    | none ↦ some (record span { attributes = span.attributes ++ kvs })
    | some p ↦ some (record span { attributes = span.attributes ++ clean p kvs })
  ]
