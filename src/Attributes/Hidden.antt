-- ===== src/Attributes/Hidden.antt =====
-- What the policy of pkg/trace/attributes.go keeps out of a trace.
use compkg.Common.{◌≡◌, refl, inl, inr, true, Bool-cases, Option, none, some, List, [], ◌∷◌}
use compkg.Common.Text.{Text}
use compkg.Attributes.{
  Values, KeyValue, AttributePolicy, Span, has_text, hash_value, clean, set_attributes,
}

module _ (values : Values) where
  open values use {Value, as_string, to_lower}

  -- Attributes that differ only in what is not to be seen: the values, and the number, of those under
  -- refused keys, and the values with one digest under a hashed key.
  pub data SameVisible (policy : AttributePolicy)
      : List (KeyValue Value) → List (KeyValue Value) → Type 0 where
    same_nil : SameVisible policy [] []
    same_one :
        {kv : KeyValue Value} {kvs others : List (KeyValue Value)}
        → SameVisible policy kvs others
        → SameVisible policy (kv ∷ kvs) (kv ∷ others)
    refused_left :
        {kv : KeyValue Value} {kvs others : List (KeyValue Value)}
        → has_text (to_lower kv.key) policy.deny_keys ≡ true
        → SameVisible policy kvs others
        → SameVisible policy (kv ∷ kvs) others
    refused_right :
        {kv : KeyValue Value} {kvs others : List (KeyValue Value)}
        → has_text (to_lower kv.key) policy.deny_keys ≡ true
        → SameVisible policy kvs others
        → SameVisible policy kvs (kv ∷ others)
    hashed :
        {k : Text} {a b : Value} {kvs others : List (KeyValue Value)}
        → has_text (to_lower k) policy.hash_keys ≡ true
        → hash_value values (as_string a) ≡ hash_value values (as_string b)
        → SameVisible policy kvs others
        → SameVisible policy
            (record { key = k; value = a } ∷ kvs)
            (record { key = k; value = b } ∷ others)

  clean-same :
      (policy : AttributePolicy) (kvs others : List (KeyValue Value))
      → SameVisible policy kvs others
      → clean values policy kvs ≡ clean values policy others
  unfolding clean
  clean-same policy _ _ same_nil = refl
  clean-same policy (kv ∷ kvs) (_ ∷ others) (same_one h) = rw (clean-same policy kvs others h) refl
  clean-same policy (kv ∷ kvs) others (refused_left e h) = rw e (clean-same policy kvs others h)
  clean-same policy kvs (kv ∷ others) (refused_right e h) = rw e (clean-same policy kvs others h)
  clean-same policy (a ∷ kvs) (b ∷ others) (hashed e d h) =
      elim (Bool-cases (has_text (to_lower a.key) policy.deny_keys)) [
        | inl refused ↦ rw refused (clean-same policy kvs others h)
        | inr kept ↦ rw (kept, e, d, clean-same policy kvs others h) refl
      ]

  -- Under a policy, what is written to a span does not depend on the values under refused keys, in any
  -- case of the letters, nor on whether there are any, and on a value under a hashed key only by its
  -- digest as a text.
  pub set_attributes-same :
      (policy : AttributePolicy) (kvs others : List (KeyValue Value)) (span : Option (Span Value))
      → SameVisible policy kvs others
      → set_attributes values (some policy) kvs span
        ≡ set_attributes values (some policy) others span
  unfolding set_attributes
  set_attributes-same policy kvs others none h = refl
  set_attributes-same policy kvs others (some span) h = rw (clean-same policy kvs others h) refl
