-- ===== src/Logger/Secrets.antt =====
-- What the masking of pkg/logger/sanitize.go hides, and what it leaves.
use compkg.Common.{
  ◌≡◌, refl, ap, ◌⊎◌, inl, inr, true, false, Bool-cases, Option, none, some, List, [], ◌∷◌, ◌++◌,
  All, length, take-append-drop, ltb, arith,
}
use compkg.Common.Text.{Text}
use compkg.Logger.Sanitize.{
  stars, first_three, last_four, mask_all, mask_phone, mask_id_card, Matching, SanitizeRule, Value,
  text, other, secret_names, phone_names, card_names, is_empty, field_rules, default_sanitize_rules,
  field_rule, apply_sanitize, replace_value,
}

module _ (matching : Matching) where
  open matching use {Regexp, to_lower, equal_fold}

  -- The key is one of the names, whatever its case.
  abbrev pub Named : Text → List Text → Type 0
  Named key [] = ⊥
  Named key (name ∷ names) = (equal_fold (to_lower key) name ≡ true) ⊎ Named key names

  record Hit (replace : Text → Text) (found : Option (SanitizeRule Regexp)) : Type 0 where
    pub rule : SanitizeRule Regexp
    pub is_found : found ≡ some rule
    pub replaces : rule.replace ≡ replace

  field_rules-Hit :
      (replace : Text → Text) (key : Text) (names : List Text) (more : List (SanitizeRule Regexp))
      → All (λ name. is_empty name ≡ false) names
      → Named key names
      → Hit replace (field_rule matching (field_rules matching replace names more) (to_lower key))
  unfolding field_rule
  field_rules-Hit replace key (name ∷ names) more (full, fulls) named =
      let rule : SanitizeRule Regexp = record {
        field_name = name;
        pattern = none;
        replace = replace;
      } in
      elim (Bool-cases (equal_fold (to_lower key) name)) [
        | inl same ↦ rw (full, same) (record { rule = rule; is_found = refl; replaces = refl })
        | inr differs ↦
            rw (full, differs)
              (elim named [
                | inl same ↦ cc (same, differs)
                | inr later ↦ field_rules-Hit replace key names more fulls later
              ])
      ]
  field_rules-Hit replace key [] more full named = absurd named

  replaced :
      {Other : Type 0} (replace : Text → Text) (value : Value Other)
      → replace ≡ mask_all
      → replace_value matching replace value ≡ text (stars 3)
  unfolding mask_all
  replaced replace (text s) e = ap (λ f. text (f s)) e
  replaced replace (other x) e = refl

  -- With the default rules, a field whose key is a name of a password, a token or a key, in any case,
  -- is written as three stars, whatever its value is and whatever type it has.
  pub apply_sanitize-secret :
      {Other : Type 0} (phone card : Regexp) (key : Text) (value : Value Other)
      → Named key secret_names
      → apply_sanitize matching (default_sanitize_rules matching phone card) key value
        ≡ text (stars 3)
  unfolding apply_sanitize default_sanitize_rules mask_all
  apply_sanitize-secret phone card key value named =
      let more : List (SanitizeRule Regexp) = field_rules matching mask_phone phone_names (
        field_rules matching mask_id_card card_names (
          record { field_name = []; pattern = some phone; replace = mask_phone }
          ∷ record { field_name = []; pattern = some card; replace = mask_id_card }
          ∷ [])) in
      let hit =
        field_rules-Hit mask_all key secret_names more
          (refl, (refl, (refl, (refl, (refl, (refl, (refl, (refl, (refl, (refl, tt))))))))))
          named in
      rw (hit.is_found, apply_sanitize) (replaced hit.rule.replace value hit.replaces)

-- Of a number of seven bytes nothing is hidden: as an identity card it stays as it is, and as a phone
-- number it is written whole, around four stars.
mask-seven :
    (s : Text)
    → length s ≡ 7
    → (mask_id_card s ≡ s)
      × ((first_three s ++ last_four s ≡ s)
          × (mask_phone s ≡ first_three s ++ (stars 4 ++ last_four s)))
unfolding mask_id_card mask_phone
mask-seven s h =
    let long : ltb (length s) 7 ≡ false = ground arith in
    let whole : first_three s ++ last_four s ≡ s = rw h (take-append-drop 3 s) in
    (rw (long, h) (take-append-drop 3 s), (whole, rw long refl))
