-- ===== src/Logger/Sanitize.antt =====
-- Masking of secrets, pkg/logger/sanitize.go. Text is its bytes. Packages strings and regexp are a
-- parameter, `Matching`.
use compkg.Common.{
  ℕ, zero, suc, ◌-◌, Bool, true, false, not, Option, none, some, List, [], ◌∷◌, ◌++◌, length, take,
  drop, ltb, ◌&&◌, if◌then◌else◌,
}
use compkg.Common.Text.{Text}

abbrev pub star : ℕ
star = 42

-- strings.Repeat("*", n)
abbrev pub stars : ℕ → Text
stars zero = []
stars (suc n) = star ∷ stars n

-- `s[:3]` and `s[len(s)-4:]`
abbrev pub first_three : Text → Text
first_three s = take 3 s

abbrev pub last_four : Text → Text
last_four s = drop (length s - 4) s

unfoldable pub mask_all : Text → Text
mask_all s = stars 3

unfoldable pub mask_phone : Text → Text
mask_phone s =
    if ltb (length s) 7 then stars (length s) else first_three s ++ (stars 4 ++ last_four s)

unfoldable pub mask_id_card : Text → Text
mask_id_card s =
    if ltb (length s) 7
    then stars (length s)
    else first_three s ++ (stars (length s - 7) ++ last_four s)

pub record Matching : Type 1 where
  pub Regexp : Type 0
  pub to_lower : Text → Text
  pub equal_fold : Text → Text → Bool
  pub replace_all : Regexp → (Text → Text) → Text → Text

-- `FieldName` is empty where a rule has none.
pub record SanitizeRule (Regexp : Type 0) : Type 0 where
  pub field_name : Text
  pub pattern : Option Regexp
  pub replace : Text → Text

-- A field's value: text, or a value of another type.
pub data Value (Other : Type 0) : Type 0 where
  text : Text → Value Other
  other : Other → Value Other

abbrev pub is_empty : Text → Bool
is_empty [] = true
is_empty (c ∷ s) = false

-- The names of the fields that are masked whole, in the order of the rules, as bytes.
abbrev pub secret_names : List Text
secret_names =
    (112 ∷ 97 ∷ 115 ∷ 115 ∷ 119 ∷ 111 ∷ 114 ∷ 100 ∷ [])
    ∷ (112 ∷ 97 ∷ 115 ∷ 115 ∷ 119 ∷ 100 ∷ [])
    ∷ (112 ∷ 119 ∷ 100 ∷ [])
    ∷ (97 ∷ 99 ∷ 99 ∷ 101 ∷ 115 ∷ 115 ∷ 95 ∷ 116 ∷ 111 ∷ 107 ∷ 101 ∷ 110 ∷ [])
    ∷ (114 ∷ 101 ∷ 102 ∷ 114 ∷ 101 ∷ 115 ∷ 104 ∷ 95 ∷ 116 ∷ 111 ∷ 107 ∷ 101 ∷ 110 ∷ [])
    ∷ (115 ∷ 101 ∷ 99 ∷ 114 ∷ 101 ∷ 116 ∷ [])
    ∷ (97 ∷ 112 ∷ 105 ∷ 95 ∷ 107 ∷ 101 ∷ 121 ∷ [])
    ∷ (97 ∷ 112 ∷ 105 ∷ 107 ∷ 101 ∷ 121 ∷ [])
    ∷ (99 ∷ 97 ∷ 108 ∷ 108 ∷ 98 ∷ 97 ∷ 99 ∷ 107 ∷ 95 ∷ 115 ∷ 105 ∷ 103 ∷ 110 ∷ 95 ∷ 107 ∷ 101 ∷ 121
        ∷ [])
    ∷ (101 ∷ 110 ∷ 99 ∷ 114 ∷ 121 ∷ 112 ∷ 116 ∷ 95 ∷ 107 ∷ 101 ∷ 121 ∷ [])
    ∷ []

abbrev pub phone_names : List Text
phone_names = (112 ∷ 104 ∷ 111 ∷ 110 ∷ 101 ∷ []) ∷ (109 ∷ 111 ∷ 98 ∷ 105 ∷ 108 ∷ 101 ∷ []) ∷ []

abbrev pub card_names : List Text
card_names =
    (105 ∷ 100 ∷ 95 ∷ 99 ∷ 97 ∷ 114 ∷ 100 ∷ []) ∷ (105 ∷ 100 ∷ 99 ∷ 97 ∷ 114 ∷ 100 ∷ []) ∷ []

module _ (matching : Matching) where
  open matching use {Regexp, to_lower, equal_fold, replace_all}

  abbrev pub field_rules :
      (Text → Text) → List Text → List (SanitizeRule Regexp) → List (SanitizeRule Regexp)
  field_rules replace [] more = more
  field_rules replace (name ∷ names) more =
      record { field_name = name; pattern = none; replace = replace }
      ∷ field_rules replace names more

  -- The two patterns are for a phone number and an identity card in a text.
  unfoldable pub default_sanitize_rules : Regexp → Regexp → List (SanitizeRule Regexp)
  default_sanitize_rules phone card = field_rules mask_all secret_names (
      field_rules mask_phone phone_names (
        field_rules mask_id_card card_names (
          record { field_name = []; pattern = some phone; replace = mask_phone }
          ∷ record { field_name = []; pattern = some card; replace = mask_id_card }
          ∷ [])))

  -- The first rule whose field name is that of the key.
  unfoldable pub field_rule : List (SanitizeRule Regexp) → Text → Option (SanitizeRule Regexp)
  field_rule [] key = none
  field_rule (r ∷ rules) key =
      let rest = field_rule rules key in
      if not (is_empty r.field_name) && equal_fold key r.field_name then some r else rest

  unfoldable pub replace_patterns : List (SanitizeRule Regexp) → Text → Text
  replace_patterns [] s = s
  replace_patterns (r ∷ rules) s = elim r.pattern [
    | none ↦ replace_patterns rules s
    | some p ↦ replace_patterns rules (replace_all p r.replace s)
  ]

  abbrev pub replace_value : {Other : Type 0} → (Text → Text) → Value Other → Value Other
  replace_value replace (text s) = text (replace s)
  replace_value replace (other x) = text (stars 3)

  abbrev pub replace_text :
      {Other : Type 0} → List (SanitizeRule Regexp) → Value Other → Value Other
  replace_text rules (text s) = text (replace_patterns rules s)
  replace_text rules (other x) = other x

  unfoldable pub apply_sanitize :
      {Other : Type 0} → List (SanitizeRule Regexp) → Text → Value Other → Value Other
  apply_sanitize [] key value = value
  apply_sanitize (r ∷ rules) key value = elim (field_rule (r ∷ rules) (to_lower key)) [
    | some hit ↦ replace_value hit.replace value
    | none ↦ replace_text (r ∷ rules) value
  ]

  -- For no rules and for the empty text this is the text itself.
  unfoldable pub apply_message_sanitize : List (SanitizeRule Regexp) → Text → Text
  apply_message_sanitize [] msg = msg
  apply_message_sanitize (r ∷ rules) msg =
      if is_empty msg then msg else replace_patterns (r ∷ rules) msg
