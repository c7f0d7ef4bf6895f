-- ===== src/Stringsx.antt =====
-- InStringArray of pkg/stringsx/stringsx.go. Text is its bytes, which the order of strings compares; a
-- sort is by insertion, and the array that the caller sees afterwards is a part of the result.
pub mod Search
use compkg.Common.{
  ℕ, zero, suc, Bool, true, false, ◌&&◌, Option, none, some, List, [], ◌∷◌, length, ltb, ◌==◌,
  if◌then◌else◌,
}
use compkg.Common.Text.{Text, same_text}

-- `s <= t`
abbrev pub leb_text : Text → Text → Bool
leb_text [] t = true
leb_text (a ∷ s) [] = false
leb_text (a ∷ s) (b ∷ t) = if ltb a b then true else (a == b) && leb_text s t

abbrev pub insert : Text → List Text → List Text
insert s [] = s ∷ []
insert s (t ∷ texts) = if leb_text s t then s ∷ t ∷ texts else t ∷ insert s texts

-- sort.Strings
unfoldable pub sort_strings : List Text → List Text
sort_strings [] = []
sort_strings (s ∷ texts) = insert s (sort_strings texts)

-- sort.SearchStrings of a sorted slice: the least index whose text is not less than the target.
unfoldable pub search_strings : List Text → Text → ℕ
search_strings [] target = 0
search_strings (s ∷ texts) target =
    if leb_text target s then 0 else suc (search_strings texts target)

abbrev pub text_at : ℕ → List Text → Option Text
text_at n [] = none
text_at zero (s ∷ texts) = some s
text_at (suc n) (s ∷ texts) = text_at n texts

abbrev pub is_text : Option Text → Text → Bool
is_text none target = false
is_text (some s) target = same_text s target

-- The answer, and the array after the call.
unfoldable pub in_string_array : Text → List Text → Bool × List Text
in_string_array target texts =
    let sorted = sort_strings texts in
    let index = search_strings sorted target in
    (ltb index (length sorted) && is_text (text_at index sorted) target, sorted)
