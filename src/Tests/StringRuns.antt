-- ===== src/Tests/StringRuns.antt =====
-- A run of the search of pkg/stringsx.
use compkg.Common.{◌≡◌, refl, List, [], ◌∷◌}
use compkg.Common.Text.{Text}
use compkg.Stringsx.{in_string_array, sort_strings}

-- "b", "ab" and "a"
abbrev three_texts : List Text
three_texts = (98 ∷ []) ∷ (97 ∷ 98 ∷ []) ∷ (97 ∷ []) ∷ []

sorted_run : (in_string_array (98 ∷ []) three_texts).1 ≡ (97 ∷ []) ∷ (97 ∷ 98 ∷ []) ∷ (98 ∷ []) ∷ []
unfolding in_string_array sort_strings
sorted_run = refl
