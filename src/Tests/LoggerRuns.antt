-- ===== src/Tests/LoggerRuns.antt =====
-- Runs of pkg/logger, with names compared byte by byte, and no patterns.
use compkg.Common.{ℕ, ◌+◌, ◌*◌, ◌<◌, ◌≤◌, ◌≡◌, refl, inl, inr, List, [], ◌∷◌, arith}
use compkg.Common.Int.{ℤ, pos, negsuc}
use compkg.Logger.Sampler.{new_sampler, allow, passed, low, high, passed-share}
use compkg.Common.Text.{Text, same_text}
use compkg.Logger.Sanitize.{
  stars, Matching, Value, text, other, default_sanitize_rules, apply_sanitize,
}
use compkg.Logger.Secrets.{apply_sanitize-secret}

abbrev debug_then_warn : List ℤ
debug_then_warn = negsuc 0 ∷ pos 0 ∷ pos 1 ∷ pos 0 ∷ pos 2 ∷ pos 0 ∷ []

passed_run : passed debug_then_warn (new_sampler (pos 3)) ≡ negsuc 0 ∷ pos 1 ∷ pos 2 ∷ pos 0 ∷ []
unfolding passed new_sampler allow
passed_run = refl

passed-share_example :
    (4 ≤ low (passed debug_then_warn (new_sampler (pos 3))) * 3)
    × ((low (passed debug_then_warn (new_sampler (pos 3))) * 3 < 4 + 3)
        × (high (passed debug_then_warn (new_sampler (pos 3))) ≡ pos 1 ∷ pos 2 ∷ []))
passed-share_example = passed-share debug_then_warn 3 (omega arith) (omega arith)

abbrev byte_matching : Matching
byte_matching = record {
  Regexp = Unit;
  to_lower = λ s. s;
  equal_fold = same_text;
  replace_all = λ p replace s. s;
}

abbrev number : Value ℕ
number = other 1234

-- "pwd", with a number that is no text.
apply_sanitize-secret_example :
    apply_sanitize byte_matching
      (default_sanitize_rules byte_matching tt tt)
      (112 ∷ 119 ∷ 100 ∷ [])
      number
    ≡ text (stars 3)
apply_sanitize-secret_example =
    apply_sanitize-secret byte_matching tt tt (112 ∷ 119 ∷ 100 ∷ []) number (inr (inr (inl refl)))

-- "5551234"
abbrev seven : Text
seven = 53 ∷ 53 ∷ 53 ∷ 49 ∷ 50 ∷ 51 ∷ 52 ∷ []
