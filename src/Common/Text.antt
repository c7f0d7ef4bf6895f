-- ===== src/Common/Text.antt =====
-- Text as its bytes, where a model takes it apart, with the test for equality.
use compkg.Common.{
  ℕ, ◌==◌, ◌&&◌, ◌≡◌, refl, sym, ◌∙◌, inl, inr, Bool, true, false, Bool-cases, List, [], ◌∷◌, arith,
}

abbrev pub Text : Type 0
Text = List ℕ

abbrev pub same_text : Text → Text → Bool
same_text [] [] = true
same_text (a ∷ s) (b ∷ t) = (a == b) && same_text s t
same_text [] (b ∷ t) = false
same_text (a ∷ s) [] = false

pub same_text_self : (s : Text) → same_text s s ≡ true
same_text_self [] = refl
same_text_self (a ∷ s) = let same : a == a ≡ true = ground arith in rw (same, same_text_self s) refl

pub same_text-true : (s t : Text) → same_text s t ≡ true → s ≡ t
same_text-true [] [] h = refl
same_text-true (a ∷ s) (b ∷ t) h = elim (Bool-cases (a == b)) [
  | inl same ↦ let e : a ≡ b = ground arith in cc (e, same_text-true s t (rw same at h))
  | inr differs ↦ cc (rw differs at h)
]
same_text-true [] (b ∷ t) h = cc h
same_text-true (a ∷ s) [] h = cc h

pub same_text_sym : (s t : Text) → same_text s t ≡ same_text t s
same_text_sym s t = elim (Bool-cases (same_text s t)) [
  | inl e ↦ let same = same_text-true s t e in cc (e, same, same_text_self s)
  | inr d ↦ elim (Bool-cases (same_text t s)) [
    | inl e ↦ let same = same_text-true t s e in cc (e, same, same_text_self s)
    | inr e ↦ d ∙ sym e
  ]
]
