-- ===== src/Stringsx/Search.antt =====
-- InStringArray of pkg/stringsx/stringsx.go is a test for membership.
use compkg.Common.{
  ℕ, suc, ◌<◌, ◌⊎◌, ◌≡◌, refl, ap, ◌∙◌, inl, inr, Bool, true, false, ◌&&◌, ◌||◌, Bool-cases, List,
  [], ◌∷◌, All, length, ltb, ◌==◌, arith,
}
use mathlib.Core.Path.{subst}
use compkg.Common.Text.{Text, same_text, same_text_self, same_text-true}
use compkg.Stringsx.{
  leb_text, insert, sort_strings, search_strings, text_at, is_text, in_string_array,
}

-- Whether the target is one of the texts.
abbrev pub contains : Text → List Text → Bool
contains target [] = false
contains target (s ∷ texts) = same_text s target || contains target texts

leb_text_self : (s : Text) → leb_text s s ≡ true
leb_text_self [] = refl
leb_text_self (a ∷ s) =
    let e : a == a ≡ true = ground arith in
    elim (Bool-cases (ltb a a)) [ inl lt ↦ rw lt refl | inr ge ↦ rw (ge, e, leb_text_self s) refl ]

-- The first bytes decide, or the rest if they are equal.
leb_text-cases :
    (a b : ℕ) (s t : Text)
    → leb_text (a ∷ s) (b ∷ t) ≡ true
    → (a < b) ⊎ ((a ≡ b) × (leb_text s t ≡ true))
leb_text-cases a b s t h = elim (Bool-cases (ltb a b)) [
  | inl lt ↦ inl (ground arith)
  | inr ge ↦ elim (Bool-cases (a == b)) [
    | inl eq ↦ inr (ground arith, rw (ge, eq) at h)
    | inr ne ↦ cc (rw (ge, ne) at h)
  ]
]

leb_text_less : (a b : ℕ) (s t : Text) → a < b → leb_text (a ∷ s) (b ∷ t) ≡ true
leb_text_less a b s t h = let lt : ltb a b ≡ true = ground arith in rw lt refl

leb_text_same :
    (a b : ℕ) (s t : Text) → a ≡ b → leb_text s t ≡ true → leb_text (a ∷ s) (b ∷ t) ≡ true
leb_text_same a b s t e h =
    let ge : ltb a b ≡ false = ground arith in
    let eq : a == b ≡ true = ground arith in rw (ge, eq) h

leb_text_total : (s t : Text) → leb_text s t ≡ false → leb_text t s ≡ true
leb_text_total [] t h = cc h
leb_text_total (a ∷ s) [] h = refl
leb_text_total (a ∷ s) (b ∷ t) h = elim (Bool-cases (ltb a b)) [
  | inl lt ↦ cc (rw lt at h)
  | inr ge ↦ elim (Bool-cases (a == b)) [
    | inl eq ↦ leb_text_same b a t s (ground arith) (leb_text_total s t (rw (ge, eq) at h))
    | inr ne ↦ leb_text_less b a t s (ground arith)
  ]
]

leb_text_trans : (s t u : Text) → leb_text s t ≡ true → leb_text t u ≡ true → leb_text s u ≡ true
leb_text_trans [] t u h k = refl
leb_text_trans (a ∷ s) [] u h k = cc h
leb_text_trans (a ∷ s) (b ∷ t) [] h k = cc k
leb_text_trans (a ∷ s) (b ∷ t) (c ∷ u) h k = elim (leb_text-cases a b s t h) [
  | inl lt ↦ elim (leb_text-cases b c t u k) [
    | inl later ↦ leb_text_less a c s u (omega arith)
    | inr (eq, rest) ↦ leb_text_less a c s u (omega arith)
  ]
  | inr (eq, first) ↦ elim (leb_text-cases b c t u k) [
    | inl later ↦ leb_text_less a c s u (omega arith)
    | inr (equal, rest) ↦ leb_text_same a c s u (omega arith) (leb_text_trans s t u first rest)
  ]
]

leb_text_antisym : (s t : Text) → leb_text s t ≡ true → leb_text t s ≡ true → s ≡ t
leb_text_antisym [] [] h k = refl
leb_text_antisym [] (b ∷ t) h k = cc k
leb_text_antisym (a ∷ s) [] h k = cc h
leb_text_antisym (a ∷ s) (b ∷ t) h k = elim (leb_text-cases a b s t h) [
  | inl lt ↦ elim (leb_text-cases b a t s k) [
    | inl gt ↦ absurd (omega arith)
    | inr (eq, rest) ↦ absurd (omega arith)
  ]
  | inr (eq, first) ↦ elim (leb_text-cases b a t s k) [
    | inl gt ↦ absurd (omega arith)
    | inr (equal, rest) ↦ let same = leb_text_antisym s t first rest in cc (eq, same)
  ]
]

-- Each text is at most the later ones.
abbrev pub Sorted : List Text → Type 0
Sorted [] = Unit
Sorted (s ∷ texts) = All (λ t. leb_text s t ≡ true) texts × Sorted texts

All-insert :
    (s u : Text) (texts : List Text)
    → leb_text s u ≡ true
    → All (λ t. leb_text s t ≡ true) texts
    → All (λ t. leb_text s t ≡ true) (insert u texts)
All-insert s u [] h k = (h, tt)
All-insert s u (t ∷ texts) h (k, ks) = elim (Bool-cases (leb_text u t)) [
  | inl le ↦ rw le (h, (k, ks))
  | inr gt ↦ rw gt (k, All-insert s u texts h ks)
]

All-trans :
    (s u : Text) (texts : List Text)
    → leb_text s u ≡ true
    → All (λ t. leb_text u t ≡ true) texts
    → All (λ t. leb_text s t ≡ true) texts
All-trans s u [] h k = tt
All-trans s u (t ∷ texts) h (k, ks) = (leb_text_trans s u t h k, All-trans s u texts h ks)

insert-Sorted : (s : Text) (texts : List Text) → Sorted texts → Sorted (insert s texts)
insert-Sorted s [] h = (tt, tt)
insert-Sorted s (t ∷ texts) (h, hs) = elim (Bool-cases (leb_text s t)) [
  | inl le ↦ rw le ((le, All-trans s t texts le h), (h, hs))
  | inr gt ↦ rw gt (All-insert t s texts (leb_text_total s t gt) h, insert-Sorted s texts hs)
]

sort_strings-Sorted : (texts : List Text) → Sorted (sort_strings texts)
unfolding sort_strings
sort_strings-Sorted [] = tt
sort_strings-Sorted (s ∷ texts) = insert-Sorted s (sort_strings texts) (sort_strings-Sorted texts)

or_swap : (a b c : Bool) → (a || (b || c)) ≡ (b || (a || c))
or_swap true true c = refl
or_swap true false c = refl
or_swap false true c = refl
or_swap false false c = refl

contains-insert :
    (target s : Text) (texts : List Text)
    → contains target (insert s texts) ≡ contains target (s ∷ texts)
contains-insert target s [] = refl
contains-insert target s (t ∷ texts) = elim (Bool-cases (leb_text s t)) [
  | inl le ↦ rw le refl
  | inr gt ↦
      rw (gt, contains-insert target s texts)
        (or_swap (same_text t target) (same_text s target) (contains target texts))
]

contains-sort_strings :
    (target : Text) (texts : List Text)
    → contains target (sort_strings texts) ≡ contains target texts
unfolding sort_strings
contains-sort_strings target [] = refl
contains-sort_strings target (s ∷ texts) =
    contains-insert target s (sort_strings texts)
    ∙ ap (λ b. same_text s target || b) (contains-sort_strings target texts)

abbrev found : Text → List Text → Bool
found target texts =
    let index = search_strings texts target in
    ltb index (length texts) && is_text (text_at index texts) target

-- A target that is not above a text, and is not it, is not behind it in a sorted slice.
absent :
    (target s : Text) (texts : List Text)
    → leb_text target s ≡ true
    → same_text s target ≡ false
    → All (λ t. leb_text s t ≡ true) texts
    → contains target texts ≡ false
absent target s [] h k all = refl
absent target s (t ∷ texts) h k (le, all) = elim (Bool-cases (same_text t target)) [
  | inl it ↦
      let at_target : leb_text s target ≡ true =
        subst (λ x. leb_text s x ≡ true) (same_text-true t target it) le in
      let equal : s ≡ target = leb_text_antisym s target at_target h in
      let self = same_text_self target in cc (ap (λ x. same_text x target) equal, self, k)
  | inr other ↦ rw other (absent target s texts h k all)
]

found-contains :
    (target : Text) (texts : List Text) → Sorted texts → found target texts ≡ contains target texts
unfolding search_strings
found-contains target [] h = refl
found-contains target (s ∷ texts) (h, hs) = elim (Bool-cases (leb_text target s)) [
  | inl here ↦
      let inside : ltb 0 (suc (length texts)) ≡ true = ground arith in
      elim (Bool-cases (same_text s target)) [
        | inl it ↦ rw (here, inside, it) refl
        | inr other ↦ rw (here, inside, other, absent target s texts here other h) refl
      ]
  | inr later ↦
      let other : same_text s target ≡ false = elim (Bool-cases (same_text s target)) [
        | inl it ↦
            let equal = same_text-true s target it in
            cc (ap (leb_text target) equal, leb_text_self target, later)
        | inr no_match ↦ no_match
      ] in
      let index = search_strings texts target in
      let step : ltb (suc index) (suc (length texts)) ≡ ltb index (length texts) = ground arith in
      rw (later, step, other) (found-contains target texts hs)
]

-- InStringArray, which sorts a slice and searches it, answers whether the target is one of its texts.
-- The slice of the caller is sorted afterwards, and has the same texts as before.
in_string_array-contains :
    (target other : Text) (texts : List Text)
    → ((in_string_array target texts).0 ≡ contains target texts)
      × (Sorted (in_string_array target texts).1
          × (contains other (in_string_array target texts).1 ≡ contains other texts))
unfolding in_string_array
in_string_array-contains target other texts = (
  found-contains target (sort_strings texts) (sort_strings-Sorted texts)
      ∙ contains-sort_strings target texts,
  (sort_strings-Sorted texts, contains-sort_strings other texts),
)
