-- ===== src/Metrics/Histogram/Extremes.antt =====
-- What the snapshots of pkg/metrics/histogram.go say of the samples.
use compkg.Common.{
  suc, ◌≡◌, refl, ap, sym, ◌∙◌, ◌⊎◌, inl, inr, Bool, true, false, Bool-cases, Option, some, List,
  [], ◌∷◌, All, length, if◌then◌else◌, arith,
}
use mathlib.Core.Path.{subst}
use compkg.Common.Float.{Float64}
use compkg.Metrics.Snapshot.{HistogramSnapshot}
use compkg.Metrics.Histogram.{
  less, insert, float64s, max_from, min_from, percentile, percent, snapshot_of, snapshot_sorted,
  calc_snapshot,
}

abbrev pub Member : {A : Type 0} → A → List A → Type 0
Member x [] = ⊥
Member x (y ∷ ys) = (x ≡ y) ⊎ Member x ys

-- The two ways that an insertion goes on, for the lemmas about it.
if-All :
    {A : Type 0} (P : A → Type 0) (b : Bool) (x y : A) (inserted ys : List A)
    → All P (if b then y ∷ inserted else x ∷ y ∷ ys)
    → (All P inserted → P x × All P ys)
    → P x × (P y × All P ys)
if-All P true x y inserted ys (py, h) k = let (px, pys) = k h in (px, (py, pys))
if-All P false x y inserted ys h k = h

if-Member :
    {A : Type 0} (b : Bool) (z x y : A) (inserted ys : List A)
    → Member z (if b then y ∷ inserted else x ∷ y ∷ ys)
    → (Member z inserted → (z ≡ x) ⊎ Member z ys)
    → (z ≡ x) ⊎ Member z (y ∷ ys)
if-Member true z x y inserted ys (inl e) k = inr (inl e)
if-Member true z x y inserted ys (inr h) k = elim (k h) [ inl e ↦ inl e | inr m ↦ inr (inr m) ]
if-Member false z x y inserted ys h k = h

if-length :
    {A : Type 0} (b : Bool) (x y : A) (inserted ys : List A)
    → length inserted ≡ suc (length ys)
    → length (if b then y ∷ inserted else x ∷ y ∷ ys) ≡ suc (suc (length ys))
if-length true x y inserted ys h = ap suc h
if-length false x y inserted ys h = refl

-- A running extreme: the start, or one of the elements seen.
step-Member :
    {A : Type 0} (b : Bool) (z m v : A) (vs : List A)
    → (z ≡ (if b then v else m)) ⊎ Member z vs
    → (z ≡ m) ⊎ Member z (v ∷ vs)
step-Member true z m v vs (inl e) = inr (inl e)
step-Member false z m v vs (inl e) = inl e
step-Member b z m v vs (inr h) = inr (inr h)

-- The running value only grows, and what it passes by is not above it.
abbrev Reaches : {A : Type 0} → (A → A → Bool) → A → A → Type 0
Reaches lt m z = (z ≡ m) ⊎ (lt m z ≡ true)

module _ {A : Type 0} (lt : A → A → Bool) (irrefl : (a : A) → lt a a ≡ false)
    (trans : (a b c : A) → lt a b ≡ true → lt b c ≡ true → lt a c ≡ true) where
  reach-go :
      (b : Bool) (z m v : A)
      → lt m v ≡ b
      → Reaches lt (if b then v else m) z
      → Reaches lt m z × (lt z v ≡ false)
  reach-go true z m v e (inl p) =
      (inr (subst (λ w. lt m w ≡ true) (sym p) e), subst (λ w. lt w v ≡ false) (sym p) (irrefl v))
  reach-go true z m v e (inr q) = (
    inr (trans m v z e q),
    elim (Bool-cases (lt z v)) [ inl k ↦ cc (trans z v z k q, irrefl z) | inr k ↦ k ],
  )
  reach-go false z m v e (inl p) = (inl p, subst (λ w. lt w v ≡ false) (sym p) e)
  reach-go false z m v e (inr q) =
      (inr q, elim (Bool-cases (lt z v)) [ inl k ↦ cc (trans m z v q k, e) | inr k ↦ k ])

  reach-step :
      (z m v : A) → Reaches lt (if lt m v then v else m) z → Reaches lt m z × (lt z v ≡ false)
  reach-step z m v h = reach-go (lt m v) z m v refl h

module _ (F : Float64) where
  open F use {Float, lt, smallest, largest}

  -- What a snapshot says of the samples it was made of.
  pub record Describes (vs : List Float) (s : HistogramSnapshot Float) : Type 0 where
    pub counts : s.count ≡ length vs
    pub above : All (λ v. lt s.max v ≡ false) vs
    pub below : All (λ v. lt v s.min ≡ false) vs
    pub max_member : (s.max ≡ smallest) ⊎ Member s.max vs
    pub min_member : (s.min ≡ largest) ⊎ Member s.min vs

  insert-All :
      (P : Float → Type 0) (x : Float) (ys : List Float) → All P (insert F x ys) → P x × All P ys
  unfolding insert
  insert-All P x [] h = h
  insert-All P x (y ∷ ys) h = if-All P (less F y x) x y (insert F x ys) ys h (insert-All P x ys)

  float64s-All : (P : Float → Type 0) (xs : List Float) → All P (float64s F xs) → All P xs
  unfolding float64s
  float64s-All P [] h = tt
  float64s-All P (x ∷ xs) h =
      let (px, rest) = insert-All P x (float64s F xs) h in (px, float64s-All P xs rest)

  insert-Member : (z x : Float) (ys : List Float) → Member z (insert F x ys) → (z ≡ x) ⊎ Member z ys
  unfolding insert
  insert-Member z x [] h = h
  insert-Member z x (y ∷ ys) h =
      if-Member (less F y x) z x y (insert F x ys) ys h (insert-Member z x ys)

  float64s-Member : (z : Float) (xs : List Float) → Member z (float64s F xs) → Member z xs
  unfolding float64s
  float64s-Member z [] h = h
  float64s-Member z (x ∷ xs) h = elim (insert-Member z x (float64s F xs) h) [
    | inl e ↦ inl e
    | inr m ↦ inr (float64s-Member z xs m)
  ]

  sorted-Member :
      (start z : Float) (xs : List Float)
      → (z ≡ start) ⊎ Member z (float64s F xs)
      → (z ≡ start) ⊎ Member z xs
  sorted-Member start z xs (inl e) = inl e
  sorted-Member start z xs (inr h) = inr (float64s-Member z xs h)

  snapshot_of-some :
      (sorted : List Float) (p q r : Option Float) (s : HistogramSnapshot Float)
      → snapshot_of F sorted p q r ≡ some s
      → (s.count ≡ length sorted)
        × (s.max ≡ max_from F smallest sorted)
        × (s.min ≡ min_from F largest sorted)
  unfolding snapshot_of
  snapshot_of-some sorted p q r s h = ground arith

  length-insert : (x : Float) (ys : List Float) → length (insert F x ys) ≡ suc (length ys)
  unfolding insert
  length-insert x [] = refl
  length-insert x (y ∷ ys) = if-length (less F y x) x y (insert F x ys) ys (length-insert x ys)

  pub length-float64s : (xs : List Float) → length (float64s F xs) ≡ length xs
  unfolding float64s
  length-float64s [] = refl
  length-float64s (x ∷ xs) = length-insert x (float64s F xs) ∙ ap suc (length-float64s xs)

  max_from-Member :
      (m : Float) (vs : List Float) → (max_from F m vs ≡ m) ⊎ Member (max_from F m vs) vs
  unfolding max_from
  max_from-Member m [] = inl refl
  max_from-Member m (v ∷ vs) =
      let m' = if lt m v then v else m in
      step-Member (lt m v) (max_from F m' vs) m v vs (max_from-Member m' vs)

  min_from-Member :
      (m : Float) (vs : List Float) → (min_from F m vs ≡ m) ⊎ Member (min_from F m vs) vs
  unfolding min_from
  min_from-Member m [] = inl refl
  min_from-Member m (v ∷ vs) =
      let m' = if lt v m then v else m in
      step-Member (lt v m) (min_from F m' vs) m v vs (min_from-Member m' vs)

  module _ (irrefl : (a : Float) → lt a a ≡ false)
      (trans : (a b c : Float) → lt a b ≡ true → lt b c ≡ true → lt a c ≡ true) where
    max_from-above :
        (m : Float) (vs : List Float)
        → Reaches lt m (max_from F m vs) × All (λ v. lt (max_from F m vs) v ≡ false) vs
    unfolding max_from
    max_from-above m [] = (inl refl, tt)
    max_from-above m (v ∷ vs) =
        let (reached, rest) = max_from-above (if lt m v then v else m) vs in
        let (r, p) =
          reach-step lt irrefl trans (max_from F (if lt m v then v else m) vs) m v reached in
        (r, (p, rest))

    min_from-below :
        (m : Float) (vs : List Float)
        → Reaches (λ a b. lt b a) m (min_from F m vs) × All (λ v. lt v (min_from F m vs) ≡ false) vs
    unfolding min_from
    min_from-below m [] = (inl refl, tt)
    min_from-below m (v ∷ vs) =
        let (reached, rest) = min_from-below (if lt v m then v else m) vs in
        let (r, p) =
          reach-step (λ a b. lt b a) irrefl (λ a b c p q. trans c b a q p)
            (min_from F (if lt v m then v else m) vs) m v reached in
        (r, (p, rest))

    -- The snapshot of one sample or more, whenever there is one: its count is that of the samples, no
    -- sample is above its maximum or below its minimum, and each is a sample or the value that the
    -- loop starts from.
    pub calc_snapshot-Describes :
        (v : Float) (vs : List Float) (s : HistogramSnapshot Float)
        → calc_snapshot F (v ∷ vs) ≡ some s
        → Describes (v ∷ vs) s
    unfolding calc_snapshot snapshot_sorted
    calc_snapshot-Describes v vs s h =
        let sorted = float64s F (v ∷ vs) in
        let (counted, top, bottom) =
          snapshot_of-some sorted (percentile F sorted (percent F 50))
            (percentile F sorted (percent F 95)) (percentile F sorted (percent F 99)) s h in
        record {
          counts = counted ∙ length-float64s (v ∷ vs);
          above =
              float64s-All (λ x. lt s.max x ≡ false) (v ∷ vs)
                (subst (λ m. All (λ x. lt m x ≡ false) sorted) (sym top)
                  (max_from-above smallest sorted).1);
          below =
              float64s-All (λ x. lt x s.min ≡ false) (v ∷ vs)
                (subst (λ m. All (λ x. lt x m ≡ false) sorted) (sym bottom)
                  (min_from-below largest sorted).1);
          max_member =
              subst (λ m. (m ≡ smallest) ⊎ Member m (v ∷ vs)) (sym top)
                (sorted-Member smallest (max_from F smallest sorted) (v ∷ vs)
                  (max_from-Member smallest sorted));
          min_member =
              subst (λ m. (m ≡ largest) ⊎ Member m (v ∷ vs)) (sym bottom)
                (sorted-Member largest (min_from F largest sorted) (v ∷ vs)
                  (min_from-Member largest sorted));
        }
