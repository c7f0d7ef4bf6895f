-- ===== src/Traffic/Cells.antt =====
-- One counter of pkg/traffic/tracker.go, of a device and a direction, under the operations on all of
-- them.
use compkg.Common.{
  ℕ, ◌+◌, ◌<◌, ◌≡◌, refl, sym, ap, ◌∙◌, inl, inr, Bool, true, false, ◌&&◌, Bool-cases, List, [],
  ◌∷◌, arith, if◌then◌else◌,
}
use compkg.Common.Int.{add64, int64_half}
use compkg.Common.Text.{Text, same_text, same_text-true, same_text_sym}
use compkg.Traffic.{
  Direction, CounterPair, is_tracked, add, value_of, zero_of, add_pair, zero_pair, pair_value,
}

abbrev pub same_direction : Direction → Direction → Bool
same_direction Direction.up Direction.up = true
same_direction Direction.down Direction.down = true
same_direction Direction.up Direction.down = false
same_direction Direction.down Direction.up = false

abbrev pub same_cell : Text → Direction → Text → Direction → Bool
same_cell nr dir nr' dir' = same_text nr nr' && same_direction dir dir'

pair-zero :
    (d e : Direction) (p : CounterPair)
    → pair_value d (zero_pair e p) ≡ (if same_direction e d then 0 else pair_value d p)
pair-zero Direction.up Direction.up p = refl
pair-zero Direction.up Direction.down p = refl
pair-zero Direction.down Direction.up p = refl
pair-zero Direction.down Direction.down p = refl

pair-add :
    (d e : Direction) (n : ℕ) (p : CounterPair)
    → pair_value d (add_pair e n p)
      ≡ (if same_direction e d then add64 (pair_value d p) n else pair_value d p)
pair-add Direction.up Direction.up n p = refl
pair-add Direction.up Direction.down n p = refl
pair-add Direction.down Direction.up n p = refl
pair-add Direction.down Direction.down n p = refl

device-zero : (e : Direction) (p : CounterPair) → (zero_pair e p).device_no ≡ p.device_no
device-zero Direction.up p = refl
device-zero Direction.down p = refl

device-add : (e : Direction) (n : ℕ) (p : CounterPair) → (add_pair e n p).device_no ≡ p.device_no
device-add Direction.up n p = refl
device-add Direction.down n p = refl

other_device :
    (device nr other : Text)
    → same_text device nr ≡ true
    → same_text device other ≡ false
    → same_text other nr ≡ false
other_device device nr other mine there =
    ap (λ x. same_text other x) (sym (same_text-true device nr mine))
    ∙ same_text_sym other device
    ∙ there

pub value-zero :
    (dir e : Direction) (nr other : Text) (cs : List CounterPair)
    → value_of dir nr (zero_of e other cs)
      ≡ (if same_cell other e nr dir then 0 else value_of dir nr cs)
unfolding value_of zero_of
value-zero dir e nr other [] = elim (Bool-cases (same_cell other e nr dir)) [
  | inl same ↦ rw same refl
  | inr differs ↦ rw differs refl
]
value-zero dir e nr other (p ∷ cs) = elim (Bool-cases (same_text p.device_no other)) [
  | inl here ↦
      let at_other : same_text other nr ≡ same_text p.device_no nr =
        ap (λ x. same_text x nr) (sym (same_text-true p.device_no other here)) in
      elim (Bool-cases (same_text p.device_no nr)) [
        | inl mine ↦ rw (here, at_other, device-zero e p, mine) (pair-zero dir e p)
        | inr alien ↦ rw (here, at_other, device-zero e p, alien) refl
      ]
  | inr there ↦ elim (Bool-cases (same_text p.device_no nr)) [
    | inl mine ↦
        let apart = other_device p.device_no nr other mine there in rw (there, apart, mine) refl
    | inr alien ↦ rw (there, alien) (value-zero dir e nr other cs)
  ]
]

pub value-add :
    (dir e : Direction) (nr other : Text) (n : ℕ) (cs : List CounterPair)
    → is_tracked nr cs ≡ true
    → value_of dir nr (add e other n cs)
      ≡ (if same_cell other e nr dir then add64 (value_of dir nr cs) n else value_of dir nr cs)
unfolding value_of add is_tracked
value-add dir e nr other n [] h = cc h
value-add dir e nr other n (p ∷ cs) h = elim (Bool-cases (same_text p.device_no other)) [
  | inl here ↦
      let at_other : same_text other nr ≡ same_text p.device_no nr =
        ap (λ x. same_text x nr) (sym (same_text-true p.device_no other here)) in
      elim (Bool-cases (same_text p.device_no nr)) [
        | inl mine ↦ rw (here, at_other, device-add e n p, mine) (pair-add dir e n p)
        | inr alien ↦ rw (here, at_other, device-add e n p, alien) refl
      ]
  | inr there ↦ elim (Bool-cases (same_text p.device_no nr)) [
    | inl mine ↦
        let apart = other_device p.device_no nr other mine there in rw (there, apart, mine) refl
    | inr alien ↦ rw (there, alien) (value-add dir e nr other n cs (rw alien at h))
  ]
]

pub tracked-add :
    (e : Direction) (nr other : Text) (n : ℕ) (cs : List CounterPair)
    → is_tracked nr (add e other n cs) ≡ is_tracked nr cs
unfolding is_tracked add
tracked-add e nr other n [] = refl
tracked-add e nr other n (p ∷ cs) = elim (Bool-cases (same_text p.device_no other)) [
  | inl here ↦ rw (here, device-add e n p) refl
  | inr there ↦ rw (there, tracked-add e nr other n cs) refl
]

pub tracked-zero :
    (e : Direction) (nr other : Text) (cs : List CounterPair)
    → is_tracked nr (zero_of e other cs) ≡ is_tracked nr cs
unfolding is_tracked zero_of
tracked-zero e nr other [] = refl
tracked-zero e nr other (p ∷ cs) = elim (Bool-cases (same_text p.device_no other)) [
  | inl here ↦ rw (here, device-zero e p) refl
  | inr there ↦ rw (there, tracked-zero e nr other cs) refl
]

pub same_direction-true : (d e : Direction) → same_direction d e ≡ true → d ≡ e
same_direction-true Direction.up Direction.up h = refl
same_direction-true Direction.down Direction.down h = refl
same_direction-true Direction.up Direction.down h = cc h
same_direction-true Direction.down Direction.up h = cc h

-- What a swap takes from a cell is what it has less.
pub value-swap :
    (dir e : Direction) (nr other : Text) (cs : List CounterPair)
    → value_of dir nr (zero_of e other cs)
        + (if same_cell other e nr dir then value_of e other cs else 0)
      ≡ value_of dir nr cs
value-swap dir e nr other cs =
    let zeroed = value-zero dir e nr other cs in
    elim (Bool-cases (same_text other nr)) [
      | inr alien ↦ rw alien (omega (arith, rw alien at zeroed))
      | inl mine ↦ elim (Bool-cases (same_direction e dir)) [
        | inr across ↦ rw (mine, across) (omega (arith, rw (mine, across) at zeroed))
        | inl along ↦
            let same : value_of e other cs ≡ value_of dir nr cs =
              ap (λ x. value_of x other cs) (same_direction-true e dir along)
              ∙ ap (λ x. value_of dir x cs) (same_text-true other nr mine) in
            rw (mine, along) (omega (arith, same, rw (mine, along) at zeroed))
      ]
    ]

-- An addition that does not reach 2 ^ 63 is exact.
pub value-add_exact :
    (dir e : Direction) (nr other : Text) (n : ℕ) (cs : List CounterPair)
    → is_tracked nr cs ≡ true
    → value_of dir nr cs + (if same_cell other e nr dir then n else 0) < int64_half
    → value_of dir nr (add e other n cs)
      ≡ value_of dir nr cs + (if same_cell other e nr dir then n else 0)
value-add_exact dir e nr other n cs h b =
    value-add dir e nr other n cs h ∙ (elim (Bool-cases (same_cell other e nr dir)) [
      | inl mine ↦ let small = rw mine at b in rw mine (ground (arith, small))
      | inr alien ↦ rw alien (omega arith)
    ])
