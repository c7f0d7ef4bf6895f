-- ===== src/Traffic/Fields.antt =====
-- The fields in Redis of the counters of pkg/traffic/tracker.go, and what the commands of a flush add
-- to them.
use compkg.Common.{
  ℕ, ◌+◌, ◌<◌, ◌≡◌, refl, sym, ap, ◌∙◌, inl, inr, true, false, ◌||◌, Bool-cases, List, [], ◌∷◌,
  ◌++◌, arith, if◌then◌else◌,
}
use mathlib.Core.Path.{subst}
use mathlib.Core.List.{append_cancel_right}
use compkg.Common.Int.{int64_half}
use compkg.Common.Text.{Text, same_text, same_text_self, same_text-true}
use compkg.Traffic.{
  Direction, PendingItem, Command, build_field, direction_text, positive, increment, commands,
  append_item,
}
use compkg.Traffic.Cells.{same_direction, same_cell, same_direction-true}

-- The sum that commands add to a field.
abbrev pub sum_of : Text → List Command → ℕ
sum_of field [] = 0
sum_of field ((f, n) ∷ more) = (if same_text f field then n else 0) + sum_of field more

-- What items have of a cell.
abbrev pub item_value : Direction → PendingItem → ℕ
item_value Direction.up i = i.up
item_value Direction.down i = i.down

abbrev pub held : Direction → Text → List PendingItem → ℕ
held dir nr [] = 0
held dir nr (i ∷ items) =
    (if same_text i.device_no nr then item_value dir i else 0) + held dir nr items

last_from : ℕ → Text → ℕ
last_from a [] = a
last_from a (b ∷ s) = last_from b s

last-append : (a b : ℕ) (s t : Text) → last_from a (s ++ b ∷ t) ≡ last_from b t
unfolding last_from
last-append a b [] t = refl
last-append a b (c ∷ s) t = last-append c b s t

last-field :
    (nr service : Text) (dir : Direction)
    → last_from 0 (build_field nr service dir) ≡ last_from 124 (direction_text dir)
unfolding build_field
last-field nr service dir =
    last-append 0 124 nr (service ++ (124 ∷ direction_text dir))
    ∙ last-append 124 124 service (direction_text dir)

numbers_apart : {A : Type 0} (a b : ℕ) → a ≡ b → b < a → A
numbers_apart a b h k = absurd (omega arith)

direction-last :
    (d e : Direction) → last_from 124 (direction_text d) ≡ last_from 124 (direction_text e) → d ≡ e
unfolding last_from
direction-last Direction.up Direction.up h = refl
direction-last Direction.down Direction.down h = refl
direction-last Direction.up Direction.down h = numbers_apart 112 110 h (omega arith)
direction-last Direction.down Direction.up h = numbers_apart 112 110 (sym h) (omega arith)

same_direction_self : (d : Direction) → same_direction d d ≡ true
same_direction_self Direction.up = refl
same_direction_self Direction.down = refl

build_field-direction :
    (service : Text) (d e : Direction) (nr other : Text)
    → build_field nr service d ≡ build_field other service e
    → d ≡ e
build_field-direction service d e nr other h =
    direction-last d e
      (sym (last-field nr service d) ∙ ap (last_from 0) h ∙ last-field other service e)

build_field-device :
    (service : Text) (d e : Direction) (nr other : Text)
    → build_field nr service d ≡ build_field other service e
    → nr ≡ other
unfolding build_field
build_field-device service d e nr other h =
    append_cancel_right nr other (124 ∷ (service ++ 124 ∷ direction_text d)) (
      h
      ∙ ap (λ x. other ++ 124 ∷ (service ++ 124 ∷ direction_text x))
          (sym (build_field-direction service d e nr other h)))

-- The fields of a service are those of its cells.
pub same-build_field :
    (service : Text) (d e : Direction) (nr other : Text)
    → same_text (build_field nr service d) (build_field other service e) ≡ same_cell nr d other e
same-build_field service d e nr other =
    let one = build_field nr service d in
    let two = build_field other service e in
    elim (Bool-cases (same_text one two)) [
      | inl same ↦
          let h = same_text-true one two same in
          let nrs : same_text nr other ≡ true =
            subst (λ x. same_text nr x ≡ true) (build_field-device service d e nr other h)
              (same_text_self nr) in
          let ds : same_direction d e ≡ true =
            subst (λ x. same_direction d x ≡ true) (build_field-direction service d e nr other h)
              (same_direction_self d) in
          same ∙ sym (rw nrs ds)
      | inr differs ↦
          differs
          ∙ sym (elim (Bool-cases (same_text nr other)) [
            | inr n ↦ rw n refl
            | inl n ↦ elim (Bool-cases (same_direction d e)) [
              | inr k ↦ rw n k
              | inl k ↦
                  let e1 = same_text-true nr other n in
                  let e2 = same_direction-true d e k in
                  let both : one ≡ two =
                    ap (λ x. build_field x service d) e1 ∙ ap (build_field other service) e2 in
                  cc (both, differs, same_text_self one)
            ]
          ])
    ]

-- What a command for a cell adds to a field, if the numbers of its own cell are below 2 ^ 63.
sum-increment :
    (service : Text) (d e : Direction) (nr other : Text) (n : ℕ) (more : List Command)
    → (same_cell other e nr d ≡ true → n < int64_half)
    → sum_of (build_field nr service d) (increment (build_field other service e) n more)
      ≡ (if same_cell other e nr d then n else 0) + sum_of (build_field nr service d) more
sum-increment service d e nr other n more h =
    let cell = same-build_field service e d other nr in
    elim (Bool-cases (positive n)) [
      | inl counts ↦ rw (counts, cell) refl
      | inr none_there ↦ elim (Bool-cases (same_cell other e nr d)) [
        | inl mine ↦
            let small = h mine in
            let zero_there : n ≡ 0 = ground arith in rw (none_there, mine) (omega arith)
        | inr alien ↦ rw (none_there, alien) (omega arith)
      ]
    ]

sum-item :
    (service : Text) (dir : Direction) (nr : Text) (i : PendingItem) (more : List Command)
    → (same_text i.device_no nr ≡ true → item_value dir i < int64_half)
    → sum_of (build_field nr service dir) (
        increment
          (build_field i.device_no service Direction.up)
          i.up
          (increment (build_field i.device_no service Direction.down) i.down more))
      ≡ (if same_text i.device_no nr then item_value dir i else 0)
        + sum_of (build_field nr service dir) more
sum-item service Direction.up nr i more h = elim (Bool-cases (same_text i.device_no nr)) [
  | inl mine ↦
      let first =
        sum-increment service Direction.up Direction.up nr i.device_no i.up
          (increment (build_field i.device_no service Direction.down) i.down more) (λ e. h mine) in
      let second =
        sum-increment service Direction.up Direction.down nr i.device_no i.down more
          (λ e. cc (rw mine at e)) in
      rw mine (omega (arith, rw mine at first, rw mine at second))
  | inr alien ↦
      let first =
        sum-increment service Direction.up Direction.up nr i.device_no i.up
          (increment (build_field i.device_no service Direction.down) i.down more)
          (λ e. cc (rw alien at e)) in
      let second =
        sum-increment service Direction.up Direction.down nr i.device_no i.down more
          (λ e. cc (rw alien at e)) in
      rw alien (omega (arith, rw alien at first, rw alien at second))
]
sum-item service Direction.down nr i more h = elim (Bool-cases (same_text i.device_no nr)) [
  | inl mine ↦
      let first =
        sum-increment service Direction.down Direction.up nr i.device_no i.up
          (increment (build_field i.device_no service Direction.down) i.down more)
          (λ e. cc (rw mine at e)) in
      let second =
        sum-increment service Direction.down Direction.down nr i.device_no i.down more
          (λ e. h mine) in
      rw mine (omega (arith, rw mine at first, rw mine at second))
  | inr alien ↦
      let first =
        sum-increment service Direction.down Direction.up nr i.device_no i.up
          (increment (build_field i.device_no service Direction.down) i.down more)
          (λ e. cc (rw alien at e)) in
      let second =
        sum-increment service Direction.down Direction.down nr i.device_no i.down more
          (λ e. cc (rw alien at e)) in
      rw alien (omega (arith, rw alien at first, rw alien at second))
]

pub sum-commands :
    (service : Text) (dir : Direction) (nr : Text) (items : List PendingItem)
    → held dir nr items < int64_half
    → sum_of (build_field nr service dir) (commands service items) ≡ held dir nr items
unfolding commands
sum-commands service dir nr [] h = refl
sum-commands service dir nr (i ∷ items) h =
    sum-item service dir nr i (commands service items) (λ e. let k = rw e at h in omega arith)
    ∙ ap (λ n. (if same_text i.device_no nr then item_value dir i else 0) + n)
        (sum-commands service dir nr items (omega arith))

not_positive :
    (dir : Direction) (other : Text) (u d : ℕ)
    → item_value dir (record { device_no = other; up = u; down = d }) < int64_half
    → (positive u || positive d) ≡ false
    → item_value dir (record { device_no = other; up = u; down = d }) ≡ 0
not_positive Direction.up other u d h k = ground arith
not_positive Direction.down other u d h k = ground arith

pub held-append :
    (dir : Direction) (nr : Text) (items more : List PendingItem)
    → held dir nr (items ++ more) ≡ held dir nr items + held dir nr more
held-append dir nr [] more = omega arith
held-append dir nr (i ∷ items) more = omega (arith, held-append dir nr items more)

-- Appending the item of a device takes over what was swapped out of its counters.
pub held-item :
    (dir : Direction) (nr other : Text) (u d : ℕ) (items : List PendingItem)
    → (same_text other nr ≡ true
        → item_value dir (record { device_no = other; up = u; down = d }) < int64_half)
    → held dir nr (append_item other u d items)
      ≡ held dir nr items
        + (if same_text other nr
            then item_value dir (record { device_no = other; up = u; down = d })
            else 0)
held-item dir nr other u d items h =
    let i : PendingItem = record { device_no = other; up = u; down = d } in
    elim (Bool-cases (positive u || positive d)) [
      | inl some_there ↦ rw some_there (omega (arith, held-append dir nr items (i ∷ [])))
      | inr none_there ↦ elim (Bool-cases (same_text other nr)) [
        | inr alien ↦ rw (none_there, alien) (omega arith)
        | inl mine ↦
            let zero_there : item_value dir i ≡ 0 =
              not_positive dir other u d (h mine) none_there in
            rw (none_there, mine) (omega (arith, zero_there))
      ]
    ]

-- The item of a device holds its two cells.
pub item_cells :
    (dir : Direction) (nr : Text) (i : PendingItem)
    → (if same_text i.device_no nr then item_value dir i else 0)
      ≡ (if same_cell i.device_no Direction.up nr dir then i.up else 0)
        + (if same_cell i.device_no Direction.down nr dir then i.down else 0)
item_cells Direction.up nr i = elim (Bool-cases (same_text i.device_no nr)) [
  | inl mine ↦ rw mine (omega arith)
  | inr alien ↦ rw alien refl
]
item_cells Direction.down nr i = elim (Bool-cases (same_text i.device_no nr)) [
  | inl mine ↦ rw mine (omega arith)
  | inr alien ↦ rw alien refl
]
