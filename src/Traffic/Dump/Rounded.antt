-- ===== src/Traffic/Dump/Rounded.antt =====
-- What a record of the dump of pkg/traffic/dao.go holds: the fields that the flush writes, summed and
-- rounded.
use compkg.Common.{
  ℕ, ◌+◌, ◌-◌, ◌/◌, ◌%◌, ◌^◌, ◌<◌, ◌≡◌, refl, ap, ◌∙◌, inl, inr, Bool, true, false, Bool-cases,
  ◌&&◌, Option, none, some, Option-cases, List, [], ◌∷◌, ◌++◌, map, ◌==◌, if◌then◌else◌, arith,
}
use compkg.Common.Int.{ℤ, pos, negsuc, is_nonpos, pos_part, add64, signed64}
use compkg.Common.Text.{Text, same_text, same_text-true, same_text_self}
use compkg.Traffic.{bar, Direction, direction_text, build_field}
use compkg.Traffic.Dump.{
  Hash, Aggregate, TrafficHourly, split_bar, parse_field, bytes_to_kb, count_bytes, count_field,
  record_of, aggregate_field, aggregate_fields, aggregate_hash_to_records,
}
use compkg.Traffic.Dump.Kept.{record_at}

abbrev pub no_bar : Text → Bool
no_bar [] = true
no_bar (c ∷ s) = let rest = no_bar s in if c == bar then false else rest

split_bar-append : (s t : Text) → no_bar s ≡ true → split_bar (s ++ (bar ∷ t)) ≡ some (s, t)
unfolding split_bar
split_bar-append [] t h = refl
split_bar-append (c ∷ s) t h = elim (Bool-cases (c == bar)) [
  | inl e ↦ cc (rw e at h)
  | inr e ↦ rw (split_bar, split_bar-append s t (rw e at h), e) refl
]

-- A field that the flush writes is taken apart into its device, its service and its direction.
pub parse_field-build_field :
    (device_no service : Text) (dir : Direction)
    → no_bar device_no ≡ true
    → no_bar service ≡ true
    → parse_field (build_field device_no service dir)
      ≡ some (device_no, (service, direction_text dir))
unfolding parse_field build_field
parse_field-build_field device_no service dir d s =
    rw
      (
        parse_field,
        split_bar-append device_no (service ++ (bar ∷ direction_text dir)) d,
        split_bar-append service (direction_text dir) s,
      )
      refl

abbrev pub value_in : Direction → Aggregate → ℕ
value_in Direction.up v = v.up
value_in Direction.down v = v.down

abbrev pub is_of : Text → Text → Aggregate → Bool
is_of device_no service v = same_text v.device_no device_no && same_text v.service service

abbrev pub value_at : Direction → Text → Text → List Aggregate → ℕ
value_at dir device_no service [] = 0
value_at dir device_no service (v ∷ agg) =
    let rest = value_at dir device_no service agg in
    if is_of device_no service v then value_in dir v else rest

pos_part-is_nonpos : (n : ℤ) → is_nonpos n ≡ true → pos_part n ≡ 0
pos_part-is_nonpos (pos n) h = ground arith
pos_part-is_nonpos (negsuc n) h = refl

nothing :
    (d s : Text) (dir : Direction)
    → value_in dir record { device_no = d; service = s; up = 0; down = 0 } ≡ 0
nothing d s Direction.up = refl
nothing d s Direction.down = refl

count_bytes-value :
    (dir : Direction) (t : Text) (n : ℕ) (v : Aggregate)
    → value_in dir (count_bytes t n v)
      ≡ (if same_text t (direction_text dir) then add64 (value_in dir v) n else value_in dir v)
count_bytes-value Direction.up t n v =
    elim (Bool-cases (same_text t (direction_text Direction.up))) [
      | inl e ↦ rw e refl
      | inr e ↦ elim (Bool-cases (same_text t (direction_text Direction.down))) [
        | inl f ↦ rw (e, f) refl
        | inr f ↦ rw (e, f) refl
      ]
    ]
count_bytes-value Direction.down t n v =
    elim (Bool-cases (same_text t (direction_text Direction.up))) [
      | inl e ↦ rw (same_text-true t (direction_text Direction.up) e) refl
      | inr e ↦ elim (Bool-cases (same_text t (direction_text Direction.down))) [
        | inl f ↦ rw (e, f) refl
        | inr f ↦ rw (e, f) refl
      ]
    ]

count_bytes-is_of :
    (t : Text) (n : ℕ) (v : Aggregate) (d s : Text) → is_of d s (count_bytes t n v) ≡ is_of d s v
count_bytes-is_of t n v d s = elim (Bool-cases (same_text t (direction_text Direction.up))) [
  | inl e ↦ rw e refl
  | inr e ↦ elim (Bool-cases (same_text t (direction_text Direction.down))) [
    | inl f ↦ rw (e, f) refl
    | inr f ↦ rw (e, f) refl
  ]
]

abbrev same_pair : Text → Text → Text → Text → Bool
same_pair d s e t = same_text d e && same_text s t

same_pair-true : (d s e t : Text) → same_pair d s e t ≡ true → (d ≡ e) × (s ≡ t)
same_pair-true d s e t h =
    let left : same_text d e ≡ true = ground arith in
    let right : same_text s t ≡ true = ground arith in
    (same_text-true d e left, same_text-true s t right)

same_pair_self : (d s : Text) → same_pair d s d s ≡ true
same_pair_self d s = rw (same_text_self d, same_text_self s) refl

-- The bytes of a field's value that count for a device, a service and a direction.
module _ (parse_int : Text → Option ℤ) (dir : Direction) (device_no service : Text) where
  abbrev pub is_field : Option (Text × (Text × Text)) → Bool
  is_field none = false
  is_field (some (d, (s, t))) =
      (same_text d device_no && same_text s service) && same_text t (direction_text dir)

  abbrev pub bytes_of : Option ℤ → ℕ
  bytes_of none = 0
  bytes_of (some n) = pos_part n

  abbrev pub total : Hash → ℕ
  total [] = 0
  total ((field, val) ∷ hash) =
      let rest = total hash in
      if is_field (parse_field field) then bytes_of (parse_int val) + rest else rest

  count_field-value :
      (d s t : Text) (n : ℕ) (agg : List Aggregate)
      → value_at dir device_no service (count_field d s t n agg) ≡ (
          if is_field (some (d, (s, t)))
          then add64 (value_at dir device_no service agg) n
          else value_at dir device_no service agg)
  unfolding count_field
  count_field-value d s t n [] =
      let fresh : Aggregate = record { device_no = d; service = s; up = 0; down = 0 } in
      let val = count_bytes-value dir t n fresh in
      let of = count_bytes-is_of t n fresh device_no service in
      let none_yet : value_in dir fresh ≡ 0 = nothing d s dir in
      rw (of, val, none_yet) (ground arith)
  count_field-value d s t n (v ∷ agg) = elim (Bool-cases (same_pair v.device_no v.service d s)) [
    | inl e ↦
        let (same_d, same_s) = same_pair-true v.device_no v.service d s e in
        let val = count_bytes-value dir t n v in
        let of = count_bytes-is_of t n v device_no service in
        rw (e, of, val) (rw (same_d, same_s) (ground arith))
    | inr e ↦ elim (Bool-cases (is_of device_no service v)) [
      | inl f ↦
          let (at_d, at_s) = same_pair-true v.device_no v.service device_no service f in
          elim (Bool-cases (same_pair d s device_no service)) [
            | inl g ↦
                let (same_d, same_s) = same_pair-true d s device_no service g in
                cc (e, at_d, at_s, same_d, same_s, same_pair_self device_no service)
            | inr g ↦ rw (e, f, g) refl
          ]
      | inr f ↦ rw (e, f) (count_field-value d s t n agg)
    ]
  ]

  aggregate_field-value :
      (field val : Text) (agg : List Aggregate)
      → value_at dir device_no service agg < 2 ^ 64
      → value_at dir device_no service (aggregate_field parse_int (field, val) agg) ≡ (
          if is_field (parse_field field)
          then (value_at dir device_no service agg + bytes_of (parse_int val)) % 2 ^ 64
          else value_at dir device_no service agg)
  unfolding aggregate_field
  aggregate_field-value field val agg small = elim (Option-cases (parse_field field)) [
    | inl e ↦ rw (aggregate_field, e) refl
    | inr ((d, (s, t)), e) ↦ elim (Option-cases (parse_int val)) [
      | inl f ↦ rw (aggregate_field, e, f) (ground arith)
      | inr (n, f) ↦ elim (Bool-cases (is_nonpos n)) [
        | inl g ↦
            let zero_part = pos_part-is_nonpos n g in
            rw (aggregate_field, e, f, g, zero_part) (ground arith)
        | inr g ↦ rw (aggregate_field, e, f, g) (count_field-value d s t (pos_part n) agg)
      ]
    ]
  ]

  aggregate_fields-total :
      (hash : Hash) (agg : List Aggregate)
      → value_at dir device_no service agg < 2 ^ 64
      → value_at dir device_no service (aggregate_fields parse_int hash agg)
        ≡ (value_at dir device_no service agg + total hash) % 2 ^ 64
  unfolding aggregate_fields
  aggregate_fields-total [] agg small = omega arith
  aggregate_fields-total ((field, val) ∷ hash) agg small =
      let one = aggregate_field-value field val agg small in
      let rest = aggregate_fields-total hash (aggregate_field parse_int (field, val) agg) in
      let next = value_at dir device_no service (aggregate_field parse_int (field, val) agg) in
      elim (Bool-cases (is_field (parse_field field))) [
        | inl e ↦
            let now : next
                ≡ (value_at dir device_no service agg + bytes_of (parse_int val)) % 2 ^ 64 =
              one ∙ (rw e refl) in
            rest (omega arith) ∙ (rw e (omega arith))
        | inr e ↦
            let now : next ≡ value_at dir device_no service agg = one ∙ (rw e refl) in
            rest (omega arith) ∙ (rw e (omega arith))
      ]

bytes_to_kb-rounds :
    (n : ℕ) → n < 2 ^ 63 - 512 → bytes_to_kb (signed64 (n % 2 ^ 64)) ≡ pos ((n + 512) / 1024)
unfolding bytes_to_kb
bytes_to_kb-rounds n h = ground arith

abbrev pub kbs : Option TrafficHourly → ℤ × ℤ
kbs none = (pos 0, pos 0)
kbs (some r) = (r.up_kb, r.down_kb)

record_at-value_at :
    (hour : ℕ) (device_no service : Text) (agg : List Aggregate)
    → kbs (record_at hour device_no service (map (record_of hour) agg)) ≡ (
      bytes_to_kb (signed64 (value_at Direction.up device_no service agg)),
      bytes_to_kb (signed64 (value_at Direction.down device_no service agg)),
    )
record_at-value_at hour device_no service [] = unfold bytes_to_kb in refl
record_at-value_at hour device_no service (v ∷ agg) =
    let hours : hour == hour ≡ true = ground arith in
    elim (Bool-cases (is_of device_no service v)) [
      | inl e ↦ rw (hours, e) refl
      | inr e ↦ rw (hours, e) (record_at-value_at hour device_no service agg)
    ]

-- The record of a device and a service, and nothing where there is none, is what the positive values of
-- its fields in the hash sum up to, rounded to the nearest number of units of 1024 bytes, for each
-- direction, as long as that sum is below 2 ^ 63 - 512.
pub aggregate_hash_to_records-total :
    (parse_int : Text → Option ℤ) (hash : Hash) (hour : ℕ) (device_no service : Text)
    → total parse_int Direction.up device_no service hash < 2 ^ 63 - 512
    → total parse_int Direction.down device_no service hash < 2 ^ 63 - 512
    → kbs (record_at hour device_no service (aggregate_hash_to_records parse_int hash hour)) ≡ (
      pos ((total parse_int Direction.up device_no service hash + 512) / 1024),
      pos ((total parse_int Direction.down device_no service hash + 512) / 1024),
    )
unfolding aggregate_hash_to_records
aggregate_hash_to_records-total parse_int hash hour device_no service ups downs =
    let tu =
      aggregate_fields-total parse_int Direction.up device_no service hash [] (omega arith) in
    let td =
      aggregate_fields-total parse_int Direction.down device_no service hash [] (omega arith) in
    let u = total parse_int Direction.up device_no service hash in
    let d = total parse_int Direction.down device_no service hash in
    let up_kb : bytes_to_kb
          (signed64 (value_at Direction.up device_no service (aggregate_fields parse_int hash [])))
        ≡ pos ((u + 512) / 1024) =
      ap (λ n. bytes_to_kb (signed64 n)) (tu ∙ omega arith) ∙ bytes_to_kb-rounds u ups in
    let down_kb : bytes_to_kb (
          signed64 (value_at Direction.down device_no service (aggregate_fields parse_int hash [])))
        ≡ pos ((d + 512) / 1024) =
      ap (λ n. bytes_to_kb (signed64 n)) (td ∙ omega arith) ∙ bytes_to_kb-rounds d downs in
    record_at-value_at hour device_no service (aggregate_fields parse_int hash [])
    ∙ (rw (up_kb, down_kb) refl)
