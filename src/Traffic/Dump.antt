-- ===== src/Traffic/Dump.antt =====
-- The hourly dump of pkg/traffic/dao.go and the fields of pkg/traffic/store.go. Redis and the table are
-- the parameter `Stores`; the loop of SCAN is a part of it. Nothing else writes while a key is dumped.
pub mod Kept
pub mod Rounded
use compkg.Common.{
  ℕ, zero, suc, ◌+◌, ◌/◌, Bool, true, false, ◌&&◌, Option, none, some, List, [], ◌∷◌, ◌++◌, map,
  ◌==◌, ltb, if◌then◌else◌,
}
use compkg.Common.Int.{ℤ, pos, negsuc, is_nonpos, pos_part, sub_ℕ, add64, signed64}
use compkg.Common.Text.{Text, same_text}
use compkg.Traffic.{bar, Direction, direction_text}

abbrev pub Hash : Type 0
Hash = List (Text × Text)

-- What stands before and after the first bar.
unfoldable pub split_bar : Text → Option (Text × Text)
split_bar [] = none
split_bar (c ∷ s) =
    let rest = split_bar s in
    if c == bar then some ([], s) else elim rest [ none ↦ none | some (a, b) ↦ some (c ∷ a, b) ]

-- strings.SplitN into three parts
unfoldable pub parse_field : Text → Option (Text × (Text × Text))
parse_field field = elim (split_bar field) [
  | none ↦ none
  | some (device_no, rest) ↦ elim (split_bar rest) [
    | none ↦ none
    | some (service, dir) ↦ some (device_no, (service, dir))
  ]
]

pub record Aggregate : Type 0 where
  pub device_no : Text
  pub service : Text
  pub up : ℕ
  pub down : ℕ

pub record TrafficHourly : Type 0 where
  pub stat_time : ℕ
  pub device_no : Text
  pub service : Text
  pub up_kb : ℤ
  pub down_kb : ℤ

-- Rounded to the nearest; the addition wraps as on an int64, and the division goes towards 0.
abbrev kb_of : ℤ → ℤ
kb_of (pos n) = pos (n / 1024)
kb_of (negsuc n) = sub_ℕ 0 (suc n / 1024)

unfoldable pub bytes_to_kb : ℤ → ℤ
bytes_to_kb bytes = if is_nonpos bytes then pos 0 else kb_of (signed64 (add64 (pos_part bytes) 512))

abbrev count_bytes : Text → ℕ → Aggregate → Aggregate
count_bytes dir n v =
    if same_text dir (direction_text Direction.up)
    then record v { up = add64 v.up n }
    else (if same_text dir (direction_text Direction.down)
        then record v { down = add64 v.down n }
        else v)

-- The entry of a device and a service, made if it is not there.
unfoldable pub count_field : Text → Text → Text → ℕ → List Aggregate → List Aggregate
count_field device_no service dir n [] =
    count_bytes dir n record { device_no = device_no; service = service; up = 0; down = 0 } ∷ []
count_field device_no service dir n (v ∷ agg) =
    let rest = count_field device_no service dir n agg in
    if same_text v.device_no device_no && same_text v.service service
    then count_bytes dir n v ∷ agg
    else v ∷ rest

abbrev record_of : ℕ → Aggregate → TrafficHourly
record_of stat_time v = record {
  stat_time = stat_time;
  device_no = v.device_no;
  service = v.service;
  up_kb = bytes_to_kb (signed64 v.up);
  down_kb = bytes_to_kb (signed64 v.down);
}

-- `parse_int` is strconv.ParseInt.
module _ (parse_int : Text → Option ℤ) where
  unfoldable pub aggregate_field : Text × Text → List Aggregate → List Aggregate
  aggregate_field (field, val) agg = elim (parse_field field) [
    | none ↦ agg
    | some (device_no, (service, dir)) ↦ elim (parse_int val) [
      | none ↦ agg
      | some bytes ↦
          if is_nonpos bytes then agg else count_field device_no service dir (pos_part bytes) agg
    ]
  ]

  unfoldable pub aggregate_fields : Hash → List Aggregate → List Aggregate
  aggregate_fields [] agg = agg
  aggregate_fields (entry ∷ hash) agg = aggregate_fields hash (aggregate_field entry agg)

  unfoldable pub aggregate_hash_to_records : Hash → ℕ → List TrafficHourly
  aggregate_hash_to_records hash stat_time = map (record_of stat_time) (aggregate_fields hash [])

pub record Stores (W : Type 0) : Type 0 where
  -- The keys that SCAN gives, and the fields of a hash; none for an error.
  pub scan_hourly_keys : W → Option (List Text)
  pub h_get_all : Text → W → Option Hash
  pub del : Text → W → W
  -- The table's insertion with its update on a conflict, with whether there was no error.
  pub upsert_batch : List TrafficHourly → W → W × Bool
  -- The hour of a key, none if it cannot be parsed.
  pub extract_hour_from_key : Text → Option ℕ

pub data Fate : Type 0 where
  processed skipped failed emptied : Fate

module _ {W : Type 0} (stores : Stores W) (parse_int : Text → Option ℤ) (current_key : Text) where
  open stores use {scan_hourly_keys, h_get_all, del, upsert_batch, extract_hour_from_key}

  unfoldable pub dump_records : Text → List TrafficHourly → W → W × Fate
  dump_records key [] w = (del key w, emptied)
  dump_records key (r ∷ records) w =
      let (saved, ok) = upsert_batch (r ∷ records) w in
      if ok then (del key saved, processed) else (saved, failed)

  -- One round of the loop over the keys.
  unfoldable pub dump_key : Text → W → W × Fate
  dump_key key w =
      if same_text key current_key then (w, skipped) else elim (extract_hour_from_key key) [
        | none ↦ (w, skipped)
        | some stat_time ↦ elim (h_get_all key w) [
          | none ↦ (w, failed)
          | some hash ↦ dump_records key (aggregate_hash_to_records parse_int hash stat_time) w
        ]
      ]

  abbrev is_failed : Fate → Bool
  is_failed failed = true
  is_failed processed = false
  is_failed skipped = false
  is_failed emptied = false

  -- With whether no key failed.
  unfoldable pub dump_keys : List Text → W → W × Bool
  dump_keys [] w = (w, true)
  dump_keys (key ∷ keys) w =
      let (next, fate) = dump_key key w in
      let (last, ok) = dump_keys keys next in (last, if is_failed fate then false else ok)

  unfoldable pub dump_pending : W → W × Bool
  dump_pending w = elim (scan_hourly_keys w) [ none ↦ (w, false) | some keys ↦ dump_keys keys w ]
