-- ===== src/Tests/DumpRuns.antt =====
-- A run of the hourly dump of pkg/traffic, on stores that are functions.
use compkg.Common.{
  ℕ, ◌+◌, ◌-◌, ◌/◌, ◌^◌, ◌<◌, ◌≡◌, refl, inl, Bool, true, false, Option, none, some, List, [], ◌∷◌,
  ◌==◌, if◌then◌else◌, arith, ◌&&◌,
}
use compkg.Common.Int.{ℤ, pos}
use compkg.Common.Text.{Text, same_text, same_text_self}
use compkg.Traffic.{Direction}
use compkg.Traffic.Dump.{
  Hash, TrafficHourly, Stores, split_bar, parse_field, bytes_to_kb, count_field, aggregate_field,
  aggregate_fields, aggregate_hash_to_records, dump_pending,
}
use compkg.Traffic.Dump.Kept.{IsKeeping, Row, row_of, record_at, Kept, dump_pending-Kept}
use compkg.Traffic.Dump.Rounded.{kbs, total, aggregate_hash_to_records-total}

record World : Type 0 where
  keys : List Text
  hashes : Text → Hash
  rows : ℕ → Text → Text → Option Row

abbrev row_or : Option Row → Option TrafficHourly → Option Row
row_or old none = old
row_or old (some r) = some (row_of r)

-- A key is the number of its hour.
abbrev hour_of : Text → Option ℕ
hour_of [] = none
hour_of (c ∷ []) = some c
hour_of (c ∷ d ∷ s) = none

abbrev function_stores : Stores World
function_stores = record {
  scan_hourly_keys = λ w. some w.keys;
  h_get_all = λ key w. some (w.hashes key);
  del = λ key w. record w { hashes = λ j. if same_text key j then [] else w.hashes j };
  upsert_batch = λ records w.
      (record w { rows = λ hour d s. row_or (w.rows hour d s) (record_at hour d s records) }, true);
  extract_hour_from_key = hour_of;
}

function_stores-IsKeeping : IsKeeping function_stores (λ w. w.hashes) (λ w. w.rows)
function_stores-IsKeeping = record {
  h_get_all_lem = λ key w h e. some_hash e;
  del_self = λ key w. inl (rw (same_text_self key) refl);
  del_other = λ key other w differs. rw differs refl;
  del_row = λ key w. refl;
  upsert_hash = λ records w. refl;
  upsert_row = λ records w hour d s r ok e. rw e refl;
  upsert_other = λ records w hour d s e. rw e refl;
}
  where
    some_hash : {a b : Hash} → some a ≡ some b → a ≡ b
    some_hash h = cc h

-- A number is one byte.
abbrev one_digit : Text → Option ℤ
one_digit [] = none
one_digit (c ∷ s) = some (pos c)

abbrev a_hash : Hash
a_hash =
    ((b'd' ∷ b'|' ∷ b's' ∷ b'|' ∷ b'u' ∷ b'p' ∷ []), (3000 ∷ []))
    ∷ ((b'd' ∷ b'|' ∷ b's' ∷ b'|' ∷ b'd' ∷ b'o' ∷ b'w' ∷ b'n' ∷ []), (600 ∷ []))
    ∷ []

abbrev a_record : TrafficHourly
a_record = record {
  stat_time = 7;
  device_no = b'd' ∷ [];
  service = b's' ∷ [];
  up_kb = pos 3;
  down_kb = pos 1;
}

records_run : aggregate_hash_to_records one_digit a_hash 7 ≡ a_record ∷ []
unfolding aggregate_hash_to_records aggregate_fields aggregate_field count_field parse_field
    split_bar bytes_to_kb
records_run = refl

aggregate_hash_to_records-total_example :
    kbs (record_at 7 (b'd' ∷ []) (b's' ∷ []) (aggregate_hash_to_records one_digit a_hash 7)) ≡ (
      pos ((total one_digit Direction.up (b'd' ∷ []) (b's' ∷ []) a_hash + 512) / 1024),
      pos ((total one_digit Direction.down (b'd' ∷ []) (b's' ∷ []) a_hash + 512) / 1024),
    )
aggregate_hash_to_records-total_example =
    aggregate_hash_to_records-total one_digit a_hash 7 (b'd' ∷ []) (b's' ∷ []) total_up total_down
  where
    total_up : total one_digit Direction.up (b'd' ∷ []) (b's' ∷ []) a_hash < 2 ^ 63 - 512
    total_up = unfold parse_field in unfold split_bar in omega arith

    total_down : total one_digit Direction.down (b'd' ∷ []) (b's' ∷ []) a_hash < 2 ^ 63 - 512
    total_down = unfold parse_field in unfold split_bar in omega arith

a_record_counted :
    record_at 7 (b'd' ∷ []) (b's' ∷ []) (aggregate_hash_to_records one_digit a_hash 7)
    ≡ some a_record
a_record_counted = rw records_run refl

hours_distinct :
    (other : Text) (t : ℕ)
    → same_text other (7 ∷ []) ≡ false
    → hour_of other ≡ some t
    → (t == 7) ≡ false
hours_distinct [] t differs h = cc h
hours_distinct (c ∷ []) t differs h =
    let same : c ≡ t = some_number h in rw same at (left_false (c == 7) differs)
  where
    some_number : {a b : ℕ} → some a ≡ some b → a ≡ b
    some_number h = cc h

    left_false : (b : Bool) → b && true ≡ false → b ≡ false
    left_false true e = e
    left_false false e = e
hours_distinct (c ∷ d ∷ s) t differs h = cc h

abbrev before : World
before = record {
  keys = (7 ∷ []) ∷ (8 ∷ []) ∷ [];
  hashes = λ key. if same_text key (7 ∷ []) then a_hash else [];
  rows = λ hour d s. none;
}

dump_pending-Kept_example :
    Kept
      (λ (w : World). w.hashes)
      (λ w. w.rows)
      (7 ∷ [])
      7
      a_hash
      (b'd' ∷ [])
      (b's' ∷ [])
      a_record
      (dump_pending function_stores one_digit (8 ∷ []) before).0
dump_pending-Kept_example =
    dump_pending-Kept function_stores one_digit (8 ∷ []) (λ w. w.hashes) (λ w. w.rows)
      function_stores-IsKeeping (7 ∷ []) 7 a_hash (b'd' ∷ []) (b's' ∷ []) a_record refl
      hours_distinct a_record_counted before refl
