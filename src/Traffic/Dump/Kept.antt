-- ===== src/Traffic/Dump/Kept.antt =====
-- No count is lost by a dump of pkg/traffic/dao.go: what leaves Redis stands in the table.
use compkg.Common.{
  ℕ, ◌≡◌, refl, sym, ap, ◌∙◌, ◌⊎◌, inl, inr, Bool, true, false, Bool-cases, ◌&&◌, Option, none,
  some, Option-cases, List, [], ◌∷◌, map, ◌==◌, if◌then◌else◌,
}
use compkg.Common.Int.{ℤ}
use compkg.Common.Text.{Text, same_text, same_text-true}
use compkg.Traffic.Dump.{
  Hash, Aggregate, TrafficHourly, record_of, aggregate_fields, aggregate_hash_to_records, Stores,
  dump_records, dump_key, dump_keys, dump_pending,
}

abbrev pub is_at : ℕ → Text → Text → TrafficHourly → Bool
is_at hour device_no service r =
    (r.stat_time == hour) && (same_text r.device_no device_no && same_text r.service service)

abbrev pub record_at : ℕ → Text → Text → List TrafficHourly → Option TrafficHourly
record_at hour device_no service [] = none
record_at hour device_no service (r ∷ records) =
    let rest = record_at hour device_no service records in
    if is_at hour device_no service r then some r else rest

abbrev pub Row : Type 0
Row = ℤ × ℤ

abbrev pub row_of : TrafficHourly → Row
row_of r = (r.up_kb, r.down_kb)

-- What Redis and the table document: a hash is deleted or left as it is, an insertion without an error
-- stores its records, and an insertion touches no rows but theirs.
pub record IsKeeping {W : Type 0} (stores : Stores W) (hash : W → Text → Hash)
    (row : W → ℕ → Text → Text → Option Row) : Type 0 where
  pub h_get_all_lem :
      (key : Text) (w : W) (h : Hash) → stores.h_get_all key w ≡ some h → hash w key ≡ h
  pub del_self :
      (key : Text) (w : W)
      → (hash (stores.del key w) key ≡ []) ⊎ (hash (stores.del key w) key ≡ hash w key)
  pub del_other :
      (key other : Text) (w : W)
      → same_text key other ≡ false
      → hash (stores.del key w) other ≡ hash w other
  pub del_row : (key : Text) (w : W) → row (stores.del key w) ≡ row w
  pub upsert_hash :
      (records : List TrafficHourly) (w : W) → hash (stores.upsert_batch records w).0 ≡ hash w
  pub upsert_row :
      (records : List TrafficHourly) (w : W) (hour : ℕ) (device_no service : Text)
      (r : TrafficHourly)
      → (stores.upsert_batch records w).1 ≡ true
      → record_at hour device_no service records ≡ some r
      → row (stores.upsert_batch records w).0 hour device_no service ≡ some (row_of r)
  pub upsert_other :
      (records : List TrafficHourly) (w : W) (hour : ℕ) (device_no service : Text)
      → record_at hour device_no service records ≡ none
      → row (stores.upsert_batch records w).0 hour device_no service ≡ row w hour device_no service

record_at-other :
    (hour other_hour : ℕ) (device_no service : Text) (agg : List Aggregate)
    → (other_hour == hour) ≡ false
    → record_at hour device_no service (map (record_of other_hour) agg) ≡ none
record_at-other hour other_hour device_no service [] differs = refl
record_at-other hour other_hour device_no service (v ∷ agg) differs =
    rw differs (record_at-other hour other_hour device_no service agg differs)

some_hour : {a b : ℕ} → some a ≡ some b → a ≡ b
some_hour h = cc h

-- The hash is still there, or it is gone and its record is in the table.
abbrev pub Kept :
    {W : Type 0}
    → (W → Text → Hash)
    → (W → ℕ → Text → Text → Option Row)
    → Text
    → ℕ
    → Hash
    → Text
    → Text
    → TrafficHourly
    → W
    → Type 0
Kept hash row key hour content device_no service r w =
    (hash w key ≡ content) ⊎ ((hash w key ≡ []) × (row w hour device_no service ≡ some (row_of r)))

module _ {W : Type 0} (stores : Stores W) (parse_int : Text → Option ℤ) (current_key : Text)
    (hash : W → Text → Hash) (row : W → ℕ → Text → Text → Option Row)
    (laws : IsKeeping stores hash row) (key : Text) (hour : ℕ) (content : Hash)
    (device_no service : Text) (r : TrafficHourly)
    (hour_of_key : stores.extract_hour_from_key key ≡ some hour)
    (distinct : (other : Text) (t : ℕ)
      → same_text other key ≡ false
      → stores.extract_hour_from_key other ≡ some t
      → (t == hour) ≡ false)
    (counted : record_at hour device_no service (aggregate_hash_to_records parse_int content hour)
      ≡ some r) where
  abbrev IsKept : W → Type 0
  IsKept w = Kept hash row key hour content device_no service r w

  dump_records_other :
      (other : Text) (records : List TrafficHourly) (w : W)
      → same_text other key ≡ false
      → record_at hour device_no service records ≡ none
      → IsKept w
      → IsKept (dump_records stores parse_int current_key other records w).0
  unfolding dump_records
  dump_records_other other [] w differs absent kept =
      rw (laws.del_other other key w differs, laws.del_row other w) kept
  dump_records_other other (s ∷ records) w differs absent kept =
      let same_hash = ap (λ h. h key) (laws.upsert_hash (s ∷ records) w) in
      let same_row = laws.upsert_other (s ∷ records) w hour device_no service absent in
      let saved = (stores.upsert_batch (s ∷ records) w).0 in
      elim (Bool-cases (stores.upsert_batch (s ∷ records) w).1) [
        | inl e ↦
            rw
              (
                dump_records,
                e,
                laws.del_other other key saved differs,
                laws.del_row other saved,
                same_hash,
                same_row,
              )
              kept
        | inr e ↦ rw (dump_records, e, same_hash, same_row) kept
      ]

  dump_records_self :
      (records : List TrafficHourly) (w : W)
      → record_at hour device_no service records ≡ some r
      → hash w key ≡ content
      → IsKept (dump_records stores parse_int current_key key records w).0
  unfolding dump_records
  dump_records_self [] w there same = cc there
  dump_records_self (s ∷ records) w there same =
      let same_hash = ap (λ h. h key) (laws.upsert_hash (s ∷ records) w) in
      let saved = (stores.upsert_batch (s ∷ records) w).0 in
      elim (Bool-cases (stores.upsert_batch (s ∷ records) w).1) [
        | inl e ↦
            let stored = laws.upsert_row (s ∷ records) w hour device_no service r e there in
            let stored_after : row (stores.del key saved) hour device_no service ≡ some (row_of r) =
              ap (λ f. f hour device_no service) (laws.del_row key saved) ∙ stored in
            rw (dump_records, e)
              (elim (laws.del_self key saved) [
                | inl gone ↦ inr (gone, stored_after)
                | inr left ↦ inl (left ∙ (same_hash ∙ same))
              ])
        | inr e ↦ rw (dump_records, e) (inl (same_hash ∙ same))
      ]

  dump_records_gone :
      (w : W)
      → hash w key ≡ []
      → row w hour device_no service ≡ some (row_of r)
      → IsKept (stores.del key w)
  dump_records_gone w empty stored =
      let stored_after : row (stores.del key w) hour device_no service ≡ some (row_of r) =
        ap (λ f. f hour device_no service) (laws.del_row key w) ∙ stored in
      elim (laws.del_self key w) [
        | inl gone ↦ inr (gone, stored_after)
        | inr left ↦ inr (left ∙ empty, stored_after)
      ]

  dump_hash :
      (w : W) (h : Hash)
      → hash w key ≡ h
      → IsKept w
      → IsKept
          (dump_records stores parse_int current_key key
            (aggregate_hash_to_records parse_int h hour)
            w).0
  unfolding dump_records aggregate_hash_to_records aggregate_fields
  dump_hash w h same (inl e) =
      let whole : content ≡ h = sym e ∙ same in
      dump_records_self (aggregate_hash_to_records parse_int h hour) w (rw whole at counted) e
  dump_hash w h same (inr (empty, stored)) =
      let nothing : h ≡ [] = sym same ∙ empty in rw nothing (dump_records_gone w empty stored)

  dump_read :
      (other : Text) (t : ℕ) (h : Hash) (w : W)
      → stores.extract_hour_from_key other ≡ some t
      → hash w other ≡ h
      → IsKept w
      → IsKept
          (dump_records stores parse_int current_key other
            (aggregate_hash_to_records parse_int h t)
            w).0
  dump_read other t h w of_other same kept = elim (Bool-cases (same_text other key)) [
    | inl e ↦
        let one = same_text-true other key e in
        let hours : t ≡ hour =
          some_hour (sym of_other ∙ (ap stores.extract_hour_from_key one ∙ hour_of_key)) in
        let at_key : hash w key ≡ h = rw one at same in rw (one, hours) (dump_hash w h at_key kept)
    | inr e ↦
        dump_records_other other (aggregate_hash_to_records parse_int h t) w e
          (unfold aggregate_hash_to_records in
            record_at-other hour t device_no service (aggregate_fields parse_int h [])
              (distinct other t e of_other))
          kept
  ]

  dump_key-Kept :
      (other : Text) (w : W) → IsKept w → IsKept (dump_key stores parse_int current_key other w).0
  unfolding dump_key
  dump_key-Kept other w kept = elim (Bool-cases (same_text other current_key)) [
    | inl e ↦ rw (dump_key, e) kept
    | inr e ↦ elim (Option-cases (stores.extract_hour_from_key other)) [
      | inl n ↦ rw (dump_key, e, n) kept
      | inr (t, n) ↦ elim (Option-cases (stores.h_get_all other w)) [
        | inl g ↦ rw (dump_key, e, n, g) kept
        | inr (h, g) ↦
            rw (dump_key, e, n, g) (dump_read other t h w n (laws.h_get_all_lem other w h g) kept)
      ]
    ]
  ]

  dump_keys-Kept :
      (keys : List Text) (w : W)
      → IsKept w
      → IsKept (dump_keys stores parse_int current_key keys w).0
  unfolding dump_keys
  dump_keys-Kept [] w kept = kept
  dump_keys-Kept (other ∷ keys) w kept =
      dump_keys-Kept keys (dump_key stores parse_int current_key other w).0
        (dump_key-Kept other w kept)

  -- Whatever fails in a dump, and in whatever order its keys come: of a key with an hour that no other
  -- key has, and a device and a service that its hash holds bytes of, the hash is as it was after the
  -- dump, or it is gone and the table has the rounded bytes of that device and service in that hour.
  pub dump_pending-Kept :
      (w : W)
      → hash w key ≡ content
      → Kept hash row key hour content device_no service r
          (dump_pending stores parse_int current_key w).0
  unfolding dump_pending
  dump_pending-Kept w same = elim (Option-cases (stores.scan_hourly_keys w)) [
    | inl e ↦ rw (dump_pending, e) (inl same)
    | inr (keys, e) ↦ rw (dump_pending, e) (dump_keys-Kept keys w (inl same))
  ]
