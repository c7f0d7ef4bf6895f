-- ===== src/Metrics/Instruments.antt =====
-- The counter, the gauge and the ratio: pkg/metrics/counter.go, pkg/metrics/gauge.go and
-- pkg/metrics/rate.go. Each atomic operation is one step, so a list of calls is an interleaving of the
-- goroutines. An int64 is kept as its 64 bits; `signed64` reads them.
pub mod Conserved
use compkg.Common.{
  ℕ, ◌+◌, ◌-◌, ◌^◌, ◌%◌, ◌≡◌, refl, ◌&&◌, String, Bool, List, [], ◌∷◌, ◌++◌, ltb, str_eq,
  if◌then◌else◌, arith,
}
use compkg.Common.Int.{ℤ, pos, ltb_ℤ, add64, signed64}
use compkg.Common.Float.{Float64}
use compkg.Metrics.Snapshot.{RateSnapshot}

abbrev pub Tags : Type 0
Tags = List (String × String)

put_tag : String → String → Tags → Tags
put_tag k v [] = (k, v) ∷ []
put_tag k v ((j, w) ∷ tags) =
    let rest = put_tag k v tags in if str_eq k j then (j, v) ∷ tags else (j, w) ∷ rest

unfoldable pub with_tags : Tags → Tags → Tags
unfolding put_tag
with_tags [] tags = tags
with_tags ((k, v) ∷ more) tags = with_tags more (put_tag k v tags)

pub record CounterMetric : Type 0 where
  pub name : String
  pub value : ℕ
  pub tags : Tags

unfoldable pub new_counter : String → CounterMetric
new_counter name = record { name = name; value = 0; tags = [] }

pub data CounterCall : Type 0 where
  inc reset : CounterCall
  add : ℕ → CounterCall

unfoldable pub reset_counter : CounterMetric → CounterMetric × ℕ
reset_counter c = (record c { value = 0 }, c.value)

-- The counter after a call, and what Reset returned.
unfoldable pub call_counter : CounterCall → CounterMetric → CounterMetric × List ℕ
call_counter inc c = (record c { value = add64 c.value 1 }, [])
call_counter (add delta) c = (record c { value = add64 c.value delta }, [])
call_counter reset c = let (c', old) = reset_counter c in (c', old ∷ [])

unfoldable pub run_counter : List CounterCall → CounterMetric → CounterMetric × List ℕ
run_counter [] c = (c, [])
run_counter (x ∷ calls) c =
    let (c', out) = call_counter x c in
    let (c'', reported) = run_counter calls c' in (c'', out ++ reported)

pub record RateMetric : Type 0 where
  pub name : String
  pub success : ℕ
  pub fail : ℕ
  pub tags : Tags

unfoldable pub new_rate : String → RateMetric
new_rate name = record { name = name; success = 0; fail = 0; tags = [] }

pub data RateCall : Type 0 where
  record_success record_fail : RateCall

unfoldable pub call_rate : RateCall → RateMetric → RateMetric
call_rate record_success r = record r { success = add64 r.success 1 }
call_rate record_fail r = record r { fail = add64 r.fail 1 }

unfoldable pub call_rate_all : List RateCall → RateMetric → RateMetric
call_rate_all [] r = r
call_rate_all (x ∷ xs) r = call_rate_all xs (call_rate x r)

module _ (F : Float64) where
  open F use {Float, of_int, mul, div}

  unfoldable pub build_rate_snapshot : ℕ → ℕ → RateSnapshot Float
  build_rate_snapshot success fail =
      let total = signed64 (add64 success fail) in
      record {
        total = total;
        success = signed64 success;
        fail = signed64 fail;
        rate =
            if ltb_ℤ (pos 0) total
            then div (of_int (signed64 fail)) (of_int total)
            else of_int (pos 0);
      }

  -- The two loads, with what other goroutines record between them.
  unfoldable pub rate_snapshot : List RateCall → RateMetric → RateMetric × RateSnapshot Float
  rate_snapshot between r =
      let r' = call_rate_all between r in (r', build_rate_snapshot r.success r'.fail)

  -- The two swaps, with what other goroutines record between them.
  unfoldable pub rate_reset : List RateCall → RateMetric → RateMetric × RateSnapshot Float
  rate_reset between r =
      let r' = call_rate_all between (record r { success = 0 }) in
      (record r' { fail = 0 }, build_rate_snapshot r.success r'.fail)

  pub record GaugeMetric : Type 0 where
    pub name : String
    pub value : Float
    pub tags : Tags

  unfoldable pub new_gauge : String → GaugeMetric
  new_gauge name = record { name = name; value = of_int (pos 0); tags = [] }

  -- The loop of Inc, Dec and Add. `stored` are the values that other goroutines store between the load
  -- and the compare-and-swap of one attempt after the other; the loop ends with the first attempt that
  -- finds the bits it loaded.
  unfoldable pub update_loop : (Float → Float) → List Float → Float → Float
  update_loop f [] old = f old
  update_loop f (x ∷ stored) old =
      let rest = update_loop f stored x in if F.same_bits x old then f old else rest

  pub data GaugeCall : Type 0 where
    gauge_set gauge_add : Float → GaugeCall
    gauge_inc gauge_dec : GaugeCall

  gauge_update : GaugeCall → Float → Float
  gauge_update (gauge_set v) x = v
  gauge_update (gauge_add v) x = F.add x v
  gauge_update gauge_inc x = F.add x (of_int (pos 1))
  gauge_update gauge_dec x = F.sub x (of_int (pos 1))

  unfoldable pub call_gauge : List Float → GaugeCall → GaugeMetric → GaugeMetric
  unfolding gauge_update
  call_gauge stored (gauge_set v) g = record g { value = v }
  call_gauge stored c g = record g { value = update_loop (gauge_update c) stored g.value }
