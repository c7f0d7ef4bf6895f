-- ===== src/Metrics/Instruments/Conserved.antt =====
-- That no count is lost or counted twice by the instruments of pkg/metrics.
use compkg.Common.{ℕ, ◌+◌, ◌^◌, ◌%◌, ◌<◌, ◌≡◌, List, [], ◌∷◌, arith}
use compkg.Common.Float.{Float64}
use compkg.Common.Int.{pos, add64}
use compkg.Metrics.Instruments.{
  CounterMetric, CounterCall, inc, add, reset, reset_counter, call_counter, run_counter, RateMetric,
  RateCall, record_success, record_fail, call_rate, call_rate_all, rate_reset, build_rate_snapshot,
}

abbrev pub sum : List ℕ → ℕ
sum [] = 0
sum (x ∷ xs) = x + sum xs

abbrev pub added : List CounterCall → ℕ
added [] = 0
added (inc ∷ calls) = 1 + added calls
added (add n ∷ calls) = n + added calls
added (reset ∷ calls) = added calls

-- In every interleaving of Inc, Add and Reset, what the resets returned and what is left is what was
-- there and what was added, modulo 2^64.
run_counter-conserves :
    (calls : List CounterCall) (c : CounterMetric)
    → (sum (run_counter calls c).1 + (run_counter calls c).0.value) % 2 ^ 64
      ≡ (c.value + added calls) % 2 ^ 64
unfolding run_counter call_counter reset_counter
run_counter-conserves [] c = omega arith
run_counter-conserves (inc ∷ calls) c =
    omega (arith, run_counter-conserves calls (record c { value = add64 c.value 1 }))
run_counter-conserves (add n ∷ calls) c =
    omega (arith, run_counter-conserves calls (record c { value = add64 c.value n }))
run_counter-conserves (reset ∷ calls) c =
    omega (arith, run_counter-conserves calls (record c { value = 0 }))

abbrev pub fails : List RateCall → ℕ
fails [] = 0
fails (record_success ∷ calls) = fails calls
fails (record_fail ∷ calls) = 1 + fails calls

abbrev pub successes : List RateCall → ℕ
successes [] = 0
successes (record_success ∷ calls) = 1 + successes calls
successes (record_fail ∷ calls) = successes calls

call_rate_all-success :
    (calls : List RateCall) (r : RateMetric)
    → (r.success + successes calls) < 2 ^ 63
    → (call_rate_all calls r).success ≡ r.success + successes calls
unfolding call_rate_all call_rate
call_rate_all-success [] r h = omega arith
call_rate_all-success (record_success ∷ calls) r h =
    omega
      (arith, call_rate_all-success calls (record r { success = add64 r.success 1 }) (omega arith))
call_rate_all-success (record_fail ∷ calls) r h =
    call_rate_all-success calls (record r { fail = add64 r.fail 1 }) h

call_rate_all-fail :
    (calls : List RateCall) (r : RateMetric)
    → (r.fail + fails calls) < 2 ^ 63
    → (call_rate_all calls r).fail ≡ r.fail + fails calls
unfolding call_rate_all call_rate
call_rate_all-fail [] r h = omega arith
call_rate_all-fail (record_success ∷ calls) r h =
    call_rate_all-fail calls (record r { success = add64 r.success 1 }) h
call_rate_all-fail (record_fail ∷ calls) r h =
    omega (arith, call_rate_all-fail calls (record r { fail = add64 r.fail 1 }) (omega arith))

module _ (F : Float64) where
  -- A reset of a ratio while other goroutines record, with counts that stay below 2^63: the snapshot
  -- has the successes from before the first swap, the failures from before the second one, and their
  -- sum as its total. The successes recorded between the swaps are kept for the next snapshot.
  rate_reset-conserves :
      (between : List RateCall) (r : RateMetric)
      → (r.success + r.fail + successes between + fails between) < 2 ^ 63
      → ((rate_reset F between r).1.success ≡ pos r.success)
        × ((rate_reset F between r).1.fail ≡ pos (r.fail + fails between))
        × ((rate_reset F between r).1.total ≡ pos (r.success + r.fail + fails between))
        × ((rate_reset F between r).0.success ≡ successes between)
        × ((rate_reset F between r).0.fail ≡ 0)
  unfolding rate_reset build_rate_snapshot
  rate_reset-conserves between r h =
      let r' = record r { success = 0 } in
      let s = call_rate_all-success between r' (omega arith) in
      let f = call_rate_all-fail between r' (omega arith) in ground (arith, s, f)
