-- ===== src/Traffic.antt =====
-- The byte counters of pkg/traffic: tracker.go, the guards of traffic.go, and the fields of store.go.
-- A counter is the bits of an int64. The flush goroutine goes step by step between the calls of other
-- goroutines, an atomic operation to a step; Redis with the pipeline is the parameter `Redis`.
pub mod Cells
pub mod Fields
pub mod Conserved
pub mod Dump
use compkg.Common.{
  ℕ, zero, suc, ◌+◌, ◌<◌, Bool, true, false, not, ◌||◌, ◌&&◌, List, [], ◌∷◌, ◌++◌, ltb, ◌==◌,
  if◌then◌else◌,
}
use compkg.Common.Int.{ℤ, pos_part, is_nonpos, add64, int64_half}
use compkg.Common.Text.{Text, same_text}

pub data Direction : Type 0 where
  up down : Direction

-- The counters of a device; one for each device of the whitelist, made when the tracker is.
pub record CounterPair : Type 0 where
  pub device_no : Text
  pub up : ℕ
  pub down : ℕ

-- What was taken from the counters of a device.
pub record PendingItem : Type 0 where
  pub device_no : Text
  pub up : ℕ
  pub down : ℕ

abbrev pub bar : ℕ
bar = 124

-- "up" and "down"
abbrev pub direction_text : Direction → Text
direction_text Direction.up = 117 ∷ 112 ∷ []
direction_text Direction.down = 100 ∷ 111 ∷ 119 ∷ 110 ∷ []

unfoldable pub build_field : Text → Text → Direction → Text
build_field device_no service dir = device_no ++ (bar ∷ service ++ (bar ∷ direction_text dir))

-- The whitelist has the same devices as the counters.
unfoldable pub is_tracked : Text → List CounterPair → Bool
is_tracked device_no [] = false
is_tracked device_no (p ∷ counters) =
    if same_text p.device_no device_no then true else is_tracked device_no counters

unfoldable pub new_counters : List Text → List CounterPair
new_counters [] = []
new_counters (nr ∷ whitelist) =
    let rest = new_counters whitelist in
    if same_text nr [] || is_tracked nr rest
    then rest
    else record { device_no = nr; up = 0; down = 0 } ∷ rest

abbrev pub add_pair : Direction → ℕ → CounterPair → CounterPair
add_pair Direction.up n p = record p { up = add64 p.up n }
add_pair Direction.down n p = record p { down = add64 p.down n }

-- addUp and addDown: a device that is not there is ignored.
unfoldable pub add : Direction → Text → ℕ → List CounterPair → List CounterPair
add dir device_no n [] = []
add dir device_no n (p ∷ counters) =
    if same_text p.device_no device_no
    then add_pair dir n p ∷ counters
    else p ∷ add dir device_no n counters

-- AddUp and AddDown
unfoldable pub add_bytes : Direction → Text → ℤ → List CounterPair → List CounterPair
add_bytes dir device_no n counters =
    if is_nonpos n then counters else add dir device_no (pos_part n) counters

abbrev pub pair_value : Direction → CounterPair → ℕ
pair_value Direction.up p = p.up
pair_value Direction.down p = p.down

abbrev pub zero_pair : Direction → CounterPair → CounterPair
zero_pair Direction.up p = record p { up = 0 }
zero_pair Direction.down p = record p { down = 0 }

-- atomic.SwapInt64 with 0: the value, and the counters after it.
unfoldable pub value_of : Direction → Text → List CounterPair → ℕ
value_of dir device_no [] = 0
value_of dir device_no (p ∷ counters) =
    if same_text p.device_no device_no then pair_value dir p else value_of dir device_no counters

unfoldable pub zero_of : Direction → Text → List CounterPair → List CounterPair
zero_of dir device_no [] = []
zero_of dir device_no (p ∷ counters) =
    if same_text p.device_no device_no
    then zero_pair dir p ∷ counters
    else p ∷ zero_of dir device_no counters

-- `n > 0` of an int64
abbrev pub positive : ℕ → Bool
positive n = ltb 0 n && ltb n int64_half

abbrev pub Command : Type 0
Command = Text × ℕ

abbrev pub increment : Text → ℕ → List Command → List Command
increment field n more = if positive n then (field, n) ∷ more else more

-- The HIncrBy commands of the pipeline.
unfoldable pub commands : Text → List PendingItem → List Command
commands service [] = []
commands service (i ∷ items) =
    increment (build_field i.device_no service Direction.up) i.up
      (increment (build_field i.device_no service Direction.down) i.down (commands service items))

-- Where flushOnce is: between two devices, between the two swaps of one, before Exec, and in the
-- rollback between two devices and between the two additions of one.
pub data Phase : Type 0 where
  idle : Phase
  swapping : List Text → List PendingItem → Phase
  half_swapped : Text → ℕ → List Text → List PendingItem → Phase
  sending : List PendingItem → Phase
  rolling : List PendingItem → Phase
  half_rolled : PendingItem → List PendingItem → Phase

pub record Tracker : Type 0 where
  pub counters : List CounterPair
  pub phase : Phase

-- A tick that finds the goroutine waiting starts a flush; one that does not is not waited for here.
abbrev pub start_flush : List Text → Phase → Phase
start_flush order idle = swapping order []
start_flush order phase = phase

-- An addition by another goroutine, a tick with the order in which the map is ranged over, and the
-- next step of the flush, with its hour.
pub data Event : Type 0 where
  adding : Direction → Text → ℤ → Event
  ticking : List Text → Event
  flushing : Text → Event

-- Exec of the HIncrBy commands and Expire on the key of an hour: whether it gave no error.
pub record Redis : Type 1 where
  pub World : Type 0
  pub exec : Text → List Command → World → World × Bool

abbrev pub append_item : Text → ℕ → ℕ → List PendingItem → List PendingItem
append_item device_no u d pending =
    if positive u || positive d
    then pending ++ record { device_no = device_no; up = u; down = d } ∷ []
    else pending

abbrev pub after_swaps : List PendingItem → Phase
after_swaps [] = idle
after_swaps (i ∷ pending) = sending (i ∷ pending)

module _ (redis : Redis) (service : Text) where
  open redis use {World, exec}

  unfoldable pub flush_step : Text → List CounterPair → Phase → World → Tracker × World
  flush_step hour counters idle w = (record { counters = counters; phase = idle }, w)
  flush_step hour counters (swapping [] pending) w =
      (record { counters = counters; phase = after_swaps pending }, w)
  flush_step hour counters (swapping (nr ∷ todo) pending) w = (
    record {
      counters = zero_of Direction.up nr counters;
      phase = half_swapped nr (value_of Direction.up nr counters) todo pending;
    },
    w,
  )
  flush_step hour counters (half_swapped nr u todo pending) w = (
    record {
      counters = zero_of Direction.down nr counters;
      phase = swapping todo (append_item nr u (value_of Direction.down nr counters) pending);
    },
    w,
  )
  flush_step hour counters (sending pending) w =
      let (w', ok) = exec hour (commands service pending) w in
      (record { counters = counters; phase = if ok then idle else rolling pending }, w')
  flush_step hour counters (rolling []) w = (record { counters = counters; phase = idle }, w)
  flush_step hour counters (rolling (i ∷ pending)) w = (
    record { counters = add Direction.up i.device_no i.up counters; phase = half_rolled i pending },
    w,
  )
  flush_step hour counters (half_rolled i pending) w = (
    record { counters = add Direction.down i.device_no i.down counters; phase = rolling pending },
    w,
  )

  unfoldable pub step : Event → Tracker × World → Tracker × World
  step (adding dir nr n) (t, w) = (record t { counters = add_bytes dir nr n t.counters }, w)
  step (ticking order) (t, w) = (record t { phase = start_flush order t.phase }, w)
  step (flushing hour) (t, w) = flush_step hour t.counters t.phase w

  unfoldable pub run : List Event → Tracker × World → Tracker × World
  run [] s = s
  run (x ∷ events) s = run events (step x s)
