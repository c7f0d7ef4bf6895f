-- ===== src/Timer.antt =====
-- The timers of pkg/timer/timer.go: AddTimer, DelToTimer and the iteration of a tick. Every function
-- holds the mutex, so it is one step. Times are nanoseconds and intervals are not negative. The map is
-- a list in the order in which it is ranged over, which can be any.
pub mod Due
use compkg.Common.{
  ℕ, zero, suc, ◌+◌, ◌*◌, String, ◌⊎◌, inl, inr, Bool, true, false, not, ◌&&◌, Option, none, some,
  List, [], ◌∷◌, ltb, ◌==◌, str_eq, if◌then◌else◌,
}

pub record TimerStr : Type 0 where
  pub index : ℕ
  pub next_time : ℕ
  pub space_time : ℕ
  pub unique_key : String

-- The package's variables; `has_unique` is whether InitTimer was given a UniqueLimitFunc.
pub record Timers : Type 0 where
  pub timer_map : List TimerStr
  pub timer_count : ℕ
  pub next_time : ℕ
  pub has_unique : Bool

pub data TimerError : Type 0 where
  no_unique_limit unique_key_taken : TimerError

unfoldable pub has_key : String → List TimerStr → Bool
has_key key [] = false
has_key key (t ∷ timers) = if str_eq t.unique_key key then true else has_key key timers

abbrev refusal : String → Timers → Option TimerError
refusal key s =
    if str_eq key ""
    then none
    else if not s.has_unique
    then some no_unique_limit
    else if has_key key s.timer_map
    then some unique_key_taken
    else none

-- A new timer is due at once.
abbrev insert_timer : ℕ → String → ℕ → Timers → Timers
insert_timer space key now s =
    let t : TimerStr = record {
      index = s.timer_count + 1;
      next_time = now;
      space_time = space;
      unique_key = key;
    } in
    let next = if ltb now s.next_time then now else s.next_time in
    record s { timer_map = t ∷ s.timer_map; timer_count = s.timer_count + 1; next_time = next }

unfoldable pub add_timer : ℕ → String → ℕ → Timers → Timers × (TimerError ⊎ ℕ)
add_timer space key now s = elim (refusal key s) [
  | some e ↦ (s, inl e)
  | none ↦ (insert_timer space key now s, inr (s.timer_count + 1))
]

unfoldable pub delete_index : ℕ → List TimerStr → List TimerStr
delete_index index [] = []
delete_index index (t ∷ timers) =
    let rest = delete_index index timers in if t.index == index then rest else t ∷ rest

unfoldable pub del_to_timer : ℕ → Timers → Timers
del_to_timer index s = record s { timer_map = delete_index index s.timer_map }

abbrev pub is_due : ℕ → TimerStr → Bool
is_due now t = ltb t.next_time now

-- The next time of a timer that is due.
abbrev pub reschedule : ℕ → TimerStr → TimerStr
reschedule now t =
    let n = t.next_time + t.space_time in
    let n' = if ltb n now then now + t.space_time else n in record t { next_time = n' }

-- `newNextTime` after a timer with that next time was due, at its place in the range.
abbrev pub least_next : ℕ → ℕ → ℕ → ℕ
least_next place n new_next =
    let from = if place == 1 then n else new_next in if ltb n from then n else from

-- What a range leaves: the timers, `newNextTime`, and the timers for which a goroutine is started, in
-- order; it does nothing while the last one of its timer still runs.
pub record Ranged : Type 0 where
  pub timers : List TimerStr
  pub new_next : ℕ
  pub started : List ℕ

-- The range from a place on.
unfoldable pub range_from : ℕ → ℕ → ℕ → List TimerStr → Ranged
range_from place now new_next [] = record { timers = []; new_next = new_next; started = [] }
range_from place now new_next (t ∷ timers) =
    let t' = reschedule now t in
    let skipped = range_from (place + 1) now new_next timers in
    let due = range_from (place + 1) now (least_next place t'.next_time new_next) timers in
    if is_due now t
    then record {
      timers = t' ∷ due.timers;
      new_next = due.new_next;
      started = t.index ∷ due.started;
    }
    else record {
      timers = t ∷ skipped.timers;
      new_next = skipped.new_next;
      started = skipped.started;
    }

abbrev pub five_seconds : ℕ
five_seconds = 5 * 1000000000

abbrev pub next_after : ℕ → ℕ → ℕ → ℕ
next_after now next new_next =
    if ltb next new_next then (if ltb new_next now then now else new_next) else next

unfoldable pub iterator_timer : ℕ → Timers → Timers × List ℕ
iterator_timer now s =
    let r = range_from 1 now (now + five_seconds) s.timer_map in
    (
      record s { timer_map = r.timers; next_time = next_after now s.next_time r.new_next },
      r.started,
    )

-- One tick of the loop of InitTimer.
unfoldable pub tick : ℕ → Timers → Timers × List ℕ
tick now s = if ltb now s.next_time then (s, []) else iterator_timer now s
