-- ===== src/Tests/TimerRuns.antt =====
-- Runs of the timers (pkg/timer), in nanoseconds.
use compkg.Common.{ℕ, ◌+◌, ◌*◌, ◌≡◌, refl, List, [], ◌∷◌, true}
use compkg.Timer.{TimerStr, Timers, iterator_timer, tick, range_from}
use compkg.Timer.Due.{same_nil, same_due, other_waiting, iterator_timer-waiting}

abbrev seconds : ℕ → ℕ
seconds n = n * 1000000000

abbrev timer_at : ℕ → ℕ → ℕ → TimerStr
timer_at index next space = record {
  index = index;
  next_time = next;
  space_time = space;
  unique_key = "";
}

-- The first timer is due in a moment, the second one at ten seconds.
abbrev two_timers : Timers
two_timers = record {
  timer_map = timer_at 2 (seconds 7) (seconds 7) ∷ timer_at 1 (seconds 10) (seconds 10) ∷ [];
  timer_count = 2;
  next_time = seconds 7;
  has_unique = true;
}

abbrev at_seven : ℕ
at_seven = seconds 7 + 1

-- The timer of ten seconds is skipped up to the fourteenth.
late_run : (tick (seconds 13) (tick at_seven two_timers).0).1 ≡ []
unfolding tick iterator_timer range_from
late_run = refl

-- The second timer due at eight seconds instead.
abbrev sooner : List TimerStr
sooner = timer_at 2 (seconds 7) (seconds 7) ∷ timer_at 1 (seconds 8) (seconds 10) ∷ []

iterator_timer-waiting_example :
    (iterator_timer at_seven two_timers).0.next_time
    ≡ (iterator_timer at_seven (record two_timers { timer_map = sooner })).0.next_time
iterator_timer-waiting_example =
    iterator_timer-waiting at_seven two_timers sooner (same_due (other_waiting refl refl same_nil))
