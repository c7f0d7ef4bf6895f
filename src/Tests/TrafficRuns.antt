-- ===== src/Tests/TrafficRuns.antt =====
-- A run of the traffic counters (pkg/traffic) on a Redis whose first pipeline breaks after one command.
use compkg.Common.{◌+◌, ◌≡◌, refl, Bool, true, false, List, [], ◌∷◌, ◌++◌, take, arith}
use compkg.Common.Int.{pos}
use compkg.Common.Text.{Text}
use compkg.Traffic.{
  Direction, Command, Tracker, Phase, new_counters, is_tracked, Event, adding, ticking, flushing,
  Redis, run, idle,
}
use compkg.Traffic.Fields.{sum_of}
use compkg.Traffic.Conserved.{RedisLaws, everything, twice, added, run-conserves}

-- Whether the first pipeline is still to come, and the commands that ran.
abbrev LoggingWorld : Type 0
LoggingWorld = Bool × List Command

abbrev that_run : List Command → LoggingWorld → List Command
that_run cs (true, log) = take 1 cs
that_run cs (false, log) = cs

abbrev no_error : LoggingWorld → Bool
no_error (true, log) = false
no_error (false, log) = true

abbrev logging_redis : Redis
logging_redis = record {
  World = LoggingWorld;
  exec = λ hour cs w. ((false, that_run cs w ++ w.1), no_error w);
}

sum-append :
    (f : Text) (cs more : List Command) → sum_of f (cs ++ more) ≡ sum_of f more + sum_of f cs
sum-append f [] more = omega arith
sum-append f ((g, n) ∷ cs) more = omega (arith, sum-append f cs more)

without_error : (cs : List Command) (w : LoggingWorld) → no_error w ≡ true → that_run cs w ≡ cs
without_error cs (true, log) h = cc h
without_error cs (false, log) h = refl

abbrev logging_laws : RedisLaws logging_redis
logging_laws = record {
  total = λ f w. sum_of f w.1;
  ran = λ hour cs w. that_run cs w;
  total-exec = λ f hour cs w. sum-append f (that_run cs w) w.1;
  all_ran = λ hour cs w h. without_error cs w h;
}

abbrev device : Text
device = 65 ∷ []

abbrev start : Tracker × LoggingWorld
start = (record { counters = new_counters (device ∷ [] ∷ device ∷ []); phase = idle }, (true, []))

-- Five bytes are swapped out, sent in vain and put back, with two more added in between.
abbrev broken_flush : List Event
broken_flush =
    adding Direction.up device (pos 5)
    ∷ ticking (device ∷ [])
    ∷ flushing []
    ∷ flushing []
    ∷ flushing []
    ∷ adding Direction.up device (pos 2)
    ∷ flushing []
    ∷ flushing []
    ∷ flushing []
    ∷ flushing []
    ∷ []

run-conserves_example :
    everything logging_redis logging_laws [] Direction.up device
      (run logging_redis [] broken_flush start)
    ≡ everything logging_redis logging_laws [] Direction.up device start
      + added Direction.up device broken_flush
      + twice logging_redis logging_laws [] Direction.up device broken_flush start
unfolding new_counters is_tracked compkg.Traffic.value_of
run-conserves_example =
    run-conserves logging_redis logging_laws [] Direction.up device broken_flush start refl
      (omega arith)

-- Seven bytes were added, and twelve are counted.
broken_flush_counts :
    everything logging_redis logging_laws [] Direction.up device
      (run logging_redis [] broken_flush start)
    ≡ 12
unfolding run compkg.Traffic.step compkg.Traffic.flush_step compkg.Traffic.add
    compkg.Traffic.add_bytes compkg.Traffic.value_of compkg.Traffic.zero_of compkg.Traffic.commands
    compkg.Traffic.build_field new_counters is_tracked
broken_flush_counts = refl
