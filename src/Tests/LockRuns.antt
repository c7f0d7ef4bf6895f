-- ===== src/Tests/LockRuns.antt =====
-- Runs of the lock (pkg/redis_lock) on a Redis with one key and one clock, which is answered always.
use compkg.Common.{
  ℕ, suc, ◌+◌, ◌/◌, String, ◌≡◌, refl, true, false, Option, none, some, [], ◌∷◌, arith, eq_iff, ◌≢◌,
  ap, List, Bool,
}
use compkg.Common.Int.{pos, pos_part}
use compkg.RedisLock.{Redis, Delivery, Options, lock, eval, lock_script, try_lock}
use compkg.RedisLock.Scripts.{RedisLaws, live, Leases, Leased}
use compkg.RedisLock.Exclusion.{Event, locking, waiting, run, run-exclusive, lock_of}
use compkg.RedisLock.Attempts.{ClockLaws, Returns, try_lock-Returns}

-- The time, and the value with its expiry.
abbrev SmallWorld : Type 0
SmallWorld = ℕ × Option (String × ℕ)

abbrev nx : String → ℕ → SmallWorld → Option String → SmallWorld × Bool
nx v ms (now, e) none = ((now, some (v, now + ms)), true)
nx v ms w (some u) = (w, false)

abbrev small_redis : Redis
small_redis = record {
  World = SmallWorld;
  get = λ k (now, e). live now e;
  set_px = λ k v ms (now, e). (now, some (v, now + ms));
  set_nx_px = λ k v ms w. nx v ms w (live w.0 w.1);
  del = λ k (now, e). ((now, none), 1);
  deliver = λ w. (w, Delivery.answered);
  nil_is_error = true;
  clock = λ (now, e). now;
  sleep = λ d (now, e). (now + pos_part d, e);
}

nx_taken :
    (v u : String) (ms : ℕ) (w : SmallWorld) (o : Option String)
    → o ≡ some u
    → ((nx v ms w o).1 ≡ false) × ((nx v ms w o).0 ≡ w)
nx_taken v u ms w none h = cc h
nx_taken v u ms w (some x) h = (refl, refl)

nx_free :
    (v : String) (ms : ℕ) (w : SmallWorld) (o : Option String)
    → o ≡ none
    → ((nx v ms w o).1 ≡ true) × ((nx v ms w o).0 ≡ (w.0, some (v, w.0 + ms)))
nx_free v ms w none h = (refl, refl)
nx_free v ms w (some x) h = cc h

nx_now : (v : String) (ms : ℕ) (w : SmallWorld) (o : Option String) → (nx v ms w o).0.0 ≡ w.0
nx_now v ms w none = refl
nx_now v ms w (some u) = refl

abbrev small_laws : RedisLaws small_redis "lock"
small_laws = record {
  entry = λ w. w.1;
  now = λ w. w.0;
  get-live = λ w. refl;
  entry-set = λ v ms w. refl;
  now-set = λ v ms w. refl;
  now-nx = λ v ms w. nx_now v ms w (live w.0 w.1);
  nx_free = λ v ms w h. let f = nx_free v ms w (live w.0 w.1) h in (f.0, ap (λ x. x.1) f.1);
  nx_taken = λ v u ms w h. let f = nx_taken v u ms w (live w.0 w.1) h in (f.0, ap (λ x. x.1) f.1);
  entry-del = λ w. refl;
  now-del = λ w. refl;
  entry-deliver = λ w. refl;
  now-deliver = λ w. omega arith;
  entry-sleep = λ d w. refl;
  now-sleep = λ d w. omega arith;
}

small_ticks : ClockLaws small_redis
small_ticks = record {
  clock-set = λ k v ms w. omega arith;
  clock-nx = λ k v ms w. let same = nx_now v ms w (live w.0 w.1) in omega arith;
  clock-deliver = λ w. omega arith;
  clock-sleep = λ d w. omega arith;
}

abbrev three_seconds : String → Options
three_seconds id = record { lock_seconds = 3; wait_timeout = pos 5000; wait_retry = pos 100 }

abbrev untouched : SmallWorld
untouched = (10, none)

-- The second caller is refused, and is let in when the time of the first is over.
abbrev handover : List Event
handover = locking "a" ∷ locking "b" ∷ waiting (pos 4000) ∷ locking "b" ∷ []

abbrev first : String
first = "a"

abbrev second : String
second = "b"

apart : first ≢ second
apart e = cc ((eq_iff first second).1 e)

abbrev handed : SmallWorld × Leases
handed = run small_redis "lock" small_laws three_seconds handover (untouched, λ id. none)

run-exclusive_example : ¬ (
    Leased small_redis "lock" small_laws handed.0 handed.1 first
    × Leased small_redis "lock" small_laws handed.0 handed.1 second)
run-exclusive_example =
    run-exclusive small_redis "lock" small_laws three_seconds handover untouched first second apart

-- The second caller does get the lock.
b_has_lock : Leased small_redis "lock" small_laws handed.0 handed.1 second
unfolding run compkg.RedisLock.Exclusion.step lock eval lock_script
b_has_lock = (7510, (refl, omega arith))

try_lock-Returns_example :
    Returns small_redis "lock" small_laws small_ticks three_seconds "a" (omega arith) (
      try_lock small_redis
        (suc (5000 / 100 + 1))
        (lock_of small_redis "lock" small_laws three_seconds "a")
        untouched)
try_lock-Returns_example =
    try_lock-Returns small_redis "lock" small_laws small_ticks three_seconds "a" (omega arith)
      untouched
