-- ===== src/RedisLock/Attempts.antt =====
-- TryLock of pkg/redis_lock/redis_lock.go returns, and with success only while its lock is set.
use compkg.Common.{
  ℕ, zero, suc, ◌+◌, ◌*◌, ◌/◌, ◌<◌, ◌≤◌, String, ◌≡◌, refl, inl, inr, Bool, true, false, Bool-cases,
  Option-cases, Option, none, some, str_eq, arith,
}
use native.Mathlib.Nat.{mod-add-div', mod-lt}
use compkg.Common.Int.{ℤ, pos, negsuc, pos_part, neg_part, eq_ℤ, is_nonpos}
use compkg.RedisLock.{
  Redis, Options, RedisLock, lock_millis, lock_script, eval, lock, is_yes, past, try_rounds,
  stop_of, try_lock,
}
use compkg.RedisLock.Scripts.{RedisLaws}
use compkg.RedisLock.Exclusion.{lock_of, millis_of, lock-Locked, Delivery-cases}

-- The caller's clock does not go back, and a sleep takes its time.
pub record ClockLaws (redis : Redis) : Type 0 where
  pub clock-set :
      (k v : String) (ms : ℕ) (w : redis.World)
      → redis.clock w ≤ redis.clock (redis.set_px k v ms w)
  pub clock-nx :
      (k v : String) (ms : ℕ) (w : redis.World)
      → redis.clock w ≤ redis.clock (redis.set_nx_px k v ms w).0
  pub clock-deliver : (w : redis.World) → redis.clock w ≤ redis.clock (redis.deliver w).0
  pub clock-sleep :
      (d : ℤ) (w : redis.World) → redis.clock w + pos_part d ≤ redis.clock (redis.sleep d w)

module _ (redis : Redis) (key : String) (laws : RedisLaws redis key) (ticks : ClockLaws redis) where
  open redis use {World, get, clock, deliver, sleep}
  open laws use {entry, now}

  clock-lock_script :
      (id : String) (ms : ℕ) (w : World) → clock w ≤ clock (lock_script redis key id ms w).0
  unfolding lock_script
  clock-lock_script id ms w = elim (Option-cases (get key w)) [
    | inl free ↦ rw (free, lock_script) (ticks.clock-nx key id ms w)
    | inr (v, held) ↦ elim (Bool-cases (str_eq v id)) [
      | inl own ↦ rw (held, lock_script, own) (ticks.clock-set key id ms w)
      | inr other ↦ rw (held, lock_script, other) (ticks.clock-nx key id ms w)
    ]
  ]

  module _ (opts : String → Options) (id : String)
      (positive : 0 < pos_part (opts id).wait_retry) where
    abbrev rl : RedisLock
    rl = lock_of redis key laws opts id

    abbrev retry : ℕ
    retry = pos_part (opts id).wait_retry

    clock-lock : (w : World) → clock w ≤ clock (lock redis rl w).0
    unfolding lock eval
    clock-lock w =
        let sent = ticks.clock-deliver w in
        let ran = clock-lock_script id (lock_millis rl) (deliver w).0 in
        elim (Delivery-cases (deliver w).1) [
          | inl answered ↦ rw (answered, lock, eval) (omega arith)
          | inr (inl lost) ↦ rw (lost, lock, eval) sent
          | inr (inr lost) ↦ rw (lost, lock, eval) (omega arith)
        ]

    -- TryLock returned; a success means that the key holds the identifier for the time of the lock.
    pub record Returns (r : Option (World × Bool)) : Type 0 where
      pub end_world : World
      pub got : Bool
      pub returned : r ≡ some (end_world, got)
      pub set :
          got ≡ true → entry end_world ≡ some (id, now end_world + millis_of redis key laws opts id)

    neg_none : (z : ℤ) → 0 < pos_part z → neg_part z ≡ 0
    neg_none (pos n) h = refl
    neg_none (negsuc n) h = absurd (omega arith)

    lock-sets :
        (w : World)
        → is_yes redis (lock redis rl w).1 ≡ true
        → entry (lock redis rl w).0
          ≡ some (id, now (lock redis rl w).0 + millis_of redis key laws opts id)
    lock-sets w h =
        (lock-Locked redis key laws opts id w (λ i. none)
            (record { kept = λ i e l k. cc l; bound = λ i e l. cc l })).took
          h

    not_past :
        (stop : ℕ) (w : World)
        → past redis stop (opts id).wait_retry w ≡ false
        → clock w + retry ≤ stop
    not_past stop w h = let none_below = neg_none (opts id).wait_retry positive in ground arith

    times_suc : (f r : ℕ) → suc f * r ≡ r + f * r
    times_suc f r = ground arith

    abbrev next_world : World → World
    next_world w = sleep (opts id).wait_retry (lock redis rl w).0

    -- A round returns, or it is early enough for another.
    one_round :
        (fuel stop : ℕ) (w : World)
        → (past redis stop (opts id).wait_retry (lock redis rl w).0 ≡ false
            → Returns (try_rounds redis fuel stop rl (next_world w)))
        → Returns (try_rounds redis (suc fuel) stop rl w)
    unfolding try_rounds
    one_round fuel stop w next =
        let w' = (lock redis rl w).0 in
        let gives_up : Returns (some (w', false)) = record {
          end_world = w';
          got = false;
          returned = refl;
          set = λ e. cc e;
        } in
        elim (Bool-cases (is_yes redis (lock redis rl w).1)) [
          | inl took ↦
              rw took (record {
                end_world = w';
                got = true;
                returned = refl;
                set = λ e. lock-sets w took;
              })
          | inr not_taken ↦ elim (Bool-cases (eq_ℤ (opts id).wait_timeout (pos 0))) [
            | inl once ↦ rw (not_taken, once) gives_up
            | inr again ↦ elim (Bool-cases (past redis stop (opts id).wait_retry w')) [
              | inl late ↦ rw (not_taken, again, late) gives_up
              | inr early ↦ rw (not_taken, again, early) (next early)
            ]
          ]
        ]

    try_rounds-Returns :
        (fuel stop : ℕ) (w : World)
        → stop < clock w + fuel * retry
        → Returns (try_rounds redis (suc fuel) stop rl w)
    try_rounds-Returns zero stop w h = one_round zero stop w (λ early.
        let later = clock-lock w in
        let room = not_past stop (lock redis rl w).0 early in absurd (omega arith))
    try_rounds-Returns (suc fuel) stop w h = one_round (suc fuel) stop w (λ early.
        let later = clock-lock w in
        let slept = ticks.clock-sleep (opts id).wait_retry (lock redis rl w).0 in
        let more = times_suc fuel retry in
        try_rounds-Returns fuel stop (next_world w) (omega arith))

    enough : (t r : ℕ) → 0 < r → t < (t / r + 1) * r
    enough t r h =
        let split = mod-add-div' t r in
        let small = mod-lt t h in
        let more : (t / r + 1) * r ≡ t / r * r + r = ground arith in omega arith

    -- With a positive WaitRetry, TryLock returns after at most WaitTimeout / WaitRetry + 2 calls of
    -- Lock, if the clock does not go back and sleeps take their time; when it returns without an
    -- error, the key holds the identifier of the caller for the whole time of the lock.
    pub try_lock-Returns :
        (w : World)
        → Returns (try_lock redis (suc (pos_part (opts id).wait_timeout / retry + 1)) rl w)
    unfolding try_lock
    try_lock-Returns w =
        try_rounds-Returns (pos_part (opts id).wait_timeout / retry + 1) (stop_of redis rl w) w (
          let e = enough (pos_part (opts id).wait_timeout) retry positive in
          elim (Bool-cases (is_nonpos (opts id).wait_timeout)) [
            | inl none_given ↦ rw none_given (omega arith)
            | inr given ↦ rw given (omega arith)
          ])
