-- ===== src/RedisLock.antt =====
-- The lock of pkg/redis_lock/redis_lock.go: its two Lua scripts, Lock, UnLock, TryLock and the options.
-- Redis, the client library and the clock are a parameter, `Redis`, over an abstract world.
pub mod Scripts
pub mod Leases
pub mod Exclusion
pub mod Attempts
use compkg.Common.{
  ℕ, zero, suc, ◌+◌, ◌*◌, String, Bool, true, false, Option, none, some, ltb, ◌==◌, str_eq,
  if◌then◌else◌,
}
use compkg.Common.Int.{ℤ, pos, pos_part, neg_part, eq_ℤ, is_nonpos}

-- A call of Eval: the script runs and its reply comes, or the request or the reply is lost, which is
-- an error. A request that the client library sends again is a further call.
pub data Delivery : Type 0 where
  answered request_lost reply_lost : Delivery

pub record Redis : Type 1 where
  pub World : Type 0
  -- GET, SET PX, SET NX PX (whether it set the key; else its reply is nil) and DEL.
  pub get : String → World → Option String
  pub set_px : String → String → ℕ → World → World
  pub set_nx_px : String → String → ℕ → World → World × Bool
  pub del : String → World → World × ℕ
  pub deliver : World → World × Delivery
  -- Whether Result gives an error, redis.Nil, for a reply that is nil.
  pub nil_is_error : Bool
  -- The caller's clock in nanoseconds, and time.Sleep, which other keys and clients may use.
  pub clock : World → ℕ
  pub sleep : ℤ → World → World

-- WaitTimeout and WaitRetry are durations in nanoseconds; LockSeconds is a uint32.
pub record Options : Type 0 where
  pub lock_seconds : ℕ
  pub wait_timeout : ℤ
  pub wait_retry : ℤ

pub record RedisLock : Type 0 where
  pub key : String
  pub id : String
  pub opts : Options

-- What Lock and UnLock return: true, false or an error.
pub data Reply : Type 0 where
  yes no error : Reply

abbrev millisecond : ℕ
millisecond = 1000000

abbrev tolerance : ℕ
tolerance = 500

abbrev millis_per_second : ℕ
millis_per_second = 1000

abbrev default_retry : ℤ
default_retry = pos (100 * millisecond)

abbrev pub fill_options : Options → Options
fill_options o =
    let retry = if eq_ℤ o.wait_retry (pos 0) then default_retry else o.wait_retry in
    let seconds = if o.lock_seconds == 0 then 10 else o.lock_seconds in
    record o { wait_retry = retry; lock_seconds = seconds }

-- The identifier is random text of the caller.
unfoldable pub new_redis_lock : String → Option Options → String → RedisLock
new_redis_lock key opt id = record {
  key = key;
  id = id;
  opts = fill_options (elim opt [
    | none ↦ record { lock_seconds = 3; wait_timeout = pos 0; wait_retry = default_retry }
    | some o ↦ o
  ]);
}

-- The time for which a lock is kept, in milliseconds.
abbrev pub lock_millis : RedisLock → ℕ
lock_millis rl = rl.opts.lock_seconds * millis_per_second + tolerance

module _ (redis : Redis) where
  open redis use {World, get, set_px, set_nx_px, del, deliver, clock, sleep}

  -- lockCommand: the reply is OK, or else nil.
  unfoldable pub lock_script : String → String → ℕ → World → World × Bool
  lock_script key id ms w = elim (get key w) [
    | none ↦ set_nx_px key id ms w
    | some v ↦ if str_eq v id then (set_px key id ms w, true) else set_nx_px key id ms w
  ]

  -- delCommand
  unfoldable pub del_script : String → String → World → World × ℕ
  del_script key id w = elim (get key w) [
    | none ↦ (w, 0)
    | some v ↦ if str_eq v id then del key w else (w, 0)
  ]

  unfoldable pub eval : {R : Type 0} → (World → World × R) → World → World × Option R
  eval script w =
      let (w', delivery) = deliver w in
      let (w'', reply) = script w' in
      elim delivery [
        | Delivery.answered ↦ (w'', some reply)
        | Delivery.request_lost ↦ (w', none)
        | Delivery.reply_lost ↦ (w'', none)
      ]

  abbrev pub lock_reply : Option Bool → Reply
  lock_reply none = error
  lock_reply (some true) = yes
  lock_reply (some false) = if redis.nil_is_error then error else no

  unfoldable pub lock : RedisLock → World → World × Reply
  lock rl w =
      let (w', reply) = eval (lock_script rl.key rl.id (lock_millis rl)) w in (w', lock_reply reply)

  abbrev pub unlock_reply : Option ℕ → Reply
  unlock_reply none = error
  unlock_reply (some n) = if n == 1 then yes else no

  unfoldable pub unlock : RedisLock → World → World × Reply
  unlock rl w = let (w', reply) = eval (del_script rl.key rl.id) w in (w', unlock_reply reply)

  abbrev pub is_yes : Reply → Bool
  is_yes yes = true
  is_yes _ = false

  -- `time.Now().Add(rl.opts.WaitRetry).After(stop)`
  abbrev pub past : ℕ → ℤ → World → Bool
  past stop retry w = ltb (stop + neg_part retry) (clock w + pos_part retry)

  -- The loop of TryLock, with the number of its rounds bounded: none when they do not suffice.
  unfoldable pub try_rounds : ℕ → ℕ → RedisLock → World → Option (World × Bool)
  try_rounds zero stop rl w = none
  try_rounds (suc fuel) stop rl w =
      let (w', reply) = lock rl w in
      let rest = try_rounds fuel stop rl (sleep rl.opts.wait_retry w') in
      if is_yes reply
      then some (w', true)
      else if eq_ℤ rl.opts.wait_timeout (pos 0)
      then some (w', false)
      else if past stop rl.opts.wait_retry w'
      then some (w', false)
      else rest

  -- Without a positive timeout, `stop` is the zero time.
  abbrev pub stop_of : RedisLock → World → ℕ
  stop_of rl w =
      if is_nonpos rl.opts.wait_timeout then 0 else clock w + pos_part rl.opts.wait_timeout

  unfoldable pub try_lock : ℕ → RedisLock → World → Option (World × Bool)
  try_lock fuel rl w = try_rounds fuel (stop_of rl w) rl w
