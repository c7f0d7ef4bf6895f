-- ===== src/Scheduler/Submit.antt =====
-- Submitting tasks: pkg/scheduler/submit.go and the client's side of pkg/scheduler/submit_buffer.go. The
-- server, the network, the deadlines and the random numbers of the credentials are the operations of
-- `Server`. `flush_buffer_once` runs while other goroutines push: what they pushed between its drain
-- and its put-back is the argument `arrivals`.
pub mod Sent
pub mod Untouched
pub mod Arrived
pub mod Flush
pub mod Enqueue
pub mod Departures
pub mod Kept
pub mod Loop
use compkg.Common.{
  ℕ, ◌+◌, String, Bool, true, false, not, ◌⊎◌, inl, inr, Option, none, some, List, [], ◌∷◌, str_eq,
  if◌then◌else◌,
}
use compkg.Common.Int.{ℤ}
use compkg.Scheduler.Buffer
use compkg.Scheduler.Buffer.{SubmitOptions, BufferedTask, SubmitBuffer}
use compkg.Scheduler.Disk.{Os, SpoolError, SpoolTask}
use compkg.Scheduler.Spool

-- google.golang.org/grpc/codes
pub data Code : Type 0 where
  ok canceled unknown invalid_argument deadline_exceeded not_found already_exists permission_denied
        resource_exhausted failed_precondition aborted out_of_range unimplemented internal
        unavailable data_loss unauthenticated :
      Code

-- A failed call is known by the code that status.FromError reads from its error, if it reads one.
pub data SubmitError : Type 0 where
  not_connected job_name_required : SubmitError
  rpc : Option Code → SubmitError

-- status.FromError: the client's own two errors carry no gRPC status.
from_error : SubmitError → Option Code
from_error not_connected = none
from_error job_name_required = none
from_error (rpc code) = code

retriable_code : Code → Bool
retriable_code Code.unavailable = true
retriable_code Code.deadline_exceeded = true
retriable_code Code.canceled = true
retriable_code Code.resource_exhausted = true
retriable_code Code.aborted = true
retriable_code Code.internal = true
retriable_code _ = false

unfoldable pub is_retriable_submit_err : SubmitError → Bool
unfolding from_error retriable_code
is_retriable_submit_err e = elim (from_error e) [ none ↦ true | some code ↦ retriable_code code ]

pub record SignedCreds : Type 0 where
  pub nonce : String
  pub ts : ℕ
  pub signature : String

pub record SubmitTaskRequest : Type 0 where
  pub app_name : String
  pub app_key : String
  pub creds : SignedCreds
  pub opts : SubmitOptions

pub record Server : Type 1 where
  pub World : Type 0
  pub new_signed_creds : String → String → World → SignedCreds
  -- The run id and whether it was a duplicate, or the error.
  pub submit : SubmitTaskRequest → World → World × (Option Code ⊎ String × Bool)

-- What happens while the retry loop runs: a caller's EnqueueTask, or a round that the ticker or
-- `notify` starts, with what other callers push during it; without a connection a round returns at
-- once, and nothing is pushed during it.
pub data Happening : Type 0 where
  enqueues : SubmitOptions → ℕ → Happening
  wakes : List BufferedTask → Happening

module _ (os : Os) (srv : Server) where
  open os use {Disk}
  open srv use {World}

  -- The part of `Client` that submitting uses, with the disk and the world outside.
  pub record Client : Type 0 where
    pub app_name : String
    pub app_key : String
    pub app_secret : String
    pub connected : Bool
    pub local_buffer_enabled : Bool
    pub retry_batch : ℤ
    pub local_buffer : Option SubmitBuffer
    pub local_spool : Option (Spool.Spool os)
    pub disk : Disk
    pub world : World

  request : Client → SubmitOptions → SubmitTaskRequest
  request c opts = record {
    app_name = c.app_name;
    app_key = c.app_key;
    creds = srv.new_signed_creds c.app_key c.app_secret c.world;
    opts = opts;
  }

  answer : Option Code ⊎ String × Bool → SubmitError ⊎ String × Bool
  answer (inl code) = inl (rpc code)
  answer (inr r) = inr r

  unfoldable pub submit_task : SubmitOptions → Client → Client × (SubmitError ⊎ String × Bool)
  unfolding request answer
  submit_task opts c =
      if not c.connected
      then (c, inl not_connected)
      else if str_eq opts.job_name ""
      then (c, inl job_name_required)
      else let (world', reply) = srv.submit (request c opts) c.world in
        (record c { world = world' }, answer reply)

  spill : BufferedTask → Option (Spool.Spool os) → Client → Client × Bool
  spill t none c = (c, false)
  spill t (some s) c =
      let (s', disk', error) = Spool.push os t s c.disk in
      (
        record c { local_spool = some s'; disk = disk' },
        elim error [ none ↦ true | some e ↦ false ],
      )

  -- The memory first, and the disk when the memory is full.
  unfoldable pub enqueue_buffered_task : BufferedTask → SubmitBuffer → Client → Client × Bool
  unfolding spill
  enqueue_buffered_task t b c =
      let (b', pushed) = Buffer.push t b in
      if pushed
      then (record c { local_buffer = some b' }, true)
      else spill t c.local_spool (record c { local_buffer = some b' })

  pub data EnqueueError : Type 0 where
    buffer_disabled job_name_missing buffer_full : EnqueueError
    submit_failed : SubmitError → EnqueueError

  enqueue_or_full : BufferedTask → SubmitBuffer → Client → Client × (EnqueueError ⊎ Bool)
  enqueue_or_full t b c =
      let (c', stored) = enqueue_buffered_task t b c in
      (c', if stored then inr true else inl buffer_full)

  -- A task that could not be sent is queued only if the error may pass.
  after_submit :
      BufferedTask
      → SubmitBuffer
      → Client × (SubmitError ⊎ String × Bool)
      → Client × (EnqueueError ⊎ Bool)
  after_submit t b (c, inr sent) = (c, inr false)
  after_submit t b (c, inl e) =
      if is_retriable_submit_err e then enqueue_or_full t b c else (c, inl (submit_failed e))

  pub make_buffered : SubmitOptions → ℕ → BufferedTask
  make_buffered opts now = record { opts = opts; enqueued_at = now; attempts = 0 }

  enqueue_into : SubmitOptions → ℕ → Option SubmitBuffer → Client → Client × (EnqueueError ⊎ Bool)
  unfolding make_buffered
  enqueue_into opts now none c = (c, inl buffer_disabled)
  enqueue_into opts now (some b) c =
      if str_eq opts.job_name ""
      then (c, inl job_name_missing)
      else if not c.connected
      then enqueue_or_full (make_buffered opts now) b c
      else after_submit (make_buffered opts now) b (submit_task opts c)

  -- The result is whether the task was queued, or the error.
  unfoldable pub enqueue_task : SubmitOptions → ℕ → Client → Client × (EnqueueError ⊎ Bool)
  unfolding enqueue_into after_submit enqueue_or_full
  enqueue_task opts now c =
      if not c.local_buffer_enabled
      then (c, inl buffer_disabled)
      else enqueue_into opts now c.local_buffer c

  -- The loop of `flushBufferOnce`: what is left to be put back is the first task whose error may
  -- pass, counted as one more attempt, and all after it.
  unfoldable pub send_batch : List BufferedTask → Client → Client × List BufferedTask
  send_batch [] c = (c, [])
  send_batch (t ∷ ts) c =
      let (c', result) = submit_task t.opts c in
      let rest = send_batch ts c' in
      elim result [
        | inr sent ↦ rest
        | inl e ↦
            if is_retriable_submit_err e
            then (c', record t { attempts = t.attempts + 1 } ∷ ts)
            else rest
      ]

  unfoldable pub ack_task : ℤ → Client → Client
  ack_task seq c = elim c.local_spool [
    | none ↦ c
    | some s ↦
        let (s', disk', error) = Spool.ack os seq s c.disk in
        record c { local_spool = some s'; disk = disk' }
  ]

  -- The loop of `flushSpoolOnce`.
  unfoldable pub send_spooled : List SpoolTask → Client → Client
  unfolding ack_task
  send_spooled [] c = c
  send_spooled (t ∷ ts) c =
      let (c', result) = submit_task t.opts c in
      let rest = send_spooled ts (ack_task t.seq c') in
      elim result [ inr sent ↦ rest | inl e ↦ if is_retriable_submit_err e then c' else rest ]

  unfoldable pub flush_files : SpoolError ⊎ List SpoolTask → Client → Client
  flush_files (inl e) c = c
  flush_files (inr ts) c = send_spooled ts c

  unfoldable pub flush_spool : Option (Spool.Spool os) → Client → Client
  unfolding flush_files
  flush_spool none c = c
  flush_spool (some s) c =
      if not c.connected then c else flush_files (Spool.drain os c.retry_batch s c.disk) c

  unfoldable pub flush_spool_once : Client → Client
  unfolding flush_spool
  flush_spool_once c = flush_spool c.local_spool c

  unfoldable pub push_all : List BufferedTask → SubmitBuffer → SubmitBuffer
  push_all [] b = b
  push_all (t ∷ ts) b = push_all ts (Buffer.push t b).0

  -- What is done with the tasks that the round could not settle.
  unfoldable pub finish_flush : SubmitBuffer → Client × List BufferedTask → Client
  finish_flush b (c, []) = flush_spool_once (record c { local_buffer = some b })
  finish_flush b (c, t ∷ ts) = record c { local_buffer = some (Buffer.put_back (t ∷ ts) b) }

  unfoldable pub flush_batch :
      List BufferedTask → SubmitBuffer → List BufferedTask → Client → Client
  unfolding finish_flush
  flush_batch [] b arrivals c = finish_flush (push_all arrivals b) (c, [])
  flush_batch (t ∷ ts) b arrivals c = finish_flush (push_all arrivals b) (send_batch (t ∷ ts) c)

  unfoldable pub flush_buffer_once : List BufferedTask → SubmitBuffer → Client → Client
  unfolding flush_batch
  flush_buffer_once arrivals b c =
      let (b', batch) = Buffer.drain c.retry_batch b in
      if not c.connected then c else flush_batch batch b' arrivals c

  flush_round : List BufferedTask → Option SubmitBuffer → Client → Client
  flush_round arrivals none c = c
  flush_round arrivals (some b) c = flush_buffer_once arrivals b c

  unfoldable pub happen : Happening → Client → Client
  unfolding flush_round
  happen (enqueues opts now) c = (enqueue_task opts now c).0
  happen (wakes arrivals) c = flush_round arrivals c.local_buffer c

  unfoldable pub run_retry_loop : List Happening → Client → Client
  run_retry_loop [] c = c
  run_retry_loop (h ∷ hs) c = run_retry_loop hs (happen h c)
